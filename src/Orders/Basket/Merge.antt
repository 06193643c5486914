-- ===== src/Orders/Basket/Merge.antt =====
-- What merging the lines of a basket (src/orders/basket.ts) keeps.
use mathlib.Core.List.{append-nil, append_assoc}
use boilerplate_nestjs_api.Prelude.{
  ℕ, ◌+◌, ◌≡◌, ◌≢◌, refl, sym, ap, ◌∙◌, String, List, [], ◌∷◌, ◌++◌, none, arith, eq_iff, str_eq,
  Dict, lookup, insert, lookup-insert, if◌then◌else◌,
}
use boilerplate_nestjs_api.Orders.Basket.{Line, summed, merge_into, values, merge_lines}

module _ {X : Type 0} where
  -- How much of a product the lines ask for in all.
  abbrev pub quantity_of : String → List (Line X) → ℕ
  quantity_of sku [] = 0
  quantity_of sku (line ∷ lines) =
      (if str_eq line.sku sku then line.quantity else 0) + quantity_of sku lines

  -- No line is for this product.
  abbrev pub Absent : String → List (Line X) → Type 0
  Absent sku [] = Unit {0}
  Absent sku (line ∷ lines) = (line.sku ≢ sku) × Absent sku lines

  abbrev pub OneEach : List (Line X) → Type 0
  OneEach [] = Unit {0}
  OneEach (line ∷ lines) = Absent line.sku lines × OneEach lines

  -- Every line stands under its own SKU, once.
  abbrev Keyed : Dict (Line X) → Type 0
  Keyed [] = Unit {0}
  Keyed (e ∷ m) = (e.1.sku ≡ e.0) × (lookup e.0 m ≡ none) × Keyed m

  Keyed-add :
      (m : Dict (Line X)) (line : Line X)
      → Keyed m
      → Keyed (insert line.sku (summed (lookup line.sku m) line) m)
  unfolding lookup insert
  Keyed-add [] line h = (refl, refl, tt)
  Keyed-add (e ∷ m) line h = ground (
    arith,
    Keyed-add m line h.2,
    eq_iff e.0 line.sku,
    eq_iff line.sku e.0,
    lookup-insert line.sku e.0 (summed (lookup line.sku m) line) m,
  )

  quantity_of-add :
      (sku : String) (m : Dict (Line X)) (line : Line X)
      → Keyed m
      → quantity_of sku (values (insert line.sku (summed (lookup line.sku m) line) m))
        ≡ quantity_of sku (values m) + (if str_eq line.sku sku then line.quantity else 0)
  unfolding lookup insert
  quantity_of-add sku [] line h = omega arith
  quantity_of-add sku (e ∷ m) line h = ground (
    arith,
    quantity_of-add sku m line h.2,
    eq_iff e.0 line.sku,
    eq_iff e.1.sku sku,
    eq_iff line.sku sku,
  )

  merge_into-Keyed :
      (m : Dict (Line X)) (lines : List (Line X)) → Keyed m → Keyed (merge_into m lines)
  unfolding merge_into
  merge_into-Keyed m [] h = h
  merge_into-Keyed m (line ∷ lines) h =
      merge_into-Keyed (insert line.sku (summed (lookup line.sku m) line) m) lines
        (Keyed-add m line h)

  quantity_of-merge_into :
      (sku : String) (m : Dict (Line X)) (lines : List (Line X))
      → Keyed m
      → quantity_of sku (values (merge_into m lines))
        ≡ quantity_of sku (values m) + quantity_of sku lines
  unfolding merge_into
  quantity_of-merge_into sku m [] h = omega arith
  quantity_of-merge_into sku m (line ∷ lines) h = omega (
    arith,
    quantity_of-merge_into sku (insert line.sku (summed (lookup line.sku m) line) m) lines
        (Keyed-add m line h),
    quantity_of-add sku m line h,
  )

  lookup-none-Absent :
      (sku : String) (m : Dict (Line X)) → Keyed m → lookup sku m ≡ none → Absent sku (values m)
  unfolding lookup
  lookup-none-Absent sku [] h e = tt
  lookup-none-Absent sku (x ∷ m) h e = ground (arith, eq_iff x.0 sku, lookup-none-Absent sku m h.2)

  Keyed-OneEach : (m : Dict (Line X)) → Keyed m → OneEach (values m)
  Keyed-OneEach [] h = tt
  Keyed-OneEach (e ∷ m) h =
      (ground (arith, h.0, lookup-none-Absent e.0 m h.2 h.1), Keyed-OneEach m h.2)

  -- Merging drops nothing and caps nothing: of every product the merged lines ask for as much in all
  -- as the lines did, and on one line.
  pub merge_lines_total :
      (lines : List (Line X))
      → ((sku : String) → quantity_of sku (merge_lines lines) ≡ quantity_of sku lines)
        × OneEach (merge_lines lines)
  unfolding merge_lines
  merge_lines_total lines = (
    λ sku. omega (arith, quantity_of-merge_into sku [] lines tt),
    Keyed-OneEach (merge_into [] lines) (merge_into-Keyed [] lines tt),
  )

  values-insert :
      (key : String) (line : Line X) (m : Dict (Line X))
      → lookup key m ≡ none
      → values (insert key line m) ≡ values m ++ line ∷ []
  unfolding lookup insert
  values-insert key line [] h = refl
  values-insert key line (e ∷ m) h = ground (arith, values-insert key line m)

  -- None of the lines is for a product that has been seen.
  abbrev Unseen : Dict (Line X) → List (Line X) → Type 0
  Unseen m [] = Unit {0}
  Unseen m (line ∷ lines) = (lookup line.sku m ≡ none) × Unseen m lines

  Unseen-insert :
      (m : Dict (Line X)) (line : Line X) (lines : List (Line X))
      → Absent line.sku lines
      → Unseen m lines
      → Unseen (insert line.sku line m) lines
  Unseen-insert m line [] a u = tt
  Unseen-insert m line (x ∷ lines) a u = (
    ground (
      arith,
      lookup-insert line.sku x.sku line m,
      eq_iff line.sku x.sku,
      sym-ne line.sku x.sku a.0,
      u.0,
    ),
    Unseen-insert m line lines a.1 u.1,
  )
    where
      sym-ne : (a b : String) → b ≢ a → a ≢ b
      sym-ne a b h e = h (sym e)

  merge_into-Unseen :
      (m : Dict (Line X)) (lines : List (Line X))
      → OneEach lines
      → Unseen m lines
      → values (merge_into m lines) ≡ values m ++ lines
  unfolding merge_into
  merge_into-Unseen m [] o u = sym (append-nil (values m))
  merge_into-Unseen m (line ∷ lines) o u =
      ap (λ seen. values (merge_into (insert line.sku (summed seen line) m) lines)) u.0
      ∙ merge_into-Unseen (insert line.sku line m) lines o.1 (Unseen-insert m line lines o.0 u.1)
      ∙ ap (λ l. l ++ lines) (values-insert line.sku line m u.0)
      ∙ append_assoc (values m) (line ∷ []) lines

  Unseen-nil : (lines : List (Line X)) → Unseen [] lines
  unfolding lookup
  Unseen-nil [] = tt
  Unseen-nil (line ∷ lines) = (refl, Unseen-nil lines)

  -- Lines that are one for each product are left as they are, in their order.
  pub merge_lines-OneEach : (lines : List (Line X)) → OneEach lines → merge_lines lines ≡ lines
  unfolding merge_lines
  merge_lines-OneEach lines o = merge_into-Unseen [] lines o (Unseen-nil lines)

  -- Merging twice is merging once.
  pub merge_lines_idem :
      (lines : List (Line X)) → merge_lines (merge_lines lines) ≡ merge_lines lines
  merge_lines_idem lines = merge_lines-OneEach (merge_lines lines) (merge_lines_total lines).1
