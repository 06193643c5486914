-- ===== src/Orders/Basket/Bound.antt =====
-- The bound per product of src/orders/basket.ts.
use boilerplate_nestjs_api.Prelude.{
  ◌≤◌, ◌<◌, ◌≡◌, ◌≢◌, refl, sym, subst, ◌∙◌, inl, inr, String, List, [], ◌∷◌, none, some, arith,
  eq_iff, eq_refl, Option-cases,
}
use boilerplate_nestjs_api.Orders.Basket.{
  Line, Canonical, basket, quantity_exceeded, max_quantity_per_sku, merge_lines, exceeded,
  canonicalise_basket,
}
use boilerplate_nestjs_api.Orders.Basket.Merge.{quantity_of, Absent, OneEach, merge_lines_total}

module _ {X : Type 0} where
  pub quantity_of-Absent :
      (sku : String) (lines : List (Line X)) → Absent sku lines → quantity_of sku lines ≡ 0
  quantity_of-Absent sku [] h = refl
  quantity_of-Absent sku (line ∷ lines) h =
      ground (arith, eq_iff line.sku sku, quantity_of-Absent sku lines h.1)

  exceeded-none :
      (sku : String) (lines : List (Line X))
      → OneEach lines
      → exceeded lines ≡ none
      → quantity_of sku lines ≤ max_quantity_per_sku
  unfolding exceeded
  exceeded-none sku [] o h = omega arith
  exceeded-none sku (line ∷ lines) o h = ground (
    arith,
    eq_iff line.sku sku,
    quantity_of-Absent line.sku lines o.0,
    exceeded-none sku lines o.1,
  )

  Absent-ne :
      (a b : Line X) (lines : List (Line X))
      → Absent a.sku lines
      → exceeded lines ≡ some b
      → a.sku ≢ b.sku
  unfolding exceeded
  Absent-ne a b [] h e same = cc
  Absent-ne a b (line ∷ lines) h e same = ground (arith, Absent-ne a b lines h.1, h.0, same)

  exceeded-some :
      (lines : List (Line X)) (line : Line X)
      → OneEach lines
      → exceeded lines ≡ some line
      → (line.quantity ≡ quantity_of line.sku lines) × (max_quantity_per_sku < line.quantity)
  unfolding exceeded
  exceeded-some [] line o h = cc
  exceeded-some (x ∷ lines) line o h = ground (
    arith,
    eq_iff x.sku line.sku,
    eq_refl x.sku,
    quantity_of-Absent x.sku lines o.0,
    exceeded-some lines line o.1,
    Absent-ne x line lines o.0,
  )

  -- What the basket that comes back, or the error, says of the lines.
  abbrev pub Verdict : List (Line X) → Canonical X → Type 0
  Verdict lines (basket b) =
      (b ≡ merge_lines lines) × ((sku : String) → quantity_of sku lines ≤ max_quantity_per_sku)
  Verdict lines (quantity_exceeded sku quantity) =
      (quantity ≡ quantity_of sku lines) × (max_quantity_per_sku < quantity)

  -- A basket comes back exactly as merged, and then no product is asked for more than a hundred times
  -- in all; or a product is named that is, with what the lines ask for of it in all.
  pub canonicalise_basket-Verdict :
      (lines : List (Line X)) → Verdict lines (canonicalise_basket lines)
  unfolding canonicalise_basket
  canonicalise_basket-Verdict lines =
      let (total, once) = merge_lines_total lines in
      elim (Option-cases (exceeded (merge_lines lines))) [
        | inl fine ↦
            subst (Verdict lines) (sym (the_basket fine)) (
              refl,
              λ sku. omega (arith, total sku, exceeded-none sku (merge_lines lines) once fine),
            )
        | inr (line, over) ↦
            let (q, above) = exceeded-some (merge_lines lines) line once over in
            subst (Verdict lines) (sym (the_error line over)) (q ∙ total line.sku, above)
      ]
    where
      the_basket :
          exceeded (merge_lines lines) ≡ none
          → canonicalise_basket lines ≡ basket (merge_lines lines)
      the_basket e = ground (arith, e)

      the_error :
          (line : Line X)
          → exceeded (merge_lines lines) ≡ some line
          → canonicalise_basket lines ≡ quantity_exceeded line.sku line.quantity
      the_error line e = ground (arith, e)
