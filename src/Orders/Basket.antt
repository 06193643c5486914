-- ===== src/Orders/Basket.antt =====
-- src/orders/basket.ts: repeated SKUs are one line, bounded per SKU.
pub mod Merge
pub mod Bound
mod Tests
use boilerplate_nestjs_api.Prelude.{
  ℕ, ◌+◌, String, Bool, List, [], ◌∷◌, Option, none, some, ltb, Dict, lookup, insert, if◌then◌else◌,
}

-- A `ReservedLine` with whatever else the line carries.
pub record Line (X : Type 0) : Type 0 where
  pub sku : String
  pub quantity : ℕ
  pub rest : X

abbrev pub max_quantity_per_sku : ℕ
max_quantity_per_sku = 100

pub data Canonical (X : Type 0) : Type 0 where
  basket : List (Line X) → Canonical X
  quantity_exceeded : String → ℕ → Canonical X

module _ {X : Type 0} where
  -- `{ ...seen, quantity: … }`, or the line itself.
  abbrev pub summed : Option (Line X) → Line X → Line X
  summed none line = line
  summed (some seen) line = record seen { quantity = seen.quantity + line.quantity }

  pub merge_into : Dict (Line X) → List (Line X) → Dict (Line X)
  merge_into merged [] = merged
  merge_into merged (line ∷ lines) =
      merge_into (insert line.sku (summed (lookup line.sku merged) line) merged) lines

  -- `[...merged.values()]`
  abbrev pub values : Dict (Line X) → List (Line X)
  values [] = []
  values (e ∷ m) = e.1 ∷ values m

  unfoldable pub merge_lines : List (Line X) → List (Line X)
  unfolding merge_into
  merge_lines lines = values (merge_into [] lines)

  -- The loop over the basket: the first line that is for too much.
  pub exceeded : List (Line X) → Option (Line X)
  exceeded [] = none
  exceeded (line ∷ lines) =
      if ltb max_quantity_per_sku line.quantity then some line else exceeded lines

  pub canonicalise_basket : List (Line X) → Canonical X
  canonicalise_basket lines = elim (exceeded (merge_lines lines)) [
    | none ↦ basket (merge_lines lines)
    | some line ↦ quantity_exceeded line.sku line.quantity
  ]
