-- ===== src/Orders/Basket/Tests.antt =====
-- Two lines of one product, and one of another.
use boilerplate_nestjs_api.Prelude.{ℕ, ◌≡◌, refl, String, List, [], ◌∷◌, lookup, insert}
use boilerplate_nestjs_api.Orders.Basket.{
  Line, merge_lines, exceeded, canonicalise_basket, quantity_exceeded,
}
use boilerplate_nestjs_api.Orders.Basket.Bound.{Verdict, canonicalise_basket-Verdict}

abbrev line : String → ℕ → Line ℕ
line sku quantity = record { sku = sku; quantity = quantity; rest = 250 }

abbrev lines : List (Line ℕ)
lines = line "SKU-DESK-01" 60 ∷ line "SKU-LAMP-03" 2 ∷ line "SKU-DESK-01" 50 ∷ []

merged : merge_lines lines ≡ line "SKU-DESK-01" 110 ∷ line "SKU-LAMP-03" 2 ∷ []
unfolding merge_lines lookup insert
merged = refl

too_many : canonicalise_basket lines ≡ quantity_exceeded "SKU-DESK-01" 110
unfolding canonicalise_basket exceeded merge_lines lookup insert
too_many = refl

canonicalise_basket-Verdict_example : Verdict lines (canonicalise_basket lines)
canonicalise_basket-Verdict_example = canonicalise_basket-Verdict lines
