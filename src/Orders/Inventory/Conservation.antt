-- ===== src/Orders/Inventory/Conservation.antt =====
-- Stock in src/orders/services/in-memory-inventory.service.ts is on the shelf or under a hold.
use boilerplate_nestjs_api.Prelude.{
  ℕ, ◌+◌, ◌-◌, ◌≡◌, refl, ◌∙◌, inl, inr, String, false, List, [], ◌∷◌, none, some, arith, eq_iff,
  Dict, lookup, insert, lookup-insert, Option-cases, if◌then◌else◌,
}
use boilerplate_nestjs_api.Orders.Basket.{merge_lines}
use boilerplate_nestjs_api.Orders.Basket.Merge.{quantity_of, Absent, OneEach, merge_lines_total}
use boilerplate_nestjs_api.Orders.Basket.Bound.{quantity_of-Absent}
use boilerplate_nestjs_api.Orders.Inventory.{
  ReservedLine, StockReservation, ReserveStockInput, Inventory, stock_of, first_short, take_lines,
  put_back, made, reserve, release, Call, reserves, releases, serve,
}

-- What a reservation holds of a product, and what they all hold.
abbrev pub held_by : String → StockReservation → ℕ
held_by sku r = if r.held then quantity_of sku r.lines else 0

abbrev pub held_of : String → Dict StockReservation → ℕ
held_of sku [] = 0
held_of sku (e ∷ m) = held_by sku e.1 + held_of sku m

-- On the shelf and under holds, of one product.
abbrev pub total_of : String → Inventory → ℕ
total_of sku inventory = stock_of sku inventory.stock + held_of sku inventory.reservations

held_of-insert_new :
    (sku id : String) (r : StockReservation) (m : Dict StockReservation)
    → lookup id m ≡ none
    → held_of sku (insert id r m) ≡ held_of sku m + held_by sku r
unfolding lookup insert
held_of-insert_new sku id r [] h = omega arith
held_of-insert_new sku id r (e ∷ m) h = ground (arith, held_of-insert_new sku id r m)

held_of-insert_over :
    (sku id : String) (r old : StockReservation) (m : Dict StockReservation)
    → lookup id m ≡ some old
    → held_of sku (insert id r m) + held_by sku old ≡ held_of sku m + held_by sku r
unfolding lookup insert
held_of-insert_over sku id r old [] h = cc
held_of-insert_over sku id r old (e ∷ m) h = ground (arith, held_of-insert_over sku id r old m)

pub stock_of-put_back :
    (sku : String) (stock : Dict ℕ) (lines : List ReservedLine)
    → stock_of sku (put_back stock lines) ≡ stock_of sku stock + quantity_of sku lines
unfolding put_back
stock_of-put_back sku stock [] = omega arith
stock_of-put_back sku stock (line ∷ lines) =
    let next : ℕ = stock_of line.sku stock + line.quantity in
    ground (
      arith,
      stock_of-put_back sku (insert line.sku next stock) lines,
      lookup-insert line.sku sku next stock,
      eq_iff line.sku sku,
    )

first_short-insert :
    (sku : String) (n : ℕ) (stock : Dict ℕ) (lines : List ReservedLine)
    → Absent sku lines
    → first_short (insert sku n stock) lines ≡ first_short stock lines
unfolding first_short
first_short-insert sku n stock [] h = refl
first_short-insert sku n stock (line ∷ lines) h = ground (
  arith,
  lookup-insert sku line.sku n stock,
  eq_iff sku line.sku,
  h.0,
  first_short-insert sku n stock lines h.1,
)

pub stock_of-take_lines :
    (sku : String) (stock : Dict ℕ) (lines : List ReservedLine)
    → OneEach lines
    → first_short stock lines ≡ none
    → stock_of sku (take_lines stock lines) + quantity_of sku lines ≡ stock_of sku stock
unfolding take_lines first_short
stock_of-take_lines sku stock [] o h = omega arith
stock_of-take_lines sku stock (line ∷ lines) o h =
    let next : ℕ = stock_of line.sku stock - line.quantity in
    ground (
      arith,
      stock_of-take_lines sku (insert line.sku next stock) lines o.1,
      first_short-insert line.sku next stock lines o.0,
      lookup-insert line.sku sku next stock,
      eq_iff line.sku sku,
      quantity_of-Absent line.sku lines o.0,
    )

reserve-total :
    (sku : String) (input : ReserveStockInput) (inventory : Inventory)
    → total_of sku (reserve input inventory).1 ≡ total_of sku inventory
unfolding reserve
reserve-total sku input inventory =
    let lines : List ReservedLine = merge_lines input.lines in
    elim (Option-cases (lookup input.reservation_id inventory.reservations)) [
      | inr (old, there) ↦ ground (arith, there)
      | inl free ↦ elim (Option-cases (first_short inventory.stock lines)) [
        | inr (line, short) ↦ ground (arith, free, short)
        | inl enough ↦ ground (
          arith,
          free,
          enough,
          stock_of-take_lines sku inventory.stock lines (merge_lines_total input.lines).1 enough,
          held_of-insert_new sku input.reservation_id (made input) inventory.reservations free,
        )
      ]
    ]

release-total :
    (sku id : String) (inventory : Inventory)
    → total_of sku (release id inventory) ≡ total_of sku inventory
unfolding release
release-total sku id inventory = elim (Option-cases (lookup id inventory.reservations)) [
  | inl none_there ↦ ground (arith, none_there)
  | inr (r, there) ↦ ground (
    arith,
    there,
    stock_of-put_back sku inventory.stock r.lines,
    held_of-insert_over sku id (record r { held = false }) r inventory.reservations there,
  )
]

-- Whatever is reserved and released, in any order and as often as one likes, what is on the shelf and
-- what is under a hold of a product add up to what they did.
pub serve-total :
    (sku : String) (calls : List Call) (inventory : Inventory)
    → total_of sku (serve calls inventory) ≡ total_of sku inventory
unfolding serve
serve-total sku [] inventory = refl
serve-total sku (reserves input ∷ calls) inventory =
    serve-total sku calls (reserve input inventory).1 ∙ reserve-total sku input inventory
serve-total sku (releases id ∷ calls) inventory =
    serve-total sku calls (release id inventory) ∙ release-total sku id inventory
