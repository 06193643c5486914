-- ===== src/Orders/Inventory/Held.antt =====
-- Holds of src/orders/services/in-memory-inventory.service.ts that are made, and released, more than once.
use boilerplate_nestjs_api.Prelude.{
  ◌+◌, ◌≡◌, inl, inr, String, false, List, none, arith, eq_refl, lookup, lookup-insert,
  Option-cases,
}
use boilerplate_nestjs_api.Orders.Basket.{merge_lines}
use boilerplate_nestjs_api.Orders.Basket.Merge.{quantity_of, merge_lines_total}
use boilerplate_nestjs_api.Orders.Inventory.{
  ReservedLine, ReserveStockInput, Inventory, reserved, stock_of, first_short, take_lines, made,
  reserve, release,
}
use boilerplate_nestjs_api.Orders.Inventory.Conservation.{stock_of-take_lines, stock_of-put_back}

-- Releasing a hold twice is releasing it once.
pub release_twice :
    (id : String) (inventory : Inventory) → release id (release id inventory) ≡ release id inventory
unfolding release
release_twice id inventory = elim (Option-cases (lookup id inventory.reservations)) [
  | inl gone ↦ ground (arith, gone)
  | inr (r, there) ↦ ground (
    arith,
    there,
    lookup-insert id id (record r { held = false }) inventory.reservations,
    eq_refl id,
  )
]

-- Asking for a hold twice is asking for it once.
pub reserve_twice :
    (input : ReserveStockInput) (inventory : Inventory)
    → reserve input (reserve input inventory).1 ≡ reserve input inventory
unfolding reserve
reserve_twice input inventory =
    elim (Option-cases (lookup input.reservation_id inventory.reservations)) [
      | inr (old, there) ↦ ground (arith, there)
      | inl free ↦ elim (Option-cases (first_short inventory.stock (merge_lines input.lines))) [
        | inr (line, short) ↦ ground (arith, free, short)
        | inl enough ↦ ground (
          arith,
          free,
          enough,
          eq_refl input.reservation_id,
          lookup-insert input.reservation_id input.reservation_id (made input)
              inventory.reservations,
        )
      ]
    ]

-- A hold that is asked for under a new id and released leaves what is on the shelf of every product,
-- whether it was granted or not.
pub release-reserve :
    (sku : String) (input : ReserveStockInput) (inventory : Inventory)
    → lookup input.reservation_id inventory.reservations ≡ none
    → stock_of sku (release input.reservation_id (reserve input inventory).1).stock
      ≡ stock_of sku inventory.stock
unfolding reserve release
release-reserve sku input inventory free =
    elim (Option-cases (first_short inventory.stock (merge_lines input.lines))) [
      | inr (line, short) ↦ ground (arith, free, short)
      | inl enough ↦
          let lines : List ReservedLine = merge_lines input.lines in
          ground (
            arith,
            free,
            enough,
            eq_refl input.reservation_id,
            lookup-insert input.reservation_id input.reservation_id (made input)
                inventory.reservations,
            stock_of-take_lines sku inventory.stock lines (merge_lines_total input.lines).1 enough,
            stock_of-put_back sku (take_lines inventory.stock lines) lines,
          )
    ]

-- A hold under a new id is granted where the shelf serves every line, and takes just what they ask for.
pub reserve-granted :
    (input : ReserveStockInput) (inventory : Inventory)
    → lookup input.reservation_id inventory.reservations ≡ none
    → first_short inventory.stock (merge_lines input.lines) ≡ none
    → ((reserve input inventory).0 ≡ reserved (made input))
      × ((sku : String)
          → stock_of sku (reserve input inventory).1.stock + quantity_of sku input.lines
            ≡ stock_of sku inventory.stock)
unfolding reserve
reserve-granted input inventory free enough = (
  ground (arith, free, enough),
  λ sku. ground (
    arith,
    free,
    enough,
    (merge_lines_total input.lines).0 sku,
    stock_of-take_lines sku inventory.stock (merge_lines input.lines)
        (merge_lines_total input.lines).1 enough,
  ),
)

-- There is nothing to release under an id that is new.
pub release-unknown :
    (id : String) (inventory : Inventory)
    → lookup id inventory.reservations ≡ none
    → release id inventory ≡ inventory
unfolding release
release-unknown id inventory free = ground (arith, free)
