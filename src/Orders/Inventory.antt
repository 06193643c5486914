-- ===== src/Orders/Inventory.antt =====
-- src/orders/services/in-memory-inventory.service.ts: stock, and the holds on it by their ids.
pub mod Conservation
pub mod Held
pub mod Reserve
mod Tests
use boilerplate_nestjs_api.Prelude.{
  ℕ, ◌+◌, ◌-◌, String, Bool, true, false, List, [], ◌∷◌, Option, none, some, ltb, Dict, lookup,
  insert, if◌then◌else◌,
}
use boilerplate_nestjs_api.Orders.Basket.{Line, merge_lines}

-- A `ReservedLine` carries nothing else.
abbrev pub ReservedLine : Type 0
ReservedLine = Line (Unit {0})

pub record StockReservation : Type 0 where
  pub id : String
  pub order_id : String
  pub lines : List ReservedLine
  pub held : Bool

pub record ReserveStockInput : Type 0 where
  pub order_id : String
  pub lines : List ReservedLine
  pub reservation_id : String

pub record Inventory : Type 0 where
  pub stock : Dict ℕ
  pub reservations : Dict StockReservation

pub data Reserved : Type 0 where
  reserved : StockReservation → Reserved
  out_of_stock : String → ℕ → ℕ → Reserved

abbrev pub or_zero : Option ℕ → ℕ
or_zero none = 0
or_zero (some n) = n

-- `this.stock.get(sku) ?? 0`
abbrev pub stock_of : String → Dict ℕ → ℕ
stock_of sku stock = or_zero (lookup sku stock)

-- The first line that the shelf cannot serve.
unfoldable pub first_short : Dict ℕ → List ReservedLine → Option ReservedLine
first_short stock [] = none
first_short stock (line ∷ lines) =
    if ltb (stock_of line.sku stock) line.quantity then some line else first_short stock lines

pub take_lines : Dict ℕ → List ReservedLine → Dict ℕ
take_lines stock [] = stock
take_lines stock (line ∷ lines) =
    take_lines (insert line.sku (stock_of line.sku stock - line.quantity) stock) lines

pub put_back : Dict ℕ → List ReservedLine → Dict ℕ
put_back stock [] = stock
put_back stock (line ∷ lines) =
    put_back (insert line.sku (stock_of line.sku stock + line.quantity) stock) lines

abbrev pub made : ReserveStockInput → StockReservation
made input = record {
  id = input.reservation_id;
  order_id = input.order_id;
  lines = merge_lines input.lines;
  held = true;
}

pub reserve : ReserveStockInput → Inventory → Reserved × Inventory
reserve input inventory = elim (lookup input.reservation_id inventory.reservations) [
  | some existing ↦ (reserved existing, inventory)
  | none ↦ elim (first_short inventory.stock (merge_lines input.lines)) [
    | some line ↦
        (out_of_stock line.sku line.quantity (stock_of line.sku inventory.stock), inventory)
    | none ↦ (
      reserved (made input),
      record {
        stock = take_lines inventory.stock (merge_lines input.lines);
        reservations = insert input.reservation_id (made input) inventory.reservations;
      },
    )
  ]
]

pub release : String → Inventory → Inventory
release reservation_id inventory = elim (lookup reservation_id inventory.reservations) [
  | none ↦ inventory
  | some reservation ↦
      if reservation.held
      then record {
        stock = put_back inventory.stock reservation.lines;
        reservations =
            insert reservation_id (record reservation { held = false }) inventory.reservations;
      }
      else inventory
]

pub find : String → Inventory → Option StockReservation
find reservation_id inventory = lookup reservation_id inventory.reservations

pub set_stock : String → ℕ → Inventory → Inventory
set_stock sku quantity inventory = record inventory { stock = insert sku quantity inventory.stock }

-- What callers of the warehouse do.
pub data Call : Type 0 where
  reserves : ReserveStockInput → Call
  releases : String → Call

pub serve : List Call → Inventory → Inventory
serve [] inventory = inventory
serve (reserves input ∷ calls) inventory = serve calls (reserve input inventory).1
serve (releases id ∷ calls) inventory = serve calls (release id inventory)
