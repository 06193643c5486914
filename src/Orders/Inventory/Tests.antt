-- ===== src/Orders/Inventory/Tests.antt =====
-- A shelf of twenty-five desks.
use boilerplate_nestjs_api.Prelude.{◌≡◌, List, [], ◌∷◌}
use boilerplate_nestjs_api.Orders.Inventory.{
  ReserveStockInput, Inventory, reserve, Call, reserves, releases, serve,
}
use boilerplate_nestjs_api.Orders.Inventory.Conservation.{total_of, serve-total}
use boilerplate_nestjs_api.Orders.Inventory.Reserve.{Outcome, reserve-Outcome}

abbrev shelves : Inventory
shelves = record { stock = ("SKU-DESK-01", 25) ∷ []; reservations = [] }

abbrev order : ReserveStockInput
order = record {
  order_id = "o1";
  lines = record { sku = "SKU-DESK-01"; quantity = 20; rest = tt } ∷ [];
  reservation_id = "r1";
}

abbrev calls : List Call
calls =
    reserves order
    ∷ reserves (record order { reservation_id = "r2" })
    ∷ releases "r1"
    ∷ releases "r1"
    ∷ []

serve-total_example : total_of "SKU-DESK-01" (serve calls shelves) ≡ total_of "SKU-DESK-01" shelves
serve-total_example = serve-total "SKU-DESK-01" calls shelves

reserve-Outcome_example : Outcome order shelves (reserve order shelves).0 (reserve order shelves).1
reserve-Outcome_example = reserve-Outcome order shelves
