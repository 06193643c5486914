-- ===== src/Orders/Inventory/Reserve.antt =====
-- Holds of src/orders/services/in-memory-inventory.service.ts are all or nothing, and made once.
use boilerplate_nestjs_api.Prelude.{
  ℕ, ◌+◌, ◌<◌, ◌≡◌, refl, sym, subst, ◌⊎◌, inl, inr, String, List, [], ◌∷◌, none, some, arith,
  eq_refl, Dict, lookup, insert, lookup-insert, Option-cases,
}
use boilerplate_nestjs_api.Orders.Basket.{merge_lines}
use boilerplate_nestjs_api.Orders.Basket.Merge.{quantity_of, OneEach, merge_lines_total}
use boilerplate_nestjs_api.Orders.Inventory.{
  ReservedLine, ReserveStockInput, Inventory, Reserved, reserved, out_of_stock, stock_of,
  first_short, take_lines, made, reserve,
}
use boilerplate_nestjs_api.Orders.Inventory.Conservation.{stock_of-take_lines}

-- What one reservation comes to: the hold that exists already; a refusal that names a product with
-- too little on the shelf; or a new hold, by which the shelf falls by just what is asked for.
abbrev pub Outcome : ReserveStockInput → Inventory → Reserved → Inventory → Type 0
Outcome input before (out_of_stock sku wanted available) after =
    (after ≡ before) × (available ≡ stock_of sku before.stock) × (available < wanted)
Outcome input before (reserved r) after =
    ((lookup input.reservation_id before.reservations ≡ some r) × (after ≡ before))
    ⊎ ((lookup input.reservation_id before.reservations ≡ none)
        × (r ≡ made input)
        × ((sku : String)
            → stock_of sku after.stock + quantity_of sku input.lines ≡ stock_of sku before.stock)
        × (lookup input.reservation_id after.reservations ≡ some r))

first_short-some :
    (stock : Dict ℕ) (lines : List ReservedLine) (line : ReservedLine)
    → first_short stock lines ≡ some line
    → stock_of line.sku stock < line.quantity
unfolding first_short
first_short-some stock [] line h = cc
first_short-some stock (x ∷ lines) line h = ground (arith, first_short-some stock lines line)

-- A reservation is all or nothing: it returns the hold that its id has, with nothing changed; or it
-- is refused for a product of which there is less than is wanted, with nothing changed; or it is
-- recorded, and of every product the shelf falls by just what the lines ask for in all.
pub reserve-Outcome :
    (input : ReserveStockInput) (inventory : Inventory)
    → Outcome input inventory (reserve input inventory).0 (reserve input inventory).1
reserve-Outcome input inventory =
    elim (Option-cases (lookup input.reservation_id inventory.reservations)) [
      | inr (old, there) ↦
          from (reserved old, inventory) (unfold reserve in ground (arith, there))
            (inl (there, refl))
      | inl free ↦ elim (Option-cases (first_short inventory.stock lines)) [
        | inr (line, short) ↦
            from
              (out_of_stock line.sku line.quantity (stock_of line.sku inventory.stock), inventory)
              (unfold reserve in ground (arith, free, short))
              (refl, refl, first_short-some inventory.stock lines line short)
        | inl enough ↦
            from
              (
                reserved (made input),
                record {
                  stock = take_lines inventory.stock lines;
                  reservations = insert input.reservation_id (made input) inventory.reservations;
                },
              )
              (unfold reserve in ground (arith, free, enough))
              (inr (
                free,
                refl,
                λ sku.
                    omega
                      (arith, stock_of-take_lines sku inventory.stock lines once enough, total sku),
                ground (
                  arith,
                  lookup-insert input.reservation_id input.reservation_id (made input)
                      inventory.reservations,
                  eq_refl input.reservation_id,
                ),
              ))
      ]
    ]
  where
    lines : List ReservedLine
    lines = merge_lines input.lines

    total : (sku : String) → quantity_of sku lines ≡ quantity_of sku input.lines
    total = (merge_lines_total input.lines).0

    once : OneEach lines
    once = (merge_lines_total input.lines).1

    from :
        (answer : Reserved × Inventory)
        → reserve input inventory ≡ answer
        → Outcome input inventory answer.0 answer.1
        → Outcome input inventory (reserve input inventory).0 (reserve input inventory).1
    from answer e h = subst (λ a. Outcome input inventory a.0 a.1) (sym e) h
