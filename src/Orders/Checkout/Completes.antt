-- ===== src/Orders/Checkout/Completes.antt =====
-- A checkout of src/orders/checkout.saga.ts to its end.
use boilerplate_nestjs_api.Prelude.{
  ℕ, ◌+◌, ◌≡◌, refl, sym, ◌∙◌, ap, subst, String, true, [], ◌∷◌, ◌++◌, none, some, arith, eq_refl,
  lookup, insert, lookup-insert, Utf16,
}
use boilerplate_nestjs_api.Payments.Money.{Money, normalise_money}
use boilerplate_nestjs_api.Payments.Mock.{find, store}
use boilerplate_nestjs_api.Payments.Mock.Invariant.{find-store}
use boilerplate_nestjs_api.Orders.Basket.{merge_lines}
use boilerplate_nestjs_api.Orders.Basket.Merge.{quantity_of}
use boilerplate_nestjs_api.Orders.Inventory.{first_short, stock_of, reserve, reserved, made}
use boilerplate_nestjs_api.Orders.Inventory.Held.{reserve-granted}
use boilerplate_nestjs_api.Orders.Shipping.{
  Shipment, ShippingService, Shipped, shipped, serviced_countries, includes, booked,
  create_shipment,
}
use boilerplate_nestjs_api.Orders.Checkout.{
  Order, pending, confirmed, order_confirmed, World, CheckoutSagaState, Outcome, went, amount_of,
  ask, after_reserve, after_shipment, reserve_stock, ship, confirm_found, confirm_order, reserving,
  charging, shipping, confirming, perform,
}
use boilerplate_nestjs_api.Orders.Checkout.Charged.{fresh, paid, charge-with_paid}
use boilerplate_nestjs_api.Orders.Checkout.Reached.{
  Keys, at_parcel, run_through, patched, taken, advance, with_stock, with_payment, with_parcel,
  reached, order_reached, stocked_world, paid_world, parcel_world,
}

abbrev pub sealed : Order
sealed = record { status = confirmed; failure_reason = none }

module _ (upper_case : Utf16 → Utf16) where
  create_shipment-booked :
      (order_id : String) (destination : Utf16) (id : String) (service : ShippingService)
      → lookup id service.shipments ≡ none
      → includes (upper_case destination) serviced_countries ≡ true
      → ((create_shipment upper_case order_id destination id service).0
          ≡ shipped (booked order_id id (upper_case destination) (service.sequence + 1)))
        × (lookup id (create_shipment upper_case order_id destination id service).1.shipments
            ≡ some (booked order_id id (upper_case destination) (service.sequence + 1)))
  unfolding create_shipment
  create_shipment-booked order_id destination id service free served =
      let parcel : Shipment = booked order_id id (upper_case destination) (service.sequence + 1) in
      (
        ground (arith, free, served),
        ground (arith, free, served, eq_refl id, lookup-insert id id parcel service.shipments),
      )

  confirm-sealed :
      (key : String) (state : CheckoutSagaState) (world : World) (payment_id : ℕ)
      (shipment_id : String)
      → state.payment_id ≡ some payment_id
      → state.shipment_id ≡ some shipment_id
      → lookup state.order_id world.orders ≡ some taken
      → confirm_order key state world ≡ (
        went state,
        record world {
          orders = insert state.order_id sealed world.orders;
          outbox =
              world.outbox
              ++ order_confirmed state.order_id state.user_id payment_id shipment_id ∷ [];
        },
      )
  unfolding confirm_order confirm_found
  confirm-sealed key state world payment_id shipment_id named sent there =
      ground (arith, named, sent, there)

  -- The state that all steps wrote to.
  abbrev pub written : Keys → CheckoutSagaState → World → CheckoutSagaState
  written keys state world = record state {
    reservation_id = some keys.for_stock;
    payment_id = some (world.payments.sequence + 1);
    shipment_id = some keys.for_parcel;
  }

  -- What the confirmation answers, and the world after it.
  abbrev pub Completed : Keys → Money → CheckoutSagaState → World → Outcome × World → Type 0
  Completed keys amount state world (outcome, after) =
      (outcome ≡ went (written keys state world))
      × (lookup state.order_id after.orders ≡ some sealed)
      × (after.outbox
          ≡ world.outbox
            ++ order_confirmed state.order_id state.user_id (world.payments.sequence + 1)
                keys.for_parcel
              ∷ [])
      × ((sku : String)
          → stock_of sku after.inventory.stock + quantity_of sku state.lines
            ≡ stock_of sku world.inventory.stock)
      × (find (world.payments.sequence + 1) after.payments.payments
          ≡ some (paid amount keys.for_payment world.payments))
      × (lookup keys.for_parcel after.shipping.shipments
          ≡ some (
              booked state.order_id keys.for_parcel (upper_case state.shipping_country)
                (world.shipping.sequence + 1)))

  -- A checkout of an order that waits, with an amount that is well formed, no payment in its state, new
  -- keys for the hold, the payment and the parcel, enough of every product on the shelf, and a country
  -- that is served. The steps go through: the order is confirmed, one confirmation is staged and
  -- nothing else, of every product the shelf falls by just what the lines ask for, the payment is
  -- captured with nothing refunded, and the parcel is booked.
  pub confirm-Completed :
      (keys : Keys) (for_confirmation : String) (amount : Money) (state : CheckoutSagaState)
      (world : World) (order : Order)
      → normalise_money upper_case (amount_of state) ≡ some amount
      → state.payment_id ≡ none
      → lookup keys.for_payment world.payments.ids_by_reference ≡ none
      → lookup state.order_id world.orders ≡ some order
      → order.status ≡ pending
      → lookup keys.for_stock world.inventory.reservations ≡ none
      → first_short world.inventory.stock (merge_lines state.lines) ≡ none
      → lookup keys.for_parcel world.shipping.shipments ≡ none
      → includes (upper_case state.shipping_country) serviced_countries ≡ true
      → let (reached_state, reached_world) =
          reached upper_case at_parcel (run_through true) keys (state, world) in
        Completed keys amount state world
          (perform upper_case confirming for_confirmation reached_state reached_world)
  unfolding reached perform reserve_stock ship booked
  confirm-Completed keys for_confirmation amount state world order good unpaid new_payment_ there
        waiting new_hold enough new_parcel served =
      subst (λ at. Completed keys amount state world (confirm_order for_confirmation at.0 at.1))
        (sym all_reached)
        (subst (Completed keys amount state world)
          (sym (
            confirm-sealed for_confirmation (written keys state world) last
              (world.payments.sequence + 1) keys.for_parcel refl refl
              (ground (
                arith,
                eq_refl state.order_id,
                lookup-insert state.order_id state.order_id taken world.orders,
              ))))
          (
            refl,
            ground (
              arith,
              eq_refl state.order_id,
              lookup-insert state.order_id state.order_id sealed last.orders,
            ),
            refl,
            held.1,
            ground (
              arith,
              find-store (paid amount keys.for_payment world.payments) (world.payments.sequence + 1)
                  (store (fresh amount keys.for_payment world.payments) world.payments.payments),
            ),
            sent.1,
          ))
    where
      held :
          ((reserve (ask keys.for_stock state) world.inventory).0
            ≡ reserved (made (ask keys.for_stock state)))
          × ((sku : String)
              → stock_of sku (reserve (ask keys.for_stock state) world.inventory).1.stock
                  + quantity_of sku state.lines
                ≡ stock_of sku world.inventory.stock)
      held = reserve-granted (ask keys.for_stock state) world.inventory new_hold enough

      parcel : Shipment
      parcel =
          booked state.order_id keys.for_parcel (upper_case state.shipping_country)
            (world.shipping.sequence + 1)

      booking : Shipped × ShippingService
      booking =
          create_shipment upper_case state.order_id state.shipping_country keys.for_parcel
            world.shipping

      sent :
          (booking.0 ≡ shipped parcel) × (lookup keys.for_parcel booking.1.shipments ≡ some parcel)
      sent =
          create_shipment-booked state.order_id state.shipping_country keys.for_parcel
            world.shipping new_parcel served

      stocked : World
      stocked =
          stocked_world upper_case keys amount state world order good unpaid new_payment_ there
            waiting

      last : World
      last =
          parcel_world upper_case keys amount state world order good unpaid new_payment_ there
            waiting

      with_hold : CheckoutSagaState
      with_hold = record state { reservation_id = some keys.for_stock }

      with_money : CheckoutSagaState
      with_money = record with_hold { payment_id = some (world.payments.sequence + 1) }

      held_reached : with_stock upper_case true keys (state, world) ≡ (with_hold, stocked)
      held_reached =
          ap (advance upper_case true reserving keys.for_stock) (
            order_reached upper_case keys amount state world order good unpaid new_payment_ there
              waiting true)
          ∙ ap (λ answer. (patched true state (after_reserve state answer), stocked)) held.0

      money_reached : with_payment upper_case true keys (state, world) ≡ (
        with_money,
        paid_world upper_case keys amount state world order good unpaid new_payment_ there waiting,
      )
      money_reached =
          ap (advance upper_case true charging keys.for_payment) held_reached
          ∙ ap (λ a. (patched true with_hold a.0, a.1))
              (charge-with_paid upper_case keys.for_payment with_hold stocked amount good
                new_payment_)

      all_reached :
          with_parcel upper_case true keys (state, world) ≡ (written keys state world, last)
      all_reached =
          ap (advance upper_case true shipping keys.for_parcel) money_reached
          ∙ ap
              (λ answer.
                (patched true with_money (after_shipment upper_case with_money answer), last))
              sent.0
