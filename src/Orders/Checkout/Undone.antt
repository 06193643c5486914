-- ===== src/Orders/Checkout/Undone.antt =====
-- A checkout of src/orders/checkout.saga.ts that fails and is undone, step by step from the one that failed.
use boilerplate_nestjs_api.Prelude.{
  ◌<◌, ◌≡◌, refl, sym, ap, subst, ◌⊎◌, inl, inr, String, Bool, true, List, [], ◌∷◌, ◌++◌, Option,
  none, some, arith, eq_refl, Dict, lookup, insert, lookup-insert, Utf16,
}
use boilerplate_nestjs_api.Payments.Money.{Money, normalise_money}
use boilerplate_nestjs_api.Payments.Mock.{MockPaymentProvider}
use boilerplate_nestjs_api.Orders.Inventory.{reserve, release, stock_of}
use boilerplate_nestjs_api.Orders.Inventory.Held.{release-reserve, release-unknown}
use boilerplate_nestjs_api.Orders.Shipping.{ShippingService, create_shipment}
use boilerplate_nestjs_api.Orders.Checkout.{
  Order, pending, order_cancelled, World, CheckoutSagaState, amount_of, ask, Part,
}
use boilerplate_nestjs_api.Orders.Checkout.Charged.{with_fresh, with_returned}
use boilerplate_nestjs_api.Orders.Checkout.Reached.{
  Keys, Point, at_order, at_stock, at_payment, at_parcel, undoing_order, undoing_stock,
  undoing_payment, undoing, taken, reached, Extent, not_begun, broken_off, run_through, with_order,
  with_payment, accepted_world, stocked_world, hold_reached, order_reached, stock_reached,
  payment_reached, parcel_reached,
}
use boilerplate_nestjs_api.Orders.Checkout.Undoing.{
  given_up, Open, undo, order_undone, stock_undone, payment_undone, hold_undone,
}

-- That all was undone, and what is left of it.
abbrev pub Unmade : Utf16 → Keys → Money → CheckoutSagaState → World → Bool × World → Type 0
Unmade reason keys amount state world (ok, after) =
    (ok ≡ true)
    × (lookup state.order_id after.orders ≡ some (given_up reason))
    × (after.outbox ≡ world.outbox ++ order_cancelled state.order_id state.user_id reason ∷ [])
    × ((sku : String) → stock_of sku after.inventory.stock ≡ stock_of sku world.inventory.stock)
    × ((after.payments ≡ world.payments)
        ⊎ (after.payments ≡ with_fresh amount keys.for_payment world.payments)
        ⊎ (after.payments ≡ with_returned amount keys.for_payment world.payments))

module _ (upper_case : Utf16 → Utf16) where
  -- A checkout of an order that waits, with an amount that is well formed and not 0, new keys for the hold
  -- and the payment, and no payment in its state. Whichever of the first four steps failed, before any of
  -- its effects, between the authorization and the capture of the payment, or after all of them with its
  -- patch kept or lost, undoing that step and those before it goes through: the order is cancelled for
  -- the reason, one cancellation is staged and nothing else, of every product there is as much on the
  -- shelf as at the start, and the payments are as at the start, or with one more, which is authorized
  -- with nothing captured, or is refunded in full.
  pub undo-Unmade :
      (point : Point) (extent : Extent) (reason : Utf16) (keys : Keys) (amount : Money)
      (state : CheckoutSagaState) (world : World) (order : Order)
      → normalise_money upper_case (amount_of state) ≡ some amount
      → 0 < amount.amount_minor
      → state.payment_id ≡ none
      → lookup keys.for_payment world.payments.ids_by_reference ≡ none
      → lookup keys.for_stock world.inventory.reservations ≡ none
      → lookup state.order_id world.orders ≡ some order
      → order.status ≡ pending
      → let (reached_state, reached_world) = reached upper_case point extent keys (state, world) in
        Unmade reason keys amount state world
          (undo upper_case (undoing reason keys point) reached_state reached_world)
  unfolding reached undoing
  undo-Unmade point extent reason keys amount state world order good positive unpaid free new_hold
        there waiting =
      go point extent
    where
      Goal : Bool × World → Type 0
      Goal = Unmade reason keys amount state world

      accepted : World
      accepted =
          accepted_world upper_case keys amount state world order good unpaid free there waiting

      stocked : World
      stocked =
          stocked_world upper_case keys amount state world order good unpaid free there waiting

      sent : ShippingService
      sent =
          (create_shipment upper_case state.order_id state.shipping_country keys.for_parcel
            world.shipping).1

      open_there : Open state accepted
      open_there = (
        taken,
        ground (
          arith,
          eq_refl state.order_id,
          lookup-insert state.order_id state.order_id taken world.orders,
        ),
        refl,
      )

      closed_there :
          (orders : Dict Order)
          → lookup state.order_id (insert state.order_id (given_up reason) orders)
            ≡ some (given_up reason)
      closed_there orders = ground (
        arith,
        eq_refl state.order_id,
        lookup-insert state.order_id state.order_id (given_up reason) orders,
      )

      back_on_shelf :
          (sku : String)
          → stock_of sku
              (release keys.for_stock (reserve (ask keys.for_stock state) world.inventory).1).stock
            ≡ stock_of sku world.inventory.stock
      back_on_shelf sku = release-reserve sku (ask keys.for_stock state) world.inventory new_hold

      untouched_shelf :
          (sku : String)
          → stock_of sku (release keys.for_stock world.inventory).stock
            ≡ stock_of sku world.inventory.stock
      untouched_shelf sku =
          ap (λ i. stock_of sku i.stock) (release-unknown keys.for_stock world.inventory new_hold)

      arrive :
          (parts : List (Part × String)) (at stop : CheckoutSagaState × World) (a : Bool × World)
          → at ≡ stop
          → undo upper_case parts stop.0 stop.1 ≡ a
          → Goal a
          → Goal (undo upper_case parts at.0 at.1)
      arrive parts at stop a e ended h =
          subst (λ x. Goal (undo upper_case parts x.0 x.1)) (sym e) (subst Goal (sym ended) h)

      -- With nothing captured yet.
      go_held :
          (at : CheckoutSagaState × World) (r : Option String) (m : MockPaymentProvider)
          → at ≡ (record state { reservation_id = r }, record stocked { payments = m })
          → (m ≡ world.payments) ⊎ (m ≡ with_fresh amount keys.for_payment world.payments)
          → Goal (undo upper_case (undoing_payment reason keys) at.0 at.1)
      go_held at r m e held =
          arrive (undoing_payment reason keys) at _ _ e
            (hold_undone upper_case reason keys (record state { reservation_id = r })
              (record stocked { payments = m }) world.payments amount open_there good free unpaid
              held)
            (refl, closed_there accepted.orders, refl, back_on_shelf, inr (inl refl))

      -- With the payment captured.
      go_paid :
          (kept : Bool)
          → Goal (
              undo upper_case
                (undoing_payment reason keys)
                (with_payment upper_case kept keys (state, world)).0
                (with_payment upper_case kept keys (state, world)).1)
      go_paid kept =
          let (r, p, named, e) =
            payment_reached upper_case keys amount state world order good unpaid free there waiting
              kept in
          arrive (undoing_payment reason keys) _ _ _ e
            (payment_undone upper_case reason keys
              (record state { reservation_id = r; payment_id = p }) stocked world.payments amount
              open_there good positive named)
            (refl, closed_there accepted.orders, refl, back_on_shelf, inr (inr refl))

      go_accepted : Goal (
          undo upper_case
            (undoing_stock reason keys)
            (with_order upper_case true keys (state, world)).0
            (with_order upper_case true keys (state, world)).1)
      go_accepted =
          arrive (undoing_stock reason keys) _ _ _
            (order_reached upper_case keys amount state world order good unpaid free there waiting
              true)
            (stock_undone upper_case reason keys state accepted open_there)
            (refl, closed_there accepted.orders, refl, untouched_shelf, inl refl)

      go_waiting : Goal (undo upper_case (undoing_order reason keys) state world)
      go_waiting =
          arrive (undoing_order reason keys) (state, world) _ _ refl
            (order_undone upper_case reason keys state world
              (order, there, ground (arith, waiting)))
            (refl, closed_there world.orders, refl, λ sku. refl, inl refl)

      go :
          (point : Point) (extent : Extent)
          → Goal (
              undo upper_case
                (undoing reason keys point)
                (reached upper_case point extent keys (state, world)).0
                (reached upper_case point extent keys (state, world)).1)
      go at_order not_begun = go_waiting
      go at_order broken_off = go_waiting
      go at_order (run_through kept) =
          arrive (undoing_order reason keys) _ _ _
            (order_reached upper_case keys amount state world order good unpaid free there waiting
              kept)
            (order_undone upper_case reason keys state accepted open_there)
            (refl, closed_there accepted.orders, refl, λ sku. refl, inl refl)
      go at_stock not_begun = go_accepted
      go at_stock broken_off = go_accepted
      go at_stock (run_through kept) =
          let (r, e) =
            stock_reached upper_case keys amount state world order good unpaid free there waiting
              kept in
          arrive (undoing_stock reason keys) _ _ _ e
            (stock_undone upper_case reason keys (record state { reservation_id = r }) stocked
              open_there)
            (refl, closed_there accepted.orders, refl, back_on_shelf, inl refl)
      go at_payment not_begun =
          let (r, e) =
            stock_reached upper_case keys amount state world order good unpaid free there waiting
              true in
          go_held _ r world.payments e (inl refl)
      go at_payment broken_off =
          let (r, e) =
            hold_reached upper_case keys amount state world order good unpaid free there waiting in
          go_held _ r _ e (inr refl)
      go at_payment (run_through kept) = go_paid kept
      go at_parcel not_begun = go_paid true
      go at_parcel broken_off = go_paid true
      go at_parcel (run_through kept) =
          let (r, p, h, named, e) =
            parcel_reached upper_case keys amount state world order good unpaid free there waiting
              kept in
          arrive (undoing_payment reason keys) _ _ _ e
            (payment_undone upper_case reason keys
              (record state { reservation_id = r; payment_id = p; shipment_id = h })
              (record stocked { shipping = sent }) world.payments amount open_there good positive
              named)
            (refl, closed_there accepted.orders, refl, back_on_shelf, inr (inr refl))
