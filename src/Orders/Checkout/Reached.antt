-- ===== src/Orders/Checkout/Reached.antt =====
-- A checkout of src/orders/checkout.saga.ts as far as the step that fails, and the world that it leaves.
use boilerplate_nestjs_api.Prelude.{
  ℕ, ◌+◌, ◌≡◌, refl, ◌∙◌, ap, ◌⊎◌, inl, inr, String, Bool, true, false, List, [], ◌∷◌, Option, none,
  some, arith, lookup, insert, Utf16,
}
use boilerplate_nestjs_api.Payments.Money.{Money, normalise_money}
use boilerplate_nestjs_api.Payments.Mock.{authorize}
use boilerplate_nestjs_api.Orders.Inventory as Inventory
use boilerplate_nestjs_api.Orders.Inventory.{Inventory, Reserved, reserve, release, stock_of}
use boilerplate_nestjs_api.Orders.Shipping.{Shipped, shipped, unserviced, create_shipment}
use boilerplate_nestjs_api.Orders.Checkout.{
  Order, pending, in_process, World, CheckoutSagaState, Outcome, went, accept_order, reserve_stock,
  amount_of, ask, after_reserve, after_shipment, ship, Part, accepting, reserving, charging,
  shipping, refunding, releasing, cancelling, perform,
}
use boilerplate_nestjs_api.Orders.Checkout.Charged.{
  with_fresh, authorize-with_fresh, with_paid, charge-with_paid,
}

-- The idempotency keys of the first four steps.
pub record Keys : Type 0 where
  pub for_order : String
  pub for_stock : String
  pub for_payment : String
  pub for_parcel : String

-- The step that failed.
pub data Point : Type 0 where
  at_order at_stock at_payment at_parcel : Point

-- How far the step that failed came: it threw before it had any effect, between its effects, or after
-- all of them, with its patch kept or lost.
pub data Extent : Type 0 where
  not_begun broken_off : Extent
  run_through : Bool → Extent

-- The patch of a step that was tried last may be lost, though the step was done.
abbrev pub patched : Bool → CheckoutSagaState → Outcome → CheckoutSagaState
patched true state (went next) = next
patched _ state _ = state

abbrev pub undoing_order : Utf16 → Keys → List (Part × String)
undoing_order reason keys = (cancelling reason, keys.for_order) ∷ []

abbrev pub undoing_stock : Utf16 → Keys → List (Part × String)
undoing_stock reason keys = (releasing, keys.for_stock) ∷ undoing_order reason keys

abbrev pub undoing_payment : Utf16 → Keys → List (Part × String)
undoing_payment reason keys = (refunding, keys.for_payment) ∷ undoing_stock reason keys

-- From the step that failed, which is undone too, back to the first. A parcel cannot be.
unfoldable pub undoing : Utf16 → Keys → Point → List (Part × String)
undoing reason keys at_order = undoing_order reason keys
undoing reason keys at_stock = undoing_stock reason keys
undoing reason keys at_payment = undoing_payment reason keys
undoing reason keys at_parcel = undoing_payment reason keys

abbrev pub taken : Order
taken = record { status = in_process; failure_reason = none }

patched-reserve :
    (kept : Bool) (state : CheckoutSagaState) (answer : Reserved)
    → (r : Option String) × patched kept state (after_reserve state answer)
        ≡ record state { reservation_id = r }
patched-reserve true state (Inventory.reserved r) = (some r.id, refl)
patched-reserve false state (Inventory.reserved r) = (state.reservation_id, refl)
patched-reserve true state (Inventory.out_of_stock sku wanted available) =
    (state.reservation_id, refl)
patched-reserve false state (Inventory.out_of_stock sku wanted available) =
    (state.reservation_id, refl)

accept-taken :
    (key : String) (state : CheckoutSagaState) (world : World) (order : Order)
    → lookup state.order_id world.orders ≡ some order
    → order.status ≡ pending
    → accept_order key state world
      ≡ (went state, record world { orders = insert state.order_id taken world.orders })
unfolding accept_order
accept-taken key state world order there waiting = ground (arith, there, waiting)

module _ (upper_case : Utf16 → Utf16) where
  patched-shipment :
      (kept : Bool) (state : CheckoutSagaState) (answer : Shipped)
      → (h : Option String) × patched kept state (after_shipment upper_case state answer)
          ≡ record state { shipment_id = h }
  patched-shipment true state (shipped s) = (some s.id, refl)
  patched-shipment false state (shipped s) = (state.shipment_id, refl)
  patched-shipment true state (unserviced destination) = (state.shipment_id, refl)
  patched-shipment false state (unserviced destination) = (state.shipment_id, refl)

  abbrev pub advance : Bool → Part → String → CheckoutSagaState × World → CheckoutSagaState × World
  advance kept part key before =
      let (outcome, world) = perform upper_case part key before.0 before.1 in
      (patched kept before.0 outcome, world)

  abbrev pub with_order : Bool → Keys → CheckoutSagaState × World → CheckoutSagaState × World
  with_order kept keys before = advance kept accepting keys.for_order before

  abbrev pub with_stock : Bool → Keys → CheckoutSagaState × World → CheckoutSagaState × World
  with_stock kept keys before = advance kept reserving keys.for_stock (with_order true keys before)

  abbrev pub with_payment : Bool → Keys → CheckoutSagaState × World → CheckoutSagaState × World
  with_payment kept keys before =
      advance kept charging keys.for_payment (with_stock true keys before)

  abbrev pub with_parcel : Bool → Keys → CheckoutSagaState × World → CheckoutSagaState × World
  with_parcel kept keys before =
      advance kept shipping keys.for_parcel (with_payment true keys before)

  -- The payment is authorized, and not captured.
  abbrev pub with_hold : Keys → CheckoutSagaState × World → CheckoutSagaState × World
  with_hold keys (state, world) = (
    state,
    record world {
      payments = (authorize upper_case (amount_of state) keys.for_payment world.payments).1;
    },
  )

  -- The steps up to the one that failed. Only the payment has two effects.
  unfoldable pub reached :
      Point → Extent → Keys → CheckoutSagaState × World → CheckoutSagaState × World
  reached at_order not_begun keys before = before
  reached at_order broken_off keys before = before
  reached at_order (run_through kept) keys before = with_order kept keys before
  reached at_stock not_begun keys before = with_order true keys before
  reached at_stock broken_off keys before = with_order true keys before
  reached at_stock (run_through kept) keys before = with_stock kept keys before
  reached at_payment not_begun keys before = with_stock true keys before
  reached at_payment broken_off keys before = with_hold keys (with_stock true keys before)
  reached at_payment (run_through kept) keys before = with_payment kept keys before
  reached at_parcel not_begun keys before = with_payment true keys before
  reached at_parcel broken_off keys before = with_payment true keys before
  reached at_parcel (run_through kept) keys before = with_parcel kept keys before

  module _ (keys : Keys) (amount : Money) (state : CheckoutSagaState) (world : World)
      (order : Order) (good : normalise_money upper_case (amount_of state) ≡ some amount)
      (unpaid : state.payment_id ≡ none)
      (new_payment_ : lookup keys.for_payment world.payments.ids_by_reference ≡ none)
      (there : lookup state.order_id world.orders ≡ some order)
      (waiting : order.status ≡ pending) where
    abbrev pub accepted_world : World
    accepted_world = record world { orders = insert state.order_id taken world.orders }

    abbrev pub stocked_world : World
    stocked_world = record accepted_world {
      inventory = (reserve (ask keys.for_stock state) world.inventory).1;
    }

    abbrev pub paid_world : World
    paid_world = record stocked_world {
      payments = with_paid amount keys.for_payment world.payments;
    }

    pub order_reached :
        (kept : Bool) → with_order kept keys (state, world) ≡ (state, accepted_world)
    unfolding perform
    order_reached true =
        ap (λ a. (patched true state a.0, a.1))
          (accept-taken keys.for_order state world order there waiting)
    order_reached false =
        ap (λ a. (patched false state a.0, a.1))
          (accept-taken keys.for_order state world order there waiting)

    pub stock_reached :
        (kept : Bool)
        → (r : Option String) × with_stock kept keys (state, world)
            ≡ (record state { reservation_id = r }, stocked_world)
    unfolding perform reserve_stock
    stock_reached kept =
        let (r, same) =
          patched-reserve kept state (reserve (ask keys.for_stock state) world.inventory).0 in
        (
          r,
          ap (advance kept reserving keys.for_stock) (order_reached true)
              ∙ ap (λ s. (s, stocked_world)) same,
        )

    abbrev pub held_world : World
    held_world = record stocked_world {
      payments = with_fresh amount keys.for_payment world.payments;
    }

    pub hold_reached :
        (r : Option String) × with_hold keys (with_stock true keys (state, world))
          ≡ (record state { reservation_id = r }, held_world)
    hold_reached =
        let (r, same) = stock_reached true in
        (
          r,
          ap (with_hold keys) same
              ∙ ap
                  (λ m.
                    (record state { reservation_id = r }, record stocked_world { payments = m }))
                  (authorize-with_fresh upper_case keys.for_payment
                    (record state { reservation_id = r }) world.payments amount good new_payment_),
        )

    pub payment_reached :
        (kept : Bool)
        → (r : Option String) × (p : Option ℕ) × ((p ≡ none)
            ⊎ (p ≡ some (world.payments.sequence + 1)))
          × with_payment kept keys (state, world)
            ≡ (record state { reservation_id = r; payment_id = p }, paid_world)
    unfolding perform
    payment_reached true =
        let (r, same) = stock_reached true in
        (
          r,
          some (world.payments.sequence + 1),
          inr refl,
          ap (advance true charging keys.for_payment) same
              ∙ ap (λ a. (patched true (record state { reservation_id = r }) a.0, a.1))
                  (charge-with_paid upper_case keys.for_payment
                    (record state { reservation_id = r }) stocked_world amount good new_payment_),
        )
    payment_reached false =
        let (r, same) = stock_reached true in
        (
          r,
          state.payment_id,
          inl unpaid,
          ap (advance false charging keys.for_payment) same
              ∙ ap (λ a. (patched false (record state { reservation_id = r }) a.0, a.1))
                  (charge-with_paid upper_case keys.for_payment
                    (record state { reservation_id = r }) stocked_world amount good new_payment_),
        )

    abbrev pub parcel_world : World
    parcel_world = record paid_world {
      shipping =
          (create_shipment upper_case state.order_id state.shipping_country keys.for_parcel
            world.shipping).1;
    }

    pub parcel_reached :
        (kept : Bool)
        → (r : Option String) × (p : Option ℕ) × (h : Option String) × ((p ≡ none)
            ⊎ (p ≡ some (world.payments.sequence + 1)))
          × with_parcel kept keys (state, world)
            ≡ (record state { reservation_id = r; payment_id = p; shipment_id = h }, parcel_world)
    unfolding perform ship
    parcel_reached kept =
        let (r, p, named, same) = payment_reached true in
        let s = record state { reservation_id = r; payment_id = p } in
        let (h, sent) =
          patched-shipment kept s
            (create_shipment upper_case state.order_id state.shipping_country keys.for_parcel
              world.shipping).0 in
        (
          r,
          p,
          h,
          named,
          ap (advance kept shipping keys.for_parcel) same ∙ ap (λ t. (t, parcel_world)) sent,
        )
