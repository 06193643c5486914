-- ===== src/Orders/Checkout/Again.antt =====
-- A step of src/orders/checkout.saga.ts that runs twice.
use boilerplate_nestjs_api.Prelude.{
  ℕ, ◌+◌, ◌-◌, ◌≡◌, ap, inl, inr, String, none, some, arith, eq_refl, lookup, lookup-insert,
  Option-cases, Utf16,
}
use boilerplate_nestjs_api.Payments.Money.{Money, normalise_money}
use boilerplate_nestjs_api.Payments.Mock.{
  succeeded, Payment, done, MockPaymentProvider, find, store, authorize, capture, refund,
  new_payment, resolve_refund_amount, refunded_by,
}
use boilerplate_nestjs_api.Payments.Mock.Invariant.{find-store}
use boilerplate_nestjs_api.Payments.Mock.Reference.{find-id}
use boilerplate_nestjs_api.Orders.Inventory.Held.{reserve_twice, release_twice}
use boilerplate_nestjs_api.Orders.Shipping.{ShippingService, create_shipment, Shipment, booked}
use boilerplate_nestjs_api.Orders.Checkout.{
  Order, in_process, confirmed, cancelled, optional, World, CheckoutSagaState, went, accept_order,
  cancel_order, reserve_stock, release_stock, amount_of, capture_if_needed, settle, charge_payment,
  resolve_payment, give_back, refund_payment, ship, confirm_found, confirm_order, Part, accepting,
  reserving, charging, shipping, confirming, refunding, releasing, cancelling, perform, ask,
  after_reserve, after_shipment,
}

accept_again :
    (key : String) (state : CheckoutSagaState) (world : World)
    → accept_order key state (accept_order key state world).1 ≡ accept_order key state world
unfolding accept_order
accept_again key state world = elim (Option-cases (lookup state.order_id world.orders)) [
  | inl gone ↦ ground (arith, gone)
  | inr (order, there) ↦
      let taken : Order = record { status = in_process; failure_reason = none } in
      ground (
        arith,
        there,
        eq_refl state.order_id,
        lookup-insert state.order_id state.order_id taken world.orders,
      )
]

cancel_again :
    (reason : Utf16) (key : String) (state : CheckoutSagaState) (world : World)
    → cancel_order reason key state (cancel_order reason key state world).1
      ≡ cancel_order reason key state world
unfolding cancel_order
cancel_again reason key state world = elim (Option-cases (lookup state.order_id world.orders)) [
  | inl gone ↦ ground (arith, gone)
  | inr (order, there) ↦
      let taken : Order = record { status = cancelled; failure_reason = some reason } in
      ground (
        arith,
        there,
        eq_refl state.order_id,
        lookup-insert state.order_id state.order_id taken world.orders,
      )
]

reserving_again :
    (key : String) (state : CheckoutSagaState) (world : World)
    → reserve_stock key state (reserve_stock key state world).1 ≡ reserve_stock key state world
unfolding reserve_stock
reserving_again key state world =
    ap (λ r. (after_reserve state r.0, record world { inventory = r.1 }))
      (reserve_twice (ask key state) world.inventory)

releasing_again :
    (key : String) (state : CheckoutSagaState) (world : World)
    → release_stock key state (release_stock key state world).1 ≡ release_stock key state world
unfolding release_stock
releasing_again key state world =
    ap (λ i. (went state, record world { inventory = i })) (release_twice key world.inventory)

module _ (upper_case : Utf16 → Utf16) where
  captured_again :
      (state : CheckoutSagaState) (key : String) (amount : Money) (payments : MockPaymentProvider)
      → normalise_money upper_case (amount_of state) ≡ some amount
      → settle upper_case state (
          authorize upper_case
            (amount_of state)
            key
            (settle upper_case state (authorize upper_case (amount_of state) key payments)).1)
        ≡ settle upper_case state (authorize upper_case (amount_of state) key payments)
  unfolding authorize capture capture_if_needed
  captured_again state key amount payments good =
      elim (Option-cases (lookup key payments.ids_by_reference)) [
        | inl free ↦
            let fresh = new_payment (payments.sequence + 1) amount key in
            let paid : Payment = record fresh { status = succeeded } in
            ground (
              arith,
              good,
              free,
              eq_refl key,
              lookup-insert key key (payments.sequence + 1) payments.ids_by_reference,
              find-store fresh (payments.sequence + 1) payments.payments,
              find-store paid (payments.sequence + 1) (store fresh payments.payments),
            )
        | inr (id, there) ↦ elim (Option-cases (find id payments.payments)) [
          | inl lost ↦ ground (arith, good, there, lost)
          | inr (p, found) ↦
              let paid : Payment = record p { status = succeeded } in
              ground (
                arith,
                good,
                there,
                found,
                find-id id payments.payments p found,
                find-store paid id payments.payments,
              )
        ]
      ]

  settled_again :
      (state : CheckoutSagaState) (key : String) (payments : MockPaymentProvider)
      → settle upper_case state (
          authorize upper_case
            (amount_of state)
            key
            (settle upper_case state (authorize upper_case (amount_of state) key payments)).1)
        ≡ settle upper_case state (authorize upper_case (amount_of state) key payments)
  settled_again state key payments =
      elim (Option-cases (normalise_money upper_case (amount_of state))) [
        | inl bad ↦ unfold authorize in ground (arith, bad)
        | inr (amount, good) ↦ captured_again state key amount payments good
      ]

  charging_again :
      (key : String) (state : CheckoutSagaState) (world : World)
      → charge_payment upper_case key state (charge_payment upper_case key state world).1
        ≡ charge_payment upper_case key state world
  unfolding charge_payment
  charging_again key state world =
      ap (λ r. (r.0, record world { payments = r.1 })) (settled_again state key world.payments)

  shipment_again :
      (order_id : String) (destination : Utf16) (id : String) (service : ShippingService)
      → create_shipment upper_case order_id destination id
          (create_shipment upper_case order_id destination id service).1
        ≡ create_shipment upper_case order_id destination id service
  unfolding create_shipment
  shipment_again order_id destination id service =
      elim (Option-cases (lookup id service.shipments)) [
        | inr (there, found) ↦ ground (arith, found)
        | inl free ↦
            let parcel : Shipment =
              booked order_id id (upper_case destination) (service.sequence + 1) in
            ground (arith, free, eq_refl id, lookup-insert id id parcel service.shipments)
      ]

  shipping_again :
      (key : String) (state : CheckoutSagaState) (world : World)
      → ship upper_case key state (ship upper_case key state world).1
        ≡ ship upper_case key state world
  unfolding ship
  shipping_again key state world =
      ap (λ r. (after_shipment upper_case state r.0, record world { shipping = r.1 }))
        (shipment_again state.order_id state.shipping_country key world.shipping)

  refunded_again :
      (state : CheckoutSagaState) (id : ℕ) (payments : MockPaymentProvider)
      → give_back upper_case state (
        done (
            find id
              (give_back upper_case state (done (find id payments.payments), payments)).1.payments),
        (give_back upper_case state (done (find id payments.payments), payments)).1,
      )
        ≡ give_back upper_case state (done (find id payments.payments), payments)
  unfolding give_back refund resolve_refund_amount
  refunded_again state id payments = elim (Option-cases (find id payments.payments)) [
    | inl lost ↦ ground (arith, lost)
    | inr (p, found) ↦
        let back : Money = record {
          amount_minor = p.amount.amount_minor - p.amount_refunded.amount_minor;
          currency = p.amount.currency;
        } in
        ground (
          arith,
          found,
          find-id id payments.payments p found,
          find-store (refunded_by p back) id payments.payments,
        )
  ]

  unnamed_again :
      (state : CheckoutSagaState) (key : String) (payments : MockPaymentProvider)
      → give_back upper_case state (
          optional upper_case (
            authorize upper_case
              (amount_of state)
              key
              (give_back upper_case state
                (optional upper_case (authorize upper_case (amount_of state) key payments))).1))
        ≡ give_back upper_case state
            (optional upper_case (authorize upper_case (amount_of state) key payments))
  unfolding give_back authorize refund resolve_refund_amount
  unnamed_again state key payments =
      elim (Option-cases (normalise_money upper_case (amount_of state))) [
        | inl bad ↦ ground (arith, bad)
        | inr (amount, good) ↦ elim (Option-cases (lookup key payments.ids_by_reference)) [
          | inl free ↦
              let fresh = new_payment (payments.sequence + 1) amount key in
              ground (
                arith,
                good,
                free,
                eq_refl key,
                lookup-insert key key (payments.sequence + 1) payments.ids_by_reference,
                find-store fresh (payments.sequence + 1) payments.payments,
              )
          | inr (id, there) ↦ elim (Option-cases (find id payments.payments)) [
            | inl lost ↦ ground (arith, good, there, lost)
            | inr (p, found) ↦
                let back : Money = record {
                  amount_minor = p.amount.amount_minor - p.amount_refunded.amount_minor;
                  currency = p.amount.currency;
                } in
                ground (
                  arith,
                  good,
                  there,
                  found,
                  find-id id payments.payments p found,
                  find-store (refunded_by p back) id payments.payments,
                )
          ]
        ]
      ]

  refund_again :
      (state : CheckoutSagaState) (key : String) (payments : MockPaymentProvider)
      → give_back upper_case state (
          resolve_payment upper_case key state
            (give_back upper_case state (resolve_payment upper_case key state payments)).1)
        ≡ give_back upper_case state (resolve_payment upper_case key state payments)
  unfolding resolve_payment
  refund_again state key payments = elim (Option-cases state.payment_id) [
    | inl unnamed ↦ rw unnamed (unnamed_again (record state { payment_id = none }) key payments)
    | inr (id, named) ↦
        rw named (refunded_again (record state { payment_id = some id }) id payments)
  ]

  refunding_again :
      (key : String) (state : CheckoutSagaState) (world : World)
      → refund_payment upper_case key state (refund_payment upper_case key state world).1
        ≡ refund_payment upper_case key state world
  unfolding refund_payment
  refunding_again key state world =
      ap (λ r. (r.0, record world { payments = r.1 })) (refund_again state key world.payments)

  confirm_again :
      (key : String) (state : CheckoutSagaState) (world : World)
      → confirm_order key state (confirm_order key state world).1 ≡ confirm_order key state world
  unfolding confirm_order confirm_found
  confirm_again key state world =
      let sealed : Order = record { status = confirmed; failure_reason = none } in
      ground (
        arith,
        eq_refl state.order_id,
        lookup-insert state.order_id state.order_id sealed world.orders,
      )

  -- Any step of the checkout, and anything that undoes one, that runs twice with the same key on the same
  -- state: the second run has the outcome of the first, whatever it was, and changes nothing of the
  -- orders, the stock, the holds, the payments, the parcels and the events that are staged.
  pub perform_again :
      (part : Part) (key : String) (state : CheckoutSagaState) (world : World)
      → perform upper_case part key state (perform upper_case part key state world).1
        ≡ perform upper_case part key state world
  unfolding perform
  perform_again accepting = accept_again
  perform_again reserving = reserving_again
  perform_again charging = charging_again
  perform_again shipping = shipping_again
  perform_again confirming = confirm_again
  perform_again refunding = refunding_again
  perform_again releasing = releasing_again
  perform_again (cancelling reason) = cancel_again reason
