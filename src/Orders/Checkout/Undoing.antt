-- ===== src/Orders/Checkout/Undoing.antt =====
-- A checkout of src/orders/checkout.saga.ts as it is undone, step by step.
use boilerplate_nestjs_api.Prelude.{
  ◌+◌, ◌<◌, ◌≡◌, refl, ◌∙◌, ap, ◌⊎◌, String, Bool, true, false, List, [], ◌∷◌, ◌++◌, none, some,
  arith, lookup, insert, Utf16,
}
use boilerplate_nestjs_api.Payments.Money.{Money, normalise_money}
use boilerplate_nestjs_api.Payments.Mock.{MockPaymentProvider}
use boilerplate_nestjs_api.Orders.Inventory.{release}
use boilerplate_nestjs_api.Orders.Checkout.{
  Order, cancelled, order_cancelled, World, CheckoutSagaState, went, retryable, hopeless,
  is_cancelled, cancel_order, release_stock, amount_of, Part, refunding, releasing, cancelling,
  perform,
}
use boilerplate_nestjs_api.Orders.Checkout.Charged.{
  with_fresh, with_paid, with_returned, refund-with_returned, refund-with_fresh,
}
use boilerplate_nestjs_api.Orders.Checkout.Reached.{
  Keys, undoing_order, undoing_stock, undoing_payment,
}

abbrev pub given_up : Utf16 → Order
given_up reason = record { status = cancelled; failure_reason = some reason }

-- The order is cancelled, and that it is was staged.
abbrev pub closed : Utf16 → CheckoutSagaState → World → World
closed reason state world = record world {
  orders = insert state.order_id (given_up reason) world.orders;
  outbox = world.outbox ++ order_cancelled state.order_id state.user_id reason ∷ [];
}

-- The order is there, and is not cancelled yet.
abbrev pub Open : CheckoutSagaState → World → Type 0
Open state world =
    (order : Order) × (lookup state.order_id world.orders ≡ some order)
    × (is_cancelled order.status ≡ false)

cancel-closed :
    (reason : Utf16) (key : String) (state : CheckoutSagaState) (world : World)
    → Open state world
    → cancel_order reason key state world ≡ (went state, closed reason state world)
unfolding cancel_order
cancel-closed reason key state world (order, there, live) = ground (arith, there, live)

module _ (upper_case : Utf16 → Utf16) where
  -- What undoes them, as long as it goes well.
  pub undo : List (Part × String) → CheckoutSagaState → World → Bool × World
  undo [] state world = (true, world)
  undo ((part, key) ∷ parts) state world =
      let (outcome, next) = perform upper_case part key state world in
      let rest = undo parts state next in
      elim outcome [ went _ ↦ rest | retryable ↦ (false, next) | hopeless ↦ (false, next) ]

  undo-went :
      (part : Part) (key : String) (parts : List (Part × String)) (state : CheckoutSagaState)
      (world next : World)
      → perform upper_case part key state world ≡ (went state, next)
      → undo ((part, key) ∷ parts) state world ≡ undo parts state next
  unfolding undo
  undo-went part key parts state world next went_ =
      ap
        (λ a. elim a.0 as (λ _. Bool × World) [
          | went _ ↦ undo parts state a.1
          | retryable ↦ (false, a.1)
          | hopeless ↦ (false, a.1)
        ])
        went_

  module _ (reason : Utf16) (keys : Keys) where
    pub order_undone :
        (state : CheckoutSagaState) (world : World)
        → Open state world
        → undo (undoing_order reason keys) state world ≡ (true, closed reason state world)
    unfolding perform undo
    order_undone state world there =
        undo-went (cancelling reason) keys.for_order [] state world (closed reason state world)
          (cancel-closed reason keys.for_order state world there)

    abbrev pub released_world : World → World
    released_world world = record world { inventory = release keys.for_stock world.inventory }

    pub stock_undone :
        (state : CheckoutSagaState) (world : World)
        → Open state world
        → undo (undoing_stock reason keys) state world
          ≡ (true, closed reason state (released_world world))
    unfolding perform release_stock
    stock_undone state world there =
        undo-went releasing keys.for_stock (undoing_order reason keys) state world
          (released_world world) refl
        ∙ order_undone state (released_world world) there

    pub payment_undone :
        (state : CheckoutSagaState) (world : World) (before : MockPaymentProvider) (amount : Money)
        → Open state world
        → normalise_money upper_case (amount_of state) ≡ some amount
        → 0 < amount.amount_minor
        → (state.payment_id ≡ none) ⊎ (state.payment_id ≡ some (before.sequence + 1))
        → undo
            (undoing_payment reason keys)
            state
            (record world { payments = with_paid amount keys.for_payment before })
          ≡ (
            true,
            closed reason state (
                released_world
                  (record world { payments = with_returned amount keys.for_payment before })),
          )
    unfolding perform
    payment_undone state world before amount there good positive named =
        let back : World = record world {
          payments = with_returned amount keys.for_payment before;
        } in
        undo-went refunding keys.for_payment (undoing_stock reason keys) state
          (record world { payments = with_paid amount keys.for_payment before }) back
          (refund-with_returned upper_case keys.for_payment state world before amount good positive
            named)
        ∙ stock_undone state back there

    -- With nothing captured.
    pub hold_undone :
        (state : CheckoutSagaState) (world : World) (before : MockPaymentProvider) (amount : Money)
        → Open state world
        → normalise_money upper_case (amount_of state) ≡ some amount
        → lookup keys.for_payment before.ids_by_reference ≡ none
        → state.payment_id ≡ none
        → (world.payments ≡ before) ⊎ (world.payments ≡ with_fresh amount keys.for_payment before)
        → undo (undoing_payment reason keys) state world ≡ (
          true,
          closed reason state (
              released_world
                (record world { payments = with_fresh amount keys.for_payment before })),
        )
    unfolding perform
    hold_undone state world before amount there good free unpaid held =
        let back : World = record world { payments = with_fresh amount keys.for_payment before } in
        undo-went refunding keys.for_payment (undoing_stock reason keys) state world back (
          refund-with_fresh upper_case keys.for_payment state world before amount good free unpaid
            held)
        ∙ stock_undone state back there
