-- ===== src/Orders/Checkout.antt =====
-- src/orders/checkout.saga.ts: the five steps of the checkout and what undoes them, over the warehouse, the
-- payments of the provider for development and the shipping. A step is given its idempotency key; its
-- patch is written to the state at once. Of an order (order.ts) its status and the reason of its
-- failure are kept, and of a failure whether it is tried again; the texts of errors, descriptions
-- and log lines are left out.
pub mod Again
pub mod Charged
pub mod Completes
pub mod Reached
pub mod Undoing
pub mod Undone
mod Tests
use boilerplate_nestjs_api.Prelude.{
  ℕ, String, Bool, true, false, List, [], ◌∷◌, ◌++◌, Option, none, some, Dict, lookup, insert,
  Utf16, pos, if◌then◌else◌,
}
use boilerplate_nestjs_api.Payments.Money.{GivenMoney}
use boilerplate_nestjs_api.Payments.Mock.{
  PaymentStatus, requires_action, authorized, processing, succeeded, partially_refunded, refunded,
  canceled, failed, Payment, Failure, invalid_money, not_found, wrong_state, Result, done, refused,
  MockPaymentProvider, find, authorize, capture, refund,
}
use boilerplate_nestjs_api.Orders.Inventory as Inventory
use boilerplate_nestjs_api.Orders.Inventory.{
  Inventory, ReservedLine, ReserveStockInput, Reserved, reserve, release,
}
use boilerplate_nestjs_api.Orders.Shipping.{
  ShippingService, Shipped, shipped, unserviced, create_shipment,
}

pub data OrderStatus : Type 0 where
  pending in_process confirmed cancelled : OrderStatus

pub record Order : Type 0 where
  pub status : OrderStatus
  pub failure_reason : Option Utf16

pub data Event : Type 0 where
  order_cancelled : (order_id user_id : String) → (reason : Utf16) → Event
  order_confirmed : (order_id user_id : String) → (payment_id : ℕ) → (shipment_id : String) → Event

-- What the steps act on; `outbox` are the events that were staged.
pub record World : Type 0 where
  pub orders : Dict Order
  pub inventory : Inventory
  pub payments : MockPaymentProvider
  pub shipping : ShippingService
  pub outbox : List Event

pub record CheckoutSagaState : Type 0 where
  pub order_id : String
  pub user_id : String
  pub currency : Utf16
  pub total_minor : ℕ
  pub shipping_country : Utf16
  pub lines : List ReservedLine
  pub reservation_id : Option String
  pub payment_id : Option ℕ
  pub shipment_id : Option String

-- `retryable`: an error that the saga tries again after. `hopeless`: an `UnretryableStepError`.
pub data Outcome : Type 0 where
  went : CheckoutSagaState → Outcome
  retryable : Outcome
  hopeless : Outcome

abbrev pub Step : Type 0
Step = String → CheckoutSagaState → World → Outcome × World

abbrev pub is_pending : OrderStatus → Bool
is_pending pending = true
is_pending _ = false

abbrev pub is_cancelled : OrderStatus → Bool
is_cancelled cancelled = true
is_cancelled _ = false

abbrev pub is_confirmed : OrderStatus → Bool
is_confirmed confirmed = true
is_confirmed _ = false

pub accept_order : Step
accept_order key state world = elim (lookup state.order_id world.orders) [
  | none ↦ (retryable, world)
  | some order ↦
      if is_pending order.status
      then (
        went state,
        record world {
          orders =
              insert state.order_id (record { status = in_process; failure_reason = none })
                world.orders;
        },
      )
      else (went state, world)
]

-- With the reason that the failure gives.
pub cancel_order : Utf16 → Step
cancel_order reason key state world = elim (lookup state.order_id world.orders) [
  | none ↦ (went state, world)
  | some order ↦ if is_cancelled order.status then (went state, world) else (
    went state,
    record world {
      orders =
          insert state.order_id (record { status = cancelled; failure_reason = some reason })
            world.orders;
      outbox = world.outbox ++ order_cancelled state.order_id state.user_id reason ∷ [];
    },
  )
]

abbrev pub ask : String → CheckoutSagaState → ReserveStockInput
ask key state = record { order_id = state.order_id; lines = state.lines; reservation_id = key }

abbrev pub after_reserve : CheckoutSagaState → Reserved → Outcome
after_reserve state (Inventory.reserved reservation) =
    went (record state { reservation_id = some reservation.id })
after_reserve state (Inventory.out_of_stock sku wanted available) = hopeless

pub reserve_stock : Step
reserve_stock key state world =
    let (answer, inventory) = reserve (ask key state) world.inventory in
    (after_reserve state answer, record world { inventory = inventory })

pub release_stock : Step
release_stock key state world =
    (went state, record world { inventory = release key world.inventory })

abbrev pub amount_of : CheckoutSagaState → GivenMoney
amount_of state = record { amount_minor = pos state.total_minor; currency = state.currency }

abbrev pub is_captured : PaymentStatus → Bool
is_captured succeeded = true
is_captured partially_refunded = true
is_captured _ = false

abbrev pub is_refunded : PaymentStatus → Bool
is_refunded refunded = true
is_refunded _ = false

-- `none`: the error is tried again; `some none`: it is hopeless.
abbrev pub captured_anyway : Option Payment → Option (Option Payment)
captured_anyway none = some none
captured_anyway (some current) =
    if is_captured current.status then some (some current) else some none

abbrev pub after_capture :
    ℕ → Result Payment × MockPaymentProvider → Option (Option Payment) × MockPaymentProvider
after_capture id (done captured, payments) = (some (some captured), payments)
after_capture id (refused wrong_state, payments) =
    (captured_anyway (find id payments.payments), payments)
after_capture id (refused other, payments) = (none, payments)

abbrev pub is_authorized : PaymentStatus → Bool
is_authorized authorized = true
is_authorized _ = false

pub capture_if_needed :
    Payment → MockPaymentProvider → Option (Option Payment) × MockPaymentProvider
capture_if_needed payment payments =
    if is_captured payment.status
    then (some (some payment), payments)
    else if is_authorized payment.status
    then after_capture payment.id (capture payment.id payments)
    else (some none, payments)

abbrev pub charged : CheckoutSagaState → Option (Option Payment) → Outcome
charged state none = retryable
charged state (some none) = hopeless
charged state (some (some settled)) = went (record state { payment_id = some settled.id })

module _ (upper_case : Utf16 → Utf16) where
  abbrev pub settle :
      CheckoutSagaState → Result Payment × MockPaymentProvider → Outcome × MockPaymentProvider
  settle state (refused failure, payments) = (retryable, payments)
  settle state (done payment, payments) =
      let (settled, after) = capture_if_needed payment payments in (charged state settled, after)

  pub charge_payment : Step
  unfolding capture_if_needed
  charge_payment key state world =
      let (outcome, payments) =
        settle state (authorize upper_case (amount_of state) key world.payments) in
      (outcome, record world { payments = payments })

  abbrev pub optional :
      Result Payment × MockPaymentProvider → Result (Option Payment) × MockPaymentProvider
  optional (done payment, payments) = (done (some payment), payments)
  optional (refused failure, payments) = (refused failure, payments)

  pub resolve_payment :
      String
      → CheckoutSagaState
      → MockPaymentProvider
      → Result (Option Payment) × MockPaymentProvider
  resolve_payment key state payments = elim state.payment_id [
    | some id ↦ (done (find id payments.payments), payments)
    | none ↦ optional (authorize upper_case (amount_of state) key payments)
  ]

  abbrev pub after_refund :
      CheckoutSagaState → Result Payment × MockPaymentProvider → Outcome × MockPaymentProvider
  after_refund state (done payment, payments) = (went state, payments)
  after_refund state (refused failure, payments) = (retryable, payments)

  pub give_back :
      CheckoutSagaState
      → Result (Option Payment) × MockPaymentProvider
      → Outcome × MockPaymentProvider
  give_back state (refused failure, payments) = (retryable, payments)
  give_back state (done none, payments) = (went state, payments)
  give_back state (done (some payment), payments) =
      if is_refunded payment.status
      then (went state, payments)
      else if is_captured payment.status
      then after_refund state (refund upper_case payment.id none payments)
      else (went state, payments)

  pub refund_payment : Step
  unfolding resolve_payment give_back
  refund_payment key state world =
      let (outcome, payments) = give_back state (resolve_payment key state world.payments) in
      (outcome, record world { payments = payments })

  abbrev pub after_shipment : CheckoutSagaState → Shipped → Outcome
  after_shipment state (shipped shipment) = went (record state { shipment_id = some shipment.id })
  after_shipment state (unserviced destination) = hopeless

  pub ship : Step
  ship key state world =
      let (answer, shipping) =
        create_shipment upper_case state.order_id state.shipping_country key world.shipping in
      (after_shipment state answer, record world { shipping = shipping })

-- Once the order was looked for.
pub confirm_found : CheckoutSagaState → ℕ → String → Option Order → World → Outcome × World
confirm_found state payment_id shipment_id none world = (retryable, world)
confirm_found state payment_id shipment_id (some order) world =
    if is_confirmed order.status then (went state, world) else (
      went state,
      record world {
        orders =
            insert state.order_id (record { status = confirmed; failure_reason = none })
              world.orders;
        outbox =
            world.outbox
            ++ order_confirmed state.order_id state.user_id payment_id shipment_id ∷ [];
      },
    )

pub confirm_order : Step
unfolding confirm_found
confirm_order key state world = elim state.payment_id [
  | none ↦ (retryable, world)
  | some payment_id ↦ elim state.shipment_id [
    | none ↦ (retryable, world)
    | some shipment_id ↦
        confirm_found state payment_id shipment_id (lookup state.order_id world.orders) world
  ]
]

-- What the definition of the saga lists: the steps, and what undoes the first three.
pub data Part : Type 0 where
  accepting reserving charging shipping confirming refunding releasing : Part
  cancelling : Utf16 → Part

unfoldable pub perform : (Utf16 → Utf16) → Part → Step
perform upper_case accepting = accept_order
perform upper_case reserving = reserve_stock
perform upper_case charging = charge_payment upper_case
perform upper_case shipping = ship upper_case
perform upper_case confirming = confirm_order
perform upper_case refunding = refund_payment upper_case
perform upper_case releasing = release_stock
perform upper_case (cancelling reason) = cancel_order reason
