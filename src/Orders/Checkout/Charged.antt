-- ===== src/Orders/Checkout/Charged.antt =====
-- What a checkout of src/orders/checkout.saga.ts charges, and gives back when it is undone.
use boilerplate_nestjs_api.Prelude.{
  ◌+◌, ◌<◌, ◌≡◌, ◌⊎◌, inl, inr, String, none, some, arith, eq_refl, same_text_refl, lookup, insert,
  lookup-insert, Utf16,
}
use boilerplate_nestjs_api.Payments.Money.{Money, normalise_money}
use boilerplate_nestjs_api.Payments.Mock.{
  succeeded, refunded, Payment, MockPaymentProvider, store, authorize, capture, refund, new_payment,
  resolve_refund_amount,
}
use boilerplate_nestjs_api.Payments.Mock.Invariant.{find-store}
use boilerplate_nestjs_api.Orders.Checkout.{
  World, CheckoutSagaState, went, amount_of, capture_if_needed, charge_payment, resolve_payment,
  give_back, refund_payment,
}

-- The payments after an amount that is well formed was authorized under a key that is new, after it was
-- captured too, and after all of it was given back.
module _ (amount : Money) (key : String) (before : MockPaymentProvider) where
  abbrev pub fresh : Payment
  fresh = new_payment (before.sequence + 1) amount key

  abbrev pub paid : Payment
  paid = record fresh { status = succeeded }

  abbrev pub returned : Payment
  returned = record fresh { status = refunded; amount_refunded = amount }

  abbrev pub with_fresh : MockPaymentProvider
  with_fresh = record {
    payments = store fresh before.payments;
    ids_by_reference = insert key (before.sequence + 1) before.ids_by_reference;
    sequence = before.sequence + 1;
  }

  abbrev pub with_paid : MockPaymentProvider
  with_paid = record {
    payments = store paid (store fresh before.payments);
    ids_by_reference = insert key (before.sequence + 1) before.ids_by_reference;
    sequence = before.sequence + 1;
  }

  abbrev pub with_returned : MockPaymentProvider
  with_returned = record with_paid { payments = store returned with_paid.payments }

module _ (upper_case : Utf16 → Utf16) where
  pub charge-with_paid :
      (key : String) (state : CheckoutSagaState) (world : World) (amount : Money)
      → normalise_money upper_case (amount_of state) ≡ some amount
      → lookup key world.payments.ids_by_reference ≡ none
      → charge_payment upper_case key state world ≡ (
        went (record state { payment_id = some (world.payments.sequence + 1) }),
        record world { payments = with_paid amount key world.payments },
      )
  unfolding charge_payment capture_if_needed authorize capture
  charge-with_paid key state world amount good free = ground (
    arith,
    good,
    free,
    find-store (fresh amount key world.payments) (world.payments.sequence + 1)
        world.payments.payments,
  )

  -- The state may have lost the payment.
  pub refund-with_returned :
      (key : String) (state : CheckoutSagaState) (world : World) (before : MockPaymentProvider)
      (amount : Money)
      → normalise_money upper_case (amount_of state) ≡ some amount
      → 0 < amount.amount_minor
      → (state.payment_id ≡ none) ⊎ (state.payment_id ≡ some (before.sequence + 1))
      → refund_payment upper_case key state
          (record world { payments = with_paid amount key before })
        ≡ (went state, record world { payments = with_returned amount key before })
  unfolding refund_payment resolve_payment give_back authorize refund resolve_refund_amount
  refund-with_returned key state world before amount good positive named = ground (
    arith,
    good,
    positive,
    named,
    eq_refl key,
    same_text_refl (upper_case amount.currency),
    lookup-insert key key (before.sequence + 1) before.ids_by_reference,
    find-store (paid amount key before) (before.sequence + 1)
        (store (fresh amount key before) before.payments),
  )

  pub authorize-with_fresh :
      (key : String) (state : CheckoutSagaState) (before : MockPaymentProvider) (amount : Money)
      → normalise_money upper_case (amount_of state) ≡ some amount
      → lookup key before.ids_by_reference ≡ none
      → (authorize upper_case (amount_of state) key before).1 ≡ with_fresh amount key before
  unfolding authorize
  authorize-with_fresh key state before amount good free = ground (arith, good, free)

  -- Nothing was captured: what is authorized, now or before, is left to lapse.
  pub refund-with_fresh :
      (key : String) (state : CheckoutSagaState) (world : World) (before : MockPaymentProvider)
      (amount : Money)
      → normalise_money upper_case (amount_of state) ≡ some amount
      → lookup key before.ids_by_reference ≡ none
      → state.payment_id ≡ none
      → (world.payments ≡ before) ⊎ (world.payments ≡ with_fresh amount key before)
      → refund_payment upper_case key state world
        ≡ (went state, record world { payments = with_fresh amount key before })
  unfolding refund_payment resolve_payment give_back authorize
  refund-with_fresh key state world before amount good free unpaid (inl same) =
      ground (arith, good, free, unpaid, same)
  refund-with_fresh key state world before amount good free unpaid (inr held) = ground (
    arith,
    good,
    unpaid,
    held,
    eq_refl key,
    lookup-insert key key (before.sequence + 1) before.ids_by_reference,
    find-store (fresh amount key before) (before.sequence + 1) before.payments,
  )
