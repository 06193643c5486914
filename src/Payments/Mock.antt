-- ===== src/Payments/Mock.antt =====
-- src/payments/providers/mock-payment.provider.ts, with src/payments/refund-rules.ts and the payment of
-- src/payments/ports/payment-provider.port.ts. The id `pay_mock_…` is the number that it is made from.
pub mod Invariant
pub mod Reference
mod Tests
use boilerplate_nestjs_api.Prelude.{
  ℕ, ◌+◌, ◌-◌, String, Bool, true, false, List, [], ◌∷◌, Option, none, some, ltb, ◌==◌, Dict,
  lookup, insert, Utf16, same_text, if◌then◌else◌,
}
use boilerplate_nestjs_api.Payments.Money.{GivenMoney, Money, normalise_money}

pub data PaymentStatus : Type 0 where
  requires_action authorized processing succeeded partially_refunded refunded canceled failed :
      PaymentStatus

pub record Payment : Type 0 where
  pub id : ℕ
  pub status : PaymentStatus
  pub amount : Money
  pub amount_refunded : Money
  pub reference : String

pub data Failure : Type 0 where
  invalid_money not_found wrong_state : Failure

pub data Result (A : Type 0) : Type 0 where
  done : A → Result A
  refused : Failure → Result A

pub record MockPaymentProvider : Type 0 where
  pub payments : List Payment
  pub ids_by_reference : Dict ℕ
  pub sequence : ℕ

abbrev pub no_payments : MockPaymentProvider
no_payments = record { payments = []; ids_by_reference = []; sequence = 0 }

-- `payments.get(id)`
unfoldable pub find : ℕ → List Payment → Option Payment
find id [] = none
find id (p ∷ payments) = if p.id == id then some p else find id payments

-- `payments.set(payment.id, payment)`
unfoldable pub store : Payment → List Payment → List Payment
store payment [] = payment ∷ []
store payment (p ∷ payments) =
    if p.id == payment.id then payment ∷ payments else p ∷ store payment payments

abbrev pub is_refundable : PaymentStatus → Bool
is_refundable succeeded = true
is_refundable partially_refunded = true
is_refundable _ = false

-- The balance that is left. (With more refunded than the amount, the source would go below 0.)
abbrev pub remaining : Payment → ℕ
remaining payment = payment.amount.amount_minor - payment.amount_refunded.amount_minor

abbrev pub required : ℕ → List Payment → Result Payment
required id payments = elim (find id payments) [ none ↦ refused not_found | some p ↦ done p ]

abbrev pub new_payment : ℕ → Money → String → Payment
new_payment id amount reference = record {
  id = id;
  status = authorized;
  amount = amount;
  amount_refunded = record { amount_minor = 0; currency = amount.currency };
  reference = reference;
}

abbrev pub is_authorized : PaymentStatus → Bool
is_authorized authorized = true
is_authorized _ = false

unfoldable pub capture : ℕ → MockPaymentProvider → Result Payment × MockPaymentProvider
capture id m = elim (find id m.payments) [
  | none ↦ (refused not_found, m)
  | some payment ↦
      (if is_authorized payment.status
        then (
          done (record payment { status = succeeded }),
          record m { payments = store (record payment { status = succeeded }) m.payments },
        )
        else (refused wrong_state, m))
]

abbrev pub refunded_by : Payment → Money → Payment
refunded_by payment requested = record payment {
  status =
      if payment.amount_refunded.amount_minor + requested.amount_minor
        == payment.amount.amount_minor
      then refunded
      else partially_refunded;
  amount_refunded = record {
    amount_minor = payment.amount_refunded.amount_minor + requested.amount_minor;
    currency = payment.amount.currency;
  };
}

module _ (upper_case : Utf16 → Utf16) where
  abbrev pub same_currency : Money → Money → Bool
  same_currency a b = same_text (upper_case a.currency) (upper_case b.currency)

  abbrev pub requested_of : Payment → Option GivenMoney → Option Money
  requested_of payment none =
      some (record { amount_minor = remaining payment; currency = payment.amount.currency })
  requested_of payment (some amount) = normalise_money upper_case amount

  unfoldable pub resolve_refund_amount : Payment → Option GivenMoney → Result Money
  resolve_refund_amount payment amount =
      if is_refundable payment.status
      then elim (requested_of payment amount) [
        | none ↦ refused invalid_money
        | some requested ↦
            (if same_currency requested payment.amount
              then if requested.amount_minor == 0
                then refused wrong_state
                else if ltb (remaining payment) requested.amount_minor
                then refused wrong_state
                else done requested
              else refused wrong_state)
      ]
      else refused wrong_state

  unfoldable pub authorize :
      GivenMoney → String → MockPaymentProvider → Result Payment × MockPaymentProvider
  authorize given reference m = elim (normalise_money upper_case given) [
    | none ↦ (refused invalid_money, m)
    | some amount ↦ elim (lookup reference m.ids_by_reference) [
      | some existing_id ↦ (required existing_id m.payments, m)
      | none ↦ (
        done (new_payment (m.sequence + 1) amount reference),
        record {
          payments = store (new_payment (m.sequence + 1) amount reference) m.payments;
          ids_by_reference = insert reference (m.sequence + 1) m.ids_by_reference;
          sequence = m.sequence + 1;
        },
      )
    ]
  ]

  unfoldable pub refund :
      ℕ → Option GivenMoney → MockPaymentProvider → Result Payment × MockPaymentProvider
  unfolding resolve_refund_amount
  refund id amount m = elim (find id m.payments) [
    | none ↦ (refused not_found, m)
    | some payment ↦ elim (resolve_refund_amount payment amount) [
      | refused failure ↦ (refused failure, m)
      | done requested ↦ (
        done (refunded_by payment requested),
        record m { payments = store (refunded_by payment requested) m.payments },
      )
    ]
  ]
