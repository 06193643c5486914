-- ===== src/Payments/Mock/Invariant.antt =====
-- What the provider of src/payments/providers/mock-payment.provider.ts keeps of its payments.
use boilerplate_nestjs_api.Prelude.{
  ℕ, ◌+◌, ◌≤◌, ◌<◌, ◌≡◌, refl, sym, ◌⊎◌, inl, inr, String, true, List, [], ◌∷◌, Option, some, arith,
  ◌==◌, lookup, Option-cases, Bool-cases, subst, Utf16, if◌then◌else◌,
}
use boilerplate_nestjs_api.Payments.Money.{GivenMoney, Money, normalise_money}
use boilerplate_nestjs_api.Payments.Mock.{
  PaymentStatus, authorized, succeeded, partially_refunded, refunded, Payment, Failure, Result,
  is_authorized, done, refused, MockPaymentProvider, no_payments, find, store,
  resolve_refund_amount, authorize, capture, refund, refunded_by, new_payment,
}

-- The amounts agree with the status.
abbrev pub Agrees : PaymentStatus → ℕ → ℕ → Type 0
Agrees authorized amount back = back ≡ 0
Agrees succeeded amount back = back ≡ 0
Agrees partially_refunded amount back = (0 < back) × (back < amount)
Agrees refunded amount back = (0 < back) × (back ≡ amount)
Agrees _ amount back = ⊥

abbrev pub IsSound : Payment → Type 0
IsSound p = Agrees p.status p.amount.amount_minor p.amount_refunded.amount_minor

abbrev pub Each : List Payment → Type 0
Each [] = Unit {0}
Each (p ∷ payments) = IsSound p × Each payments

find-Each :
    (id : ℕ) (payments : List Payment) (p : Payment)
    → Each payments
    → find id payments ≡ some p
    → IsSound p
unfolding find
find-Each id [] p each found = cc
find-Each id (q ∷ payments) p each found = elim (Bool-cases (q.id == id)) [
  | inl here ↦ subst IsSound (the_one here) each.0
  | inr other ↦ find-Each id payments p each.1 (ground (arith, found, other))
]
  where
    the_one : (q.id == id) ≡ true → q ≡ p
    the_one here = ground (arith, found, here)

store-Each :
    (p : Payment) (payments : List Payment) → IsSound p → Each payments → Each (store p payments)
unfolding store
store-Each p [] sound each = (sound, tt)
store-Each p (q ∷ payments) sound each = elim (Bool-cases (q.id == p.id)) [
  | inl here ↦ rw here (sound, each.1)
  | inr other ↦ rw other (each.0, store-Each p payments sound each.1)
]

pub find-store :
    (p : Payment) (id : ℕ) (payments : List Payment)
    → find id (store p payments) ≡ (if p.id == id then some p else find id payments)
unfolding find store
find-store p id [] = refl
find-store p id (q ∷ payments) = ground (arith, find-store p id payments)

pub data Call : Type 0 where
  authorizes : GivenMoney → String → Call
  captures : ℕ → Call
  refunds : ℕ → Option GivenMoney → Call

authorized-back :
    (p : Payment) → IsSound p → is_authorized p.status ≡ true → p.amount_refunded.amount_minor ≡ 0
authorized-back p sound waiting = ground (arith, sound, waiting)

refunded_by-IsSound :
    (p : Payment) (requested : Money)
    → (0 < requested.amount_minor)
      × (p.amount_refunded.amount_minor + requested.amount_minor ≤ p.amount.amount_minor)
    → IsSound (refunded_by p requested)
refunded_by-IsSound p requested (some_, fits) = ground arith

Result-cases : (r : Result Money) → ((f : Failure) × r ≡ refused f) ⊎ ((m : Money) × r ≡ done m)
Result-cases (refused f) = inl (f, refl)
Result-cases (done m) = inr (m, refl)

module _ (upper_case : Utf16 → Utf16) where
  granted-bounds :
      (p : Payment) (amount : Option GivenMoney) (requested : Money)
      → IsSound p
      → resolve_refund_amount upper_case p amount ≡ done requested
      → (0 < requested.amount_minor)
        × (p.amount_refunded.amount_minor + requested.amount_minor ≤ p.amount.amount_minor)
  unfolding resolve_refund_amount
  granted-bounds p amount requested sound granted = ground (arith, granted)

  resolved :
      (p : Payment) (amount : Option GivenMoney)
      → ((f : Failure) × resolve_refund_amount upper_case p amount ≡ refused f)
        ⊎ ((requested : Money) × resolve_refund_amount upper_case p amount ≡ done requested)
  resolved p amount = Result-cases (resolve_refund_amount upper_case p amount)

  unfoldable pub apply : Call → MockPaymentProvider → MockPaymentProvider
  apply (authorizes given reference) m = (authorize upper_case given reference m).1
  apply (captures id) m = (capture id m).1
  apply (refunds id amount) m = (refund upper_case id amount m).1

  unfoldable pub run : List Call → MockPaymentProvider → MockPaymentProvider
  run [] m = m
  run (call ∷ calls) m = run calls (apply call m)

  -- A call leaves the payments, or stores one that is sound.
  pub apply-payments :
      (call : Call) (m : MockPaymentProvider)
      → Each m.payments
      → ((apply call m).payments ≡ m.payments)
        ⊎ ((p : Payment) × IsSound p × (apply call m).payments ≡ store p m.payments)
  unfolding apply authorize capture refund
  apply-payments (authorizes given reference) m each =
      elim (Option-cases (normalise_money upper_case given)) [
        | inl bad ↦ inl (ground (arith, bad))
        | inr (amount, good) ↦ elim (Option-cases (lookup reference m.ids_by_reference)) [
          | inr (id, there) ↦ inl (ground (arith, good, there))
          | inl free ↦
              inr (new_payment (m.sequence + 1) amount reference, refl, ground (arith, good, free))
        ]
      ]
  apply-payments (captures id) m each = elim (Option-cases (find id m.payments)) [
    | inl gone ↦ inl (ground (arith, gone))
    | inr (p, there) ↦ elim (Bool-cases (is_authorized p.status)) [
      | inr other ↦ inl (ground (arith, there, other))
      | inl waiting ↦ inr (
        record p { status = succeeded },
        authorized-back p (find-Each id m.payments p each there) waiting,
        ground (arith, there, waiting),
      )
    ]
  ]
  apply-payments (refunds id amount) m each = elim (Option-cases (find id m.payments)) [
    | inl gone ↦ inl (ground (arith, gone))
    | inr (p, there) ↦ elim (resolved p amount) [
      | inl (failure, denied) ↦ inl (ground (arith, there, denied))
      | inr (requested, granted) ↦ inr (
        refunded_by p requested,
        refunded_by-IsSound p requested
            (granted-bounds p amount requested (find-Each id m.payments p each there) granted),
        ground (arith, there, granted),
      )
    ]
  ]

  pub apply-Each :
      (call : Call) (m : MockPaymentProvider) → Each m.payments → Each (apply call m).payments
  apply-Each call m each = elim (apply-payments call m each) [
    | inl same ↦ subst Each (sym same) each
    | inr (p, sound, stored) ↦ subst Each (sym stored) (store-Each p m.payments sound each)
  ]

  run_from-Each :
      (calls : List Call) (m : MockPaymentProvider) → Each m.payments → Each (run calls m).payments
  unfolding run
  run_from-Each [] m each = each
  run_from-Each (call ∷ calls) m each = run_from-Each calls (apply call m) (apply-Each call m each)

  -- Whatever is authorized, captured and refunded, every payment has an amount refunded that agrees
  -- with its status: nothing while it is authorized or captured, some and not all when it is partly
  -- refunded, all when it is refunded; it has no other status, and never more than the amount back.
  pub run-Each : (calls : List Call) → Each (run calls no_payments).payments
  run-Each calls = run_from-Each calls no_payments tt
