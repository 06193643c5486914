-- ===== src/Payments/Mock/Reference.antt =====
-- What a reference is answered by src/payments/providers/mock-payment.provider.ts.
use boilerplate_nestjs_api.Prelude.{
  ℕ, ◌+◌, ◌≡◌, inl, inr, String, List, [], ◌∷◌, none, some, arith, eq_iff, eq_refl, ◌==◌, lookup,
  lookup-insert, Option-cases, Bool-cases, Utf16,
}
use boilerplate_nestjs_api.Payments.Money.{GivenMoney, Money, normalise_money}
use boilerplate_nestjs_api.Payments.Mock.{
  Payment, done, MockPaymentProvider, no_payments, find, store, authorize, capture, refund,
  new_payment,
}
use boilerplate_nestjs_api.Payments.Mock.Invariant.{
  Each, find-store, Call, authorizes, captures, refunds, apply, run, apply-payments, apply-Each,
  run-Each,
}

pub find-id :
    (id : ℕ) (payments : List Payment) (p : Payment) → find id payments ≡ some p → p.id ≡ id
unfolding find
find-id id [] p found = cc
find-id id (q ∷ payments) p found = ground (arith, find-id id payments p)

-- A payment that is there is still there, maybe changed, after another or itself is stored.
find-store-some :
    (p : Payment) (id : ℕ) (payments : List Payment) (q : Payment)
    → find id payments ≡ some q
    → (r : Payment) × find id (store p payments) ≡ some r
find-store-some p id payments q found = elim (Bool-cases (p.id == id)) [
  | inl here ↦ (p, ground (arith, find-store p id payments, here))
  | inr other ↦ (q, ground (arith, find-store p id payments, other, found))
]

-- The reference has the payment of the id.
abbrev pub Has : String → ℕ → MockPaymentProvider → Type 0
Has reference id m =
    (lookup reference m.ids_by_reference ≡ some id) × ((p : Payment) × find id m.payments ≡ some p)

module _ (upper_case : Utf16 → Utf16) where
  apply-ids :
      (reference : String) (id : ℕ) (call : Call) (m : MockPaymentProvider)
      → lookup reference m.ids_by_reference ≡ some id
      → lookup reference (apply upper_case call m).ids_by_reference ≡ some id
  unfolding apply authorize capture refund
  apply-ids reference id (authorizes given other) m known = ground (
    arith,
    eq_iff other reference,
    lookup-insert other reference (m.sequence + 1) m.ids_by_reference,
  )
  apply-ids reference id (captures other) m known = ground arith
  apply-ids reference id (refunds other amount) m known = ground arith

  apply-Has :
      (reference : String) (id : ℕ) (call : Call) (m : MockPaymentProvider)
      → Each m.payments
      → Has reference id m
      → Has reference id (apply upper_case call m)
  apply-Has reference id call m each has = (
    apply-ids reference id call m has.0,
    elim (apply-payments upper_case call m each) [
      | inl same ↦ (has.1.0, ground (arith, same, has.1.1))
      | inr (p, sound, stored) ↦
          let (kept, there) = find-store-some p id m.payments has.1.0 has.1.1 in
          (kept, ground (arith, stored, there))
    ],
  )

  run-Has :
      (reference : String) (id : ℕ) (calls : List Call) (m : MockPaymentProvider)
      → Each m.payments
      → Has reference id m
      → Has reference id (run upper_case calls m)
  unfolding run
  run-Has reference id [] m each has = has
  run-Has reference id (call ∷ calls) m each has =
      run-Has reference id calls (apply upper_case call m) (apply-Each upper_case call m each)
        (apply-Has reference id call m each has)

  authorize-Has :
      (given : GivenMoney) (reference : String) (m : MockPaymentProvider) (p : Payment)
      → lookup reference m.ids_by_reference ≡ none
      → (authorize upper_case given reference m).0 ≡ done p
      → Has reference p.id (authorize upper_case given reference m).1
  unfolding authorize
  authorize-Has given reference m p free made =
      elim (Option-cases (normalise_money upper_case given)) [
        | inl bad ↦ ground (arith, bad)
        | inr (amount, good) ↦
            let fresh = new_payment (m.sequence + 1) amount reference in
            (
              ground (
                arith,
                good,
                eq_refl reference,
                lookup-insert reference reference (m.sequence + 1) m.ids_by_reference,
              ),
              (fresh, ground (arith, good, find-store fresh (m.sequence + 1) m.payments)),
            )
      ]

  -- A reference that was authorized for the first time, and whatever is authorized, captured and
  -- refunded since: to authorize it again, for any amount that is well formed, answers the payment that
  -- it was given then and changes nothing.
  pub authorize_again :
      (before calls : List Call) (given given' : GivenMoney) (amount' : Money) (reference : String)
      (p : Payment)
      → lookup reference (run upper_case before no_payments).ids_by_reference ≡ none
      → (authorize upper_case given reference (run upper_case before no_payments)).0 ≡ done p
      → normalise_money upper_case given' ≡ some amount'
      → let after =
          run upper_case (authorizes given reference ∷ calls) (run upper_case before no_payments) in
        (q : Payment) × (authorize upper_case given' reference after ≡ (done q, after))
        × (q.id ≡ p.id)
  authorize_again before calls given given' amount' reference p free made good =
      let m = run upper_case before no_payments in
      let authorized_m = (authorize upper_case given reference m).1 in
      let (known, (q, there)) =
        run-Has reference p.id calls authorized_m
          (unfold apply in
            apply-Each upper_case (authorizes given reference) m (run-Each upper_case before))
          (authorize-Has given reference m p free made) in
      (
        q,
        unfold run apply authorize in ground (arith, good, known, there),
        find-id p.id (run upper_case calls authorized_m).payments q there,
      )
