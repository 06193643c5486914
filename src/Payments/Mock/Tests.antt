-- ===== src/Payments/Mock/Tests.antt =====
-- The provider of src/payments/providers/mock-payment.provider.ts at concrete calls.
use boilerplate_nestjs_api.Prelude.{ℕ, ◌≡◌, refl, List, [], ◌∷◌, some, pos, Utf16, every, lookup}
use boilerplate_nestjs_api.Payments.Money.{GivenMoney, Money, normalise_money, is_currency}
use boilerplate_nestjs_api.Payments.Mock.{Payment, authorized, done, no_payments, authorize}
use boilerplate_nestjs_api.Payments.Mock.Invariant.{
  Call, authorizes, captures, refunds, Each, run, run-Each,
}
use boilerplate_nestjs_api.Payments.Mock.Reference.{authorize_again}

abbrev as_given : Utf16 → Utf16
as_given text = text

abbrev eur : ℕ → GivenMoney
eur n = record { amount_minor = pos n; currency = b'E' ∷ b'U' ∷ b'R' ∷ [] }

abbrev kept : ℕ → Money
kept n = record { amount_minor = n; currency = b'E' ∷ b'U' ∷ b'R' ∷ [] }

abbrev order : Payment
order = record {
  id = 1;
  status = authorized;
  amount = kept 2350;
  amount_refunded = kept 0;
  reference = "order-1";
}

abbrev since : List Call
since = captures 1 ∷ refunds 1 (some (eur 350)) ∷ authorizes (eur 100) "order-2" ∷ []

run-Each_example :
    Each (run as_given (authorizes (eur 2350) "order-1" ∷ since) no_payments).payments
run-Each_example = run-Each as_given (authorizes (eur 2350) "order-1" ∷ since)

authorize_again_example :
    let after =
      run as_given (authorizes (eur 2350) "order-1" ∷ since) (run as_given [] no_payments) in
    (q : Payment) × (authorize as_given (eur 2350) "order-1" after ≡ (done q, after)) × (q.id ≡ 1)
unfolding run authorize normalise_money is_currency every lookup
authorize_again_example =
    authorize_again as_given [] since (eur 2350) (eur 2350) (kept 2350) "order-1" order refl refl
      refl
