-- ===== src/Payments/Money.antt =====
-- src/payments/money.ts: an amount as it is given, and as the domain keeps it. `upper_case` is the
-- `toUpperCase` of the runtime. An amount that is given is a whole number.
use boilerplate_nestjs_api.Prelude.{
  ℕ, Bool, ◌&&◌, Option, none, some, leb, ◌==◌, length, Utf16, every, ℤ, pos, negsuc, if◌then◌else◌,
}

pub record GivenMoney : Type 0 where
  pub amount_minor : ℤ
  pub currency : Utf16

pub record Money : Type 0 where
  pub amount_minor : ℕ
  pub currency : Utf16

abbrev pub max_safe_integer : ℕ
max_safe_integer = 9007199254740991

abbrev is_upper : ℕ → Bool
is_upper c = leb b'A' c && leb c b'Z'

-- `/^[A-Z]{3}$/`
unfoldable pub is_currency : Utf16 → Bool
unfolding every
is_currency text = length text == 3 && every is_upper text

-- `none`: `InvalidMoneyError`.
unfoldable pub normalise_money : (Utf16 → Utf16) → GivenMoney → Option Money
normalise_money upper_case money =
    if is_currency (upper_case money.currency) then in_range money.amount_minor else none
  where
    in_range : ℤ → Option Money
    in_range (negsuc n) = none
    in_range (pos n) =
        if leb n max_safe_integer
        then some (record { amount_minor = n; currency = upper_case money.currency })
        else none
