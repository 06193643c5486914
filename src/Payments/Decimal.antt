-- ===== src/Payments/Decimal.antt =====
-- src/payments/money.ts: an amount as the decimal text that PayPal takes, and back.
pub mod RoundTrip
mod Tests
use boilerplate_nestjs_api.Prelude.{
  ℕ, zero, suc, ◌+◌, ◌-◌, Bool, ◌&&◌, ◌||◌, List, [], ◌∷◌, ◌++◌, Option, none, some, ltb, leb, ◌==◌,
  length, take, drop, replicate, Utf16, utf16, same_text, every, decimal, if◌then◌else◌,
}
use boilerplate_nestjs_api.Payments.Money.{
  GivenMoney, Money, is_currency, normalise_money, max_safe_integer,
}
use boilerplate_nestjs_api.Streaming.Cursor.{is_digit, number, trim}

unfoldable pub zero_decimal : Utf16 → Bool
zero_decimal currency =
    same_text currency (utf16 "HUF")
    || (same_text currency (utf16 "JPY") || same_text currency (utf16 "TWD"))

unfoldable pub minor_unit_exponent : (Utf16 → Utf16) → Utf16 → ℕ
minor_unit_exponent upper_case currency = if zero_decimal (upper_case currency) then 0 else 2

-- `padStart` and `padEnd`, with zeros.
unfoldable pub pad_start : ℕ → Utf16 → Utf16
pad_start width s = replicate (width - length s) b'0' ++ s

unfoldable pub pad_end : ℕ → Utf16 → Utf16
pad_end width s = s ++ replicate (width - length s) b'0'

-- The digits with a point before as many of them as the exponent says.
pub with_point : ℕ → Utf16 → Utf16
with_point exponent digits =
    take (length digits - exponent) digits ++ b'.' ∷ drop (length digits - exponent) digits

pub render : ℕ → ℕ → Utf16
unfolding with_point pad_start
render zero amount = decimal amount
render (suc exponent) amount =
    with_point (suc exponent) (pad_start (suc exponent + 1) (decimal amount))

-- `none`: `InvalidMoneyError`, here and below.
unfoldable pub to_decimal_string : (Utf16 → Utf16) → GivenMoney → Option Utf16
unfolding render
to_decimal_string upper_case money = elim (normalise_money upper_case money) [
  | none ↦ none
  | some normal ↦ some (render (minor_unit_exponent upper_case normal.currency) normal.amount_minor)
]

-- The digits that a text starts with, and what follows them.
pub leading_digits : Utf16 → Utf16
leading_digits [] = []
leading_digits (c ∷ s) = let rest = leading_digits s in if is_digit c then c ∷ rest else []

-- `(?:\.(\d+))?$`, the digits of the fraction.
pub fraction_of : Utf16 → Option Utf16
fraction_of [] = some []
fraction_of (point ∷ []) = none
fraction_of (point ∷ c ∷ s) = if point == b'.' && every is_digit (c ∷ s) then some (c ∷ s) else none

pub in_range : Utf16 → ℕ → Option Money
in_range currency amount =
    if leb amount max_safe_integer
    then some (record { amount_minor = amount; currency = currency })
    else none

pub with_fraction : ℕ → Utf16 → Utf16 → Option Utf16 → Option Money
unfolding in_range
with_fraction exponent currency whole none = none
with_fraction exponent currency whole (some fraction) =
    if ltb exponent (length fraction)
    then none
    else in_range currency (number 0 (whole ++ pad_end exponent fraction))

pub read_decimal : ℕ → Utf16 → Utf16 → Option Money
unfolding leading_digits fraction_of with_fraction
read_decimal exponent currency text =
    if length (leading_digits text) == 0
    then none
    else with_fraction exponent currency (leading_digits text)
        (fraction_of (drop (length (leading_digits text)) text))

unfoldable pub from_decimal_string : (Utf16 → Utf16) → Utf16 → Utf16 → Option Money
unfolding read_decimal
from_decimal_string upper_case value currency =
    if is_currency (upper_case currency)
    then read_decimal (minor_unit_exponent upper_case (upper_case currency)) (upper_case currency)
        (trim value)
    else none
