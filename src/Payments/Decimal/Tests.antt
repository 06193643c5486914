-- ===== src/Payments/Decimal/Tests.antt =====
-- Runs of the model of the decimal texts of src/payments/money.ts at concrete inputs.
use boilerplate_nestjs_api.Prelude.{
  ◌≡◌, refl, some, utf16, Utf16, every, same_text, decimal, digits_from, pos, arith,
}
use boilerplate_nestjs_api.Payments.Money.{is_currency, normalise_money}
use boilerplate_nestjs_api.Payments.Decimal.{
  to_decimal_string, from_decimal_string, minor_unit_exponent, zero_decimal, pad_start,
}
use boilerplate_nestjs_api.Payments.Decimal.RoundTrip.{decimal_round_trip}

abbrev as_it_is : Utf16 → Utf16
as_it_is s = s

abbrev eur : Utf16
unfolding utf16
eur = utf16 "EUR"

cents :
    to_decimal_string as_it_is (record { amount_minor = pos 5; currency = eur })
    ≡ some (utf16 "0.05")
unfolding utf16 to_decimal_string normalise_money is_currency every minor_unit_exponent zero_decimal
    same_text pad_start decimal digits_from
cents = refl

decimal_round_trip_example :
    (text : Utf16) × (to_decimal_string as_it_is
        (record { amount_minor = pos 2350; currency = eur })
      ≡ some text)
    × (from_decimal_string as_it_is text eur
        ≡ some (record { amount_minor = 2350; currency = eur }))
unfolding utf16 is_currency every
decimal_round_trip_example = decimal_round_trip as_it_is eur 2350 refl (omega arith)
