-- ===== src/Payments/Decimal/RoundTrip.antt =====
-- That an amount of src/payments/money.ts is read from its decimal text as it was written.
use boilerplate_nestjs_api.Prelude.{
  ℕ, zero, suc, ◌-◌, ◌≤◌, ◌<◌, ◌≡◌, refl, sym, ap, subst, ◌∙◌, inl, inr, true, false, [], ◌∷◌, ◌++◌,
  some, arith, ltb, leb, length, take, drop, replicate, length-append, take-drop, every, Utf16,
  decimal, pos, Bool-cases,
}
use boilerplate_nestjs_api.Payments.Money.{is_currency, normalise_money, max_safe_integer}
use boilerplate_nestjs_api.Payments.Decimal.{
  zero_decimal, minor_unit_exponent, pad_start, pad_end, with_point, render, to_decimal_string,
  leading_digits, fraction_of, in_range, with_fraction, read_decimal, from_decimal_string,
}
use boilerplate_nestjs_api.Streaming.Cursor.{is_digit, number, trim}
use boilerplate_nestjs_api.Streaming.Cursor.Digits.{number-decimal, every-decimal, decimal-length}
use boilerplate_nestjs_api.Streaming.Cursor.RoundTrip.{
  is_ink, every-append, every-weaken, trim-ink, digit-ink, drop-append,
}

append-nil : (s : Utf16) → s ++ [] ≡ s
append-nil [] = refl
append-nil (c ∷ s) = ap (λ rest. c ∷ rest) (append-nil s)

length-drop : (k : ℕ) (s : Utf16) → length (drop k s) ≡ length s - k
length-drop zero s = ground arith
length-drop (suc k) [] = ground arith
length-drop (suc k) (c ∷ s) = ground (arith, length-drop k s)

every-take-drop :
    (k : ℕ) (s : Utf16)
    → every is_digit s ≡ true
    → (every is_digit (take k s) ≡ true) × (every is_digit (drop k s) ≡ true)
unfolding every
every-take-drop zero s digits = (refl, digits)
every-take-drop (suc k) [] digits = (refl, refl)
every-take-drop (suc k) (c ∷ s) digits =
    let rest = every-take-drop k s (ground (arith, digits)) in
    (ground (arith, digits, rest.0), rest.1)

leading_digits-append :
    (whole rest : Utf16)
    → every is_digit whole ≡ true
    → leading_digits rest ≡ []
    → leading_digits (whole ++ rest) ≡ whole
unfolding leading_digits every
leading_digits-append [] rest digits other = other
leading_digits-append (c ∷ whole) rest digits other = elim (Bool-cases (is_digit c)) [
  | inl digit ↦
      rw digit (ap (λ s. c ∷ s) (leading_digits-append whole rest (ground (arith, digits)) other))
  | inr stray ↦ cc
]

number-zeros : (k : ℕ) (s : Utf16) → number 0 (replicate k b'0' ++ s) ≡ number 0 s
unfolding number
number-zeros zero s = refl
number-zeros (suc k) s = number-zeros k s

every-zeros : (k : ℕ) → every is_digit (replicate k b'0') ≡ true
unfolding every
every-zeros zero = refl
every-zeros (suc k) = every-zeros k

length-zeros : (k : ℕ) → length {A = ℕ} (replicate k b'0') ≡ k
length-zeros zero = refl
length-zeros (suc k) = ground (arith, length-zeros k)

-- What a text of digits, with a rest that does not start with one, is read as.
read_decimal-append :
    (exponent : ℕ) (currency whole rest : Utf16)
    → every is_digit whole ≡ true
    → 0 < length whole
    → leading_digits rest ≡ []
    → read_decimal exponent currency (whole ++ rest)
      ≡ with_fraction exponent currency whole (fraction_of rest)
unfolding read_decimal
read_decimal-append exponent currency whole rest digits more other =
    rw (leading_digits-append whole rest digits other, drop-append whole rest)
      (ground (arith, more))

fraction_of-digits :
    (fraction : Utf16)
    → 0 < length fraction
    → every is_digit fraction ≡ true
    → fraction_of (b'.' ∷ fraction) ≡ some fraction
unfolding fraction_of
fraction_of-digits [] more digits = absurd (omega (arith, more))
fraction_of-digits (c ∷ fraction) more digits = rw digits refl

pad_end-full : (s : Utf16) → pad_end (length s) s ≡ s
unfolding pad_end
pad_end-full s = let spare : length s - length s ≡ 0 = omega arith in rw spare (append-nil s)

with_fraction-full :
    (currency whole fraction : Utf16)
    → with_fraction (length fraction) currency whole (some fraction)
      ≡ in_range currency (number 0 (whole ++ fraction))
unfolding with_fraction
with_fraction-full currency whole fraction =
    let fits : ltb (length fraction) (length fraction) ≡ false = ground arith in
    rw (fits, pad_end-full fraction) refl

-- What `padStart` makes of the digits of a number.
pad_start-digits :
    (width n : ℕ)
    → (every is_digit (pad_start width (decimal n)) ≡ true)
      × (width ≤ length (pad_start width (decimal n)))
      × (number 0 (pad_start width (decimal n)) ≡ n)
unfolding pad_start
pad_start-digits width n = (
  every-append is_digit (replicate (width - length (decimal n)) b'0') (decimal n)
      (every-zeros (width - length (decimal n))) (every-decimal n),
  ground (
    arith,
    length-append (replicate (width - length (decimal n)) b'0') (decimal n),
    length-zeros (width - length (decimal n)),
  ),
  number-zeros (width - length (decimal n)) (decimal n) ∙ number-decimal n,
)

-- The text with two digits behind the point.
read_decimal-with_point :
    (currency digits : Utf16)
    → every is_digit digits ≡ true
    → 3 ≤ length digits
    → read_decimal 2 currency (with_point 2 digits) ≡ in_range currency (number 0 digits)
unfolding with_point leading_digits
read_decimal-with_point currency digits all enough =
    let k = length digits - 2 in
    let parts = every-take-drop k digits all in
    let two : length (drop k digits) ≡ 2 = omega (arith, length-drop k digits, enough) in
    let whole : 0 < length (take k digits) = omega (
      arith,
      ap length (take-drop k digits),
      length-append (take k digits) (drop k digits),
      two,
      enough,
    ) in
    read_decimal-append 2 currency (take k digits) (b'.' ∷ drop k digits) parts.0 whole refl
    ∙ ap (with_fraction 2 currency (take k digits))
        (fraction_of-digits (drop k digits) (omega (arith, two)) parts.1)
    ∙ subst
        (λ e.
          with_fraction e currency (take k digits) (some (drop k digits))
          ≡ in_range currency (number 0 (take k digits ++ drop k digits)))
        two (with_fraction-full currency (take k digits) (drop k digits))
    ∙ ap (λ s. in_range currency (number 0 s)) (take-drop k digits)

read_decimal-whole :
    (currency digits : Utf16)
    → every is_digit digits ≡ true
    → 0 < length digits
    → read_decimal 0 currency digits ≡ in_range currency (number 0 digits)
unfolding leading_digits fraction_of
read_decimal-whole currency digits all more =
    ap (read_decimal 0 currency) (sym (append-nil digits))
    ∙ read_decimal-append 0 currency digits [] all more refl
    ∙ with_fraction-full currency digits []
    ∙ ap (λ s. in_range currency (number 0 s)) (append-nil digits)

render_whole :
    (currency : Utf16) (n : ℕ) → read_decimal 0 currency (trim (render 0 n)) ≡ in_range currency n
unfolding render
render_whole currency n =
    ap (read_decimal 0 currency)
      (trim-ink (decimal n) (every-weaken is_digit is_ink (decimal n) digit-ink (every-decimal n)))
    ∙ read_decimal-whole currency (decimal n) (every-decimal n) (decimal-length n)
    ∙ ap (in_range currency) (number-decimal n)

with_point-ink :
    (k : ℕ) (digits : Utf16)
    → every is_digit digits ≡ true
    → every is_ink (with_point k digits) ≡ true
unfolding with_point every
with_point-ink k digits all =
    let parts = every-take-drop (length digits - k) digits all in
    every-append is_ink (take (length digits - k) digits) (b'.' ∷ drop (length digits - k) digits)
      (every-weaken is_digit is_ink (take (length digits - k) digits) digit-ink parts.0)
      (every-weaken is_digit is_ink (drop (length digits - k) digits) digit-ink parts.1)

render_cents :
    (currency : Utf16) (n : ℕ) → read_decimal 2 currency (trim (render 2 n)) ≡ in_range currency n
unfolding render
render_cents currency n =
    let digits = pad_start-digits 3 n in
    ap (read_decimal 2 currency) (
      trim-ink (with_point 2 (pad_start 3 (decimal n)))
        (with_point-ink 2 (pad_start 3 (decimal n)) digits.0))
    ∙ read_decimal-with_point currency (pad_start 3 (decimal n)) digits.0 digits.1
    ∙ ap (in_range currency) digits.2

render-exponent :
    (upper_case : Utf16 → Utf16) (currency kept : Utf16) (n : ℕ)
    → read_decimal
        (minor_unit_exponent upper_case currency)
        kept
        (trim (render (minor_unit_exponent upper_case currency) n))
      ≡ in_range kept n
unfolding minor_unit_exponent
render-exponent upper_case currency kept n =
    elim (Bool-cases (zero_decimal (upper_case currency))) [
      | inl whole ↦ rw whole (render_whole kept n)
      | inr cents ↦ rw cents (render_cents kept n)
    ]

normalise_money-accepted :
    (upper_case : Utf16 → Utf16) (currency : Utf16) (n : ℕ)
    → is_currency (upper_case currency) ≡ true
    → leb n max_safe_integer ≡ true
    → normalise_money upper_case (record { amount_minor = pos n; currency = currency })
      ≡ some (record { amount_minor = n; currency = upper_case currency })
unfolding normalise_money
normalise_money-accepted upper_case currency n accepted fits = rw (accepted, fits) refl

-- An amount of a currency that is accepted, up to the greatest safe integer, has a decimal text, which is
-- read as that amount of the currency in capitals, whatever the capitals of a text are.
pub decimal_round_trip :
    (upper_case : Utf16 → Utf16) (currency : Utf16) (n : ℕ)
    → is_currency (upper_case currency) ≡ true
    → n ≤ max_safe_integer
    → (text : Utf16) × (to_decimal_string upper_case
          (record { amount_minor = pos n; currency = currency })
        ≡ some text)
      × (from_decimal_string upper_case text currency
          ≡ some (record { amount_minor = n; currency = upper_case currency }))
unfolding to_decimal_string from_decimal_string in_range
decimal_round_trip upper_case currency n accepted safe =
    let fits : leb n max_safe_integer ≡ true = ground (arith, safe) in
    (
      render (minor_unit_exponent upper_case (upper_case currency)) n,
      rw (to_decimal_string, normalise_money-accepted upper_case currency n accepted fits) refl,
      rw accepted
          (render-exponent upper_case (upper_case currency) (upper_case currency) n ∙ rw fits refl),
    )
