-- ===== src/Streaming/Cursor/Digits.antt =====
-- What a number in src/streaming/stream-cursor.ts looks like, and that it is read as it was written.
use boilerplate_nestjs_api.Prelude.{
  ℕ, zero, suc, ◌+◌, ◌*◌, ◌/◌, ◌%◌, ◌≤◌, ◌<◌, ◌≡◌, refl, sym, subst, inl, inr, true, [], ◌∷◌, arith,
  ltb, length, every, Utf16, digits_from, decimal, Bool-cases,
}
use boilerplate_nestjs_api.Streaming.Cursor.{number, is_digit}

-- The last digit, read after the others.
number_last : (n : ℕ) (out : Utf16) → number (n / 10) ((b'0' + n % 10) ∷ out) ≡ number n out
unfolding number
number_last n out = ground arith

number-digits_from :
    (fuel n : ℕ) (out : Utf16) → n < fuel → number 0 (digits_from fuel n out) ≡ number n out
unfolding digits_from number
number-digits_from zero n out enough = absurd (omega arith)
number-digits_from (suc fuel) n out enough = elim (Bool-cases (ltb n 10)) [
  | inl small ↦ rw small (ground arith)
  | inr large ↦ ground (
    arith,
    large,
    enough,
    number-digits_from fuel (n / 10) ((b'0' + n % 10) ∷ out),
    number_last n out,
  )
]

pub number-decimal : (n : ℕ) → number 0 (decimal n) ≡ n
unfolding decimal number
number-decimal n = number-digits_from (suc n) n [] (omega arith)

every-digits_from :
    (fuel n : ℕ) (out : Utf16) → every is_digit (digits_from fuel n out) ≡ every is_digit out
unfolding digits_from every
every-digits_from zero n out = refl
every-digits_from (suc fuel) n out =
    ground (arith, every-digits_from fuel (n / 10) ((b'0' + n % 10) ∷ out))

pub every-decimal : (n : ℕ) → every is_digit (decimal n) ≡ true
unfolding decimal every
every-decimal n = every-digits_from (suc n) n []

-- A power of ten.
unfoldable pub tens : ℕ → ℕ
tens zero = 1
tens (suc k) = 10 * tens k

length-digits_from :
    (fuel n k : ℕ) (out : Utf16)
    → n < tens (suc k)
    → length (digits_from fuel n out) ≤ length out + suc k
unfolding digits_from tens
length-digits_from zero n k out few = omega arith
length-digits_from (suc fuel) n zero out few = ground arith
length-digits_from (suc fuel) n (suc k) out few =
    ground (arith, few, length-digits_from fuel (n / 10) k ((b'0' + n % 10) ∷ out))

pub length-decimal : (n : ℕ) → n < tens 15 → length (decimal n) ≤ 15
unfolding decimal
length-decimal n few = ground (arith, length-digits_from (suc n) n 14 [] few)

lead_digit :
    (fuel n : ℕ) (out : Utf16)
    → 0 < n
    → n < fuel
    → (c : ℕ) × (s : Utf16) × (digits_from fuel n out ≡ c ∷ s) × (b'0' < c)
unfolding digits_from
lead_digit zero n out positive enough = absurd (omega arith)
lead_digit (suc fuel) n out positive enough = elim (Bool-cases (ltb n 10)) [
  | inl small ↦ (b'0' + n, out, ground (arith, small), omega arith)
  | inr large ↦
      let lead =
        lead_digit fuel (n / 10) ((b'0' + n % 10) ∷ out) (ground (arith, large))
          (ground (arith, large, enough)) in
      (lead.0, lead.1, ground (arith, large, lead.2), lead.3)
]

-- A number other than zero does not start with a zero.
pub decimal-lead : (n : ℕ) → 0 < n → (c : ℕ) × (s : Utf16) × (decimal n ≡ c ∷ s) × (b'0' < c)
unfolding decimal
decimal-lead n positive = lead_digit (suc n) n [] positive (omega arith)

pub decimal-length : (n : ℕ) → 0 < length (decimal n)
unfolding decimal digits_from
decimal-length zero = omega arith
decimal-length (suc n) =
    let lead = decimal-lead (suc n) (omega arith) in
    subst (λ s. 0 < length s) (sym lead.2) (omega arith)
