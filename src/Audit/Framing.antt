-- ===== src/Audit/Framing.antt =====
-- That the bytes hashed for an entry by src/audit/audit-hash.ts say what is in it.
use boilerplate_nestjs_api.Prelude.{
  ℕ, ◌≡◌, refl, sym, ap, ◌∙◌, true, List, [], ◌∷◌, ◌++◌, Option, none, some, arith, length, every,
  Utf16, decimal, ◌<◌, ◌≢◌,
}
use boilerplate_nestjs_api.Audit.Hash.{field, framed}
use boilerplate_nestjs_api.Streaming.Cursor.{is_digit, number}
use boilerplate_nestjs_api.Streaming.Cursor.Digits.{number-decimal, every-decimal, decimal-length}

append_assoc : (s t u : List ℕ) → (s ++ t) ++ u ≡ s ++ (t ++ u)
append_assoc [] t u = refl
append_assoc (c ∷ s) t u = ap (λ rest. c ∷ rest) (append_assoc s t u)

append_injective : (s t u v : List ℕ) → length s ≡ length t → s ++ u ≡ t ++ v → (s ≡ t) × (u ≡ v)
append_injective [] [] u v same e = (refl, e)
append_injective [] (d ∷ t) u v same e = absurd (omega (arith, same))
append_injective (c ∷ s) [] u v same e = absurd (omega (arith, same))
append_injective (c ∷ s) (d ∷ t) u v same e =
    let rest = append_injective s t u v (omega (arith, same)) (cc e) in (cc (e, rest.0), rest.1)

append_cancel : (s u v : List ℕ) → s ++ u ≡ s ++ v → u ≡ v
append_cancel s u v e = (append_injective s s u v refl e).1

-- Digits end at the colon.
digits_injective :
    (s t : Utf16) (u v : List ℕ)
    → every is_digit s ≡ true
    → every is_digit t ≡ true
    → s ++ (b':' ∷ u) ≡ t ++ (b':' ∷ v)
    → (s ≡ t) × (u ≡ v)
unfolding every
digits_injective [] [] u v left right e = (refl, cc e)
digits_injective [] (d ∷ t) u v left right e =
    let same : b':' ≡ d = cc e in absurd (ground (arith, right, same))
digits_injective (c ∷ s) [] u v left right e =
    let same : c ≡ b':' = cc e in absurd (ground (arith, left, same))
digits_injective (c ∷ s) (d ∷ t) u v left right e =
    let rest = digits_injective s t u v (ground (arith, left)) (ground (arith, right)) (cc e) in
    (cc (e, rest.0), rest.1)

-- A decimal has a first digit, which is not the letter that a missing value starts with.
digits-not_null :
    (s : Utf16) (u v : List ℕ) → every is_digit s ≡ true → 0 < length s → s ++ u ≢ b'n' ∷ v
unfolding every
digits-not_null [] u v digits more = λ e. absurd (omega (arith, more))
digits-not_null (c ∷ s) u v digits more =
    λ e. let same : c ≡ b'n' = cc e in ground (arith, digits, same)

pub decimal_injective : (m n : ℕ) → decimal m ≡ decimal n → m ≡ n
decimal_injective m n e = sym (number-decimal m) ∙ ap (number 0) e ∙ number-decimal n

module _ (utf8 : Utf16 → List ℕ) where
  -- The bytes of a value, if there is one.
  abbrev pub bytes_of : Option Utf16 → Option (List ℕ)
  bytes_of none = none
  bytes_of (some value) = some (utf8 value)

  field_append :
      (name : List ℕ) (value : Utf16) (u : List ℕ)
      → field utf8 name (some value) ++ u
        ≡ name ++ (b':' ∷ (decimal (length (utf8 value)) ++ (b':' ∷ (utf8 value ++ (b'\n' ∷ u)))))
  unfolding field
  field_append name value u =
      let digits = decimal (length (utf8 value)) in
      append_assoc name (b':' ∷ (digits ++ (b':' ∷ (utf8 value ++ (b'\n' ∷ []))))) u
      ∙ ap (λ rest. name ++ (b':' ∷ rest))
          (append_assoc digits (b':' ∷ (utf8 value ++ (b'\n' ∷ []))) u
            ∙ ap (λ rest. digits ++ (b':' ∷ rest)) (append_assoc (utf8 value) (b'\n' ∷ []) u))

  null_append :
      (name u : List ℕ)
      → field utf8 name none ++ u ≡ name ++ (b':' ∷ b'n' ∷ b'u' ∷ b'l' ∷ b'l' ∷ b'\n' ∷ u)
  unfolding field
  null_append name u = append_assoc name (b':' ∷ b'n' ∷ b'u' ∷ b'l' ∷ b'l' ∷ b'\n' ∷ []) u

  null-not_value :
      (name : List ℕ) (b : Utf16) (u v : List ℕ)
      → field utf8 name none ++ u ≢ field utf8 name (some b) ++ v
  null-not_value name b u v e =
      let rest =
        append_cancel name (b':' ∷ b'n' ∷ b'u' ∷ b'l' ∷ b'l' ∷ b'\n' ∷ u)
          (b':' ∷ (decimal (length (utf8 b)) ++ (b':' ∷ (utf8 b ++ (b'\n' ∷ v)))))
          (sym (null_append name u) ∙ e ∙ field_append name b v) in
      digits-not_null (decimal (length (utf8 b))) (b':' ∷ (utf8 b ++ (b'\n' ∷ v)))
        (b'u' ∷ b'l' ∷ b'l' ∷ b'\n' ∷ u) (every-decimal (length (utf8 b)))
        (decimal-length (length (utf8 b))) (sym (cc rest))

  -- What follows the name, of two fields of one name.
  values_injective :
      (name : List ℕ) (a b : Utf16) (u v : List ℕ)
      → field utf8 name (some a) ++ u ≡ field utf8 name (some b) ++ v
      → (utf8 a ≡ utf8 b) × (u ≡ v)
  values_injective name a b u v e =
      let framed =
        append_cancel name (b':' ∷ (decimal (length (utf8 a)) ++ (b':' ∷ (utf8 a ++ (b'\n' ∷ u)))))
          (b':' ∷ (decimal (length (utf8 b)) ++ (b':' ∷ (utf8 b ++ (b'\n' ∷ v)))))
          (sym (field_append name a u) ∙ e ∙ field_append name b v) in
      let parts =
        digits_injective (decimal (length (utf8 a))) (decimal (length (utf8 b)))
          (utf8 a ++ (b'\n' ∷ u)) (utf8 b ++ (b'\n' ∷ v)) (every-decimal (length (utf8 a)))
          (every-decimal (length (utf8 b))) (cc framed) in
      let value =
        append_injective (utf8 a) (utf8 b) (b'\n' ∷ u) (b'\n' ∷ v)
          (decimal_injective (length (utf8 a)) (length (utf8 b)) parts.0) parts.1 in
      (value.0, cc value.1)

  pub field_injective :
      (name : List ℕ) (a b : Option Utf16) (u v : List ℕ)
      → field utf8 name a ++ u ≡ field utf8 name b ++ v
      → (bytes_of a ≡ bytes_of b) × (u ≡ v)
  field_injective name none none u v e =
      let rest =
        append_cancel name (b':' ∷ b'n' ∷ b'u' ∷ b'l' ∷ b'l' ∷ b'\n' ∷ u)
          (b':' ∷ b'n' ∷ b'u' ∷ b'l' ∷ b'l' ∷ b'\n' ∷ v)
          (sym (null_append name u) ∙ e ∙ null_append name v) in
      (refl, cc rest)
  field_injective name none (some b) u v e = absurd (null-not_value name b u v e)
  field_injective name (some a) none u v e = absurd (null-not_value name a v u (sym e))
  field_injective name (some a) (some b) u v e =
      let value = values_injective name a b u v e in (ap some value.0, value.1)

  -- The values agree, byte for byte.
  abbrev pub SameValues : List (List ℕ) → List (Option Utf16) → List (Option Utf16) → Type 0
  SameValues [] values others = Unit {0}
  SameValues (name ∷ names) (a ∷ values) (b ∷ others) =
      (bytes_of a ≡ bytes_of b) × SameValues names values others
  SameValues (name ∷ names) values others = Unit {0}

  pub framed_injective :
      (names : List (List ℕ)) (values others : List (Option Utf16))
      → length values ≡ length others
      → framed utf8 names values ≡ framed utf8 names others
      → SameValues names values others
  unfolding framed
  framed_injective [] values others same e = tt
  framed_injective (name ∷ names) [] others same e = tt
  framed_injective (name ∷ names) (a ∷ values) [] same e = tt
  framed_injective (name ∷ names) (a ∷ values) (b ∷ others) same e =
      let first =
        field_injective name a b (framed utf8 names values) (framed utf8 names others) e in
      (first.0, framed_injective names values others (omega (arith, same)) first.1)
