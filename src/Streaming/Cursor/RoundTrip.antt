-- ===== src/Streaming/Cursor/RoundTrip.antt =====
-- That a cursor of src/streaming/stream-cursor.ts is read as it was written.
use boilerplate_nestjs_api.Prelude.{
  ℕ, zero, suc, ◌≤◌, ◌<◌, ◌≡◌, refl, sym, ap, subst, inl, inr, Bool, true, not, [], ◌∷◌, ◌++◌, some,
  arith, length, take, drop, every, Utf16, decimal, digits_from, Bool-cases,
}
use boilerplate_nestjs_api.Streaming.Cursor.{
  is_digit, is_hex, is_space, is_seq, tail_seq, matched, parse_cursor, format_cursor, trim,
  trim_start, trim_end, cons_unless_blank,
}
use boilerplate_nestjs_api.Streaming.Cursor.Digits.{
  tens, number-decimal, every-decimal, length-decimal, decimal-lead,
}

abbrev pub is_ink : ℕ → Bool
is_ink c = not (is_space c)

pub every-weaken :
    (test weaker : ℕ → Bool) (s : Utf16)
    → ((c : ℕ) → test c ≡ true → weaker c ≡ true)
    → every test s ≡ true
    → every weaker s ≡ true
unfolding every
every-weaken test weaker [] implies all = refl
every-weaken test weaker (c ∷ s) implies all =
    ground (arith, implies c, every-weaken test weaker s implies, all)

pub every-append :
    (test : ℕ → Bool) (s t : Utf16)
    → every test s ≡ true
    → every test t ≡ true
    → every test (s ++ t) ≡ true
unfolding every
every-append test [] t first second = second
every-append test (c ∷ s) t first second = ground (arith, every-append test s t, first, second)

trim_start-ink : (s : Utf16) → every is_ink s ≡ true → trim_start s ≡ s
unfolding trim_start every
trim_start-ink [] ink = refl
trim_start-ink (c ∷ s) ink = elim (Bool-cases (is_space c)) [
  | inl blank ↦ cc
  | inr inked ↦ rw inked refl
]

trim_end-ink : (s : Utf16) → every is_ink s ≡ true → trim_end s ≡ s
unfolding trim_end cons_unless_blank every
trim_end-ink [] ink = refl
trim_end-ink (c ∷ []) ink = elim (Bool-cases (is_space c)) [
  | inl blank ↦ cc
  | inr inked ↦ rw inked refl
]
trim_end-ink (c ∷ d ∷ s) ink = ap (cons_unless_blank c) (trim_end-ink (d ∷ s) (ground (arith, ink)))

pub trim-ink : (s : Utf16) → every is_ink s ≡ true → trim s ≡ s
unfolding trim
trim-ink s ink = rw (trim_start-ink s ink, trim_end-ink s ink) refl

pub digit-ink : (c : ℕ) → is_digit c ≡ true → is_ink c ≡ true
digit-ink c digit = ground (arith, digit)

hex-ink : (c : ℕ) → is_hex c ≡ true → is_ink c ≡ true
hex-ink c hex = ground (arith, hex)

pub take-append : (s t : Utf16) → take (length s) (s ++ t) ≡ s
take-append [] t = refl
take-append (c ∷ s) t = ap (λ rest. c ∷ rest) (take-append s t)

pub drop-append : (s t : Utf16) → drop (length s) (s ++ t) ≡ t
drop-append [] t = refl
drop-append (c ∷ s) t = drop-append s t

-- A number that does not start with a zero is a position where it is short enough.
is_seq-lead :
    (c : ℕ) (s : Utf16)
    → b'0' < c
    → every is_digit (c ∷ s) ≡ true
    → length (c ∷ s) ≤ 15
    → is_seq (c ∷ s) ≡ true
unfolding is_seq every
is_seq-lead c s lead digits short = ground (arith, lead, digits, short)

is_seq-decimal : (n : ℕ) → n < tens 15 → is_seq (decimal n) ≡ true
unfolding decimal digits_from is_seq every
is_seq-decimal zero few = refl
is_seq-decimal (suc n) few =
    let lead = decimal-lead (suc n) (omega arith) in
    subst (λ s. is_seq s ≡ true) (sym lead.2)
      (is_seq-lead lead.0 lead.1 lead.3
        (subst (λ s. every is_digit s ≡ true) lead.2 (every-decimal (suc n)))
        (subst (λ s. length s ≤ 15) lead.2 (length-decimal (suc n) few)))

tail_seq-decimal : (n : ℕ) → n < tens 15 → tail_seq (b'.' ∷ decimal n) ≡ some n
unfolding tail_seq
tail_seq-decimal n few = rw (is_seq-decimal n few, number-decimal n) refl

format_cursor-ink :
    (epoch : Utf16) (seq : ℕ)
    → every is_hex epoch ≡ true
    → every is_ink (format_cursor epoch seq) ≡ true
unfolding format_cursor every
format_cursor-ink epoch seq hex =
    every-append is_ink epoch (b'.' ∷ decimal seq) (every-weaken is_hex is_ink epoch hex-ink hex)
      (every-weaken is_digit is_ink (decimal seq) digit-ink (every-decimal seq))

matched-format_cursor :
    (epoch : Utf16) (seq : ℕ)
    → length epoch ≡ 32
    → every is_hex epoch ≡ true
    → seq < tens 15
    → matched (format_cursor epoch seq) ≡ some (record { epoch = epoch; seq = seq })
unfolding matched format_cursor
matched-format_cursor epoch seq full hex few =
    let taken =
      subst (λ k. take k (epoch ++ b'.' ∷ decimal seq) ≡ epoch) full
        (take-append epoch (b'.' ∷ decimal seq)) in
    let dropped =
      subst (λ k. drop k (epoch ++ b'.' ∷ decimal seq) ≡ b'.' ∷ decimal seq) full
        (drop-append epoch (b'.' ∷ decimal seq)) in
    rw (taken, dropped, full, hex, tail_seq-decimal seq few)
      (ap (λ e. some (record { epoch = e; seq = seq })) taken)

-- A cursor with an epoch of 32 hexadecimal digits and a position below ten to the fifteenth is read as
-- it was written.
pub parse_cursor-format_cursor :
    (epoch : Utf16) (seq : ℕ)
    → length epoch ≡ 32
    → every is_hex epoch ≡ true
    → seq < tens 15
    → parse_cursor (some (format_cursor epoch seq)) ≡ some (record { epoch = epoch; seq = seq })
unfolding parse_cursor
parse_cursor-format_cursor epoch seq full hex few =
    subst (λ text. matched text ≡ some (record { epoch = epoch; seq = seq }))
      (sym (trim-ink (format_cursor epoch seq) (format_cursor-ink epoch seq hex)))
      (matched-format_cursor epoch seq full hex few)
