-- ===== src/Streaming/Cursor.antt =====
-- src/streaming/stream-cursor.ts: the position that a client sends back, `<32 hex>.<digits>`. A text
-- is a list of UTF-16 code units.
pub mod Digits
pub mod RoundTrip
mod Tests
use boilerplate_nestjs_api.Prelude.{
  ℕ, ◌+◌, ◌-◌, ◌*◌, Bool, false, ◌&&◌, ◌||◌, [], ◌∷◌, ◌++◌, Option, none, some, ltb, leb, ◌==◌,
  length, take, drop, Utf16, decimal, every, if◌then◌else◌,
}

pub record StreamCursor : Type 0 where
  pub epoch : Utf16
  pub seq : ℕ

unfoldable pub format_cursor : Utf16 → ℕ → Utf16
format_cursor epoch seq = epoch ++ b'.' ∷ decimal seq

-- The white space and line terminators that `trim` takes off.
abbrev pub is_space : ℕ → Bool
is_space c =
    (leb 9 c && leb c 13)
    || (c == 32
        || (c == 0xa0
            || (c == 0x1680
                || ((leb 0x2000 c && leb c 0x200a)
                    || (c == 0x2028
                        || (c == 0x2029
                            || (c == 0x202f || (c == 0x205f || (c == 0x3000 || c == 0xfeff)))))))))

unfoldable pub trim_start : Utf16 → Utf16
trim_start [] = []
trim_start (c ∷ s) = let rest = trim_start s in if is_space c then rest else c ∷ s

-- A unit goes if it is white space and nothing is left behind it.
cons_unless_blank : ℕ → Utf16 → Utf16
cons_unless_blank c [] = if is_space c then [] else c ∷ []
cons_unless_blank c (d ∷ s) = c ∷ d ∷ s

unfoldable pub trim_end : Utf16 → Utf16
unfolding cons_unless_blank
trim_end [] = []
trim_end (c ∷ s) = cons_unless_blank c (trim_end s)

unfoldable pub trim : Utf16 → Utf16
unfolding trim_start trim_end
trim s = trim_end (trim_start s)

abbrev pub is_digit : ℕ → Bool
is_digit c = leb b'0' c && leb c b'9'

abbrev pub is_hex : ℕ → Bool
is_hex c = is_digit c || (leb b'a' c && leb c b'f')

-- `0|[1-9][0-9]{0,14}`
unfoldable pub is_seq : Utf16 → Bool
unfolding every
is_seq [] = false
is_seq (c ∷ s) =
    is_digit c && (every is_digit s && (leb (length s) 14 && (not_zero c || length s == 0)))
  where
    not_zero : ℕ → Bool
    not_zero d = ltb b'0' d

-- `Number(digits)`, exact below 10^15.
unfoldable pub number : ℕ → Utf16 → ℕ
number value [] = value
number value (c ∷ s) = number (value * 10 + (c - b'0')) s

-- What follows the epoch: a dot and a position.
tail_seq : Utf16 → Option ℕ
unfolding is_seq number
tail_seq [] = none
tail_seq (dot ∷ digits) = if dot == b'.' && is_seq digits then some (number 0 digits) else none

matched : Utf16 → Option StreamCursor
unfolding tail_seq every
matched s =
    if length (take 32 s) == 32 && every is_hex (take 32 s)
    then elim (tail_seq (drop 32 s)) [
      | none ↦ none
      | some seq ↦ some (record { epoch = take 32 s; seq = seq })
    ]
    else none

-- `none` in, for a header that is missing.
unfoldable pub parse_cursor : Option Utf16 → Option StreamCursor
unfolding matched trim
parse_cursor none = none
parse_cursor (some raw) = matched (trim raw)
