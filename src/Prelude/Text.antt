-- ===== src/Prelude/Text.antt =====
-- Texts as JavaScript has them, where a program measures or cuts one: lists of UTF-16 code units.
use Prim.Native.Char.{code}
use Prim.Native.Nat.{ℕ, zero, suc, ◌+◌, ◌-◌, ◌/◌, ◌%◌}
use Prim.Native.String.{String}
use mathlib.Core.Bool.{Bool, true, false, ◌&&◌}
use mathlib.Core.List.{List, [], ◌∷◌, ◌++◌}
use mathlib.Core.Path.{◌≡◌, refl}
use native.Mathlib.Omega.{arith}
use boilerplate_nestjs_api.Prelude.Tests.{ltb, ◌==◌, if◌then◌else◌}

abbrev pub Utf16 : Type 0
Utf16 = List ℕ

-- One unit for a code point of the basic plane, a surrogate pair for any other.
units : ℕ → Utf16
units c =
    if ltb c 0x10000
    then c ∷ []
    else (0xd800 + (c - 0x10000) / 0x400) ∷ (0xdc00 + (c - 0x10000) % 0x400) ∷ []

unfoldable pub utf16 : String → Utf16
unfolding units
utf16 String.[] = []
utf16 (String.◌∷◌ c s) = units (code c) ++ utf16 s

-- The decimal digits of a number, with fuel for one digit each.
unfoldable pub digits_from : ℕ → ℕ → Utf16 → Utf16
digits_from zero n out = out
digits_from (suc fuel) n out =
    let rest = digits_from fuel (n / 10) ((b'0' + n % 10) ∷ out) in
    if ltb n 10 then (b'0' + n) ∷ out else rest

-- `String(n)`: a number has fewer digits than `n + 1`.
unfoldable pub decimal : ℕ → Utf16
unfolding digits_from
decimal n = digits_from (suc n) n []

-- Every unit passes the test.
unfoldable pub every : (ℕ → Bool) → Utf16 → Bool
every test [] = true
every test (c ∷ s) = test c && every test s

-- `a === b` on texts
unfoldable pub same_text : Utf16 → Utf16 → Bool
same_text [] [] = true
same_text [] (d ∷ t) = false
same_text (c ∷ s) [] = false
same_text (c ∷ s) (d ∷ t) = c == d && same_text s t

pub same_text_eq : (s t : Utf16) → same_text s t ≡ true → s ≡ t
unfolding same_text
same_text_eq [] [] h = refl
same_text_eq [] (d ∷ t) h = cc h
same_text_eq (c ∷ s) [] h = cc h
same_text_eq (c ∷ s) (d ∷ t) h =
    let rest = same_text_eq s t (ground (arith, h)) in
    let first : c ≡ d = ground (arith, h) in cc (first, rest)

pub same_text_refl : (s : Utf16) → same_text s s ≡ true
unfolding same_text
same_text_refl [] = refl
same_text_refl (c ∷ s) = ground (arith, same_text_refl s)
