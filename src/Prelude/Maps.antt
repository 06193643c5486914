-- ===== src/Prelude/Maps.antt =====
-- A JavaScript `Map` with text keys, in insertion order: a key written again keeps its place.
use Prim.Native.String.{String}
use mathlib.Core.Path.{◌≡◌, refl}
use mathlib.Core.List.{List, [], ◌∷◌}
use mathlib.Core.Option.{Option, none, some}
use native.Mathlib.Omega.{arith}
use text.Mathlib.Text.{◌==◌ as str_eq}
use text.Mathlib.TextEquality.{eq_iff}
use boilerplate_nestjs_api.Prelude.Tests.{if◌then◌else◌}

abbrev pub Dict {ℓ} : Type ℓ → Type ℓ
Dict V = List (String × V)

module _ {ℓ} {V : Type ℓ} where
  -- `map.get(key)`
  unfoldable pub lookup : String → Dict V → Option V
  lookup key [] = none
  lookup key (entry ∷ rest) = if str_eq entry.0 key then some entry.1 else lookup key rest

  -- `map.set(key, value)`
  unfoldable pub insert : String → V → Dict V → Dict V
  insert key value [] = (key, value) ∷ []
  insert key value (entry ∷ rest) =
      if str_eq entry.0 key then (entry.0, value) ∷ rest else entry ∷ insert key value rest

  -- `map.delete(key)`
  unfoldable pub remove : String → Dict V → Dict V
  remove key [] = []
  remove key (entry ∷ rest) =
      if str_eq entry.0 key then remove key rest else entry ∷ remove key rest

  -- A read after a write, of any two keys.
  pub lookup-insert :
      (written read : String) (value : V) (entries : Dict V)
      → lookup read (insert written value entries)
        ≡ (if str_eq written read then some value else lookup read entries)
  unfolding lookup insert
  lookup-insert written read value [] = refl
  lookup-insert written read value (entry ∷ rest) = ground (
    arith,
    lookup-insert written read value rest,
    eq_iff entry.0 read,
    eq_iff entry.0 written,
    eq_iff written read,
  )

  -- A read after a deletion, of any two keys.
  pub lookup-remove :
      (gone read : String) (entries : Dict V)
      → lookup read (remove gone entries) ≡ (if str_eq gone read then none else lookup read entries)
  unfolding lookup remove
  lookup-remove gone read [] = ground arith
  lookup-remove gone read (entry ∷ rest) = ground (
    arith,
    lookup-remove gone read rest,
    eq_iff entry.0 read,
    eq_iff entry.0 gone,
    eq_iff gone read,
  )
