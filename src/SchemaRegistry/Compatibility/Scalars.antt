-- ===== src/SchemaRegistry/Compatibility/Scalars.antt =====
-- The types, enums and formats of src/schema-registry/compatibility.ts: what they let through.
use boilerplate_nestjs_api.Prelude.{
  ◌≡◌, refl, ap, subst, ◌↔◌, inl, inr, String, Bool, true, false, ◌||◌, List, [], ◌∷◌, ◌++◌, Option,
  none, some, arith, eq_iff, Bool-cases,
}
use boilerplate_nestjs_api.SchemaRegistry.Node.{
  PrimitiveType, string, number, integer, boolean, null_type, JsonScalar, text, numeral, flag, null,
  scalar_node, scalar,
}
use boilerplate_nestjs_api.SchemaRegistry.Compatibility.{
  CompatibilityDirection, backward, forward, Incompatibility, Segment, same_type, has_type, covers,
  same_scalar, member, every_in, compare_types, compare_constraint, compare_enums, compare_formats,
  compare_scalars,
}
use boilerplate_nestjs_api.SchemaRegistry.Meaning.{
  Validator, is_of, is_of_some, in_enum, in_format, Fits, open_content, declared_content,
}

abbrev pub same_direction : CompatibilityDirection → CompatibilityDirection → Bool
same_direction backward backward = true
same_direction forward forward = true
same_direction _ _ = false

-- A backward reader is on the next schema, a forward one on the previous.
abbrev pub reader {ℓ} : {A : Type ℓ} → CompatibilityDirection → A → A → A
reader backward previous next = next
reader forward previous next = previous

abbrev pub writer {ℓ} : {A : Type ℓ} → CompatibilityDirection → A → A → A
writer backward previous next = previous
writer forward previous next = next

abbrev pub broken : CompatibilityDirection → List CompatibilityDirection → Bool
broken d [] = false
broken d (e ∷ breaks) = same_direction d e || broken d breaks

-- Some finding breaks the direction.
abbrev pub breaks : CompatibilityDirection → List Incompatibility → Bool
breaks d [] = false
breaks d (f ∷ findings) = broken d f.breaks || breaks d findings

pub breaks-append :
    (d : CompatibilityDirection) (xs ys : List Incompatibility)
    → breaks d (xs ++ ys) ≡ (breaks d xs || breaks d ys)
breaks-append d [] ys = refl
breaks-append d (x ∷ xs) ys = ground (arith, breaks-append d xs ys)

pub broken-append :
    (d : CompatibilityDirection) (xs ys : List CompatibilityDirection)
    → broken d (xs ++ ys) ≡ (broken d xs || broken d ys)
broken-append d [] ys = refl
broken-append d (x ∷ xs) ys = ground (arith, broken-append d xs ys)

three_clean :
    (d : CompatibilityDirection) (xs ys zs : List Incompatibility)
    → breaks d (xs ++ (ys ++ zs)) ≡ false
    → (breaks d xs ≡ false) × (breaks d ys ≡ false) × (breaks d zs ≡ false)
three_clean d xs ys zs h =
    let a = breaks-append d xs (ys ++ zs) in
    let b = breaks-append d ys zs in
    (ground (arith, a, h), ground (arith, a, b, h), ground (arith, a, b, h))

same_type-eq : (a b : PrimitiveType) → same_type a b ≡ true → a ≡ b
same_type-eq string string h = refl
same_type-eq number number h = refl
same_type-eq integer integer h = refl
same_type-eq boolean boolean h = refl
same_type-eq null_type null_type h = refl
same_type-eq _ _ h = cc

module _ {N : Type 0} (v : Validator N) (same_iff : (a b : N) → (v.same a b ≡ true) ↔ (a ≡ b)) where
  has_type-is_of :
      (type : PrimitiveType) (types : List PrimitiveType) (s : JsonScalar N)
      → has_type type types ≡ true
      → is_of v type s ≡ true
      → is_of_some v types s ≡ true
  unfolding has_type is_of_some
  has_type-is_of type [] s has is = cc
  has_type-is_of type (t ∷ types) s has is = elim (Bool-cases (same_type t type)) [
    | inl here ↦ let e = same_type-eq t type here in ground (arith, e, is)
    | inr other ↦ ground (arith, has, other, has_type-is_of type types s)
  ]

  whole_is_number : (s : JsonScalar N) → is_of v integer s ≡ true → is_of v number s ≡ true
  whole_is_number (numeral n) h = refl
  whole_is_number _ h = cc

  -- A scalar of one of the types that are covered is of one of those that cover them.
  covers-is_of :
      (superset subset : List PrimitiveType) (s : JsonScalar N)
      → covers superset subset ≡ true
      → is_of_some v subset s ≡ true
      → is_of_some v superset s ≡ true
  unfolding covers is_of_some
  covers-is_of superset [] s all is = cc
  covers-is_of superset (type ∷ subset) s all is = elim (Bool-cases (is_of v type s)) [
    | inr other ↦ ground (arith, all, is, other, covers-is_of superset subset s)
    | inl this ↦ elim (Bool-cases (has_type type superset)) [
      | inl listed ↦ has_type-is_of type superset s listed this
      | inr missing ↦ has_type-is_of number superset s (ground (arith, all, missing)) (
          whole_is_number s (
            subst (λ t. is_of v t s ≡ true)
              (same_type-eq type integer (ground (arith, all, missing))) this))
    ]
  ]

  same_scalar-eq : (a b : JsonScalar N) → same_scalar v.same a b ≡ true → a ≡ b
  same_scalar-eq (text a) (text b) h = ap text ((eq_iff a b).0 h)
  same_scalar-eq (numeral a) (numeral b) h = ap numeral ((same_iff a b).0 h)
  same_scalar-eq (flag true) (flag true) h = refl
  same_scalar-eq (flag false) (flag false) h = refl
  same_scalar-eq null null h = refl
  same_scalar-eq _ _ h = cc

  every_in-member :
      (xs ys : List (JsonScalar N)) (s : JsonScalar N)
      → every_in v.same xs ys ≡ true
      → member v.same xs s ≡ true
      → member v.same ys s ≡ true
  unfolding every_in member
  every_in-member [] ys s all is = cc
  every_in-member (x ∷ xs) ys s all is = elim (Bool-cases (same_scalar v.same x s)) [
    | inl here ↦
        subst (λ a. member v.same ys a ≡ true) (same_scalar-eq x s here) (ground (arith, all))
    | inr other ↦ ground (arith, all, is, other, every_in-member xs ys s)
  ]

  -- Where no finding breaks a direction, what the writer's scalar fits, the reader's does.
  enum_sound :
      (d : CompatibilityDirection) (before after : Option (List (JsonScalar N)))
      (path : List Segment) (s : JsonScalar N)
      → breaks d (compare_enums v.same before after path) ≡ false
      → in_enum v (writer d before after) s ≡ true
      → in_enum v (reader d before after) s ≡ true
  unfolding compare_constraint
  enum_sound backward before none path s fine fits = refl
  enum_sound backward none (some next) path s fine fits = cc
  enum_sound backward (some previous) (some next) path s fine fits =
      every_in-member previous next s (ground (arith, fine)) fits
  enum_sound forward none after path s fine fits = refl
  enum_sound forward (some previous) none path s fine fits = cc
  enum_sound forward (some previous) (some next) path s fine fits =
      every_in-member next previous s (ground (arith, fine)) fits

  format_sound :
      (d : CompatibilityDirection) (before after : Option String) (path : List Segment)
      (s : JsonScalar N)
      → breaks d (compare_formats before after path) ≡ false
      → in_format v (writer d before after) s ≡ true
      → in_format v (reader d before after) s ≡ true
  unfolding compare_constraint
  format_sound backward before none path s fine fits = refl
  format_sound backward none (some next) path s fine fits = cc
  format_sound backward (some previous) (some next) path s fine fits =
      ground (arith, fine, fits, eq_iff previous next)
  format_sound forward none after path s fine fits = refl
  format_sound forward (some previous) none path s fine fits = cc
  format_sound forward (some previous) (some next) path s fine fits =
      ground (arith, fine, fits, eq_iff previous next)

  types_sound :
      (d : CompatibilityDirection) (before after : List PrimitiveType) (path : List Segment)
      (s : JsonScalar N)
      → breaks d (compare_types v.same before after path) ≡ false
      → is_of_some v (writer d before after) s ≡ true
      → is_of_some v (reader d before after) s ≡ true
  unfolding compare_types
  types_sound backward before after path s fine fits =
      covers-is_of after before s (ground (arith, fine)) fits
  types_sound forward before after path s fine fits =
      covers-is_of before after s (ground (arith, fine)) fits

  pub scalars_sound :
      (d : CompatibilityDirection) (types types' : List PrimitiveType)
      (enum enum' : Option (List (JsonScalar N))) (format format' : Option String)
      (path : List Segment) (s : JsonScalar N)
      → breaks d (compare_scalars v.same types enum format types' enum' format' path) ≡ false
      → Fits v declared_content
          (writer d (scalar_node types enum format) (scalar_node types' enum' format'))
          (scalar s)
      → Fits v open_content
          (reader d (scalar_node types enum format) (scalar_node types' enum' format'))
          (scalar s)
  unfolding compare_scalars
  scalars_sound backward types types' enum enum' format format' path s fine fits =
      let (a, b, c) =
        three_clean backward (compare_types v.same types types' path)
          (compare_enums v.same enum enum' path) (compare_formats format format' path) fine in
      (
        types_sound backward types types' path s a fits.0,
        enum_sound backward enum enum' path s b fits.1,
        format_sound backward format format' path s c fits.2,
      )
  scalars_sound forward types types' enum enum' format format' path s fine fits =
      let (a, b, c) =
        three_clean forward (compare_types v.same types types' path)
          (compare_enums v.same enum enum' path) (compare_formats format format' path) fine in
      (
        types_sound forward types types' path s a fits.0,
        enum_sound forward enum enum' path s b fits.1,
        format_sound forward format format' path s c fits.2,
      )
