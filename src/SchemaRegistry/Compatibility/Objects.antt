-- ===== src/SchemaRegistry/Compatibility/Objects.antt =====
-- The properties of two object schemas of src/schema-registry/compatibility.ts, key by key.
use boilerplate_nestjs_api.Prelude.{
  ◌≡◌, refl, Bool, ◌&&◌, sym, subst, inl, inr, String, true, List, [], ◌∷◌, Option, none, some,
  arith, str_eq, eq_iff, eq_refl, Bool-cases, Option-cases,
}
use boilerplate_nestjs_api.SchemaRegistry.Node.{
  SchemaNode, object_node, array_node, scalar_node, Properties, no_more, property, Value, Fields,
  end, field, includes, property_of, owns, field_of, distinct, in_profile, all_in_profile,
}
use boilerplate_nestjs_api.SchemaRegistry.Meaning.{
  Validator, Content, IsPresent, AllPresent, Only, FitsAll, Fits,
}

-- Every required property is one of the object's own, which the keyword `in` does not say.
unfoldable pub all_owned : {N : Type 0} → List String → Properties N → Bool
all_owned [] properties = true
all_owned (key ∷ required) properties = owns key properties && all_owned required properties

unfoldable mutual
  pub requires_own : {N : Type 0} → SchemaNode N → Bool
  requires_own (object_node properties required) =
      all_owned required properties && all_require_own properties
  requires_own (array_node items) = requires_own items
  requires_own (scalar_node types enum format) = true

  pub all_require_own : {N : Type 0} → Properties N → Bool
  all_require_own no_more = true
  all_require_own (property k node rest) = requires_own node && all_require_own rest

-- In the profile, with no required property that is inherited.
unfoldable mutual
  pub strict : {N : Type 0} → SchemaNode N → Bool
  strict (object_node properties required) =
      all_owned required properties && (distinct properties && all_strict properties)
  strict (array_node items) = strict items
  strict (scalar_node types enum format) = true

  pub all_strict : {N : Type 0} → Properties N → Bool
  all_strict no_more = true
  all_strict (property k node rest) = strict node && all_strict rest

mutual
  unfolding in_profile strict requires_own

  pub requires_own-strict :
      {N : Type 0} (node : SchemaNode N)
      → in_profile node ≡ true
      → requires_own node ≡ true
      → strict node ≡ true
  requires_own-strict (object_node properties required) profile own =
      ground (arith, profile, own, all_require_own-strict properties)
  requires_own-strict (array_node items) profile own = requires_own-strict items profile own
  requires_own-strict (scalar_node types enum format) profile own = refl

  all_require_own-strict :
      {N : Type 0} (properties : Properties N)
      → all_in_profile properties ≡ true
      → all_require_own properties ≡ true
      → all_strict properties ≡ true
  all_require_own-strict no_more profile own = refl
  all_require_own-strict (property k node rest) profile own =
      ground (arith, profile, own, requires_own-strict node, all_require_own-strict rest)

module _ {N : Type 0} where
  pub owns-property_of :
      (key : String) (properties : Properties N)
      → owns key properties ≡ true
      → (node : SchemaNode N) × (property_of key properties ≡ some node)
  unfolding owns property_of
  owns-property_of key no_more h = cc
  owns-property_of key (property k node rest) h = elim (Bool-cases (str_eq k key)) [
    | inl here ↦ (node, ground (arith, here))
    | inr other ↦
        let (n, e) = owns-property_of key rest (ground (arith, h, other)) in
        (n, ground (arith, other, e))
  ]

  pub property_of-owns :
      (key : String) (properties : Properties N) (node : SchemaNode N)
      → property_of key properties ≡ some node
      → owns key properties ≡ true
  unfolding owns property_of
  property_of-owns key no_more node h = cc
  property_of-owns key (property k n rest) node h = ground (arith, property_of-owns key rest node)

  pub all_owned-owns :
      (required : List String) (properties : Properties N) (key : String)
      → all_owned required properties ≡ true
      → includes key required ≡ true
      → owns key properties ≡ true
  unfolding all_owned includes
  all_owned-owns [] properties key all h = cc
  all_owned-owns (k ∷ required) properties key all h =
      ground (arith, eq_iff k key, all_owned-owns required properties key)

  pub AllPresent-includes :
      (required : List String) (fields : Fields N) (key : String)
      → AllPresent required fields
      → includes key required ≡ true
      → IsPresent (field_of key fields)
  unfolding includes
  AllPresent-includes [] fields key all h = cc
  AllPresent-includes (k ∷ required) fields key all h = elim (Bool-cases (str_eq k key)) [
    | inl here ↦ subst (λ x. IsPresent (field_of x fields)) ((eq_iff k key).0 here) all.0
    | inr other ↦ AllPresent-includes required fields key all.1 (ground (arith, h, other))
  ]

  pub includes-AllPresent :
      (required : List String) (fields : Fields N)
      → ((key : String) → includes key required ≡ true → IsPresent (field_of key fields))
      → AllPresent required fields
  unfolding includes
  includes-AllPresent [] fields all = tt
  includes-AllPresent (k ∷ required) fields all = (
    all k (ground (arith, eq_refl k)),
    includes-AllPresent required fields (λ key h. all key (ground (arith, h))),
  )

  pub Only-owns :
      (properties : Properties N) (fields : Fields N) (key : String) (value : Value N)
      → Only properties fields
      → field_of key fields ≡ some value
      → owns key properties ≡ true
  unfolding field_of
  Only-owns properties end key value only h = cc
  Only-owns properties (field k w fields) key value only h =
      ground (arith, eq_iff k key, only.0, Only-owns properties fields key value only.1)

  pub all_strict-property_of :
      (properties : Properties N) (key : String) (node : SchemaNode N)
      → all_strict properties ≡ true
      → property_of key properties ≡ some node
      → strict node ≡ true
  unfolding strict property_of
  all_strict-property_of no_more key node all h = cc
  all_strict-property_of (property k n rest) key node all h =
      ground (arith, all, h, all_strict-property_of rest key node)

  module _ (v : Validator N) (content : Content) where
    abbrev pub IfThere : SchemaNode N → Option (Value N) → Type 0
    IfThere node o = elim o [ none ↦ Unit {0} | some value ↦ Fits v content node value ]

    pub FitsAll-property_of :
        (properties : Properties N) (fields : Fields N) (key : String) (node : SchemaNode N)
        (value : Value N)
        → FitsAll v content properties fields
        → property_of key properties ≡ some node
        → field_of key fields ≡ some value
        → Fits v content node value
    unfolding property_of
    FitsAll-property_of no_more fields key node value all p f = cc
    FitsAll-property_of (property k n rest) fields key node value all p f =
        elim (Bool-cases (str_eq k key)) [
          | inl here ↦
              let one : n ≡ node = ground (arith, p, here) in
              let there : field_of k fields ≡ some value = rw ((eq_iff k key).0 here) f in
              subst (λ m. Fits v content m value) one (subst (IfThere n) there all.0)
          | inr other ↦
              FitsAll-property_of rest fields key node value all.1 (ground (arith, p, other)) f
        ]

    pub property_of-FitsAll :
        (properties : Properties N) (fields : Fields N)
        → distinct properties ≡ true
        → ((key : String) (node : SchemaNode N) (value : Value N)
            → property_of key properties ≡ some node
            → field_of key fields ≡ some value
            → Fits v content node value)
        → FitsAll v content properties fields
    unfolding property_of distinct
    property_of-FitsAll no_more fields d each = tt
    property_of-FitsAll (property k n rest) fields d each = (
      elim (Option-cases (field_of k fields)) [
        | inl gone ↦ subst (IfThere n) (sym gone) tt
        | inr (w, there) ↦
            subst (IfThere n) (sym there) (each k n w (ground (arith, eq_refl k)) there)
      ],
      property_of-FitsAll rest fields (ground (arith, d)) (λ key node value p f.
          each key node value (ground (arith, d, p, property_of-owns key rest node p, eq_iff k key))
            f),
    )
