-- ===== src/SchemaRegistry/Meaning.antt =====
-- What the schemas of src/schema-registry/json-schema.ts mean, as JSON Schema draft-07 has it: the JSON
-- that a reader accepts, and the JSON that a writer makes, who adds no property that it does not
-- declare. `meets` is what a format asks of a scalar.
use boilerplate_nestjs_api.Prelude.{
  ◌≡◌, String, Bool, true, false, List, [], ◌∷◌, Option, none, some, ◌||◌,
}
use boilerplate_nestjs_api.SchemaRegistry.Node.{
  PrimitiveType, string, number, integer, boolean, null_type, JsonScalar, text, numeral, flag, null,
  SchemaNode, object_node, array_node, scalar_node, Properties, no_more, property, Value, scalar,
  array, object, Items, nil, cons, Fields, end, field, owns, field_of,
}
use boilerplate_nestjs_api.SchemaRegistry.Compatibility.{member}

-- What the numbers and the formats are to a validator.
pub record Validator (N : Type 0) : Type 0 where
  pub same : N → N → Bool
  pub is_whole : N → Bool
  pub meets : String → JsonScalar N → Bool

-- Whether the reader looks at the properties that are declared only, or a writer adds no other.
pub data Content : Type 0 where
  open_content declared_content : Content

abbrev pub Each : {N : Type 0} → (Value N → Type 0) → Items N → Type 0
Each P nil = Unit {0}
Each P (cons value values) = P value × Each P values

module _ {N : Type 0} (v : Validator N) where
  abbrev pub is_of : PrimitiveType → JsonScalar N → Bool
  is_of string (text s) = true
  is_of number (numeral n) = true
  is_of integer (numeral n) = v.is_whole n
  is_of boolean (flag b) = true
  is_of null_type null = true
  is_of _ _ = false

  unfoldable pub is_of_some : List PrimitiveType → JsonScalar N → Bool
  is_of_some [] s = false
  is_of_some (type ∷ types) s = is_of type s || is_of_some types s

  abbrev pub in_enum : Option (List (JsonScalar N)) → JsonScalar N → Bool
  in_enum none s = true
  in_enum (some values) s = member v.same values s

  abbrev pub in_format : Option String → JsonScalar N → Bool
  in_format none s = true
  in_format (some format) s = v.meets format s

module _ {N : Type 0} where
  abbrev pub IsPresent : Option (Value N) → Type 0
  IsPresent none = ⊥
  IsPresent (some value) = Unit {0}

  abbrev pub AllPresent : List String → Fields N → Type 0
  AllPresent [] fields = Unit {0}
  AllPresent (key ∷ required) fields = IsPresent (field_of key fields) × AllPresent required fields

  abbrev pub Only : Properties N → Fields N → Type 0
  Only properties end = Unit {0}
  Only properties (field key value fields) = (owns key properties ≡ true) × Only properties fields

  abbrev pub Holds : Content → Properties N → Fields N → Type 0
  Holds open_content properties fields = Unit {0}
  Holds declared_content properties fields = Only properties fields

abbrev mutual
  pub Fits : {N : Type 0} → Validator N → Content → SchemaNode N → Value N → Type 0
  Fits v content (object_node properties required) (object fields) =
      AllPresent required fields
      × FitsAll v content properties fields
      × Holds content properties fields
  Fits v content (array_node items) (array values) = Each (Fits v content items) values
  Fits v content (scalar_node types enum format) (scalar s) =
      (is_of_some v types s ≡ true) × (in_enum v enum s ≡ true) × (in_format v format s ≡ true)
  Fits v content _ _ = ⊥

  pub FitsAll : {N : Type 0} → Validator N → Content → Properties N → Fields N → Type 0
  FitsAll v content no_more fields = Unit {0}
  FitsAll v content (property key node rest) fields =
      (elim (field_of key fields) [ none ↦ Unit {0} | some value ↦ Fits v content node value ])
      × FitsAll v content rest fields
