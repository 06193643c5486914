-- ===== src/SchemaRegistry/Node.antt =====
-- src/schema-registry/json-schema.ts: the schemas of the profile, as nodes, and the JSON that they
-- describe. `N` is the type of the numbers. A list of properties stands for the entries of an object.
use boilerplate_nestjs_api.Prelude.{
  String, Bool, true, false, ◌&&◌, ◌||◌, not, List, [], ◌∷◌, Option, none, some, str_eq,
  if◌then◌else◌,
}

pub data PrimitiveType : Type 0 where
  string number integer boolean null_type : PrimitiveType

pub data JsonScalar (N : Type 0) : Type 0 where
  text : String → JsonScalar N
  numeral : N → JsonScalar N
  flag : Bool → JsonScalar N
  null : JsonScalar N

mutual
  pub data SchemaNode (N : Type 0) : Type 0 where
    object_node : (properties : Properties N) → (required : List String) → SchemaNode N
    array_node : (items : SchemaNode N) → SchemaNode N
    scalar_node :
        (types : List PrimitiveType)
        → (enum : Option (List (JsonScalar N))) → (format : Option String) → SchemaNode N

  pub data Properties (N : Type 0) : Type 0 where
    no_more : Properties N
    property : String → SchemaNode N → Properties N → Properties N

mutual
  pub data Value (N : Type 0) : Type 0 where
    scalar : JsonScalar N → Value N
    array : Items N → Value N
    object : Fields N → Value N

  pub data Items (N : Type 0) : Type 0 where
    nil : Items N
    cons : Value N → Items N → Items N

  pub data Fields (N : Type 0) : Type 0 where
    end : Fields N
    field : String → Value N → Fields N → Fields N

-- `list.includes(key)`, and `new Set(list).has(key)`
unfoldable pub includes : String → List String → Bool
includes key [] = false
includes key (k ∷ keys) = str_eq k key || includes key keys

-- What every object has from `Object.prototype`.
unfoldable pub inherited_names : List String
inherited_names =
    "constructor" ∷ "__defineGetter__" ∷ "__defineSetter__" ∷ "hasOwnProperty" ∷ "__lookupGetter__"
    ∷ "__lookupSetter__" ∷ "isPrototypeOf" ∷ "propertyIsEnumerable" ∷ "toString" ∷ "valueOf"
    ∷ "__proto__" ∷ "toLocaleString" ∷ []

unfoldable pub is_inherited : String → Bool
unfolding includes inherited_names
is_inherited key = includes key inherited_names

module _ {N : Type 0} where
  -- `properties[key]`, where the key is the object's own
  unfoldable pub property_of : String → Properties N → Option (SchemaNode N)
  property_of key no_more = none
  property_of key (property k node rest) = if str_eq k key then some node else property_of key rest

  unfoldable pub owns : String → Properties N → Bool
  owns key no_more = false
  owns key (property k node rest) = str_eq k key || owns key rest

  -- `key in propertyMap`
  unfoldable pub declares : String → Properties N → Bool
  unfolding owns is_inherited
  declares key properties = owns key properties || is_inherited key

  unfoldable pub field_of : String → Fields N → Option (Value N)
  field_of key end = none
  field_of key (field k value rest) = if str_eq k key then some value else field_of key rest

  -- The loop over `required`.
  unfoldable pub all_declared : List String → Properties N → Bool
  all_declared [] properties = true
  all_declared (key ∷ required) properties =
      declares key properties && all_declared required properties

  -- The keys of an object are distinct.
  unfoldable pub distinct : Properties N → Bool
  distinct no_more = true
  distinct (property k node rest) = not (owns k rest) && distinct rest

-- What of the profile the types do not say already: a required property is declared, all through.
unfoldable mutual
  pub in_profile : {N : Type 0} → SchemaNode N → Bool
  in_profile (object_node properties required) =
      all_declared required properties && (distinct properties && all_in_profile properties)
  in_profile (array_node items) = in_profile items
  in_profile (scalar_node types enum format) = true

  pub all_in_profile : {N : Type 0} → Properties N → Bool
  all_in_profile no_more = true
  all_in_profile (property k node rest) = in_profile node && all_in_profile rest
