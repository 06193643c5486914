-- ===== src/SchemaRegistry/Compatibility.antt =====
-- src/schema-registry/compatibility.ts: what is not compatible between a schema and its successor. The
-- texts of the findings are left out.
pub mod Scalars
pub mod Objects
pub mod Required
pub mod Sound
mod Tests
use boilerplate_nestjs_api.Prelude.{
  String, Bool, true, false, ◌&&◌, ◌||◌, not, List, [], ◌∷◌, ◌++◌, Option, none, some, str_eq,
  if◌then◌else◌,
}
use boilerplate_nestjs_api.SchemaRegistry.Node.{
  PrimitiveType, string, number, integer, boolean, null_type, JsonScalar, text, numeral, flag, null,
  SchemaNode, object_node, array_node, scalar_node, Properties, no_more, property, includes,
  property_of, owns, is_inherited, in_profile,
}

pub data CompatibilityDirection : Type 0 where
  backward forward : CompatibilityDirection

abbrev pub both_directions : List CompatibilityDirection
both_directions = backward ∷ forward ∷ []

pub data Segment : Type 0 where
  at_property : String → Segment
  at_items : Segment

-- `unreadable` stands for the `SchemaProfileError` that is thrown in place of all findings.
pub data Rule : Type 0 where
  kind_changed optional_became_required required_became_optional required_property_removed : Rule
  required_property_added type_changed : Rule
  unreadable : Rule
  enum_added enum_removed enum_changed format_added format_removed format_changed : Rule

-- The path from the root, the last segment first.
pub record Incompatibility : Type 0 where
  pub path : List Segment
  pub rule : Rule
  pub breaks : List CompatibilityDirection

abbrev pub same_type : PrimitiveType → PrimitiveType → Bool
same_type string string = true
same_type number number = true
same_type integer integer = true
same_type boolean boolean = true
same_type null_type null_type = true
same_type _ _ = false

pub has_type : PrimitiveType → List PrimitiveType → Bool
has_type type [] = false
has_type type (t ∷ types) = same_type t type || has_type type types

-- Every type of the second list is accepted by the first.
pub covers : List PrimitiveType → List PrimitiveType → Bool
unfolding has_type
covers superset [] = true
covers superset (type ∷ subset) =
    (has_type type superset || (same_type type integer && has_type number superset))
    && covers superset subset

abbrev pub unless : Bool → CompatibilityDirection → List CompatibilityDirection
unless ok direction = if ok then [] else direction ∷ []

abbrev pub found : List Segment → Rule → List CompatibilityDirection → List Incompatibility
found path rule breaks = record { path = path; rule = rule; breaks = breaks } ∷ []

-- Only for the property of a key that both declare.
pub compare_required : Bool → Bool → List Segment → List Incompatibility
compare_required before after path =
    (if not before && after then found path optional_became_required (backward ∷ []) else [])
    ++ (if before && not after then found path required_became_optional (forward ∷ []) else [])

-- A constraint that may be absent on either side.
pub compare_constraint {ℓ} :
    {T : Type ℓ}
    → Option T
    → Option T
    → List Segment
    → Rule
    → Rule
    → Rule
    → (T → T → Bool)
    → (T → T → List CompatibilityDirection)
    → List Incompatibility
compare_constraint none none path added removed changed equal when_different = []
compare_constraint none (some next) path added removed changed equal when_different =
    found path added (backward ∷ [])
compare_constraint (some previous) none path added removed changed equal when_different =
    found path removed (forward ∷ [])
compare_constraint (some previous) (some next) path added removed changed equal when_different =
    if equal previous next then [] else found path changed (when_different previous next)

-- Of two formats neither is known to accept more.
abbrev pub compare_formats : Option String → Option String → List Segment → List Incompatibility
compare_formats previous next path =
    compare_constraint previous next path format_added format_removed format_changed str_eq
      (λ a b. both_directions)

module _ {N : Type 0} (same : N → N → Bool) where
  abbrev pub same_scalar : JsonScalar N → JsonScalar N → Bool
  same_scalar (text a) (text b) = str_eq a b
  same_scalar (numeral a) (numeral b) = same a b
  same_scalar (flag true) (flag true) = true
  same_scalar (flag false) (flag false) = true
  same_scalar null null = true
  same_scalar _ _ = false

  pub member : List (JsonScalar N) → JsonScalar N → Bool
  member [] value = false
  member (v ∷ values) value = same_scalar v value || member values value

  -- `values.every((value) => others.includes(value))`
  pub every_in : List (JsonScalar N) → List (JsonScalar N) → Bool
  unfolding member
  every_in [] others = true
  every_in (v ∷ values) others = member others v && every_in values others

  abbrev pub enum_breaks : List (JsonScalar N) → List (JsonScalar N) → List CompatibilityDirection
  enum_breaks previous next =
      unless (every_in previous next) backward ++ unless (every_in next previous) forward

  pub compare_types : List PrimitiveType → List PrimitiveType → List Segment → List Incompatibility
  compare_types previous next path = elim (type_breaks) [
    | [] ↦ []
    | d ∷ rest ↦ found path type_changed (d ∷ rest)
  ]
    where
      type_breaks : List CompatibilityDirection
      type_breaks = unless (covers next previous) backward ++ unless (covers previous next) forward

  abbrev pub compare_enums :
      Option (List (JsonScalar N))
      → Option (List (JsonScalar N))
      → List Segment
      → List Incompatibility
  compare_enums previous next path =
      compare_constraint previous next path enum_added enum_removed enum_changed
        (λ a b. every_in a b && every_in b a) enum_breaks

  pub compare_scalars :
      List PrimitiveType
      → Option (List (JsonScalar N))
      → Option String
      → List PrimitiveType
      → Option (List (JsonScalar N))
      → Option String
      → List Segment
      → List Incompatibility
  compare_scalars types enum format types' enum' format' path =
      compare_types types types' path
      ++ (compare_enums enum enum' path ++ compare_formats format format' path)

module _ {N : Type 0} where
  -- A node against a member of `Object.prototype`, which has no type and counts as a scalar.
  pub compare_inherited : SchemaNode N → List Segment → List Incompatibility
  compare_inherited (object_node properties required) path = found path kind_changed both_directions
  compare_inherited (array_node items) path = found path kind_changed both_directions
  compare_inherited (scalar_node types enum format) path = found path unreadable both_directions

  -- The properties that are not the previous schema's own.
  pub compare_added :
      Properties N → List String → Properties N → List String → List Segment → List Incompatibility
  unfolding compare_inherited
  compare_added previous required no_more required' path = []
  compare_added previous required (property key node next) required' path =
      (if owns key previous
        then []
        else if is_inherited key
        then compare_required (includes key required) (includes key required')
            (at_property key ∷ path)
          ++ compare_inherited node (at_property key ∷ path)
        else if includes key required'
        then found (at_property key ∷ path) required_property_added (backward ∷ [])
        else [])
      ++ compare_added previous required next required' path

mutual
  pub compare_nodes :
      {N : Type 0}
      → (N → N → Bool)
      → SchemaNode N
      → SchemaNode N
      → List Segment
      → List Incompatibility
  compare_nodes same (object_node before required) (object_node after required') path =
      compare_kept same before required after required' path
      ++ compare_added before required after required' path
  compare_nodes same (array_node before) (array_node after) path =
      compare_nodes same before after (at_items ∷ path)
  compare_nodes same (scalar_node types enum format) (scalar_node types' enum' format') path =
      compare_scalars same types enum format types' enum' format' path
  compare_nodes same previous next path = found path kind_changed both_directions

  -- The properties that are the previous schema's own.
  pub compare_kept :
      {N : Type 0}
      → (N → N → Bool)
      → Properties N
      → List String
      → Properties N
      → List String
      → List Segment
      → List Incompatibility
  compare_kept same no_more required next required' path = []
  compare_kept same (property key before rest) required next required' path =
      elim (property_of key next) [
        | none ↦
            if is_inherited key
            then compare_required (includes key required) (includes key required')
                (at_property key ∷ path)
              ++ compare_inherited before (at_property key ∷ path)
            else if includes key required
            then found (at_property key ∷ path) required_property_removed (forward ∷ [])
            else []
        | some after ↦
            compare_required (includes key required) (includes key required')
              (at_property key ∷ path)
            ++ compare_nodes same before after (at_property key ∷ path)
      ]
      ++ compare_kept same rest required next required' path

abbrev pub is_clean : Option (List Incompatibility) → Bool
is_clean (some []) = true
is_clean _ = false

abbrev pub is_unreadable : Rule → Bool
is_unreadable unreadable = true
is_unreadable _ = false

pub raises : List Incompatibility → Bool
raises [] = false
raises (f ∷ findings) = is_unreadable f.rule || raises findings

module _ {N : Type 0} (same : N → N → Bool) where
  -- `none`: a document is outside the profile, or a type is looked for where there is none, and
  -- `SchemaProfileError` is thrown.
  pub check_compatibility : SchemaNode N → SchemaNode N → Option (List Incompatibility)
  check_compatibility previous next =
      if in_profile previous && in_profile next
      then (if raises (compare_nodes same previous next [])
          then none
          else some (compare_nodes same previous next []))
      else none

  pub assert_fully_compatible : SchemaNode N → SchemaNode N → Bool
  assert_fully_compatible previous next = is_clean (check_compatibility previous next)

  -- One version against every later one.
  pub suits_later : SchemaNode N → List (SchemaNode N) → Bool
  suits_later older [] = true
  suits_later older (newer ∷ versions) =
      assert_fully_compatible older newer && suits_later older versions

  -- Whether no pair throws.
  pub assert_history_is_fully_compatible : List (SchemaNode N) → Bool
  assert_history_is_fully_compatible [] = true
  assert_history_is_fully_compatible (older ∷ versions) =
      suits_later older versions && assert_history_is_fully_compatible versions
