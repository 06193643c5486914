-- ===== src/SchemaRegistry/Compatibility/Tests.antt =====
-- A history of three versions of a contract, and what is read across it.
use boilerplate_nestjs_api.Prelude.{ℕ, ◌≡◌, refl, true, [], ◌∷◌, none, some, ◌==◌, ==_iff, arith}
use boilerplate_nestjs_api.SchemaRegistry.Node.{
  SchemaNode, object_node, scalar_node, no_more, property, string, integer, text, numeral, Value,
  scalar, object, end, field, in_profile, includes, property_of, owns, declares, is_inherited,
  inherited_names, field_of, all_declared, distinct,
}
use boilerplate_nestjs_api.SchemaRegistry.Meaning.{Validator, Fits, open_content, is_of_some}
use boilerplate_nestjs_api.SchemaRegistry.Compatibility.{
  backward, forward, check_compatibility, assert_fully_compatible, suits_later,
  assert_history_is_fully_compatible, compare_nodes, compare_required, compare_added,
  compare_constraint, compare_scalars, compare_types, compare_inherited, raises, covers, has_type,
  at_property, optional_became_required,
}
use boilerplate_nestjs_api.SchemaRegistry.Compatibility.Objects.{all_owned, requires_own}
use boilerplate_nestjs_api.SchemaRegistry.Compatibility.Sound.{
  check_compatibility_sound, history_sound,
}

abbrev naturals : Validator ℕ
naturals = record { same = λ a b. a == b; is_whole = λ n. true; meets = λ format s. true }

abbrev id_node : SchemaNode ℕ
id_node = scalar_node (string ∷ []) none none

abbrev age_node : SchemaNode ℕ
age_node = scalar_node (integer ∷ []) none none

abbrev v1 : SchemaNode ℕ
v1 = object_node (property "id" id_node no_more) ("id" ∷ [])

-- An optional property is added.
abbrev v2 : SchemaNode ℕ
v2 = object_node (property "id" id_node (property "age" age_node no_more)) ("id" ∷ [])

-- It becomes required.
abbrev v3 : SchemaNode ℕ
v3 = object_node (property "id" id_node (property "age" age_node no_more)) ("id" ∷ "age" ∷ [])

abbrev user : Value ℕ
user = object (field "id" (scalar (text "u1")) (field "age" (scalar (numeral 7)) end))

required_later :
    check_compatibility naturals.same v2 v3
    ≡ some (
        record {
          path = at_property "age" ∷ [];
          rule = optional_became_required;
          breaks = backward ∷ [];
        }
        ∷ [])
unfolding check_compatibility compare_nodes in_profile all_declared declares owns is_inherited
    inherited_names distinct property_of compare_required includes compare_scalars compare_types
    covers has_type compare_constraint compare_added compare_inherited raises all_owned requires_own
    field_of is_of_some
required_later = refl

check_compatibility_sound_example : Fits naturals open_content v2 user
unfolding check_compatibility compare_nodes in_profile all_declared declares owns is_inherited
    inherited_names distinct property_of compare_required includes compare_scalars compare_types
    covers has_type compare_constraint compare_added compare_inherited raises all_owned requires_own
    field_of is_of_some
check_compatibility_sound_example =
    check_compatibility_sound naturals ==_iff forward v2 v3
      (record {
        path = at_property "age" ∷ [];
        rule = optional_became_required;
        breaks = backward ∷ [];
      }
        ∷ [])
      user refl refl refl
      ((tt, (tt, tt)), ((refl, refl, refl), ((refl, refl, refl), tt)), (refl, (refl, tt)))

history_sound_example : Fits naturals open_content v1 user
unfolding assert_history_is_fully_compatible suits_later assert_fully_compatible check_compatibility
    compare_nodes in_profile all_declared declares owns is_inherited inherited_names distinct
    property_of compare_required includes compare_scalars compare_types covers has_type
    compare_constraint compare_added compare_inherited raises all_owned requires_own field_of
    is_of_some
history_sound_example =
    history_sound naturals ==_iff (v1 ∷ v2 ∷ []) 0 1 v1 v2 forward user refl (omega arith) refl refl
      refl ((tt, tt), ((refl, refl, refl), ((refl, refl, refl), tt)), (refl, (refl, tt)))

-- A new requirement of a name that every object inherits goes unnoticed.
abbrev nothing_required : SchemaNode ℕ
nothing_required = object_node no_more []

abbrev inherited_required : SchemaNode ℕ
inherited_required = object_node no_more ("toString" ∷ [])

inherited_unnoticed :
    check_compatibility naturals.same nothing_required inherited_required ≡ some []
unfolding check_compatibility compare_nodes in_profile all_declared declares owns is_inherited
    inherited_names includes distinct compare_added raises
inherited_unnoticed = refl
