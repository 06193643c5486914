-- ===== src/SchemaRegistry/Compatibility/Sound.antt =====
-- What a comparison of src/schema-registry/compatibility.ts that finds nothing is worth to a reader.
use boilerplate_nestjs_api.Prelude.{
  ℕ, zero, suc, ◌<◌, get_elem?, ◌≡◌, refl, sym, subst, ◌↔◌, inl, inr, String, true, false, List, [],
  ◌∷◌, Option, none, some, arith, str_eq, eq_iff, Bool-cases, Option-cases,
}
use boilerplate_nestjs_api.SchemaRegistry.Node.{
  SchemaNode, object_node, array_node, scalar_node, Properties, no_more, property, Value, scalar,
  array, object, Items, nil, cons, Fields, property_of, owns, field_of,
}
use boilerplate_nestjs_api.SchemaRegistry.Compatibility.{
  CompatibilityDirection, backward, forward, Incompatibility, Segment, at_property, at_items,
  compare_added, compare_kept, compare_nodes, check_compatibility, is_clean,
  assert_fully_compatible, suits_later, assert_history_is_fully_compatible,
}
use boilerplate_nestjs_api.SchemaRegistry.Meaning.{
  Validator, open_content, declared_content, Each, Only, FitsAll, Fits,
}
use boilerplate_nestjs_api.SchemaRegistry.Compatibility.Scalars.{
  reader, writer, breaks, scalars_sound,
}
use boilerplate_nestjs_api.SchemaRegistry.Compatibility.Objects.{
  strict, all_strict, requires_own, requires_own-strict, owns-property_of, AllPresent-includes,
  includes-AllPresent, Only-owns, all_strict-property_of, FitsAll-property_of, property_of-FitsAll,
  IfThere,
}
use boilerplate_nestjs_api.SchemaRegistry.Compatibility.Required.{
  append_clean, at_key, at_key_both, required_backward, required_forward,
}

Each-map :
    {N : Type 0} (P Q : Value N → Type 0) (values : Items N)
    → ((value : Value N) → P value → Q value)
    → Each P values
    → Each Q values
Each-map P Q nil f all = tt
Each-map P Q (cons value values) f all = (f value all.0, Each-map P Q values f all.1)

clash : {A : Type 0} → true ≡ false → A
clash h = absurd (cc h)

module _ {N : Type 0} (v : Validator N) (same_iff : (a b : N) → (v.same a b ≡ true) ↔ (a ≡ b)) where
  abbrev Sound :
      CompatibilityDirection → SchemaNode N → SchemaNode N → List Segment → Value N → Type 0
  Sound d before after path value =
      strict (reader d before after) ≡ true
      → breaks d (compare_nodes v.same before after path) ≡ false
      → Fits v declared_content (writer d before after) value
      → Fits v open_content (reader d before after) value

  mutual
    unfolding compare_nodes strict owns property_of

    node-Sound :
        (d : CompatibilityDirection) (before after : SchemaNode N) (path : List Segment)
        (value : Value N)
        → Sound d before after path value
    node-Sound backward (object_node before required) (object_node after required') path
          (object fields) profile fine fits =
        let (kept, added) =
          append_clean backward (compare_kept v.same before required after required' path)
            (compare_added before required after required' path) fine in
        (
          includes-AllPresent required' fields (λ key wanted.
              AllPresent-includes required fields key fits.0 (
                required_backward v.same before after required required' path key
                  (ground (arith, profile)) kept added wanted)),
          property_of-FitsAll v open_content after fields (ground (arith, profile))
              (λ key next value is_next is_value.
                backward_kept before required after required' path key next fields value
                  (ground (arith, profile)) kept (Only-owns before fields key value fits.2 is_value)
                  is_next is_value fits.1),
          tt,
        )
    node-Sound forward (object_node before required) (object_node after required') path
          (object fields) profile fine fits =
        let (kept, added) =
          append_clean forward (compare_kept v.same before required after required' path)
            (compare_added before required after required' path) fine in
        (
          includes-AllPresent required fields (λ key wanted.
              AllPresent-includes required' fields key fits.0 (
                required_forward v.same before after required required' path key
                  (ground (arith, profile)) kept wanted)),
          forward_kept before required after required' path fields (ground (arith, profile)) kept
              fits.2 fits.1,
          tt,
        )
    node-Sound backward (array_node before) (array_node after) path (array values) profile fine
          fits =
        Each-map _ _ values
          (λ value h. node-Sound backward before after (at_items ∷ path) value profile fine h) fits
    node-Sound forward (array_node before) (array_node after) path (array values) profile fine
          fits =
        Each-map _ _ values
          (λ value h. node-Sound forward before after (at_items ∷ path) value profile fine h) fits
    node-Sound backward (scalar_node types enum format) (scalar_node types' enum' format') path
          (scalar s) profile fine fits =
        scalars_sound v same_iff backward types types' enum enum' format format' path s fine fits
    node-Sound forward (scalar_node types enum format) (scalar_node types' enum' format') path
          (scalar s) profile fine fits =
        scalars_sound v same_iff forward types types' enum enum' format format' path s fine fits
    node-Sound backward (object_node b r) (object_node a r') path (scalar x) profile fine fits =
        elim fits [ ]
    node-Sound backward (object_node b r) (object_node a r') path (array x) profile fine fits =
        elim fits [ ]
    node-Sound backward (array_node b) (array_node a) path (scalar x) profile fine fits =
        elim fits [ ]
    node-Sound backward (array_node b) (array_node a) path (object x) profile fine fits =
        elim fits [ ]
    node-Sound backward (scalar_node t e f) (scalar_node t' e' f') path (array x) profile fine
          fits =
        elim fits [ ]
    node-Sound backward (scalar_node t e f) (scalar_node t' e' f') path (object x) profile fine
          fits =
        elim fits [ ]
    node-Sound forward (object_node b r) (object_node a r') path (scalar x) profile fine fits =
        elim fits [ ]
    node-Sound forward (object_node b r) (object_node a r') path (array x) profile fine fits =
        elim fits [ ]
    node-Sound forward (array_node b) (array_node a) path (scalar x) profile fine fits =
        elim fits [ ]
    node-Sound forward (array_node b) (array_node a) path (object x) profile fine fits =
        elim fits [ ]
    node-Sound forward (scalar_node t e f) (scalar_node t' e' f') path (array x) profile fine fits =
        elim fits [ ]
    node-Sound forward (scalar_node t e f) (scalar_node t' e' f') path (object x) profile fine
          fits =
        elim fits [ ]
    node-Sound backward _ _ path value profile fine fits = clash fine
    node-Sound forward _ _ path value profile fine fits = clash fine

    backward_kept :
        (before : Properties N) (required : List String) (after : Properties N)
        (required' : List String) (path : List Segment) (key : String) (next : SchemaNode N)
        (fields : Fields N) (value : Value N)
        → all_strict after ≡ true
        → breaks backward (compare_kept v.same before required after required' path) ≡ false
        → owns key before ≡ true
        → property_of key after ≡ some next
        → field_of key fields ≡ some value
        → FitsAll v declared_content before fields
        → Fits v open_content next value
    backward_kept no_more required after required' path key next fields value profile fine here
          is_next is_value fits =
        cc
    backward_kept (property k node rest) required after required' path key next fields value profile
          fine here is_next is_value fits =
        let (first, later) =
          append_clean backward (at_key v.same after after required required' path k node)
            (compare_kept v.same rest required after required' path) fine in
        elim (Bool-cases (str_eq k key)) [
          | inl this ↦
              let e = (eq_iff k key).0 this in
              let next_here : property_of k after ≡ some next = rw e is_next in
              let value_here : field_of k fields ≡ some value = rw e is_value in
              node-Sound backward node next (at_property k ∷ path) value
                (all_strict-property_of after key next profile is_next)
                (at_key_both v.same after after required required' path backward k node next first
                  next_here).1
                (subst (IfThere v declared_content node) value_here fits.0)
          | inr other ↦
              backward_kept rest required after required' path key next fields value profile later
                (ground (arith, here, other)) is_next is_value fits.1
        ]

    forward_kept :
        (before : Properties N) (required : List String) (after : Properties N)
        (required' : List String) (path : List Segment) (fields : Fields N)
        → all_strict before ≡ true
        → breaks forward (compare_kept v.same before required after required' path) ≡ false
        → Only after fields
        → FitsAll v declared_content after fields
        → FitsAll v open_content before fields
    forward_kept no_more required after required' path fields profile fine only fits = tt
    forward_kept (property k node rest) required after required' path fields profile fine only
          fits =
        let (first, later) =
          append_clean forward (at_key v.same after after required required' path k node)
            (compare_kept v.same rest required after required' path) fine in
        (
          elim (Option-cases (field_of k fields)) [
            | inl gone ↦ subst (IfThere v open_content node) (sym gone) tt
            | inr (value, there) ↦
                let (next, is_next) =
                  owns-property_of k after (Only-owns after fields k value only there) in
                subst (IfThere v open_content node) (sym there) (
                  node-Sound forward node next (at_property k ∷ path) value
                    (ground (arith, profile))
                    (at_key_both v.same after after required required' path forward k node next
                      first is_next).1
                    (FitsAll-property_of v declared_content after fields k next value fits is_next
                      there))
          ],
          forward_kept rest required after required' path fields (ground (arith, profile)) later
              only fits,
        )

  -- Where a comparison of two schemas ends and finds nothing that breaks a direction, what a writer on the
  -- one schema makes, with no property that the schema does not declare, the reader on the other accepts,
  -- if all that the reader's schema requires, all through, are properties of its own, not names from
  -- `Object.prototype`: backward, the writer is on the previous schema and the reader on the next;
  -- forward, the other way.
  pub check_compatibility_sound :
      (d : CompatibilityDirection) (previous next : SchemaNode N) (findings : List Incompatibility)
      (value : Value N)
      → check_compatibility v.same previous next ≡ some findings
      → breaks d findings ≡ false
      → requires_own (reader d previous next) ≡ true
      → Fits v declared_content (writer d previous next) value
      → Fits v open_content (reader d previous next) value
  unfolding check_compatibility
  check_compatibility_sound backward previous next findings value checked clean own =
      node-Sound backward previous next [] value
        (requires_own-strict next (ground (arith, checked)) own) (ground (arith, checked, clean))
  check_compatibility_sound forward previous next findings value checked clean own =
      node-Sound forward previous next [] value
        (requires_own-strict previous (ground (arith, checked)) own)
        (ground (arith, checked, clean))

  is_clean-some :
      (checked : Option (List Incompatibility)) → is_clean checked ≡ true → checked ≡ some []
  is_clean-some none h = cc
  is_clean-some (some []) h = refl
  is_clean-some (some (f ∷ findings)) h = cc

  suits_later-at :
      (older : SchemaNode N) (versions : List (SchemaNode N)) (j : ℕ) (newer : SchemaNode N)
      → suits_later v.same older versions ≡ true
      → get_elem? versions j ≡ some newer
      → assert_fully_compatible v.same older newer ≡ true
  unfolding suits_later
  suits_later-at older [] j newer all at = cc
  suits_later-at older (w ∷ versions) zero newer all at = ground (arith, all, at)
  suits_later-at older (w ∷ versions) (suc j) newer all at =
      suits_later-at older versions j newer (ground (arith, all)) at

  history-at :
      (versions : List (SchemaNode N)) (i j : ℕ) (older newer : SchemaNode N)
      → assert_history_is_fully_compatible v.same versions ≡ true
      → i < j
      → get_elem? versions i ≡ some older
      → get_elem? versions j ≡ some newer
      → assert_fully_compatible v.same older newer ≡ true
  unfolding assert_history_is_fully_compatible
  history-at [] i j older newer all lt at_i at_j = cc
  history-at (w ∷ versions) i zero older newer all lt at_i at_j = absurd (omega arith)
  history-at (w ∷ versions) zero (suc j) older newer all lt at_i at_j =
      suits_later-at older versions j newer (ground (arith, all, at_i)) at_j
  history-at (w ∷ versions) (suc i) (suc j) older newer all lt at_i at_j =
      history-at versions i j older newer (ground (arith, all)) (omega arith) at_i at_j

  -- In a history that is accepted, what a writer on any version makes, with no property that its schema
  -- does not declare, a reader on any other version accepts, be it later or earlier, if all that the
  -- reader's schema requires, all through, are properties of its own.
  pub history_sound :
      (versions : List (SchemaNode N)) (i j : ℕ) (older newer : SchemaNode N)
      (d : CompatibilityDirection) (value : Value N)
      → assert_history_is_fully_compatible v.same versions ≡ true
      → i < j
      → get_elem? versions i ≡ some older
      → get_elem? versions j ≡ some newer
      → requires_own (reader d older newer) ≡ true
      → Fits v declared_content (writer d older newer) value
      → Fits v open_content (reader d older newer) value
  history_sound versions i j older newer d value all lt at_i at_j own =
      let clean = history-at versions i j older newer all lt at_i at_j in
      check_compatibility_sound d older newer [] value
        (is_clean-some (check_compatibility v.same older newer)
          (unfold assert_fully_compatible in clean))
        (nothing d) own
    where
      nothing : (d : CompatibilityDirection) → breaks d [] ≡ false
      nothing d = refl
