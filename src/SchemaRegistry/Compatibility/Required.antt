-- ===== src/SchemaRegistry/Compatibility/Required.antt =====
-- The required properties of src/schema-registry/compatibility.ts: what a clean comparison says of them.
use boilerplate_nestjs_api.Prelude.{
  ◌≡◌, refl, subst, inl, inr, String, Bool, true, false, List, [], ◌∷◌, ◌++◌, none, some, arith,
  str_eq, eq_iff, Bool-cases, Option-cases, if◌then◌else◌,
}
use boilerplate_nestjs_api.SchemaRegistry.Node.{
  SchemaNode, object_node, array_node, scalar_node, Properties, no_more, property, includes,
  property_of, owns, is_inherited,
}
use boilerplate_nestjs_api.SchemaRegistry.Compatibility.{
  CompatibilityDirection, backward, forward, Incompatibility, Segment, at_property,
  compare_required, compare_inherited, compare_added, compare_kept, compare_nodes, found,
  required_property_removed, required_property_added,
}
use boilerplate_nestjs_api.SchemaRegistry.Compatibility.Scalars.{breaks, breaks-append}
use boilerplate_nestjs_api.SchemaRegistry.Compatibility.Objects.{
  all_owned, owns-property_of, all_owned-owns,
}

pub append_clean :
    (d : CompatibilityDirection) (xs ys : List Incompatibility)
    → breaks d (xs ++ ys) ≡ false
    → (breaks d xs ≡ false) × (breaks d ys ≡ false)
append_clean d xs ys h =
    let e = breaks-append d xs ys in (ground (arith, e, h), ground (arith, e, h))

-- A comparison with an inherited member is never clean.
inherited_breaks :
    {N : Type 0} (d : CompatibilityDirection) (node : SchemaNode N) (path : List Segment)
    (findings : List Incompatibility)
    → breaks d (findings ++ compare_inherited node path) ≡ true
unfolding compare_inherited
inherited_breaks d node path findings =
    ground (arith, breaks-append d findings (compare_inherited node path), both d node)
  where
    both :
        {N : Type 0} (d : CompatibilityDirection) (node : SchemaNode N)
        → breaks d (compare_inherited node path) ≡ true
    both backward (object_node properties required) = refl
    both backward (array_node items) = refl
    both backward (scalar_node types enum format) = refl
    both forward (object_node properties required) = refl
    both forward (array_node items) = refl
    both forward (scalar_node types enum format) = refl

module _ {N : Type 0} (same : N → N → Bool) (before after : Properties N)
    (required required' : List String) (path : List Segment) where
  -- What is compared at one key of the previous schema.
  abbrev pub at_key : String → SchemaNode N → List Incompatibility
  at_key key node = elim (property_of key after) [
    | none ↦
        if is_inherited key
        then compare_required (includes key required) (includes key required')
            (at_property key ∷ path)
          ++ compare_inherited node (at_property key ∷ path)
        else if includes key required
        then found (at_property key ∷ path) required_property_removed (forward ∷ [])
        else []
    | some next ↦
        compare_required (includes key required) (includes key required') (at_property key ∷ path)
        ++ compare_nodes same node next (at_property key ∷ path)
  ]

  -- A key that both declare had its two sides compared.
  pub at_key_both :
      (d : CompatibilityDirection) (key : String) (node next : SchemaNode N)
      → breaks d (at_key key node) ≡ false
      → property_of key after ≡ some next
      → (breaks d (
            compare_required
              (includes key required)
              (includes key required')
              (at_property key ∷ path))
          ≡ false)
        × (breaks d (compare_nodes same node next (at_property key ∷ path)) ≡ false)
  at_key_both d key node next clean is_next =
      append_clean d
        (compare_required (includes key required) (includes key required') (at_property key ∷ path))
        (compare_nodes same node next (at_property key ∷ path)) (ground (arith, clean, is_next))

  -- A key that the previous schema owns was compared.
  pub kept_key :
      (d : CompatibilityDirection) (properties : Properties N) (key : String)
      → owns key properties ≡ true
      → breaks d (compare_kept same properties required after required' path) ≡ false
      → (node : SchemaNode N) × (breaks d (at_key key node) ≡ false)
  unfolding owns compare_nodes
  kept_key d no_more key here fine = cc
  kept_key d (property k node rest) key here fine =
      let (first, later) =
        append_clean d (at_key k node) (compare_kept same rest required after required' path)
          fine in
      elim (Bool-cases (str_eq k key)) [
        | inl this ↦
            (node, subst (λ x. breaks d (at_key x node) ≡ false) ((eq_iff k key).0 this) first)
        | inr other ↦ kept_key d rest key (ground (arith, here, other)) later
      ]

  -- What is compared at one key of the next schema.
  abbrev at_new : String → SchemaNode N → List Incompatibility
  at_new key node =
      if owns key before
      then []
      else if is_inherited key
      then compare_required (includes key required) (includes key required')
          (at_property key ∷ path)
        ++ compare_inherited node (at_property key ∷ path)
      else if includes key required'
      then found (at_property key ∷ path) required_property_added (backward ∷ [])
      else []

  added_key :
      (properties : Properties N) (key : String)
      → owns key properties ≡ true
      → breaks backward (compare_added before required properties required' path) ≡ false
      → owns key before ≡ false
      → includes key required' ≡ false
  unfolding owns compare_added
  added_key no_more key here fine new = cc
  added_key (property k node rest) key here fine new =
      let (first, later) =
        append_clean backward (at_new k node) (compare_added before required rest required' path)
          fine in
      elim (Bool-cases (str_eq k key)) [
        | inl this ↦ ground (
          arith,
          (eq_iff k key).0 this,
          first,
          new,
          inherited_breaks backward node (at_property k ∷ path) (
              compare_required (includes k required) (includes k required') (at_property k ∷ path)),
        )
        | inr other ↦ added_key rest key (ground (arith, here, other)) later new
      ]

  -- What the reader requires, the writer does.
  pub required_backward :
      (key : String)
      → all_owned required' after ≡ true
      → breaks backward (compare_kept same before required after required' path) ≡ false
      → breaks backward (compare_added before required after required' path) ≡ false
      → includes key required' ≡ true
      → includes key required ≡ true
  unfolding compare_required
  required_backward key profile kept added wanted =
      let there = all_owned-owns required' after key profile wanted in
      elim (Bool-cases (owns key before)) [
        | inr new ↦ absurd (ground (arith, added_key after key there added new, wanted))
        | inl old ↦
            let (node, clean) = kept_key backward before key old kept in
            let (next, is_next) = owns-property_of key after there in
            ground (arith, (at_key_both backward key node next clean is_next).0, wanted)
      ]

  pub required_forward :
      (key : String)
      → all_owned required before ≡ true
      → breaks forward (compare_kept same before required after required' path) ≡ false
      → includes key required ≡ true
      → includes key required' ≡ true
  unfolding compare_required
  required_forward key profile kept wanted =
      let old = all_owned-owns required before key profile wanted in
      let (node, clean) = kept_key forward before key old kept in
      elim (Option-cases (property_of key after)) [
        | inl gone ↦ absurd (
            ground (
              arith,
              clean,
              gone,
              wanted,
              inherited_breaks forward node (at_property key ∷ path) (
                  compare_required (includes key required) (includes key required')
                    (at_property key ∷ path)),
            ))
        | inr (next, is_next) ↦
            ground (arith, (at_key_both forward key node next clean is_next).0, wanted)
      ]
