-- ===== src/Audit/Evidence.antt =====
-- What a walk along the chain of src/audit/audit-chain.verifier.ts that finds nothing is evidence of.
use boilerplate_nestjs_api.Prelude.{
  ℕ, ◌≡◌, ◌≢◌, ◌⊎◌, refl, sym, ap, ◌∙◌, subst, inl, inr, true, false, List, [], ◌∷◌, Option, some,
  arith, ◌==◌, ==_iff, same_text, same_text_eq, same_text_refl, Utf16, Bool-cases, Option-cases,
}
use boilerplate_nestjs_api.Audit.Json.{Json, canonical_json}
use boilerplate_nestjs_api.Audit.Hash.{
  AuditEntry, framed, field_names, field_values, audit_entry_preimage, audit_entry_hash,
}
use boilerplate_nestjs_api.Audit.Framing.{bytes_of, SameValues, framed_injective}
use boilerplate_nestjs_api.Audit.Verifier.{
  Progress, AuditChainReport, intact, breached, thrown, expected_seq, expected_prev_hash, advance,
  Inspection, fine, found, threw, inspect, walk,
}

same_text_ne : (s t : Utf16) → same_text s t ≡ false → s ≢ t
same_text_ne s t h = λ e. cc (subst (λ x. same_text s x ≡ true) e (same_text_refl s), h)

abbrev pub advance_all : List AuditEntry → Progress → Progress
advance_all [] progress = progress
advance_all (entry ∷ entries) progress = advance_all entries (advance entry progress)

module _ (quote : Utf16 → Utf16) (utf8 : Utf16 → List ℕ) (to_iso_string : ℕ → Utf16)
    (sha256 : List ℕ → Utf16) where
  -- What the checks of an entry say, after the one before it.
  abbrev pub Links : AuditEntry → Option AuditEntry → Type 0
  Links entry previous =
      (entry.placed.seq ≡ expected_seq previous)
      × (entry.placed.prev_hash ≡ expected_prev_hash previous)
      × (audit_entry_hash quote utf8 to_iso_string sha256 entry.placed ≡ some entry.hash)

  pub inspect-Links :
      (entry : AuditEntry) (previous : Option AuditEntry)
      → inspect quote utf8 to_iso_string sha256 entry previous ≡ fine
      → Links entry previous
  unfolding inspect
  inspect-Links entry previous passed =
      elim (Option-cases (audit_entry_hash quote utf8 to_iso_string sha256 entry.placed)) [
        | inl refused ↦ ground (arith, passed, refused)
        | inr hashed ↦ (
          ground (arith, passed),
          same_text_eq entry.placed.prev_hash (expected_prev_hash previous)
              (ground (arith, passed)),
          hashed.1 ∙ ap some (same_text_eq hashed.0 entry.hash (ground (arith, passed, hashed.1))),
        )
      ]

  pub Links-inspect :
      (entry : AuditEntry) (previous : Option AuditEntry)
      → Links entry previous
      → inspect quote utf8 to_iso_string sha256 entry previous ≡ fine
  unfolding inspect
  Links-inspect entry previous links =
      let number : (entry.placed.seq == expected_seq previous) ≡ true =
        (==_iff entry.placed.seq (expected_seq previous)).1 links.0 in
      let linked : same_text entry.placed.prev_hash (expected_prev_hash previous) ≡ true =
        subst (λ x. same_text entry.placed.prev_hash x ≡ true) links.1
          (same_text_refl entry.placed.prev_hash) in
      ground (arith, number, linked, links.2, same_text_refl entry.hash)

  abbrev pub Chained : Option AuditEntry → List AuditEntry → Type 0
  Chained previous [] = Unit {0}
  Chained previous (entry ∷ entries) = Links entry previous × Chained (some entry) entries

  walk-fine :
      (entry : AuditEntry) (entries : List AuditEntry) (progress last : Progress)
      (rest : Progress → AuditChainReport)
      → walk quote utf8 to_iso_string sha256 (entry ∷ entries) progress rest ≡ intact last
      → (inspect quote utf8 to_iso_string sha256 entry progress.previous ≡ fine)
        × (walk quote utf8 to_iso_string sha256 entries (advance entry progress) rest ≡ intact last)
  unfolding walk
  walk-fine entry entries progress last rest =
      go (inspect quote utf8 to_iso_string sha256 entry progress.previous)
    where
      go :
          (answer : Inspection)
          → (elim answer [
            | fine ↦ walk quote utf8 to_iso_string sha256 entries (advance entry progress) rest
            | found breach ↦ breached progress breach
            | threw ↦ thrown
          ])
            ≡ intact last
          → (answer ≡ fine)
            × (walk quote utf8 to_iso_string sha256 entries (advance entry progress) rest
                ≡ intact last)
      go fine h = (refl, h)
      go (found breach) h = cc h
      go threw h = cc h

  walk-done :
      (progress last : Progress) (rest : Progress → AuditChainReport)
      → walk quote utf8 to_iso_string sha256 [] progress rest ≡ intact last
      → rest progress ≡ intact last
  unfolding walk
  walk-done progress last rest h = h

  pub walk-Chained :
      (entries : List AuditEntry) (progress last : Progress) (rest : Progress → AuditChainReport)
      → walk quote utf8 to_iso_string sha256 entries progress rest ≡ intact last
      → Chained progress.previous entries × (rest (advance_all entries progress) ≡ intact last)
  walk-Chained [] progress last rest h = (tt, walk-done progress last rest h)
  walk-Chained (entry ∷ entries) progress last rest h =
      let step = walk-fine entry entries progress last rest h in
      let further = walk-Chained entries (advance entry progress) last rest step.1 in
      ((inspect-Links entry progress.previous step.0, further.0), further.1)

  pub Chained-walk :
      (entries : List AuditEntry) (progress : Progress) (rest : Progress → AuditChainReport)
      → Chained progress.previous entries
      → walk quote utf8 to_iso_string sha256 entries progress rest
        ≡ rest (advance_all entries progress)
  unfolding walk
  Chained-walk [] progress rest links = refl
  Chained-walk (entry ∷ entries) progress rest links =
      rw (walk, Links-inspect entry progress.previous links.0)
        (Chained-walk entries (advance entry progress) rest links.1)

abbrev pub Among : AuditEntry → List AuditEntry → Type 0
Among a [] = ⊥
Among a (entry ∷ entries) = (a ≡ entry) ⊎ Among a entries

module _ (quote : Utf16 → Utf16) (utf8 : Utf16 → List ℕ) (to_iso_string : ℕ → Utf16)
    (sha256 : List ℕ → Utf16) where
  -- The bytes of two entries differ, and have one hash.
  abbrev pub Collides : AuditEntry → AuditEntry → Type 0
  Collides a b =
      (x : List ℕ) × (y : List ℕ) × (audit_entry_preimage quote utf8 to_iso_string sha256 a.placed
        ≡ some x)
      × (audit_entry_preimage quote utf8 to_iso_string sha256 b.placed ≡ some y)
      × (x ≢ y)
      × (sha256 x ≡ sha256 y)

  -- An entry of the one list and an entry of the other do that.
  abbrev pub Collision : List AuditEntry → List AuditEntry → Type 0
  Collision entries others =
      (a : AuditEntry) × (b : AuditEntry) × Among a entries × Among b others × Collides a b

  -- Every value that is hashed is the same in both, byte for byte.
  abbrev pub SameHashed : AuditEntry → AuditEntry → Type 0
  SameHashed a b =
      (details_a : Utf16) × (details_b : Utf16) × (canonical_json quote a.placed.details
        ≡ some details_a)
      × (canonical_json quote b.placed.details ≡ some details_b)
      × SameValues utf8 field_names (field_values to_iso_string a.placed details_a)
          (field_values to_iso_string b.placed details_b)

  -- The details have canonical texts, which are the same in UTF-8.
  abbrev pub SameDetails : Json → Json → Type 0
  SameDetails a b =
      (text_a : Utf16) × (text_b : Utf16) × (canonical_json quote a ≡ some text_a)
      × (canonical_json quote b ≡ some text_b)
      × (utf8 text_a ≡ utf8 text_b)

  -- The entries are the same, field by field, where a text counts by its UTF-8 and a time by its text.
  abbrev pub SameEntry : AuditEntry → AuditEntry → Type 0
  SameEntry a b =
      (a.hash ≡ b.hash)
      × (a.placed.seq ≡ b.placed.seq)
      × (utf8 (to_iso_string a.placed.occurred_at) ≡ utf8 (to_iso_string b.placed.occurred_at))
      × (utf8 a.placed.action ≡ utf8 b.placed.action)
      × (utf8 a.placed.resource_type ≡ utf8 b.placed.resource_type)
      × (utf8 a.placed.resource_id ≡ utf8 b.placed.resource_id)
      × SameDetails a.placed.details b.placed.details
      × (bytes_of utf8 a.placed.actor_id ≡ bytes_of utf8 b.placed.actor_id)
      × (bytes_of utf8 a.placed.actor_role ≡ bytes_of utf8 b.placed.actor_role)
      × (bytes_of utf8 a.placed.correlation_id ≡ bytes_of utf8 b.placed.correlation_id)
      × (utf8 a.placed.prev_hash ≡ utf8 b.placed.prev_hash)

  abbrev pub SameEntries : List AuditEntry → List AuditEntry → Type 0
  SameEntries [] [] = Unit {0}
  SameEntries [] (b ∷ others) = ⊥
  SameEntries (a ∷ entries) [] = ⊥
  SameEntries (a ∷ entries) (b ∷ others) = SameEntry a b × SameEntries entries others

  -- Entries of one hash were hashed from the same values, or collide.
  pub same_hash :
      (a b : AuditEntry)
      → audit_entry_hash quote utf8 to_iso_string sha256 a.placed ≡ some a.hash
      → audit_entry_hash quote utf8 to_iso_string sha256 b.placed ≡ some b.hash
      → a.hash ≡ b.hash
      → Collides a b ⊎ SameHashed a b
  unfolding audit_entry_hash audit_entry_preimage field_values
  same_hash a b hash_a hash_b same = elim (Option-cases (canonical_json quote a.placed.details)) [
    | inl refused ↦ absurd (ground (arith, hash_a, refused))
    | inr details_a ↦ elim (Option-cases (canonical_json quote b.placed.details)) [
      | inl refused ↦ absurd (ground (arith, hash_b, refused))
      | inr details_b ↦
          let x = framed utf8 field_names (field_values to_iso_string a.placed details_a.0) in
          let y = framed utf8 field_names (field_values to_iso_string b.placed details_b.0) in
          let first : sha256 x ≡ a.hash = ground (arith, hash_a, details_a.1) in
          let second : sha256 y ≡ b.hash = ground (arith, hash_b, details_b.1) in
          elim (Bool-cases (same_text x y)) [
            | inl equal ↦ inr (
              details_a.0,
              details_b.0,
              details_a.1,
              details_b.1,
              framed_injective utf8 field_names (field_values to_iso_string a.placed details_a.0)
                  (field_values to_iso_string b.placed details_b.0) refl (same_text_eq x y equal),
            )
            | inr other ↦ inl (
              x,
              y,
              ground (arith, details_a.1),
              ground (arith, details_b.1),
              same_text_ne x y other,
              first ∙ same ∙ sym second,
            )
          ]
    ]
  ]
