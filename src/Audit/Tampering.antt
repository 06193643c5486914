-- ===== src/Audit/Tampering.antt =====
-- That the hash of the last entry pins every entry before it, for src/audit/audit-chain.verifier.ts.
use boilerplate_nestjs_api.Prelude.{
  ℕ, ◌+◌, ◌≡◌, ◌⊎◌, refl, sym, ap, ◌∙◌, subst, inl, inr, Bool, true, List, [], ◌∷◌, Option, none,
  some, arith, length, every, ltb, Utf16, decimal, Option-cases,
}
use boilerplate_nestjs_api.Audit.Hash.{
  AuditEntry, genesis_hash, field_names, field_values, audit_entry_hash, audit_entry_preimage,
}
use boilerplate_nestjs_api.Audit.Framing.{decimal_injective}
use boilerplate_nestjs_api.Audit.Verifier.{Progress, expected_seq, expected_prev_hash, advance}
use boilerplate_nestjs_api.Audit.Evidence.{
  Chained, advance_all, Among, Collision, SameHashed, SameEntry, SameEntries, same_hash,
}
use boilerplate_nestjs_api.Streaming.Cursor.{is_digit}
use boilerplate_nestjs_api.Streaming.Cursor.Digits.{every-decimal}

abbrev pub is_ascii : ℕ → Bool
is_ascii c = ltb c 128

-- The last entry, or the one before the first.
abbrev pub last_after : Option AuditEntry → List AuditEntry → Option AuditEntry
last_after previous [] = previous
last_after previous (entry ∷ entries) = last_after (some entry) entries

digits-ascii : (s : Utf16) → every is_digit s ≡ true → every is_ascii s ≡ true
unfolding every
digits-ascii [] digits = refl
digits-ascii (c ∷ s) digits = ground (arith, digits, digits-ascii s)

genesis_hash-ascii : every is_ascii genesis_hash ≡ true
unfolding every genesis_hash
genesis_hash-ascii = refl

pub previous-advance_all :
    (entries : List AuditEntry) (progress : Progress)
    → (advance_all entries progress).previous ≡ last_after progress.previous entries
previous-advance_all [] progress = refl
previous-advance_all (entry ∷ entries) progress =
    previous-advance_all entries (advance entry progress)

some_injective : {A : Type 0} {a b : A} → some a ≡ some b → a ≡ b
some_injective e = cc e

module _ (quote : Utf16 → Utf16) (utf8 : Utf16 → List ℕ) (to_iso_string : ℕ → Utf16)
    (sha256 : List ℕ → Utf16) (ascii : (s : Utf16) → every is_ascii s ≡ true → utf8 s ≡ s)
    (hexadecimal : (bytes : List ℕ) → every is_ascii (sha256 bytes) ≡ true) where
  utf8_injective :
      (s t : Utf16) → every is_ascii s ≡ true → every is_ascii t ≡ true → utf8 s ≡ utf8 t → s ≡ t
  utf8_injective s t plain_s plain_t e = sym (ascii s plain_s) ∙ e ∙ ascii t plain_t

  SameHashed-seq :
      (a b : AuditEntry)
      → SameHashed quote utf8 to_iso_string sha256 a b
      → a.placed.seq ≡ b.placed.seq
  unfolding field_names field_values
  SameHashed-seq a b same = decimal_injective a.placed.seq b.placed.seq (
      utf8_injective (decimal a.placed.seq) (decimal b.placed.seq)
        (digits-ascii (decimal a.placed.seq) (every-decimal a.placed.seq))
        (digits-ascii (decimal b.placed.seq) (every-decimal b.placed.seq))
        (some_injective same.4.1.0))

  -- The values that are hashed leave nothing of an entry out.
  SameHashed-SameEntry :
      (a b : AuditEntry)
      → a.hash ≡ b.hash
      → SameHashed quote utf8 to_iso_string sha256 a b
      → SameEntry quote utf8 to_iso_string sha256 a b
  unfolding field_names field_values
  SameHashed-SameEntry a b one same =
      let (text_a, text_b, of_a, of_b, values) = same in
      let (time, (action, (type, (id, from_actor)))) = values.1.1 in
      let (actor, (role, (correlation, (details, (previous, end))))) = from_actor in
      (
        one,
        SameHashed-seq a b same,
        some_injective time,
        some_injective action,
        some_injective type,
        some_injective id,
        (text_a, text_b, of_a, of_b, some_injective details),
        actor,
        role,
        correlation,
        some_injective previous,
      )

  -- A hash that was recomputed is ASCII.
  hash-ascii :
      (entry : AuditEntry)
      → audit_entry_hash quote utf8 to_iso_string sha256 entry.placed ≡ some entry.hash
      → every is_ascii entry.hash ≡ true
  unfolding audit_entry_hash
  hash-ascii entry hashed =
      elim (Option-cases (audit_entry_preimage quote utf8 to_iso_string sha256 entry.placed)) [
        | inl refused ↦ absurd (ground (arith, hashed, refused))
        | inr preimage ↦
            subst (λ h. every is_ascii h ≡ true) (ground (arith, hashed, preimage.1))
              (hexadecimal preimage.0)
      ]

  -- The last of the entries is sealed, and its number says how many there are.
  last-sealed :
      (entry : AuditEntry) (entries : List AuditEntry) (previous : Option AuditEntry)
      → Chained quote utf8 to_iso_string sha256 previous (entry ∷ entries)
      → (last : AuditEntry) × (last_after previous (entry ∷ entries) ≡ some last)
        × Among last (entry ∷ entries)
        × (audit_entry_hash quote utf8 to_iso_string sha256 last.placed ≡ some last.hash)
        × (last.placed.seq ≡ expected_seq previous + length entries)
  last-sealed entry [] previous chained =
      (entry, refl, inl refl, chained.0.2, omega (arith, chained.0.0))
  last-sealed entry (next ∷ entries) previous chained =
      let rest = last-sealed next entries (some entry) chained.1 in
      (rest.0, rest.1, inr rest.2, rest.3, omega (arith, rest.4, chained.0.0))

  -- Backwards from the last entries, of chains that are equally long.
  chains_agree :
      (entries others : List AuditEntry) (previous other : Option AuditEntry)
      → every is_ascii (expected_prev_hash previous) ≡ true
      → every is_ascii (expected_prev_hash other) ≡ true
      → Chained quote utf8 to_iso_string sha256 previous entries
      → Chained quote utf8 to_iso_string sha256 other others
      → length entries ≡ length others
      → expected_prev_hash (last_after previous entries)
        ≡ expected_prev_hash (last_after other others)
      → Collision quote utf8 to_iso_string sha256 entries others
        ⊎ (SameEntries quote utf8 to_iso_string sha256 entries others
            × (expected_prev_hash previous ≡ expected_prev_hash other))
  chains_agree [] [] previous other plain_a plain_b chained_a chained_b long same = inr (tt, same)
  chains_agree [] (b ∷ others) previous other plain_a plain_b chained_a chained_b long same =
      absurd (omega (arith, long))
  chains_agree (a ∷ entries) [] previous other plain_a plain_b chained_a chained_b long same =
      absurd (omega (arith, long))
  chains_agree (a ∷ entries) (b ∷ others) previous other plain_a plain_b chained_a chained_b long
        same =
      elim (chains_agree entries others (some a) (some b) (hash-ascii a chained_a.0.2)
        (hash-ascii b chained_b.0.2) chained_a.1 chained_b.1 (omega (arith, long)) same) [
          | inl (c, d, in_c, in_d, collides) ↦ inl (c, d, inr in_c, inr in_d, collides)
          | inr agree ↦
              elim (same_hash quote utf8 to_iso_string sha256 a b chained_a.0.2 chained_b.0.2
                agree.1) [
                  | inl collides ↦ inl (a, b, inl refl, inl refl, collides)
                  | inr hashed ↦
                      let equal = SameHashed-SameEntry a b agree.1 hashed in
                      inr (
                        (equal, agree.0),
                        sym chained_a.0.1
                            ∙ utf8_injective a.placed.prev_hash b.placed.prev_hash
                                (subst (λ h. every is_ascii h ≡ true) (sym chained_a.0.1) plain_a)
                                (subst (λ h. every is_ascii h ≡ true) (sym chained_b.0.1) plain_b)
                                equal.10
                            ∙ chained_b.0.1,
                      )
                ]
        ]

  -- Two chains from the start whose last entries have one hash.
  pub chained_agree :
      (a b : AuditEntry) (entries others : List AuditEntry)
      → Chained quote utf8 to_iso_string sha256 none (a ∷ entries)
      → Chained quote utf8 to_iso_string sha256 none (b ∷ others)
      → expected_prev_hash (last_after none (a ∷ entries))
        ≡ expected_prev_hash (last_after none (b ∷ others))
      → Collision quote utf8 to_iso_string sha256 (a ∷ entries) (b ∷ others)
        ⊎ SameEntries quote utf8 to_iso_string sha256 (a ∷ entries) (b ∷ others)
  chained_agree a b entries others chained_a chained_b same =
      let x = last-sealed a entries none chained_a in
      let y = last-sealed b others none chained_b in
      let equal : x.0.hash ≡ y.0.hash =
        sym (ap expected_prev_hash x.1) ∙ same ∙ ap expected_prev_hash y.1 in
      elim (same_hash quote utf8 to_iso_string sha256 x.0 y.0 x.3 y.3 equal) [
        | inl collides ↦ inl (x.0, y.0, x.2, y.2, collides)
        | inr last ↦
            let number = SameHashed-seq x.0 y.0 last in
            elim (chains_agree (a ∷ entries) (b ∷ others) none none genesis_hash-ascii
              genesis_hash-ascii chained_a chained_b (omega (arith, number, x.4, y.4)) same) [
                | inl collision ↦ inl collision
                | inr agree ↦ inr agree.0
              ]
      ]
