-- ===== src/Audit/Head.antt =====
-- That a head hash that is kept elsewhere pins the log of src/audit.
use boilerplate_nestjs_api.Prelude.{
  ℕ, ◌≡◌, ◌⊎◌, sym, ap, ◌∙◌, true, List, [], ◌∷◌, none, some, every, Utf16,
}
use boilerplate_nestjs_api.Audit.Hash.{AuditEntry}
use boilerplate_nestjs_api.Audit.Verifier.{Progress, intact, verify, expected_prev_hash}
use boilerplate_nestjs_api.Audit.Evidence.{Collision, SameEntries}
use boilerplate_nestjs_api.Audit.Tampering.{is_ascii, chained_agree}
use boilerplate_nestjs_api.Audit.Pages.{Increasing, verify-Chained}

module _ (quote : Utf16 → Utf16) (utf8 : Utf16 → List ℕ) (to_iso_string : ℕ → Utf16)
    (sha256 : List ℕ → Utf16) where
  -- Of two tables, in the order of their numbers, in which the walk finds nothing, and whose last entries
  -- have one hash, the entries are the same, one by one: the hash, the number, the text of the time, the
  -- action, the type and id of the resource, the details by their canonical text, the id and role of
  -- the actor, the correlation id and the hash before, texts by their UTF-8; or an entry of the one and
  -- an entry of the other have different bytes to hash and one hash. UTF-8 leaves ASCII as it is, and a
  -- hash is ASCII.
  pub head_pins_log :
      ((s : Utf16) → every is_ascii s ≡ true → utf8 s ≡ s)
      → ((bytes : List ℕ) → every is_ascii (sha256 bytes) ≡ true)
      → (table other : List AuditEntry) (last other_last : Progress) (head other_head : AuditEntry)
      → Increasing table
      → Increasing other
      → verify quote utf8 to_iso_string sha256 table ≡ intact last
      → verify quote utf8 to_iso_string sha256 other ≡ intact other_last
      → last.previous ≡ some head
      → other_last.previous ≡ some other_head
      → head.hash ≡ other_head.hash
      → Collision quote utf8 to_iso_string sha256 table other
        ⊎ SameEntries quote utf8 to_iso_string sha256 table other
  head_pins_log ascii hexadecimal [] other last other_last head other_head order1 order2 intact1
        intact2 at1 at2 same =
      let nothing : none ≡ some head =
        sym (verify-Chained quote utf8 to_iso_string sha256 [] last order1 intact1).1 ∙ at1 in
      absurd (cc nothing)
  head_pins_log ascii hexadecimal (a ∷ entries) [] last other_last head other_head order1 order2
        intact1 intact2 at1 at2 same =
      let nothing : none ≡ some other_head =
        sym (verify-Chained quote utf8 to_iso_string sha256 [] other_last order2 intact2).1 ∙ at2 in
      absurd (cc nothing)
  head_pins_log ascii hexadecimal (a ∷ entries) (b ∷ others) last other_last head other_head order1
        order2 intact1 intact2 at1 at2 same =
      let one = verify-Chained quote utf8 to_iso_string sha256 (a ∷ entries) last order1 intact1 in
      let two =
        verify-Chained quote utf8 to_iso_string sha256 (b ∷ others) other_last order2 intact2 in
      chained_agree quote utf8 to_iso_string sha256 ascii hexadecimal a b entries others one.0 two.0
        (ap expected_prev_hash (sym one.1 ∙ at1) ∙ same ∙ ap expected_prev_hash (sym at2 ∙ two.1))
