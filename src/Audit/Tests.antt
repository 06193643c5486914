-- ===== src/Audit/Tests.antt =====
-- Runs of the model of src/audit at concrete inputs, with a hash that adds up the bytes.
use boilerplate_nestjs_api.Prelude.{
  ℕ, zero, suc, ◌+◌, ◌%◌, ◌<◌, ◌≡◌, ◌⊎◌, refl, true, List, [], ◌∷◌, ◌++◌, Option, none, some, arith,
  length, replicate, every, Utf16, utf16, decimal, same_text,
}
use boilerplate_nestjs_api.Audit.Json.{canonical_json, object, member, no_members, string, null}
use boilerplate_nestjs_api.Audit.Hash.{
  AuditEntry, NewAuditEntry, genesis_hash, is_chain_hash, resource_type_of, placed_at,
  audit_entry_hash, field_names, field_values, seal_audit_entry,
}
use boilerplate_nestjs_api.Audit.Verifier.{Progress, intact, start, verify, append}
use boilerplate_nestjs_api.Audit.Evidence.{Collision, SameEntries, advance_all}
use boilerplate_nestjs_api.Audit.Tampering.{is_ascii}
use boilerplate_nestjs_api.Audit.Head.{head_pins_log}
use boilerplate_nestjs_api.Audit.Honest.{append_all, verify-append_all, honest_log_verifies}

abbrev in_quotes : Utf16 → Utf16
in_quotes s = b'"' ∷ s ++ b'"' ∷ []

abbrev as_it_is : Utf16 → List ℕ
as_it_is s = s

abbrev sum : List ℕ → ℕ
sum [] = 0
sum (c ∷ s) = c + sum s

abbrev checksum : List ℕ → Utf16
checksum bytes = replicate 64 (b'0' + sum bytes % 10)

every-replicate : (n c : ℕ) → c < 128 → every is_ascii (replicate n c) ≡ true
unfolding every
every-replicate zero c small = refl
every-replicate (suc n) c small = ground (arith, small, every-replicate n c small)

checksum-ascii : (bytes : List ℕ) → every is_ascii (checksum bytes) ≡ true
checksum-ascii bytes = every-replicate 64 (b'0' + sum bytes % 10) (omega arith)

abbrev two_drafts : List NewAuditEntry
unfolding utf16
two_drafts =
    record {
      action = utf16 "user.registered";
      resource_id = utf16 "u1";
      details = object (
          member (utf16 "provider") null
            (member (utf16 "email") (string (utf16 "a@b")) no_members));
      actor = some (record { id = utf16 "u1"; role = utf16 "USER" });
      correlation_id = none;
      occurred_at = 5;
    }
    ∷ record {
      action = utf16 "user.deleted";
      resource_id = utf16 "u1";
      details = object (member (utf16 "email") (string (utf16 "a@b")) no_members);
      actor = none;
      correlation_id = some (utf16 "c1");
      occurred_at = 9;
    }
    ∷ []

honest_log_verifies_example :
    (last : Progress) × (verify in_quotes as_it_is decimal checksum
        (append_all in_quotes as_it_is decimal checksum two_drafts [])
      ≡ intact last)
    × (last.checked ≡ length (append_all in_quotes as_it_is decimal checksum two_drafts []))
honest_log_verifies_example = honest_log_verifies in_quotes as_it_is decimal checksum two_drafts

abbrev the_log : List AuditEntry
the_log = append_all in_quotes as_it_is decimal checksum two_drafts []

two_entries : length the_log ≡ 2
unfolding append_all append seal_audit_entry utf16 every decimal same_text genesis_hash
    is_chain_hash resource_type_of placed_at audit_entry_hash canonical_json field_names
    field_values
two_entries = refl

abbrev no_entry : AuditEntry
no_entry = record {
  placed = record {
    seq = 0;
    occurred_at = 0;
    action = [];
    resource_type = [];
    resource_id = [];
    details = null;
    actor_id = none;
    actor_role = none;
    correlation_id = none;
    prev_hash = [];
  };
  hash = [];
}

abbrev or_none : Option AuditEntry → AuditEntry
or_none none = no_entry
or_none (some entry) = entry

-- The same log twice.
head_pins_log_example :
    Collision in_quotes as_it_is decimal checksum the_log the_log
    ⊎ SameEntries in_quotes as_it_is decimal checksum the_log the_log
unfolding append_all append seal_audit_entry utf16 every decimal same_text genesis_hash
    is_chain_hash resource_type_of placed_at audit_entry_hash canonical_json field_names
    field_values
head_pins_log_example =
    head_pins_log in_quotes as_it_is decimal checksum (λ s plain. refl) checksum-ascii the_log
      the_log (advance_all the_log start) (advance_all the_log start)
      (or_none (advance_all the_log start).previous) (or_none (advance_all the_log start).previous)
      ((omega arith, tt), (tt, tt)) ((omega arith, tt), (tt, tt))
      (verify-append_all in_quotes as_it_is decimal checksum two_drafts)
      (verify-append_all in_quotes as_it_is decimal checksum two_drafts) refl refl refl
