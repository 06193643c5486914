-- ===== src/Audit/Verifier.antt =====
-- src/audit/audit-chain.verifier.ts: the walk along the chain, and `append` of prisma-audit-log.store.ts.
-- The table is the list of its entries by their number, which the lock of `append` makes their order.
use boilerplate_nestjs_api.Prelude.{
  ℕ, zero, suc, ◌+◌, Bool, true, false, not, List, [], ◌∷◌, ◌++◌, Option, none, some, ltb, ◌==◌,
  length, take, select, same_text, Utf16, if◌then◌else◌,
}
use boilerplate_nestjs_api.Audit.Hash.{
  AuditEntry, NewAuditEntry, genesis_hash, first_seq, audit_entry_hash, seal_audit_entry,
}

abbrev pub verify_page_size : ℕ
verify_page_size = 500

pub data AuditChainBreachKind : Type 0 where
  wrong_genesis gap broken_link forged_hash : AuditChainBreachKind

pub record AuditChainBreach : Type 0 where
  pub seq : ℕ
  pub kind : AuditChainBreachKind

-- The entries that were found in order so far: the last, how many, and the number of the first.
pub record Progress : Type 0 where
  pub previous : Option AuditEntry
  pub checked : ℕ
  pub first_seq : Option ℕ

-- `thrown`: the details of an entry cannot be encoded. `unfinished` is a walk without fuel.
pub data AuditChainReport : Type 0 where
  intact : (progress : Progress) → AuditChainReport
  breached : (progress : Progress) → (breach : AuditChainBreach) → AuditChainReport
  thrown : AuditChainReport
  unfinished : AuditChainReport

abbrev pub start : Progress
start = record { previous = none; checked = 0; first_seq = none }

abbrev pub expected_seq : Option AuditEntry → ℕ
expected_seq none = first_seq
expected_seq (some entry) = entry.placed.seq + 1

abbrev pub expected_prev_hash : Option AuditEntry → Utf16
expected_prev_hash none = genesis_hash
expected_prev_hash (some entry) = entry.hash

abbrev pub kind_of_gap : Option AuditEntry → AuditChainBreachKind
kind_of_gap none = wrong_genesis
kind_of_gap (some entry) = gap

abbrev pub after : Option ℕ → ℕ → Option ℕ
after none seq = some seq
after (some first) seq = some first

abbrev pub advance : AuditEntry → Progress → Progress
advance entry progress = record {
  previous = some entry;
  checked = progress.checked + 1;
  first_seq = after progress.first_seq entry.placed.seq;
}

pub data Inspection : Type 0 where
  fine : Inspection
  found : (breach : AuditChainBreach) → Inspection
  threw : Inspection

abbrev pub is_after : Option AuditEntry → AuditEntry → Bool
is_after none entry = true
is_after (some previous) entry = ltb previous.placed.seq entry.placed.seq

-- `store.read`
unfoldable pub read : Option AuditEntry → List AuditEntry → List AuditEntry
read previous table = take verify_page_size (select (is_after previous) table)

abbrev pub is_empty : List AuditEntry → Bool
is_empty [] = true
is_empty (entry ∷ entries) = false

abbrev pub last_of : List AuditEntry → Option AuditEntry
last_of [] = none
last_of (entry ∷ []) = some entry
last_of (entry ∷ next ∷ entries) = last_of (next ∷ entries)

module _ (quote : Utf16 → Utf16) (utf8 : Utf16 → List ℕ) (to_iso_string : ℕ → Utf16)
    (sha256 : List ℕ → Utf16) where
  abbrev pub compare_hash : AuditEntry → Option Utf16 → Inspection
  compare_hash entry none = threw
  compare_hash entry (some recomputed) =
      if same_text recomputed entry.hash
      then fine
      else found (record { seq = entry.placed.seq; kind = forged_hash })

  unfoldable pub inspect : AuditEntry → Option AuditEntry → Inspection
  inspect entry previous =
      if not (entry.placed.seq == expected_seq previous)
      then found (record { seq = expected_seq previous; kind = kind_of_gap previous })
      else if not (same_text entry.placed.prev_hash (expected_prev_hash previous))
      then found (record { seq = entry.placed.seq; kind = broken_link })
      else compare_hash entry (audit_entry_hash quote utf8 to_iso_string sha256 entry.placed)

  -- The entries of a page in order; what comes after the page is given the progress so far.
  unfoldable pub walk :
      List AuditEntry → Progress → (Progress → AuditChainReport) → AuditChainReport
  unfolding inspect
  walk [] progress rest = rest progress
  walk (entry ∷ entries) progress rest =
      let further = walk entries (advance entry progress) rest in
      elim (inspect entry progress.previous) [
        | fine ↦ further
        | found breach ↦ breached progress breach
        | threw ↦ thrown
      ]

  -- One page after the other, with fuel for so many.
  unfoldable pub verify_pages : ℕ → List AuditEntry → Progress → AuditChainReport
  unfolding walk read
  verify_pages zero table progress = unfinished
  verify_pages (suc fuel) table progress =
      let page = read progress.previous table in
      if is_empty page
      then intact progress
      else walk page progress (λ further.
        if ltb (length page) verify_page_size
        then intact further
        else verify_pages fuel table further)

  -- No page but the last is empty, and each entry is on one page at most.
  unfoldable pub verify : List AuditEntry → AuditChainReport
  unfolding verify_pages
  verify table = verify_pages (length table + 1) table start

  -- `append`, under the lock: `none` where the entry cannot be hashed.
  unfoldable pub append : NewAuditEntry → List AuditEntry → Option (List AuditEntry)
  append draft table =
      elim (seal_audit_entry quote utf8 to_iso_string sha256 draft (expected_seq (last_of table))
        (expected_prev_hash (last_of table))) [
          | none ↦ none
          | some entry ↦ some (table ++ entry ∷ [])
        ]
