-- ===== src/Audit/Honest.antt =====
-- That `verify` of src/audit/audit-chain.verifier.ts raises no alarm over a log that `append` wrote.
use boilerplate_nestjs_api.Prelude.{
  ℕ, zero, suc, ◌+◌, ◌≤◌, ◌<◌, ◌≡◌, refl, sym, ap, ◌∙◌, subst, inl, inr, List, [], ◌∷◌, ◌++◌,
  Option, none, some, arith, length, take, drop, take-drop, take-short, length-append, select, ltb,
  ltb→lt, same_text, not, ◌&&◌, Utf16, Bool-cases, Option-cases, if◌then◌else◌,
}
use boilerplate_nestjs_api.Audit.Hash.{
  AuditEntry, NewAuditEntry, genesis_hash, is_chain_hash, resource_type_of, placed_at,
  audit_entry_hash, seal_audit_entry,
}
use boilerplate_nestjs_api.Audit.Verifier.{
  Progress, intact, start, verify_page_size, walk, is_after, read, is_empty, verify_pages, verify,
  last_of, append, advance, expected_seq, expected_prev_hash,
}
use boilerplate_nestjs_api.Audit.Evidence.{Links, Chained, advance_all, Chained-walk}
use boilerplate_nestjs_api.Audit.Tampering.{last_after, previous-advance_all}
use boilerplate_nestjs_api.Audit.Pages.{
  IsAbove, Increasing, next_page, nonempty, take-nil, last_after-last_of, select-all,
}

advance_all-append :
    (entries others : List AuditEntry) (progress : Progress)
    → advance_all (entries ++ others) progress ≡ advance_all others (advance_all entries progress)
advance_all-append [] others progress = refl
advance_all-append (entry ∷ entries) others progress =
    advance_all-append entries others (advance entry progress)

checked-advance_all :
    (entries : List AuditEntry) (progress : Progress)
    → (advance_all entries progress).checked ≡ progress.checked + length entries
checked-advance_all [] progress = omega arith
checked-advance_all (entry ∷ entries) progress =
    omega (arith, checked-advance_all entries (advance entry progress))

last_after-eq-last_of : (entries : List AuditEntry) → last_after none entries ≡ last_of entries
last_after-eq-last_of [] = refl
last_after-eq-last_of (entry ∷ entries) =
    let at = last_after-last_of entry entries none in at.1 ∙ sym at.2

length-drop-lt :
    (n : ℕ) (entries : List AuditEntry)
    → length (take (suc n) entries) ≡ suc n
    → length (drop (suc n) entries) < length entries
length-drop-lt n entries full =
    let whole = ap length (take-drop (suc n) entries) in
    omega (arith, whole, length-append (take (suc n) entries) (drop (suc n) entries), full)

length-take-le : (n : ℕ) (entries : List AuditEntry) → length (take n entries) ≤ n
length-take-le zero entries = omega arith
length-take-le (suc n) [] = omega arith
length-take-le (suc n) (entry ∷ entries) = omega (arith, length-take-le n entries)

module _ (quote : Utf16 → Utf16) (utf8 : Utf16 → List ℕ) (to_iso_string : ℕ → Utf16)
    (sha256 : List ℕ → Utf16) where
  Chained-take :
      (n : ℕ) (entries : List AuditEntry) (previous : Option AuditEntry)
      → Chained quote utf8 to_iso_string sha256 previous entries
      → Chained quote utf8 to_iso_string sha256 previous (take n entries)
        × Chained quote utf8 to_iso_string sha256
            (last_after previous (take n entries))
            (drop n entries)
  Chained-take zero entries previous chained = (tt, chained)
  Chained-take (suc n) [] previous chained = (tt, tt)
  Chained-take (suc n) (entry ∷ entries) previous chained =
      let rest = Chained-take n entries (some entry) chained.1 in ((chained.0, rest.0), rest.1)

  Chained-IsAbove :
      (k : ℕ) (entries : List AuditEntry) (previous : Option AuditEntry)
      → k < expected_seq previous
      → Chained quote utf8 to_iso_string sha256 previous entries
      → IsAbove k entries
  Chained-IsAbove k [] previous small chained = tt
  Chained-IsAbove k (entry ∷ entries) previous small chained = (
    omega (arith, small, chained.0.0),
    Chained-IsAbove k entries (some entry) (omega (arith, small, chained.0.0)) chained.1,
  )

  Chained-Increasing :
      (entries : List AuditEntry) (previous : Option AuditEntry)
      → Chained quote utf8 to_iso_string sha256 previous entries
      → Increasing entries
  Chained-Increasing [] previous chained = tt
  Chained-Increasing (entry ∷ entries) previous chained = (
    Chained-IsAbove entry.placed.seq entries (some entry) (omega arith) chained.1,
    Chained-Increasing entries (some entry) chained.1,
  )

  -- With fuel for every entry that is left, the loop ends, and with the report of an intact chain.
  pages-intact :
      (fuel : ℕ) (table todo : List AuditEntry) (progress : Progress)
      → length todo < fuel
      → select (is_after progress.previous) table ≡ todo
      → Chained quote utf8 to_iso_string sha256 progress.previous todo
      → verify_pages quote utf8 to_iso_string sha256 fuel table progress
        ≡ intact (advance_all todo progress)
  unfolding verify_pages read
  pages-intact zero table todo progress enough unread chained = absurd (omega (arith, enough))
  pages-intact (suc fuel) table todo progress enough unread chained =
      let xs = take verify_page_size todo in
      let ys = drop verify_page_size todo in
      let further = advance_all xs progress in
      let parts = Chained-take verify_page_size todo progress.previous chained in
      let whole = take-drop verify_page_size todo in
      let page : read progress.previous table ≡ xs = ap (take verify_page_size) unread in
      subst
        (λ entries.
          (if is_empty entries
            then intact progress
            else walk quote utf8 to_iso_string sha256 entries progress (λ next.
              if ltb (length entries) verify_page_size
              then intact next
              else verify_pages quote utf8 to_iso_string sha256 fuel table next))
          ≡ intact (advance_all todo progress))
        (sym page)
        (elim (Bool-cases (is_empty xs)) [
          | inl empty ↦ rw empty (
              ap (λ entries. intact (advance_all entries progress)) (sym (take-nil 499 todo empty)))
          | inr more ↦
              let first = nonempty xs more in
              let at = last_after-last_of first.0 first.1 progress.previous in
              let there = previous-advance_all xs progress in
              let lasts : last_after progress.previous xs ≡ some at.0 =
                ap (last_after progress.previous) first.2 ∙ at.1 in
              let walked =
                Chained-walk quote utf8 to_iso_string sha256 xs progress
                  (λ next.
                    if ltb (length xs) verify_page_size
                    then intact next
                    else verify_pages quote utf8 to_iso_string sha256 fuel table next)
                  parts.0 in
              rw more (
                walked ∙ elim (Bool-cases (ltb (length xs) verify_page_size)) [
                  | inl short ↦
                      let all : xs ≡ todo =
                        take-short verify_page_size todo
                          (ltb→lt (length xs) verify_page_size short) in
                      rw short (ap (λ entries. intact (advance_all entries progress)) all)
                  | inr full ↦
                      let cut : length xs ≡ verify_page_size =
                        ground (arith, full, length-take-le verify_page_size todo) in
                      let rest =
                        pages-intact fuel table ys further
                          (omega (arith, length-drop-lt 499 todo cut, enough))
                          (subst (λ previous. select (is_after previous) table ≡ ys)
                            (sym (there ∙ lasts))
                            (next_page verify_page_size progress.previous at.0 table todo unread
                              (Chained-Increasing todo progress.previous chained)
                              (ap last_of first.2 ∙ at.2)))
                          (subst (λ previous. Chained quote utf8 to_iso_string sha256 previous ys)
                            (sym there) parts.1) in
                      rw full (
                        rest
                        ∙ ap intact (sym (advance_all-append xs ys progress))
                        ∙ ap (λ entries. intact (advance_all entries progress)) whole)
                ])
        ])

  -- A sealed entry links to the one before it.
  sealed-Links :
      (draft : NewAuditEntry) (previous : Option AuditEntry) (entry : AuditEntry)
      → seal_audit_entry quote utf8 to_iso_string sha256 draft
          (expected_seq previous)
          (expected_prev_hash previous)
        ≡ some entry
      → Links quote utf8 to_iso_string sha256 entry previous
  unfolding seal_audit_entry placed_at
  sealed-Links draft previous entry done =
      let prev_hash = expected_prev_hash previous in
      elim (Bool-cases (not (is_chain_hash prev_hash) && not (same_text prev_hash genesis_hash))) [
        | inl bad ↦ absurd (ground (arith, done, bad))
        | inr good ↦ elim (Option-cases (resource_type_of draft.action)) [
          | inl strange ↦ absurd (ground (arith, done, good, strange))
          | inr known ↦
              let placed = placed_at draft known.0 (expected_seq previous) prev_hash in
              elim (Option-cases (audit_entry_hash quote utf8 to_iso_string sha256 placed)) [
                | inl refused ↦ absurd (ground (arith, done, good, known.1, refused))
                | inr hashed ↦
                    let same : record { placed = placed; hash = hashed.0 } ≡ entry =
                      ground (arith, done, good, known.1, hashed.1) in
                    subst (λ (e : AuditEntry). Links quote utf8 to_iso_string sha256 e previous)
                      same (refl, refl, hashed.1)
              ]
        ]
      ]

  Chained-snoc :
      (entries : List AuditEntry) (entry : AuditEntry) (previous : Option AuditEntry)
      → Chained quote utf8 to_iso_string sha256 previous entries
      → Links quote utf8 to_iso_string sha256 entry (last_after previous entries)
      → Chained quote utf8 to_iso_string sha256 previous (entries ++ entry ∷ [])
  Chained-snoc [] entry previous chained links = (links, tt)
  Chained-snoc (first ∷ entries) entry previous chained links =
      (chained.0, Chained-snoc entries entry (some first) chained.1 links)

  -- The log after the drafts; one that cannot be hashed fails its transaction.
  abbrev or_same : Option (List AuditEntry) → List AuditEntry → List AuditEntry
  or_same none table = table
  or_same (some new) table = new

  unfoldable pub append_all : List NewAuditEntry → List AuditEntry → List AuditEntry
  unfolding append
  append_all [] table = table
  append_all (draft ∷ drafts) table =
      append_all drafts (or_same (append quote utf8 to_iso_string sha256 draft table) table)

  append-Chained :
      (draft : NewAuditEntry) (table : List AuditEntry)
      → Chained quote utf8 to_iso_string sha256 none table
      → Chained quote utf8 to_iso_string sha256 none
          (or_same (append quote utf8 to_iso_string sha256 draft table) table)
  unfolding append
  append-Chained draft table chained =
      elim (Option-cases (
        seal_audit_entry quote utf8 to_iso_string sha256 draft (expected_seq (last_of table))
          (expected_prev_hash (last_of table)))) [
            | inl refused ↦ rw (append, refused) chained
            | inr sealed_one ↦
                rw (append, sealed_one.1)
                  (Chained-snoc table sealed_one.0 none chained (
                    subst (Links quote utf8 to_iso_string sha256 sealed_one.0)
                      (sym (last_after-eq-last_of table))
                      (sealed-Links draft (last_of table) sealed_one.0 sealed_one.1)))
          ]

  append_all-Chained :
      (drafts : List NewAuditEntry) (table : List AuditEntry)
      → Chained quote utf8 to_iso_string sha256 none table
      → Chained quote utf8 to_iso_string sha256 none (append_all drafts table)
  unfolding append_all
  append_all-Chained [] table chained = chained
  append_all-Chained (draft ∷ drafts) table chained =
      append_all-Chained drafts (or_same (append quote utf8 to_iso_string sha256 draft table) table)
        (append-Chained draft table chained)

  pub verify-append_all :
      (drafts : List NewAuditEntry)
      → verify quote utf8 to_iso_string sha256 (append_all drafts [])
        ≡ intact (advance_all (append_all drafts []) start)
  unfolding verify
  verify-append_all drafts =
      let table = append_all drafts [] in
      pages-intact (length table + 1) table table start (omega arith) (select-all table)
        (append_all-Chained drafts [] tt)

  -- Whatever is appended to an empty log, the walk along the log ends, finds nothing, and has gone through
  -- every entry, whatever the hash is.
  pub honest_log_verifies :
      (drafts : List NewAuditEntry)
      → (last : Progress) × (verify quote utf8 to_iso_string sha256 (append_all drafts [])
          ≡ intact last)
        × (last.checked ≡ length (append_all drafts []))
  honest_log_verifies drafts =
      let table = append_all drafts [] in
      (
        advance_all table start,
        verify-append_all drafts,
        checked-advance_all table start ∙ omega arith,
      )
