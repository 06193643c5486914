-- ===== src/Audit/Pages.antt =====
-- That `verify` of src/audit/audit-chain.verifier.ts walks along the whole table, page by page.
use boilerplate_nestjs_api.Prelude.{
  ℕ, zero, suc, ◌+◌, ◌≤◌, ◌<◌, ◌≡◌, ◌⊎◌, refl, sym, ap, ◌∙◌, subst, inl, inr, Bool, true, false,
  List, [], ◌∷◌, ◌++◌, Option, none, some, arith, length, take, drop, take-drop, take-short, select,
  ltb, ltb→lt, Utf16, Bool-cases, if◌then◌else◌,
}
use boilerplate_nestjs_api.Audit.Hash.{AuditEntry}
use boilerplate_nestjs_api.Audit.Verifier.{
  Progress, intact, start, verify_page_size, is_after, read, is_empty, verify_pages, verify,
  last_of,
}
use boilerplate_nestjs_api.Audit.Evidence.{Chained, advance_all, walk-Chained}
use boilerplate_nestjs_api.Audit.Tampering.{last_after, previous-advance_all}

abbrev pub IsAbove : ℕ → List AuditEntry → Type 0
IsAbove k [] = Unit {0}
IsAbove k (entry ∷ entries) = (k < entry.placed.seq) × IsAbove k entries

-- By their numbers, as the query has them.
abbrev pub Increasing : List AuditEntry → Type 0
Increasing [] = Unit {0}
Increasing (entry ∷ entries) = IsAbove entry.placed.seq entries × Increasing entries

abbrev above : ℕ → AuditEntry → Bool
above k entry = ltb k entry.placed.seq

select-IsAbove :
    (k : ℕ) (entries : List AuditEntry) → IsAbove k entries → select (above k) entries ≡ entries
select-IsAbove k [] all = refl
select-IsAbove k (entry ∷ entries) all =
    let rest = select-IsAbove k entries all.1 in ground (arith, all.0, rest)

IsAbove-select : (k : ℕ) (entries : List AuditEntry) → IsAbove k (select (above k) entries)
IsAbove-select k [] = tt
IsAbove-select k (entry ∷ entries) = elim (Bool-cases (ltb k entry.placed.seq)) [
  | inl after ↦ rw (IsAbove, select, after) (ground (arith, after), IsAbove-select k entries)
  | inr before ↦ rw (IsAbove, select, before) (IsAbove-select k entries)
]

select-select :
    (k j : ℕ) (entries : List AuditEntry)
    → k ≤ j
    → select (above j) (select (above k) entries) ≡ select (above j) entries
select-select k j [] le = refl
select-select k j (entry ∷ entries) le =
    let rest = select-select k j entries le in
    elim (Bool-cases (ltb k entry.placed.seq)) [
      | inl after ↦ rw (IsAbove, select, after) (ground (arith, rest))
      | inr before ↦ ground (arith, rest, before, le)
    ]

last_of-IsAbove :
    (k : ℕ) (entries : List AuditEntry) (last : AuditEntry)
    → IsAbove k entries
    → last_of entries ≡ some last
    → k < last.placed.seq
last_of-IsAbove k [] last all h = cc h
last_of-IsAbove k (entry ∷ []) last all h =
    let here : entry ≡ last = cc h in subst (λ (x : AuditEntry). k < x.placed.seq) here all.0
last_of-IsAbove k (entry ∷ next ∷ entries) last all h =
    last_of-IsAbove k (next ∷ entries) last all.1 h

IsAbove-take :
    (k n : ℕ) (entries : List AuditEntry) → IsAbove k entries → IsAbove k (take n entries)
IsAbove-take k zero entries all = tt
IsAbove-take k (suc n) [] all = tt
IsAbove-take k (suc n) (entry ∷ entries) all = (all.0, IsAbove-take k n entries all.1)

Increasing-drop :
    (n : ℕ) (entries : List AuditEntry) → Increasing entries → Increasing (drop n entries)
Increasing-drop zero entries order = order
Increasing-drop (suc n) [] order = tt
Increasing-drop (suc n) (entry ∷ entries) order = Increasing-drop n entries order.1

-- What comes after the last entry of a page.
select-page :
    (n : ℕ) (entries : List AuditEntry) (last : AuditEntry)
    → Increasing entries
    → last_of (take n entries) ≡ some last
    → select (above last.placed.seq) entries ≡ drop n entries
select-page zero entries last order h = cc h
select-page (suc n) [] last order h = cc
select-page (suc zero) (entry ∷ entries) last order h =
    let here : entry ≡ last = cc h in
    let rest = select-IsAbove entry.placed.seq entries order.0 in
    subst (λ (x : AuditEntry). select (above x.placed.seq) (entry ∷ entries) ≡ entries) here
      (ground (arith, rest))
select-page (suc (suc n)) (entry ∷ []) last order h =
    let here : entry ≡ last = cc h in
    let rest = select-IsAbove entry.placed.seq [] order.0 in
    subst (λ (x : AuditEntry). select (above x.placed.seq) (entry ∷ []) ≡ []) here
      (ground (arith, rest))
select-page (suc (suc n)) (entry ∷ next ∷ entries) last order h =
    let rest = select-page (suc n) (next ∷ entries) last order.1 h in
    let later =
      last_of-IsAbove entry.placed.seq (take (suc n) (next ∷ entries)) last
        (IsAbove-take entry.placed.seq (suc n) (next ∷ entries) order.0) h in
    ground (arith, rest, later)

Chained-append :
    (quote : Utf16 → Utf16) (utf8 : Utf16 → List ℕ) (to_iso_string : ℕ → Utf16)
    (sha256 : List ℕ → Utf16) (entries others : List AuditEntry) (previous : Option AuditEntry)
    → Chained quote utf8 to_iso_string sha256 previous entries
    → Chained quote utf8 to_iso_string sha256 (last_after previous entries) others
    → Chained quote utf8 to_iso_string sha256 previous (entries ++ others)
Chained-append quote utf8 to_iso_string sha256 [] others previous first second = second
Chained-append quote utf8 to_iso_string sha256 (entry ∷ entries) others previous first second = (
  first.0,
  Chained-append quote utf8 to_iso_string sha256 entries others (some entry) first.1 second,
)

pub last_after-append :
    (entries others : List AuditEntry) (previous : Option AuditEntry)
    → last_after previous (entries ++ others) ≡ last_after (last_after previous entries) others
last_after-append [] others previous = refl
last_after-append (entry ∷ entries) others previous = last_after-append entries others (some entry)

pub last_after-last_of :
    (entry : AuditEntry) (entries : List AuditEntry) (previous : Option AuditEntry)
    → (last : AuditEntry) × (last_after previous (entry ∷ entries) ≡ some last)
      × (last_of (entry ∷ entries) ≡ some last)
last_after-last_of entry [] previous = (entry, refl, refl)
last_after-last_of entry (next ∷ entries) previous =
    let rest = last_after-last_of next entries (some entry) in (rest.0, rest.1, rest.2)

pub select-all : (table : List AuditEntry) → select (is_after none) table ≡ table
select-all [] = refl
select-all (entry ∷ table) = ap (λ rest. entry ∷ rest) (select-all table)

-- After a page, what is left to read is what the page leaves.
pub next_page :
    (n : ℕ) (previous : Option AuditEntry) (last : AuditEntry) (table todo : List AuditEntry)
    → select (is_after previous) table ≡ todo
    → Increasing todo
    → last_of (take n todo) ≡ some last
    → select (above last.placed.seq) table ≡ drop n todo
next_page n none last table todo unread order at =
    ap (select (above last.placed.seq)) (sym (select-all table) ∙ unread)
    ∙ select-page n todo last order at
next_page n (some previous) last table todo unread order at =
    let later =
      last_of-IsAbove previous.placed.seq (take n todo) last
        (IsAbove-take previous.placed.seq n todo
          (subst (IsAbove previous.placed.seq) unread (IsAbove-select previous.placed.seq table)))
        at in
    sym (select-select previous.placed.seq last.placed.seq table (omega (arith, later)))
    ∙ ap (select (above last.placed.seq)) unread
    ∙ select-page n todo last order at

pub take-nil :
    (n : ℕ) (entries : List AuditEntry) → is_empty (take (suc n) entries) ≡ true → entries ≡ []
take-nil n [] empty = refl
take-nil n (entry ∷ entries) empty = cc

pub nonempty :
    (entries : List AuditEntry)
    → is_empty entries ≡ false
    → (e : AuditEntry) × (es : List AuditEntry) × (entries ≡ e ∷ es)
nonempty [] empty = cc
nonempty (e ∷ es) empty = (e, es, refl)

module _ (quote : Utf16 → Utf16) (utf8 : Utf16 → List ℕ) (to_iso_string : ℕ → Utf16)
    (sha256 : List ℕ → Utf16) where
  -- What the loop makes of its own page, whatever the table is.
  round :
      (fuel : ℕ) (table : List AuditEntry) (progress last : Progress)
      → verify_pages quote utf8 to_iso_string sha256 (suc fuel) table progress ≡ intact last
      → ((is_empty (read progress.previous table) ≡ true) × (progress ≡ last))
        ⊎ ((is_empty (read progress.previous table) ≡ false)
            × Chained quote utf8 to_iso_string sha256 progress.previous
                (read progress.previous table)
            × ((if ltb (length (read progress.previous table)) verify_page_size
                  then intact (advance_all (read progress.previous table) progress)
                  else verify_pages quote utf8 to_iso_string sha256 fuel table
                      (advance_all (read progress.previous table) progress))
                ≡ intact last))
  unfolding verify_pages
  round fuel table progress last h = elim (Bool-cases (is_empty (read progress.previous table))) [
    | inl empty ↦ inl (empty, ground (arith, h, empty))
    | inr more ↦
        let walked =
          walk-Chained quote utf8 to_iso_string sha256 (read progress.previous table) progress last
            (λ further.
              if ltb (length (read progress.previous table)) verify_page_size
              then intact further
              else verify_pages quote utf8 to_iso_string sha256 fuel table further)
            (ground (arith, h, more)) in
        inr (more, walked.0, walked.1)
  ]

  -- The pages together are the entries that were left to read.
  pages-Chained :
      (fuel : ℕ) (table todo : List AuditEntry) (progress last : Progress)
      → select (is_after progress.previous) table ≡ todo
      → Increasing todo
      → verify_pages quote utf8 to_iso_string sha256 fuel table progress ≡ intact last
      → Chained quote utf8 to_iso_string sha256 progress.previous todo
        × (last.previous ≡ last_after progress.previous todo)
  unfolding verify_pages read
  pages-Chained zero table todo progress last unread order h = cc h
  pages-Chained (suc fuel) table todo progress last unread order h =
      let page : read progress.previous table ≡ take verify_page_size todo =
        ap (take verify_page_size) unread in
      elim (round fuel table progress last h) [
        | inl done ↦
            let nothing : todo ≡ [] =
              take-nil 499 todo (subst (λ xs. is_empty xs ≡ true) page done.0) in
            (
              subst (Chained quote utf8 to_iso_string sha256 progress.previous) (sym nothing) tt,
              sym (ap (λ (p : Progress). p.previous) done.1)
                  ∙ ap (last_after progress.previous) (sym nothing),
            )
        | inr read_on ↦
            let xs = take verify_page_size todo in
            let ys = drop verify_page_size todo in
            let further = advance_all xs progress in
            let chained =
              subst (Chained quote utf8 to_iso_string sha256 progress.previous) page read_on.1 in
            let tail =
              subst
                (λ entries.
                  (if ltb (length entries) verify_page_size
                    then intact (advance_all entries progress)
                    else verify_pages quote utf8 to_iso_string sha256 fuel table
                        (advance_all entries progress))
                  ≡ intact last)
                page read_on.2 in
            let there = previous-advance_all xs progress in
            elim (Bool-cases (ltb (length xs) verify_page_size)) [
              | inl short ↦
                  let all : xs ≡ todo =
                    take-short verify_page_size todo (ltb→lt (length xs) verify_page_size short) in
                  let ends : further ≡ last = ground (arith, tail, short) in
                  (
                    subst (Chained quote utf8 to_iso_string sha256 progress.previous) all chained,
                    sym (ap (λ (p : Progress). p.previous) ends)
                        ∙ there
                        ∙ ap (last_after progress.previous) all,
                  )
              | inr full ↦
                  let goes_on : verify_pages quote utf8 to_iso_string sha256 fuel table further
                      ≡ intact last =
                    ground (arith, tail, full) in
                  let first =
                    nonempty xs (subst (λ entries. is_empty entries ≡ false) page read_on.0) in
                  let at = last_after-last_of first.0 first.1 progress.previous in
                  let lasts : last_after progress.previous xs ≡ some at.0 =
                    ap (last_after progress.previous) first.2 ∙ at.1 in
                  let unread_still =
                    next_page verify_page_size progress.previous at.0 table todo unread order
                      (ap last_of first.2 ∙ at.2) in
                  let rest =
                    pages-Chained fuel table ys further last
                      (subst (λ previous. select (is_after previous) table ≡ ys)
                        (sym (there ∙ lasts)) unread_still)
                      (Increasing-drop verify_page_size todo order) goes_on in
                  let whole = take-drop verify_page_size todo in
                  (
                    subst (Chained quote utf8 to_iso_string sha256 progress.previous) whole (
                        Chained-append quote utf8 to_iso_string sha256 xs ys progress.previous
                          chained
                          (subst (λ previous. Chained quote utf8 to_iso_string sha256 previous ys)
                            there rest.0)),
                    rest.1
                        ∙ ap (λ previous. last_after previous ys) there
                        ∙ sym (last_after-append xs ys progress.previous)
                        ∙ ap (last_after progress.previous) whole,
                  )
            ]
      ]

  -- A report of an intact chain is about every entry of the table.
  pub verify-Chained :
      (table : List AuditEntry) (last : Progress)
      → Increasing table
      → verify quote utf8 to_iso_string sha256 table ≡ intact last
      → Chained quote utf8 to_iso_string sha256 none table × (last.previous ≡ last_after none table)
  unfolding verify
  verify-Chained table last order h =
      pages-Chained (length table + 1) table table start last (select-all table) order h
