-- ===== src/Auth/RefreshTokens/Updates.antt =====
-- What each method of src/auth/prisma-refresh-token.store.ts leaves of a family and of a token.
use boilerplate_nestjs_api.Prelude.{
  ℕ, ◌≡◌, inl, inr, String, Bool, true, false, ◌&&◌, ◌||◌, not, [], ◌∷◌, Option, none, some, arith,
  eq_iff, str_eq, Dict, lookup, lookup-insert, lookup-remove, Bool-cases, Option-cases,
}
use boilerplate_nestjs_api.Auth.RefreshTokens.{
  Family, Token, Tables, is_none, revoke_family, decide, consume, drop_tokens, prune_each,
  reuse_detected,
}

-- The family is revoked or deleted.
abbrev pub is_over : Option Family → Bool
is_over none = true
is_over (some family) = not (is_none family.revoked)

abbrev pub finished : String → Tables → Bool
finished f tables = is_over (lookup f tables.families)

-- The row of a token that was presented, in the family.
abbrev pub is_spent : String → Option Token → Bool
is_spent f none = false
is_spent f (some row) = str_eq row.family_id f && not (is_none row.consumed_at)

abbrev pub spent : String → String → Tables → Bool
spent t f tables = finished f tables || is_spent f (lookup t tables.tokens)

-- The token is in no other family.
abbrev pub is_only_in : String → Option Token → Bool
is_only_in f none = true
is_only_in f (some row) = str_eq row.family_id f

abbrev pub only_in : String → String → Tables → Bool
only_in t f tables = is_only_in f (lookup t tables.tokens)

finished-revoke_family :
    (f id : String) (family : Family) (now : ℕ) (tables : Tables)
    → finished f tables ≡ true
    → finished f (revoke_family id family reuse_detected now tables) ≡ true
unfolding revoke_family
finished-revoke_family f id family now tables over = ground (
  arith,
  over,
  lookup-insert id f (record family { revoked = some (now, reuse_detected) }) tables.families,
)

pub finished-consume :
    (f token : String) (now : ℕ) (tables : Tables)
    → finished f tables ≡ true
    → finished f (consume token now tables).1 ≡ true
unfolding consume decide revoke_family
finished-consume f token now tables over = elim (Option-cases (lookup token tables.tokens)) [
  | inl missing ↦ rw (consume, missing) over
  | inr row ↦ elim (Option-cases (lookup row.0.family_id tables.families)) [
    | inl gone ↦ rw (consume, row.1, gone) over
    | inr family ↦ ground (
      arith,
      over,
      row.1,
      family.1,
      lookup-insert row.0.family_id f (record family.0 { revoked = some (now, reuse_detected) })
          tables.families,
    )
  ]
]

drop_tokens-other :
    (f k : String) (row : Token) (entries tokens : Dict Token)
    → lookup k tokens ≡ some row
    → str_eq row.family_id f ≡ false
    → lookup k (drop_tokens f entries tokens) ≡ some row
unfolding drop_tokens
drop_tokens-other f k row [] tokens here other = here
drop_tokens-other f k row (entry ∷ entries) tokens here other = ground (
  arith,
  here,
  other,
  drop_tokens-other f k row entries tokens here other,
  lookup-remove entry.0 k (drop_tokens f entries tokens),
  eq_iff entry.0 k,
)

drop_tokens-only :
    (t g f : String) (entries tokens : Dict Token)
    → is_only_in f (lookup t tokens) ≡ true
    → is_only_in f (lookup t (drop_tokens g entries tokens)) ≡ true
unfolding drop_tokens
drop_tokens-only t g f [] tokens only = only
drop_tokens-only t g f (entry ∷ entries) tokens only = ground (
  arith,
  only,
  drop_tokens-only t g f entries tokens only,
  lookup-remove entry.0 t (drop_tokens g entries tokens),
)

drop_tokens-spent :
    (t g f : String) (entries tokens : Dict Token)
    → is_spent f (lookup t tokens) ≡ true
    → str_eq g f ≡ false
    → is_spent f (lookup t (drop_tokens g entries tokens)) ≡ true
drop_tokens-spent t g f entries tokens there other = elim (Option-cases (lookup t tokens)) [
  | inl missing ↦ ground (arith, there, missing)
  | inr row ↦ ground (
    arith,
    there,
    row.1,
    drop_tokens-other g t row.0 entries tokens row.1 (
        ground (
          arith,
          there,
          row.1,
          other,
          eq_iff row.0.family_id g,
          eq_iff row.0.family_id f,
          eq_iff g f,
        )),
  )
]

pub prune_each-finished :
    (before : ℕ) (f : String) (entries : Dict Family) (tables : Tables)
    → finished f tables ≡ true
    → finished f (prune_each before entries tables) ≡ true
unfolding prune_each
prune_each-finished before f [] tables over = over
prune_each-finished before f (entry ∷ entries) tables over =
    let rest = prune_each before entries tables in
    ground (
      arith,
      prune_each-finished before f entries tables over,
      lookup-remove entry.0 f rest.families,
    )

pub prune_each-spent :
    (before : ℕ) (t f : String) (entries : Dict Family) (tables : Tables)
    → spent t f tables ≡ true
    → spent t f (prune_each before entries tables) ≡ true
unfolding prune_each
prune_each-spent before t f [] tables there = there
prune_each-spent before t f (entry ∷ entries) tables there =
    let rest = prune_each before entries tables in
    let kept = prune_each-spent before t f entries tables there in
    elim (Bool-cases (str_eq entry.0 f)) [
      | inl same ↦ ground (arith, kept, same, lookup-remove entry.0 f rest.families)
      | inr other ↦ ground (
        arith,
        kept,
        other,
        lookup-remove entry.0 f rest.families,
        drop_tokens-spent t entry.0 f rest.tokens rest.tokens,
      )
    ]

pub prune_each-only :
    (before : ℕ) (t f : String) (entries : Dict Family) (tables : Tables)
    → only_in t f tables ≡ true
    → only_in t f (prune_each before entries tables) ≡ true
unfolding prune_each
prune_each-only before t f [] tables only = only
prune_each-only before t f (entry ∷ entries) tables only =
    let rest = prune_each before entries tables in
    let kept = prune_each-only before t f entries tables only in
    ground (arith, kept, drop_tokens-only t entry.0 f rest.tokens rest.tokens kept)

pub spent-consume :
    (t f token : String) (now : ℕ) (tables : Tables)
    → spent t f tables ≡ true
    → spent t f (consume token now tables).1 ≡ true
unfolding consume decide revoke_family
spent-consume t f token now tables there = elim (Option-cases (lookup token tables.tokens)) [
  | inl missing ↦ rw (consume, missing) there
  | inr row ↦ elim (Option-cases (lookup row.0.family_id tables.families)) [
    | inl gone ↦ rw (consume, row.1, gone) there
    | inr family ↦ ground (
      arith,
      there,
      row.1,
      family.1,
      eq_iff token t,
      lookup-insert token t (record row.0 { consumed_at = some now }) tables.tokens,
      lookup-insert row.0.family_id f (record family.0 { revoked = some (now, reuse_detected) })
          tables.families,
    )
  ]
]

pub only_in-consume :
    (t f token : String) (now : ℕ) (tables : Tables)
    → only_in t f tables ≡ true
    → only_in t f (consume token now tables).1 ≡ true
unfolding consume decide revoke_family
only_in-consume t f token now tables only = elim (Option-cases (lookup token tables.tokens)) [
  | inl missing ↦ rw (consume, missing) only
  | inr row ↦ elim (Option-cases (lookup row.0.family_id tables.families)) [
    | inl gone ↦ rw (consume, row.1, gone) only
    | inr family ↦ ground (
      arith,
      only,
      row.1,
      family.1,
      eq_iff token t,
      lookup-insert token t (record row.0 { consumed_at = some now }) tables.tokens,
    )
  ]
]
