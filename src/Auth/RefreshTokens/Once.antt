-- ===== src/Auth/RefreshTokens/Once.antt =====
-- That a refresh token of src/auth/prisma-refresh-token.store.ts is taken once, and that its family ends
-- when it comes back.
use boilerplate_nestjs_api.Prelude.{
  ℕ, ◌≡◌, ◌≢◌, ap, inl, inr, String, true, List, [], ◌∷◌, Option, none, some, arith, eq_iff, lookup,
  lookup-insert, Option-cases,
}
use boilerplate_nestjs_api.Auth.RefreshTokens.{
  Tables, ConsumedRefreshToken, RefreshTokenClaim, revoke_family, decide, consume, prune, refresh,
  claimed, reused, revoked, unknown, reuse_detected,
}
use boilerplate_nestjs_api.Auth.RefreshTokens.Updates.{
  finished, spent, finished-consume, spent-consume, prune_each-finished, prune_each-spent,
}
use boilerplate_nestjs_api.Auth.RefreshTokens.Calls.{
  Call, issues, consumes, refreshes, revokes, prunes, apply, run, spares, all_spare, finished-issue,
  spent-issue, rotate-keeps, finished-revoke, tokens-revoke,
}

apply-finished :
    (f : String) (call : Call) (tables : Tables)
    → spares f call ≡ true
    → finished f tables ≡ true
    → finished f (apply call tables) ≡ true
unfolding apply refresh prune
apply-finished f (issues data_of new_family) tables spare over =
    finished-issue f new_family data_of tables spare over
apply-finished f (consumes token now) tables spare over = finished-consume f token now tables over
apply-finished f (refreshes token now fresh expires_at) tables spare over =
    rotate-keeps (finished f) (consume token now tables).0 now fresh expires_at
      (consume token now tables).1
      (λ data_of joins named kept.
        finished-issue f "" data_of (consume token now tables).1 (ground (arith, joins)) kept)
      (finished-consume f token now tables over)
apply-finished f (revokes token now) tables spare over = finished-revoke f token now tables over
apply-finished f (prunes before) tables spare over =
    prune_each-finished before f tables.families tables over

pub run-finished :
    (f : String) (calls : List Call) (tables : Tables)
    → all_spare f calls ≡ true
    → finished f tables ≡ true
    → finished f (run calls tables) ≡ true
unfolding run
run-finished f [] tables spare over = over
run-finished f (call ∷ calls) tables spare over =
    run-finished f calls (apply call tables) (ground (arith, spare))
      (apply-finished f call tables (ground (arith, spare)) over)

apply-spent :
    (t f : String) (call : Call) (tables : Tables)
    → spares f call ≡ true
    → spent t f tables ≡ true
    → spent t f (apply call tables) ≡ true
unfolding apply refresh prune
apply-spent t f (issues data_of new_family) tables spare there =
    spent-issue t f new_family data_of tables spare there
apply-spent t f (consumes token now) tables spare there = spent-consume t f token now tables there
apply-spent t f (refreshes token now fresh expires_at) tables spare there =
    rotate-keeps (spent t f) (consume token now tables).0 now fresh expires_at
      (consume token now tables).1
      (λ data_of joins named kept.
        spent-issue t f "" data_of (consume token now tables).1 (ground (arith, joins)) kept)
      (spent-consume t f token now tables there)
apply-spent t f (revokes token now) tables spare there =
    let over = finished-revoke f token now tables in
    let same = ap (lookup t) (tokens-revoke token now tables) in ground (arith, there, over, same)
apply-spent t f (prunes before) tables spare there =
    prune_each-spent before t f tables.families tables there

pub run-spent :
    (t f : String) (calls : List Call) (tables : Tables)
    → all_spare f calls ≡ true
    → spent t f tables ≡ true
    → spent t f (run calls tables) ≡ true
unfolding run
run-spent t f [] tables spare there = there
run-spent t f (call ∷ calls) tables spare there =
    run-spent t f calls (apply call tables) (ground (arith, spare))
      (apply-spent t f call tables (ground (arith, spare)) there)

-- A presentation that is answered with the token leaves it spent.
pub consume-spent :
    (t : String) (now : ℕ) (tables : Tables) (row : ConsumedRefreshToken)
    → (consume t now tables).0 ≡ claimed row
    → spent t row.family_id (consume t now tables).1 ≡ true
unfolding consume decide
consume-spent t now tables row won = elim (Option-cases (lookup t tables.tokens)) [
  | inl missing ↦ ground (arith, won, missing)
  | inr found ↦ elim (Option-cases (lookup found.0.family_id tables.families)) [
    | inl gone ↦ ground (arith, won, found.1, gone)
    | inr family ↦ ground (
      arith,
      won,
      found.1,
      family.1,
      eq_iff t t,
      eq_iff row.family_id row.family_id,
      lookup-insert t t (record found.0 { consumed_at = some now }) tables.tokens,
    )
  ]
]

-- A spent token that is presented ends its family, whatever it is answered.
pub spent-finished :
    (t f : String) (now : ℕ) (tables : Tables)
    → spent t f tables ≡ true
    → finished f (consume t now tables).1 ≡ true
unfolding consume decide revoke_family
spent-finished t f now tables there = elim (Option-cases (lookup t tables.tokens)) [
  | inl missing ↦ ground (arith, there, missing)
  | inr found ↦ elim (Option-cases (lookup found.0.family_id tables.families)) [
    | inl gone ↦ ground (arith, there, found.1, gone, eq_iff found.0.family_id f)
    | inr family ↦ ground (
      arith,
      there,
      found.1,
      family.1,
      eq_iff found.0.family_id f,
      lookup-insert found.0.family_id f (record family.0 { revoked = some (now, reuse_detected) })
          tables.families,
    )
  ]
]

-- The family of a token that an answer hands out, or whose end it reports.
abbrev pub family_of : RefreshTokenClaim → Option String
family_of (claimed row) = some row.family_id
family_of (reused reuse) = some reuse.family_id
family_of revoked = none
family_of unknown = none

-- In a family that is over, nothing is handed out and nothing is reported.
pub finished_family :
    (t f : String) (now : ℕ) (tables : Tables)
    → finished f tables ≡ true
    → family_of (consume t now tables).0 ≢ some f
unfolding consume decide
finished_family t f now tables over = λ named. elim (Option-cases (lookup t tables.tokens)) [
  | inl missing ↦ ground (arith, named, missing)
  | inr found ↦ elim (Option-cases (lookup found.0.family_id tables.families)) [
    | inl gone ↦ ground (arith, named, found.1, gone)
    | inr family ↦ ground (arith, named, over, found.1, family.1, eq_iff found.0.family_id f)
  ]
]

-- A spent token is not handed out in its family again.
spent_kept :
    (t f : String) (now : ℕ) (tables : Tables) (row : ConsumedRefreshToken)
    → spent t f tables ≡ true
    → (consume t now tables).0 ≡ claimed row
    → row.family_id ≢ f
unfolding consume decide
spent_kept t f now tables row there won = λ same. elim (Option-cases (lookup t tables.tokens)) [
  | inl missing ↦ ground (arith, won, missing)
  | inr found ↦ elim (Option-cases (lookup found.0.family_id tables.families)) [
    | inl gone ↦ ground (arith, won, found.1, gone)
    | inr family ↦ ground (arith, won, there, same, found.1, family.1, eq_iff found.0.family_id f)
  ]
]

-- Once a token was handed out, and whatever is issued, presented, refreshed, revoked and pruned since, where
-- no new family takes the name of its family: presenting it again does not hand it out in that family, and
-- leaves the family revoked or deleted.
pub claimed_once :
    (t : String) (now later : ℕ) (tables : Tables) (row : ConsumedRefreshToken) (calls : List Call)
    → (consume t now tables).0 ≡ claimed row
    → all_spare row.family_id calls ≡ true
    → (finished row.family_id (consume t later (run calls (consume t now tables).1)).1 ≡ true)
      × ((again : ConsumedRefreshToken)
          → (consume t later (run calls (consume t now tables).1)).0 ≡ claimed again
          → again.family_id ≢ row.family_id)
claimed_once t now later tables row calls won spare =
    let there =
      run-spent t row.family_id calls (consume t now tables).1 spare
        (consume-spent t now tables row won) in
    (
      spent-finished t row.family_id later (run calls (consume t now tables).1) there,
      λ again. spent_kept t row.family_id later (run calls (consume t now tables).1) again there,
    )
