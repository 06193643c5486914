-- ===== src/Auth/RefreshTokens/Session.antt =====
-- That a session of src/auth/auth.service.ts ends when one of its spent tokens comes back.
use boilerplate_nestjs_api.Prelude.{
  ℕ, ◌≡◌, refl, sym, ap, subst, inl, inr, String, true, false, List, [], ◌∷◌, some, arith, eq_iff,
  ltb, str_eq, lookup, Bool-cases, Option-cases,
}
use boilerplate_nestjs_api.Auth.RefreshTokens.{
  Tables, IssueRefreshTokenData, ConsumedRefreshToken, RefreshTokenClaim, issue, decide, consume,
  prune, rotate, refresh, pair, invalid, claimed, reused, revoked, unknown,
}
use boilerplate_nestjs_api.Auth.RefreshTokens.Updates.{
  finished, spent, only_in, only_in-consume, prune_each-only,
}
use boilerplate_nestjs_api.Auth.RefreshTokens.Calls.{
  Call, issues, consumes, refreshes, revokes, prunes, apply, run, all_spare, leaves, all_leave,
  finished-issue, spent-issue, only_in-issue, rotate-keeps, lookup-new_token, tokens-revoke,
}
use boilerplate_nestjs_api.Auth.RefreshTokens.Once.{
  run-finished, run-spent, consume-spent, spent-finished,
}

apply-only_in :
    (t f : String) (call : Call) (tables : Tables)
    → leaves t call ≡ true
    → only_in t f tables ≡ true
    → only_in t f (apply call tables) ≡ true
unfolding apply refresh prune
apply-only_in t f (issues data_of new_family) tables left only =
    only_in-issue t f new_family data_of tables (ground (arith, left)) only
apply-only_in t f (consumes token now) tables left only = only_in-consume t f token now tables only
apply-only_in t f (refreshes token now fresh expires_at) tables left only =
    rotate-keeps (only_in t f) (consume token now tables).0 now fresh expires_at
      (consume token now tables).1
      (λ data_of joins named kept.
        only_in-issue t f "" data_of (consume token now tables).1
          (subst (λ x. str_eq x t ≡ false) (sym named) (ground (arith, left))) kept)
      (only_in-consume t f token now tables only)
apply-only_in t f (revokes token now) tables left only =
    let same = ap (lookup t) (tokens-revoke token now tables) in ground (arith, only, same)
apply-only_in t f (prunes before) tables left only =
    prune_each-only before t f tables.families tables only

run-only_in :
    (t f : String) (calls : List Call) (tables : Tables)
    → all_leave t calls ≡ true
    → only_in t f tables ≡ true
    → only_in t f (run calls tables) ≡ true
unfolding run
run-only_in t f [] tables left only = only
run-only_in t f (call ∷ calls) tables left only =
    run-only_in t f calls (apply call tables) (ground (arith, left))
      (apply-only_in t f call tables (ground (arith, left)) only)

issue-only_in :
    (data_of : IssueRefreshTokenData) (f : String) (tables issued : Tables)
    → data_of.family_id ≡ some f
    → issue data_of "" tables ≡ some issued
    → only_in data_of.token f issued ≡ true
unfolding issue
issue-only_in data_of f tables issued joins done = ground (
  arith,
  joins,
  done,
  eq_iff f f,
  eq_iff data_of.token data_of.token,
  lookup-new_token data_of f data_of.token tables.tokens,
)

-- A rotation that hands out a token was answered with the row of the old one, and the new one joins its family.
rotate-pair :
    (claim : RefreshTokenClaim) (now : ℕ) (fresh new : String) (expires_at : ℕ) (tables : Tables)
    → (rotate claim now fresh expires_at tables).0 ≡ pair new
    → (row : ConsumedRefreshToken) × (claim ≡ claimed row)
      × (only_in new row.family_id (rotate claim now fresh expires_at tables).1 ≡ true)
unfolding rotate
rotate-pair unknown now fresh new expires_at tables done = cc
rotate-pair revoked now fresh new expires_at tables done = cc
rotate-pair (reused reuse) now fresh new expires_at tables done = cc
rotate-pair (claimed row) now fresh new expires_at tables done =
    let data_of : IssueRefreshTokenData = record {
      token = fresh;
      user_id = row.user_id;
      expires_at = expires_at;
      family_id = some row.family_id;
    } in
    elim (Bool-cases (ltb row.expires_at now)) [
      | inl late ↦ ground (arith, done, late)
      | inr timely ↦ elim (Option-cases (issue data_of "" tables)) [
        | inl refused ↦ ground (arith, done, timely, refused)
        | inr issued ↦ (
          row,
          refl,
          rw (rotate, timely, issued.1)
              (subst (λ x. only_in x row.family_id issued.0 ≡ true)
                (ground (arith, done, timely, issued.1))
                (issue-only_in data_of row.family_id tables issued.0 refl issued.1)),
        )
      ]
    ]

-- A token of a family that is over is not rotated.
refresh-over :
    (t f : String) (now : ℕ) (fresh : String) (expires_at : ℕ) (others : Tables → Tables)
    (tables : Tables)
    → finished f tables ≡ true
    → only_in t f tables ≡ true
    → (refresh t now fresh expires_at others tables).0 ≡ invalid
unfolding refresh consume decide rotate
refresh-over t f now fresh expires_at others tables over only =
    elim (Option-cases (lookup t tables.tokens)) [
      | inl missing ↦ ground (arith, missing)
      | inr found ↦ elim (Option-cases (lookup found.0.family_id tables.families)) [
        | inl gone ↦ ground (arith, found.1, gone)
        | inr family ↦ ground (arith, over, only, found.1, family.1, eq_iff found.0.family_id f)
      ]
    ]

rotate-spent :
    (t f : String) (claim : RefreshTokenClaim) (now : ℕ) (fresh : String) (expires_at : ℕ)
    (tables : Tables)
    → spent t f tables ≡ true
    → spent t f (rotate claim now fresh expires_at tables).1 ≡ true
rotate-spent t f claim now fresh expires_at tables there =
    rotate-keeps (spent t f) claim now fresh expires_at tables
      (λ data_of joins named kept. spent-issue t f "" data_of tables (ground (arith, joins)) kept)
      there

rotate-finished :
    (f : String) (claim : RefreshTokenClaim) (now : ℕ) (fresh : String) (expires_at : ℕ)
    (tables : Tables)
    → finished f tables ≡ true
    → finished f (rotate claim now fresh expires_at tables).1 ≡ true
rotate-finished f claim now fresh expires_at tables over =
    rotate-keeps (finished f) claim now fresh expires_at tables
      (λ data_of joins named kept. finished-issue f "" data_of tables (ground (arith, joins)) kept)
      over

-- A token that is presented for a refresh again ends the family.
refresh-finished :
    (t f : String) (now : ℕ) (fresh : String) (expires_at : ℕ) (during : List Call)
    (tables : Tables)
    → spent t f tables ≡ true
    → all_spare f during ≡ true
    → finished f (refresh t now fresh expires_at (run during) tables).1 ≡ true
unfolding refresh
refresh-finished t f now fresh expires_at during tables there spare =
    rotate-finished f (consume t now tables).0 now fresh expires_at
      (run during (consume t now tables).1)
      (run-finished f during (consume t now tables).1 spare (spent-finished t f now tables there))

-- Under a name that is not the token's, it leaves a token in its family alone.
refresh-only_in :
    (t f token : String) (now : ℕ) (fresh : String) (expires_at : ℕ) (during : List Call)
    (tables : Tables)
    → all_leave t during ≡ true
    → str_eq fresh t ≡ false
    → only_in t f tables ≡ true
    → only_in t f (refresh token now fresh expires_at (run during) tables).1 ≡ true
unfolding refresh
refresh-only_in t f token now fresh expires_at during tables left named only =
    let between = run during (consume token now tables).1 in
    rotate-keeps (only_in t f) (consume token now tables).0 now fresh expires_at between
      (λ data_of joins is_fresh kept.
        only_in-issue t f "" data_of between (subst (λ x. str_eq x t ≡ false) (sym is_fresh) named)
          kept)
      (run-only_in t f during (consume token now tables).1 left
        (only_in-consume t f token now tables only))

-- What an exchange leaves: the old token spent, and the new one in its family.
refresh-exchanged :
    (t new : String) (now expires_at : ℕ) (during : List Call) (tables : Tables)
    (row : ConsumedRefreshToken)
    → (consume t now tables).0 ≡ claimed row
    → (refresh t now new expires_at (run during) tables).0 ≡ pair new
    → all_spare row.family_id during ≡ true
    → (spent t row.family_id (refresh t now new expires_at (run during) tables).1 ≡ true)
      × (only_in new row.family_id (refresh t now new expires_at (run during) tables).1 ≡ true)
unfolding refresh
refresh-exchanged t new now expires_at during tables row won done spare =
    let between = run during (consume t now tables).1 in
    let exchange = rotate-pair (consume t now tables).0 now new new expires_at between done in
    let same : exchange.0 ≡ row = cc (won, exchange.1) in
    (
      rotate-spent t row.family_id (consume t now tables).0 now new expires_at between (
          run-spent t row.family_id during (consume t now tables).1 spare
            (consume-spent t now tables row won)),
      subst
          (λ (r : ConsumedRefreshToken).
            only_in new r.family_id (rotate (consume t now tables).0 now new expires_at between).1
            ≡ true)
          same exchange.2,
    )

-- Once a token of a family was exchanged for a new one, and the old one is presented for a refresh again,
-- by whomever, the new one is refused from then on: whatever is issued, presented, refreshed, revoked and
-- pruned before and after that and between the two transactions of each refresh, where no new family
-- takes the name of the family and no other token that of the new one.
pub replay_ends_session :
    (t new fresh2 fresh3 : String) (now1 now2 now3 expires1 expires2 expires3 : ℕ) (tables : Tables)
    (row : ConsumedRefreshToken) (before after during1 during2 during3 : List Call)
    → (consume t now1 tables).0 ≡ claimed row
    → (refresh t now1 new expires1 (run during1) tables).0 ≡ pair new
    → all_spare row.family_id before ≡ true
    → all_spare row.family_id after ≡ true
    → all_spare row.family_id during1 ≡ true
    → all_spare row.family_id during2 ≡ true
    → all_leave new before ≡ true
    → all_leave new after ≡ true
    → all_leave new during2 ≡ true
    → str_eq fresh2 new ≡ false
    → (refresh new now3 fresh3 expires3 (run during3) (
        run after
          (refresh t now2 fresh2 expires2
            (run during2)
            (run before (refresh t now1 new expires1 (run during1) tables).1)).1)).0
      ≡ invalid
replay_ends_session t new fresh2 fresh3 now1 now2 now3 expires1 expires2 expires3 tables row before
      after during1 during2 during3 won done spare1 spare2 spare3 spare4 left1 left2 left3 named =
    let f = row.family_id in
    let one = (refresh t now1 new expires1 (run during1) tables).1 in
    let two = run before one in
    let three = (refresh t now2 fresh2 expires2 (run during2) two).1 in
    let exchanged = refresh-exchanged t new now1 expires1 during1 tables row won done spare3 in
    let over =
      refresh-finished t f now2 fresh2 expires2 during2 two
        (run-spent t f before one spare1 exchanged.0) spare4 in
    let only =
      refresh-only_in new f t now2 fresh2 expires2 during2 two left3 named
        (run-only_in new f before one left1 exchanged.1) in
    refresh-over new f now3 fresh3 expires3 (run during3) (run after three)
      (run-finished f after three spare2 over) (run-only_in new f after three left2 only)
