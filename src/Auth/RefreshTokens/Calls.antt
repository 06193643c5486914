-- ===== src/Auth/RefreshTokens/Calls.antt =====
-- Sequences of calls of src/auth/prisma-refresh-token.store.ts and of `refresh` in auth.service.ts.
use boilerplate_nestjs_api.Prelude.{
  ℕ, ◌≡◌, refl, inl, inr, String, Bool, true, false, ◌&&◌, ◌||◌, not, List, [], ◌∷◌, Option, none,
  some, arith, eq_iff, ltb, str_eq, Dict, lookup, lookup-insert, Bool-cases, Option-cases,
  if◌then◌else◌,
}
use boilerplate_nestjs_api.Auth.RefreshTokens.{
  Token, Tables, IssueRefreshTokenData, RefreshTokenClaim, is_none, new_token, issue, revoke_family,
  consume, revoke, prune, rotate, joined, refresh, claimed, reused, revoked, unknown, logout,
}
use boilerplate_nestjs_api.Auth.RefreshTokens.Updates.{finished, spent, only_in}

-- A refresh between whose transactions others come is `consumes` and, later, `issues`.
pub data Call : Type 0 where
  issues : (data_of : IssueRefreshTokenData) → (new_family : String) → Call
  consumes : (token : String) → (now : ℕ) → Call
  refreshes : (token : String) → (now : ℕ) → (fresh : String) → (expires_at : ℕ) → Call
  revokes : (token : String) → (now : ℕ) → Call
  prunes : (before : ℕ) → Call

abbrev pub or_else : Option Tables → Tables → Tables
or_else none tables = tables
or_else (some new) tables = new

unfoldable pub apply : Call → Tables → Tables
unfolding issue consume refresh revoke prune
apply (issues data_of new_family) tables = or_else (issue data_of new_family tables) tables
apply (consumes token now) tables = (consume token now tables).1
apply (refreshes token now fresh expires_at) tables =
    (refresh token now fresh expires_at (λ between. between) tables).1
apply (revokes token now) tables = revoke token now tables
apply (prunes before) tables = prune before tables

unfoldable pub run : List Call → Tables → Tables
unfolding apply
run [] tables = tables
run (call ∷ calls) tables = run calls (apply call tables)

-- The name of the family is given to no new family: a token that is issued joins one or starts another.
abbrev pub spares : String → Call → Bool
spares f (issues data_of new_family) = not (is_none data_of.family_id) || not (str_eq new_family f)
spares f call = true

abbrev pub all_spare : String → List Call → Bool
all_spare f [] = true
all_spare f (call ∷ calls) = spares f call && all_spare f calls

-- The name of the token is given to no new token.
abbrev pub leaves : String → Call → Bool
leaves t (issues data_of new_family) = not (str_eq data_of.token t)
leaves t (refreshes token now fresh expires_at) = not (str_eq fresh t)
leaves t call = true

abbrev pub all_leave : String → List Call → Bool
all_leave t [] = true
all_leave t (call ∷ calls) = leaves t call && all_leave t calls

pub finished-issue :
    (f new_family : String) (data_of : IssueRefreshTokenData) (tables : Tables)
    → (not (is_none data_of.family_id) || not (str_eq new_family f)) ≡ true
    → finished f tables ≡ true
    → finished f (or_else (issue data_of new_family tables) tables) ≡ true
unfolding issue
finished-issue f new_family data_of tables other over = ground (
  arith,
  other,
  over,
  lookup-insert new_family f (record { user_id = data_of.user_id; revoked = none }) tables.families,
)

pub lookup-new_token :
    (data_of : IssueRefreshTokenData) (family_id t : String) (tokens : Dict Token)
    → lookup t (new_token data_of family_id tokens) ≡ (
        if str_eq data_of.token t
        then some (record {
          user_id = data_of.user_id;
          family_id = family_id;
          expires_at = data_of.expires_at;
          consumed_at = none;
        })
        else lookup t tokens)
unfolding new_token
lookup-new_token data_of family_id t tokens = lookup-insert data_of.token t _ tokens

-- A row that is there is not written over, and a new one is in another family or under another name.
pub spent-issue :
    (t f new_family : String) (data_of : IssueRefreshTokenData) (tables : Tables)
    → (not (is_none data_of.family_id) || not (str_eq new_family f)) ≡ true
    → spent t f tables ≡ true
    → spent t f (or_else (issue data_of new_family tables) tables) ≡ true
unfolding issue
spent-issue t f new_family data_of tables other there = elim (Option-cases data_of.family_id) [
  | inl starts ↦ ground (
    arith,
    other,
    there,
    starts,
    eq_iff data_of.token t,
    lookup-new_token data_of new_family t tables.tokens,
    lookup-insert new_family f (record { user_id = data_of.user_id; revoked = none })
        tables.families,
  )
  | inr joins ↦ ground (
    arith,
    there,
    joins.1,
    eq_iff data_of.token t,
    lookup-new_token data_of joins.0 t tables.tokens,
  )
]

pub only_in-issue :
    (t f new_family : String) (data_of : IssueRefreshTokenData) (tables : Tables)
    → str_eq data_of.token t ≡ false
    → only_in t f tables ≡ true
    → only_in t f (or_else (issue data_of new_family tables) tables) ≡ true
unfolding issue
only_in-issue t f new_family data_of tables other only = elim (Option-cases data_of.family_id) [
  | inl starts ↦
      ground (arith, other, only, starts, lookup-new_token data_of new_family t tables.tokens)
  | inr joins ↦
      ground (arith, other, only, joins.1, lookup-new_token data_of joins.0 t tables.tokens)
]

joined-or_else :
    (fresh : String) (issued : Option Tables) (tables : Tables)
    → (joined fresh issued tables).1 ≡ or_else issued tables
joined-or_else fresh none tables = refl
joined-or_else fresh (some issued) tables = refl

-- What no issue into a family and no presentation undoes, no rotation undoes.
pub rotate-keeps :
    (keeps : Tables → Bool) (claim : RefreshTokenClaim) (now : ℕ) (fresh : String) (expires_at : ℕ)
    (tables : Tables)
    → ((data_of : IssueRefreshTokenData)
        → is_none data_of.family_id ≡ false
        → data_of.token ≡ fresh
        → keeps tables ≡ true
        → keeps (or_else (issue data_of "" tables) tables) ≡ true)
    → keeps tables ≡ true
    → keeps (rotate claim now fresh expires_at tables).1 ≡ true
unfolding rotate
rotate-keeps keeps unknown now fresh expires_at tables issues_keep kept = kept
rotate-keeps keeps revoked now fresh expires_at tables issues_keep kept = kept
rotate-keeps keeps (reused reuse) now fresh expires_at tables issues_keep kept = kept
rotate-keeps keeps (claimed row) now fresh expires_at tables issues_keep kept =
    let data_of : IssueRefreshTokenData = record {
      token = fresh;
      user_id = row.user_id;
      expires_at = expires_at;
      family_id = some row.family_id;
    } in
    elim (Bool-cases (ltb row.expires_at now)) [
      | inl late ↦ rw (rotate, late) kept
      | inr timely ↦
          rw (rotate, timely, joined-or_else fresh (issue data_of "" tables) tables)
            (issues_keep data_of refl refl kept)
    ]

pub finished-revoke :
    (f token : String) (now : ℕ) (tables : Tables)
    → finished f tables ≡ true
    → finished f (revoke token now tables) ≡ true
unfolding revoke revoke_family
finished-revoke f token now tables over = elim (Option-cases (lookup token tables.tokens)) [
  | inl missing ↦ rw (revoke, missing) over
  | inr row ↦ elim (Option-cases (lookup row.0.family_id tables.families)) [
    | inl gone ↦ rw (revoke, row.1, gone) over
    | inr family ↦ ground (
      arith,
      over,
      row.1,
      family.1,
      lookup-insert row.0.family_id f (record family.0 { revoked = some (now, logout) })
          tables.families,
    )
  ]
]

pub tokens-revoke :
    (token : String) (now : ℕ) (tables : Tables) → (revoke token now tables).tokens ≡ tables.tokens
unfolding revoke revoke_family
tokens-revoke token now tables = elim (Option-cases (lookup token tables.tokens)) [
  | inl missing ↦ rw (revoke, missing) refl
  | inr row ↦ elim (Option-cases (lookup row.0.family_id tables.families)) [
    | inl gone ↦ rw (revoke, row.1, gone) refl
    | inr family ↦ ground (arith, row.1, family.1)
  ]
]
