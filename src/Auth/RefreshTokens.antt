-- ===== src/Auth/RefreshTokens.antt =====
-- src/auth/prisma-refresh-token.store.ts: the tables of tokens and of the families that they form, and
-- what auth.service.ts makes of a presented token. Each method is one transaction under the locks that
-- it takes, hence one step. The names of new rows and the time are arguments.
pub mod Calls
pub mod Once
pub mod Session
pub mod Updates
mod Tests
use boilerplate_nestjs_api.Prelude.{
  ℕ, ◌+◌, String, Bool, true, false, ◌&&◌, List, [], ◌∷◌, Option, none, some, ltb, str_eq, Dict,
  lookup, insert, remove, if◌then◌else◌,
}

pub data Revocation : Type 0 where
  reuse_detected logout : Revocation

pub record Family : Type 0 where
  pub user_id : String
  pub revoked : Option (ℕ × Revocation)

pub record Token : Type 0 where
  pub user_id : String
  pub family_id : String
  pub expires_at : ℕ
  pub consumed_at : Option ℕ

pub record Tables : Type 0 where
  pub tokens : Dict Token
  pub families : Dict Family

pub record IssueRefreshTokenData : Type 0 where
  pub token : String
  pub user_id : String
  pub expires_at : ℕ
  pub family_id : Option String

pub record ConsumedRefreshToken : Type 0 where
  pub user_id : String
  pub expires_at : ℕ
  pub family_id : String

pub record RefreshTokenReuse : Type 0 where
  pub family_id : String
  pub user_id : String
  pub revoked_tokens : ℕ

pub data RefreshTokenClaim : Type 0 where
  claimed : ConsumedRefreshToken → RefreshTokenClaim
  reused : RefreshTokenReuse → RefreshTokenClaim
  revoked : RefreshTokenClaim
  unknown : RefreshTokenClaim

abbrev pub is_none {ℓ} : {A : Type ℓ} → Option A → Bool
is_none none = true
is_none (some a) = false

-- A token that nobody has presented yet.
pub new_token : IssueRefreshTokenData → String → Dict Token → Dict Token
new_token data_of family_id tokens =
    insert data_of.token
      (record {
        user_id = data_of.user_id;
        family_id = family_id;
        expires_at = data_of.expires_at;
        consumed_at = none;
      })
      tokens

-- `none`: the database refuses a token that is there, a family that is not, or a new one that is.
pub issue : IssueRefreshTokenData → String → Tables → Option Tables
unfolding new_token
issue data_of new_family tables =
    if is_none (lookup data_of.token tables.tokens)
    then (elim data_of.family_id [
      | some family_id ↦
          if is_none (lookup family_id tables.families)
          then none
          else some (record tables { tokens = new_token data_of family_id tables.tokens })
      | none ↦
          if is_none (lookup new_family tables.families)
          then some (record {
            tokens = new_token data_of new_family tables.tokens;
            families =
                insert new_family (record { user_id = data_of.user_id; revoked = none })
                  tables.families;
          })
          else none
    ])
    else none

-- The tokens of a family that nobody has presented.
pub unspent : String → Dict Token → ℕ
unspent family_id [] = 0
unspent family_id (entry ∷ tokens) =
    (if str_eq entry.1.family_id family_id && is_none entry.1.consumed_at then 1 else 0)
    + unspent family_id tokens

pub revoke_family : String → Family → Revocation → ℕ → Tables → Tables
revoke_family family_id family reason now tables = record tables {
  families = insert family_id (record family { revoked = some (now, reason) }) tables.families;
}

-- The decision, with the rows of the token and of its family at hand.
pub decide : String → ℕ → Token → Family → Tables → RefreshTokenClaim × Tables
unfolding revoke_family unspent
decide token now row family tables =
    if is_none family.revoked
    then (if is_none row.consumed_at
        then (
          claimed (record {
            user_id = row.user_id;
            expires_at = row.expires_at;
            family_id = row.family_id;
          }),
          record tables {
            tokens = insert token (record row { consumed_at = some now }) tables.tokens;
          },
        )
        else (
          reused (record {
            family_id = row.family_id;
            user_id = row.user_id;
            revoked_tokens = unspent row.family_id tables.tokens;
          }),
          revoke_family row.family_id family reuse_detected now tables,
        ))
    else (revoked, tables)

unfoldable pub consume : String → ℕ → Tables → RefreshTokenClaim × Tables
unfolding decide
consume token now tables = elim (lookup token tables.tokens) [
  | none ↦ (unknown, tables)
  | some row ↦ elim (lookup row.family_id tables.families) [
    | none ↦ (unknown, tables)
    | some family ↦ decide token now row family tables
  ]
]

pub revoke : String → ℕ → Tables → Tables
unfolding revoke_family
revoke token now tables = elim (lookup token tables.tokens) [
  | none ↦ tables
  | some row ↦ elim (lookup row.family_id tables.families) [
    | none ↦ tables
    | some family ↦
        if is_none family.revoked
        then revoke_family row.family_id family logout now tables
        else tables
  ]
]

-- Whether every token of the family expired before.
pub all_expired : ℕ → String → Dict Token → Bool
all_expired before family_id [] = true
all_expired before family_id (entry ∷ tokens) =
    (if str_eq entry.1.family_id family_id then ltb entry.1.expires_at before else true)
    && all_expired before family_id tokens

-- The cascade of the deletion of a family, over the keys of the table of tokens.
pub drop_tokens : String → Dict Token → Dict Token → Dict Token
drop_tokens family_id [] tokens = tokens
drop_tokens family_id (entry ∷ entries) tokens =
    let rest = drop_tokens family_id entries tokens in
    elim (lookup entry.0 tokens) [
      | none ↦ rest
      | some row ↦ if str_eq row.family_id family_id then remove entry.0 rest else rest
    ]

pub prune_each : ℕ → Dict Family → Tables → Tables
unfolding drop_tokens all_expired
prune_each before [] tables = tables
prune_each before (entry ∷ families) tables =
    let rest = prune_each before families tables in
    if all_expired before entry.0 rest.tokens
    then record {
      tokens = drop_tokens entry.0 rest.tokens rest.tokens;
      families = remove entry.0 rest.families;
    }
    else rest

pub prune : ℕ → Tables → Tables
unfolding prune_each
prune before tables = prune_each before tables.families tables

-- How a refresh ends; `failed` is a refusal of the database.
pub data Refreshed : Type 0 where
  pair : (refresh_token : String) → Refreshed
  invalid expired failed : Refreshed

abbrev pub joined : String → Option Tables → Tables → Refreshed × Tables
joined fresh none tables = (failed, tables)
joined fresh (some issued) tables = (pair fresh, issued)

-- What follows the answer of the store: the new token, with its name and expiry, joins the family.
pub rotate : RefreshTokenClaim → ℕ → String → ℕ → Tables → Refreshed × Tables
unfolding issue
rotate unknown now fresh expires_at tables = (invalid, tables)
rotate revoked now fresh expires_at tables = (invalid, tables)
rotate (reused reuse) now fresh expires_at tables = (invalid, tables)
rotate (claimed row) now fresh expires_at tables =
    if ltb row.expires_at now
    then (expired, tables)
    else joined fresh
        (issue
          (record {
            token = fresh;
            user_id = row.user_id;
            expires_at = expires_at;
            family_id = some row.family_id;
          })
          "" tables)
        tables

-- Two transactions, and `others` is what is done to the tables between them.
unfoldable pub refresh : String → ℕ → String → ℕ → (Tables → Tables) → Tables → Refreshed × Tables
unfolding consume rotate
refresh token now fresh expires_at others tables =
    let (claim, after) = consume token now tables in
    rotate claim now fresh expires_at (others after)
