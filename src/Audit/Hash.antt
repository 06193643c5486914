-- ===== src/Audit/Hash.antt =====
-- src/audit/audit-hash.ts: what of an entry is hashed, and how a draft gets its place in the chain.
-- `utf8`, `sha256` and `to_iso_string` are the functions of the runtime of these names, the hash as
-- hexadecimal digits. An actor has an id and a role or is missing.
use boilerplate_nestjs_api.Prelude.{
  ℕ, Bool, ◌&&◌, ◌||◌, not, List, [], ◌∷◌, ◌++◌, Option, none, some, leb, ◌==◌, length, replicate,
  every, same_text, Utf16, utf16, decimal, if◌then◌else◌,
}
use boilerplate_nestjs_api.Audit.Json.{Json, canonical_json}

unfoldable pub genesis_hash : Utf16
genesis_hash = replicate 64 b'0'

abbrev pub first_seq : ℕ
first_seq = 1

-- `/^[0-9a-f]{64}$/`
unfoldable pub is_chain_hash : Utf16 → Bool
is_chain_hash value =
    length value == 64
    && every (λ c. (leb b'0' c && leb c b'9') || (leb b'a' c && leb c b'f')) value

-- `Hashable`: an entry but for its hash.
pub record Hashable : Type 0 where
  pub seq : ℕ
  pub occurred_at : ℕ
  pub action : Utf16
  pub resource_type : Utf16
  pub resource_id : Utf16
  pub details : Json
  pub actor_id : Option Utf16
  pub actor_role : Option Utf16
  pub correlation_id : Option Utf16
  pub prev_hash : Utf16

pub record AuditEntry : Type 0 where
  pub placed : Hashable
  pub hash : Utf16

pub record AuditActor : Type 0 where
  pub id : Utf16
  pub role : Utf16

pub record NewAuditEntry : Type 0 where
  pub action : Utf16
  pub resource_id : Utf16
  pub details : Json
  pub actor : Option AuditActor
  pub correlation_id : Option Utf16
  pub occurred_at : ℕ

-- `AUDIT_ACTIONS`
unfoldable pub resource_type_of : Utf16 → Option Utf16
resource_type_of action =
    if same_text action (utf16 "user.registered")
    then some (utf16 "user")
    else if same_text action (utf16 "user.deleted")
    then some (utf16 "user")
    else if same_text action (utf16 "auth.refresh_token_reuse_detected")
    then some (utf16 "refresh_token_family")
    else none

abbrev pub id_of : Option AuditActor → Option Utf16
id_of none = none
id_of (some actor) = some actor.id

abbrev pub role_of : Option AuditActor → Option Utf16
role_of none = none
role_of (some actor) = some actor.role

unfoldable pub placed_at : NewAuditEntry → Utf16 → ℕ → Utf16 → Hashable
placed_at draft resource_type seq prev_hash = record {
  seq = seq;
  occurred_at = draft.occurred_at;
  action = draft.action;
  resource_type = resource_type;
  resource_id = draft.resource_id;
  details = draft.details;
  actor_id = id_of draft.actor;
  actor_role = role_of draft.actor;
  correlation_id = draft.correlation_id;
  prev_hash = prev_hash;
}

abbrev pub sealed : Hashable → Option Utf16 → Option AuditEntry
sealed placed none = none
sealed placed (some hash) = some (record { placed = placed; hash = hash })

module _ (utf8 : Utf16 → List ℕ) where
  -- The name, the length in bytes and the value; the names are ASCII.
  unfoldable pub field : List ℕ → Option Utf16 → List ℕ
  field name none = name ++ (b':' ∷ b'n' ∷ b'u' ∷ b'l' ∷ b'l' ∷ b'\n' ∷ [])
  field name (some value) =
      name ++ (b':' ∷ (decimal (length (utf8 value)) ++ (b':' ∷ (utf8 value ++ (b'\n' ∷ [])))))

  -- The fields of the preimage one after the other.
  unfoldable pub framed : List (List ℕ) → List (Option Utf16) → List ℕ
  unfolding field
  framed [] values = []
  framed (name ∷ names) [] = []
  framed (name ∷ names) (value ∷ values) = field name value ++ framed names values

unfoldable pub field_names : List (List ℕ)
field_names =
    utf16 "version"
    ∷ utf16 "seq"
    ∷ utf16 "occurredAt"
    ∷ utf16 "action"
    ∷ utf16 "resourceType"
    ∷ utf16 "resourceId"
    ∷ utf16 "actorId"
    ∷ utf16 "actorRole"
    ∷ utf16 "correlationId"
    ∷ utf16 "details"
    ∷ utf16 "prevHash"
    ∷ []

-- Their values, with the canonical text of the details.
unfoldable pub field_values : (ℕ → Utf16) → Hashable → Utf16 → List (Option Utf16)
field_values to_iso_string entry details =
    some (utf16 "audit-chain-v1")
    ∷ some (decimal entry.seq)
    ∷ some (to_iso_string entry.occurred_at)
    ∷ some entry.action
    ∷ some entry.resource_type
    ∷ some entry.resource_id
    ∷ entry.actor_id
    ∷ entry.actor_role
    ∷ entry.correlation_id
    ∷ some details
    ∷ some entry.prev_hash
    ∷ []

module _ (quote : Utf16 → Utf16) (utf8 : Utf16 → List ℕ) (to_iso_string : ℕ → Utf16)
    (sha256 : List ℕ → Utf16) where
  -- `none`: `AuditEncodingError`, here and below.
  unfoldable pub audit_entry_preimage : Hashable → Option (List ℕ)
  unfolding framed
  audit_entry_preimage entry = elim (canonical_json quote entry.details) [
    | none ↦ none
    | some details ↦ some (framed utf8 field_names (field_values to_iso_string entry details))
  ]

  unfoldable pub audit_entry_hash : Hashable → Option Utf16
  unfolding audit_entry_preimage
  audit_entry_hash entry = elim (audit_entry_preimage entry) [
    | none ↦ none
    | some preimage ↦ some (sha256 preimage)
  ]

  unfoldable pub seal_audit_entry : NewAuditEntry → ℕ → Utf16 → Option AuditEntry
  unfolding audit_entry_hash placed_at
  seal_audit_entry draft seq prev_hash =
      if not (is_chain_hash prev_hash) && not (same_text prev_hash genesis_hash)
      then none
      else elim (resource_type_of draft.action) [
        | none ↦ none
        | some resource_type ↦
            sealed (placed_at draft resource_type seq prev_hash)
              (audit_entry_hash (placed_at draft resource_type seq prev_hash))
      ]
