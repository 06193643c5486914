-- ===== src/Saga/Store.antt =====
-- src/saga/prisma-saga.store.ts: the table of instances, keyed by id. Each SQL statement is one
-- atomic step on the table. The table's own clock stamps a new row and an abandoned one.
pub mod Lease
use boilerplate_nestjs_api.Prelude.{
  ℕ, ◌+◌, String, Bool, true, false, ◌&&◌, ◌||◌, List, [], ◌∷◌, ◌++◌, Option, none, some, str_eq,
  leb, Dict, lookup, insert, Utf16, pos, if◌then◌else◌,
}
use boilerplate_nestjs_api.Saga.Instance.{
  SagaStatus, NewSagaInstance, SagaInstanceRecord, SagaProgress, SagaClaim,
}

abbrev pub Table : Type 0
Table = Dict SagaInstanceRecord

abbrev pub new_row : NewSagaInstance → ℕ → SagaInstanceRecord
new_row instance_ now = record {
  id = instance_.id;
  name = instance_.name;
  status = SagaStatus.running;
  cursor = pos 0;
  attempts = 0;
  next_attempt_at = now;
  state = instance_.state;
  log = [];
  last_error = none;
  correlation_id = instance_.correlation_id;
  locked_by = none;
  locked_until = none;
  created_at = now;
  updated_at = now;
}

-- The primary key refuses a second row under one id.
unfoldable pub create : NewSagaInstance → ℕ → Table → Option (SagaInstanceRecord × Table)
create instance_ now table = elim (lookup instance_.id table) [
  | none ↦ some (new_row instance_ now, insert instance_.id (new_row instance_ now) table)
  | some row ↦ none
]

unfoldable pub find : String → Table → Option SagaInstanceRecord
find id table = lookup id table

abbrev is_live : SagaStatus → Bool
is_live SagaStatus.running = true
is_live SagaStatus.compensating = true
is_live _ = false

abbrev lease_over : Option ℕ → ℕ → Bool
lease_over none now = true
lease_over (some until) now = leb until now

-- The `WHERE` clause of the claim.
unfoldable pub is_claimable : SagaInstanceRecord → ℕ → Bool
is_claimable row now =
    is_live row.status && (leb row.next_attempt_at now && lease_over row.locked_until now)

abbrev pub leased : SagaInstanceRecord → SagaClaim → SagaInstanceRecord
leased row by = record row {
  locked_by = some by.owner;
  locked_until = some (by.now + by.lease_ms);
  updated_at = by.now;
}

unfoldable pub claim : String → SagaClaim → Table → Option SagaInstanceRecord × Table
claim id by table = elim (lookup id table) [
  | none ↦ (none, table)
  | some row ↦
      if is_claimable row by.now
      then (some (leased row by), insert id (leased row by) table)
      else (none, table)
]

-- The comparison of a nullable column with a value: null is never equal.
abbrev pub held_by : Option String → String → Bool
held_by none owner = false
held_by (some holder) owner = str_eq holder owner

abbrev pub saved_row : SagaInstanceRecord → SagaClaim → SagaProgress → SagaInstanceRecord
saved_row row by progress = record row {
  status = progress.status;
  cursor = progress.cursor;
  attempts = progress.attempts;
  next_attempt_at = progress.next_attempt_at;
  state = progress.state;
  log = row.log ++ progress.entry ∷ [];
  last_error = progress.last_error;
  locked_by = if progress.release then none else some by.owner;
  locked_until = if progress.release then none else some (by.now + by.lease_ms);
  updated_at = by.now;
}

unfoldable pub save : String → SagaClaim → SagaProgress → Table → Option SagaInstanceRecord × Table
save id by progress table = elim (lookup id table) [
  | none ↦ (none, table)
  | some row ↦
      if held_by row.locked_by by.owner
      then (some (saved_row row by progress), insert id (saved_row row by progress) table)
      else (none, table)
]

abbrev pub abandoned_row : SagaInstanceRecord → Utf16 → ℕ → SagaInstanceRecord
abandoned_row row reason now = record row {
  status = SagaStatus.stuck;
  last_error = some reason;
  locked_by = none;
  locked_until = none;
  updated_at = now;
}

-- Without regard to the lease. `none`: there is no such row, and the update throws.
unfoldable pub abandon_row : String → Utf16 → ℕ → Table → Option Table
abandon_row id reason now table = elim (lookup id table) [
  | none ↦ none
  | some row ↦ some (insert id (abandoned_row row reason now) table)
]
