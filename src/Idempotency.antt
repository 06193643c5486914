-- ===== src/Idempotency.antt =====
-- src/common/idempotency/stores/in-memory-idempotency.store.ts and the records of ports/. A call reads
-- the clock once in `read` (`now`) and, where it writes, once more (`set_at`); both are arguments.
pub mod Keeps
pub mod Replay
mod Tests
use boilerplate_nestjs_api.Prelude.{
  ℕ, ◌+◌, String, Bool, true, false, Option, none, some, str_eq, leb, Dict, lookup, insert, remove,
  if◌then◌else◌,
}

pub record RecordedResponse : Type 0 where
  pub status : ℕ
  pub content_type : Option String
  pub body : Option String

pub data IdempotencyRecord : Type 0 where
  in_flight : (fingerprint : String) → (lease : String) → IdempotencyRecord
  completed : (fingerprint : String) → (lease : String) → RecordedResponse → IdempotencyRecord

abbrev pub fingerprint_of : IdempotencyRecord → String
fingerprint_of (in_flight fingerprint lease) = fingerprint
fingerprint_of (completed fingerprint lease response) = fingerprint

abbrev pub lease_of : IdempotencyRecord → String
lease_of (in_flight fingerprint lease) = lease
lease_of (completed fingerprint lease response) = lease

pub record Entry : Type 0 where
  pub record_of : IdempotencyRecord
  pub expires_at : ℕ

abbrev pub Store : Type 0
Store = Dict Entry

abbrev pub unexpired : ℕ → Entry → Option IdempotencyRecord
unexpired now entry = if leb entry.expires_at now then none else some entry.record_of

-- What `read` answers.
abbrev pub live_record : ℕ → Option Entry → Option IdempotencyRecord
live_record now none = none
live_record now (some entry) = unexpired now entry

-- An expired entry is dropped when it is read.
pub read : String → ℕ → Store → Option IdempotencyRecord × Store
read key now store = elim (lookup key store) [
  | none ↦ (none, store)
  | some entry ↦
      (if leb entry.expires_at now then (none, remove key store) else (some entry.record_of, store))
]

-- The record to reserve with is an in-flight one.
pub reserve : String → String → String → ℕ → ℕ → ℕ → Store → Option IdempotencyRecord × Store
unfolding read
reserve key fingerprint lease ttl_ms now set_at store =
    let (existing, swept) = read key now store in
    elim existing [
      | some record_found ↦ (some record_found, swept)
      | none ↦ (
        none,
        insert key
            (record { record_of = in_flight fingerprint lease; expires_at = set_at + ttl_ms })
            swept,
      )
    ]

pub complete : String → String → RecordedResponse → ℕ → ℕ → ℕ → Store → Bool × Store
unfolding read
complete key lease response ttl_ms now set_at store =
    let (existing, swept) = read key now store in
    elim existing [
      | none ↦ (false, swept)
      | some found ↦
          (if str_eq (lease_of found) lease
            then (
              true,
              insert key
                  (record {
                    record_of = completed (fingerprint_of found) lease response;
                    expires_at = set_at + ttl_ms;
                  })
                  swept,
            )
            else (false, swept))
    ]

pub release : String → String → ℕ → Store → Bool × Store
unfolding read
release key lease now store =
    let (existing, swept) = read key now store in
    elim existing [
      | none ↦ (false, swept)
      | some found ↦
          (if str_eq (lease_of found) lease then (true, remove key swept) else (false, swept))
    ]

pub get : String → ℕ → Store → Option IdempotencyRecord × Store
unfolding read
get key now store = read key now store
