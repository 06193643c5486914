-- ===== src/Idempotency/Keeps.antt =====
-- What calls of other leases leave of an entry of src/common/idempotency/stores/in-memory-idempotency.store.ts.
use boilerplate_nestjs_api.Prelude.{
  ℕ, ◌+◌, ◌<◌, ◌≡◌, inl, inr, String, false, ◌&&◌, List, [], ◌∷◌, some, arith, eq_iff, eq_refl,
  str_eq, lookup, lookup-insert, lookup-remove, Option-cases,
}
use boilerplate_nestjs_api.Idempotency.{
  RecordedResponse, in_flight, completed, fingerprint_of, lease_of, Entry, Store, read, reserve,
  complete, release, get,
}

-- What the requests ask of the store.
pub data Call : Type 0 where
  reserves : (key : String) → (fingerprint : String) → (lease : String) → (ttl_ms : ℕ) → Call
  completes : (key : String) → (lease : String) → RecordedResponse → (ttl_ms : ℕ) → Call
  releases : (key : String) → (lease : String) → Call
  gets : (key : String) → Call

-- A call with the two readings of the clock.
pub record Timed : Type 0 where
  pub now : ℕ
  pub set_at : ℕ
  pub call : Call

pub apply : ℕ → ℕ → Call → Store → Store
apply now set_at (reserves key fingerprint lease ttl_ms) store =
    (reserve key fingerprint lease ttl_ms now set_at store).1
apply now set_at (completes key lease response ttl_ms) store =
    (complete key lease response ttl_ms now set_at store).1
apply now set_at (releases key lease) store = (release key lease now store).1
apply now set_at (gets key) store = (get key now store).1

pub run : List Timed → Store → Store
run [] store = store
run (timed ∷ calls) store = run calls (apply timed.now timed.set_at timed.call store)

-- The call does not resolve the key with the lease.
abbrev pub Foreign : String → String → Call → Type 0
Foreign key lease (reserves k fingerprint l ttl_ms) = Unit {0}
Foreign key lease (completes k l response ttl_ms) = (str_eq k key && str_eq l lease) ≡ false
Foreign key lease (releases k l) = (str_eq k key && str_eq l lease) ≡ false
Foreign key lease (gets k) = Unit {0}

-- Calls of other leases, all before the time.
abbrev pub Quiet : String → String → ℕ → List Timed → Type 0
Quiet key lease until [] = Unit {0}
Quiet key lease until (timed ∷ calls) =
    (timed.now < until) × Foreign key lease timed.call × Quiet key lease until calls

read_keeps :
    (key k : String) (now : ℕ) (store : Store) (entry : Entry)
    → lookup key store ≡ some entry
    → now < entry.expires_at
    → lookup key (read k now store).1 ≡ some entry
unfolding read
read_keeps key k now store entry held early =
    ground (arith, eq_iff k key, lookup-remove k key store)

-- A live entry is what `read` answers, and reading it changes nothing.
pub read_live :
    (key : String) (now : ℕ) (store : Store) (entry : Entry)
    → lookup key store ≡ some entry
    → now < entry.expires_at
    → read key now store ≡ (some entry.record_of, store)
unfolding read
read_live key now store entry held early = ground (arith, held)

apply_keeps :
    (key : String) (now set_at : ℕ) (call : Call) (store : Store) (entry : Entry)
    → lookup key store ≡ some entry
    → now < entry.expires_at
    → Foreign key (lease_of entry.record_of) call
    → lookup key (apply now set_at call store) ≡ some entry
unfolding apply reserve complete release get
apply_keeps key now set_at (reserves k fingerprint l ttl_ms) store entry held early foreign =
    ground (
      arith,
      eq_iff k key,
      read_keeps key k now store entry held early,
      read_live key now store entry held early,
      lookup-insert k key
          (record { record_of = in_flight fingerprint l; expires_at = set_at + ttl_ms })
          (read k now store).1,
    )
apply_keeps key now set_at (completes k l response ttl_ms) store entry held early foreign =
    elim (Option-cases (read k now store).0) [
      | inl nothing ↦ ground (arith, nothing, read_keeps key k now store entry held early)
      | inr (found, is_found) ↦ ground (
        arith,
        is_found,
        eq_iff k key,
        eq_iff (lease_of found) l,
        eq_iff l (lease_of entry.record_of),
        eq_refl (lease_of entry.record_of),
        read_keeps key k now store entry held early,
        read_live key now store entry held early,
        lookup-insert k key
            (record {
              record_of = completed (fingerprint_of found) l response;
              expires_at = set_at + ttl_ms;
            })
            (read k now store).1,
      )
    ]
apply_keeps key now set_at (releases k l) store entry held early foreign =
    elim (Option-cases (read k now store).0) [
      | inl nothing ↦ ground (arith, nothing, read_keeps key k now store entry held early)
      | inr (found, is_found) ↦ ground (
        arith,
        is_found,
        eq_iff k key,
        eq_iff (lease_of found) l,
        eq_iff l (lease_of entry.record_of),
        eq_refl (lease_of entry.record_of),
        read_keeps key k now store entry held early,
        read_live key now store entry held early,
        lookup-remove k key (read k now store).1,
      )
    ]
apply_keeps key now set_at (gets k) store entry held early foreign =
    read_keeps key k now store entry held early

pub run_keeps :
    (key : String) (calls : List Timed) (store : Store) (entry : Entry)
    → lookup key store ≡ some entry
    → Quiet key (lease_of entry.record_of) entry.expires_at calls
    → lookup key (run calls store) ≡ some entry
unfolding run
run_keeps key [] store entry held quiet = held
run_keeps key (timed ∷ calls) store entry held quiet =
    run_keeps key calls (apply timed.now timed.set_at timed.call store) entry
      (apply_keeps key timed.now timed.set_at timed.call store entry held quiet.0 quiet.1) quiet.2
