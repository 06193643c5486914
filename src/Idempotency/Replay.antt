-- ===== src/Idempotency/Replay.antt =====
-- One execution per key, and its replay, of src/common/idempotency/stores/in-memory-idempotency.store.ts.
use boilerplate_nestjs_api.Prelude.{
  ℕ, ◌+◌, ◌<◌, ◌≡◌, refl, inl, inr, String, true, List, none, some, arith, eq_refl, lookup,
  lookup-insert, Option-cases,
}
use boilerplate_nestjs_api.Idempotency.{
  RecordedResponse, IdempotencyRecord, in_flight, completed, fingerprint_of, lease_of, Entry, Store,
  read, reserve, complete,
}
use boilerplate_nestjs_api.Idempotency.Keeps.{Timed, run, Quiet, read_live, run_keeps}

reserve_live :
    (key fingerprint lease : String) (ttl_ms now set_at : ℕ) (store : Store) (entry : Entry)
    → lookup key store ≡ some entry
    → now < entry.expires_at
    → reserve key fingerprint lease ttl_ms now set_at store ≡ (some entry.record_of, store)
unfolding reserve
reserve_live key fingerprint lease ttl_ms now set_at store entry held early =
    ground (arith, read_live key now store entry held early)

reserve_won :
    (key fingerprint lease : String) (ttl_ms now set_at : ℕ) (store : Store)
    → (reserve key fingerprint lease ttl_ms now set_at store).0 ≡ none
    → lookup key (reserve key fingerprint lease ttl_ms now set_at store).1
      ≡ some (record { record_of = in_flight fingerprint lease; expires_at = set_at + ttl_ms })
unfolding reserve
reserve_won key fingerprint lease ttl_ms now set_at store won =
    elim (Option-cases (read key now store).0) [
      | inl nothing ↦ ground (
        arith,
        nothing,
        eq_refl key,
        lookup-insert key key
            (record { record_of = in_flight fingerprint lease; expires_at = set_at + ttl_ms })
            (read key now store).1,
      )
      | inr (found, is_found) ↦ ground (arith, is_found)
    ]

complete_live :
    (key lease : String) (response : RecordedResponse) (ttl_ms now set_at : ℕ) (store : Store)
    (entry : Entry)
    → lookup key store ≡ some entry
    → now < entry.expires_at
    → lease_of entry.record_of ≡ lease
    → (complete key lease response ttl_ms now set_at store).0 ≡ true
unfolding complete
complete_live key lease response ttl_ms now set_at store entry held early same =
    ground (arith, read_live key now store entry held early, same, eq_refl lease)

-- What a completion that is accepted leaves, whatever was there.
complete_won :
    (key lease : String) (response : RecordedResponse) (ttl_ms now set_at : ℕ) (store : Store)
    → (complete key lease response ttl_ms now set_at store).0 ≡ true
    → (found : IdempotencyRecord) × (read key now store).0 ≡ some found
      × lookup key (complete key lease response ttl_ms now set_at store).1
        ≡ some (record {
          record_of = completed (fingerprint_of found) lease response;
          expires_at = set_at + ttl_ms;
        })
unfolding complete
complete_won key lease response ttl_ms now set_at store won =
    elim (Option-cases (read key now store).0) [
      | inl nothing ↦ ground (arith, nothing)
      | inr (found, is_found) ↦ (
        found,
        is_found,
        ground (
          arith,
          is_found,
          eq_refl key,
          lookup-insert key key
              (record {
                record_of = completed (fingerprint_of found) lease response;
                expires_at = set_at + ttl_ms;
              })
              (read key now store).1,
        ),
      )
    ]

-- Once a request has reserved a key, and whatever other requests do before the record expires: another
-- reservation of the key before that is answered with the record in flight and changes nothing, and the
-- completion of the request that reserved it is accepted.
pub reserve_once :
    (key fingerprint lease : String) (ttl_ms now set_at : ℕ) (store : Store) (calls : List Timed)
    (fingerprint' lease' : String) (response : RecordedResponse) (ttl' later set_later : ℕ)
    → (reserve key fingerprint lease ttl_ms now set_at store).0 ≡ none
    → Quiet key lease (set_at + ttl_ms) calls
    → later < set_at + ttl_ms
    → let after = run calls (reserve key fingerprint lease ttl_ms now set_at store).1 in
      (reserve key fingerprint' lease' ttl' later set_later after
        ≡ (some (in_flight fingerprint lease), after))
      × ((complete key lease response ttl' later set_later after).0 ≡ true)
reserve_once key fingerprint lease ttl_ms now set_at store calls fingerprint' lease' response ttl'
      later set_later won quiet early =
    let entry : Entry = record {
      record_of = in_flight fingerprint lease;
      expires_at = set_at + ttl_ms;
    } in
    let reserved = (reserve key fingerprint lease ttl_ms now set_at store).1 in
    let kept =
      run_keeps key calls reserved entry
        (reserve_won key fingerprint lease ttl_ms now set_at store won) quiet in
    (
      reserve_live key fingerprint' lease' ttl' later set_later (run calls reserved) entry kept
          early,
      complete_live key lease response ttl' later set_later (run calls reserved) entry kept early
          refl,
    )

-- Once a completion is accepted, and whatever other requests do before the record expires, a
-- reservation of the key before that is answered with its response, under the fingerprint of the
-- request that reserved the key, and changes nothing.
pub completed_is_replayed :
    (key lease : String) (response : RecordedResponse) (ttl_ms now set_at : ℕ) (store : Store)
    (found : IdempotencyRecord) (calls : List Timed) (fingerprint' lease' : String)
    (ttl' later set_later : ℕ)
    → (read key now store).0 ≡ some found
    → (complete key lease response ttl_ms now set_at store).0 ≡ true
    → Quiet key lease (set_at + ttl_ms) calls
    → later < set_at + ttl_ms
    → let after = run calls (complete key lease response ttl_ms now set_at store).1 in
      reserve key fingerprint' lease' ttl' later set_later after
      ≡ (some (completed (fingerprint_of found) lease response), after)
completed_is_replayed key lease response ttl_ms now set_at store found calls fingerprint' lease'
      ttl' later set_later is_found won quiet early =
    let (stored, is_stored, written) =
      complete_won key lease response ttl_ms now set_at store won in
    let same : stored ≡ found = ground (arith, is_stored, is_found) in
    let entry : Entry = record {
      record_of = completed (fingerprint_of found) lease response;
      expires_at = set_at + ttl_ms;
    } in
    let after = (complete key lease response ttl_ms now set_at store).1 in
    let held : lookup key after ≡ some entry = ground (arith, written, same) in
    reserve_live key fingerprint' lease' ttl' later set_later (run calls after) entry
      (run_keeps key calls after entry held quiet) early
