-- ===== src/Idempotency/Tests.antt =====
-- The store of src/common/idempotency at concrete requests.
use boilerplate_nestjs_api.Prelude.{◌≡◌, refl, true, List, [], ◌∷◌, some, arith, lookup, insert}
use boilerplate_nestjs_api.Idempotency.{
  RecordedResponse, in_flight, completed, Store, read, reserve, complete,
}
use boilerplate_nestjs_api.Idempotency.Keeps.{Timed, reserves, releases, run}
use boilerplate_nestjs_api.Idempotency.Replay.{reserve_once, completed_is_replayed}

abbrev created : RecordedResponse
created = record { status = 201; content_type = some "application/json"; body = some "{}" }

-- A retry, another key, and a late finisher of another lease.
abbrev others : List Timed
others =
    record { now = 110; set_at = 110; call = reserves "pay-1" "f" "lease-b" 500 }
    ∷ record { now = 120; set_at = 121; call = reserves "pay-2" "g" "lease-c" 500 }
    ∷ record { now = 130; set_at = 130; call = releases "pay-1" "lease-z" }
    ∷ []

abbrev reserved : Store
reserved = (reserve "pay-1" "f" "lease-a" 100 100 101 []).1

reserve_once_example :
    (reserve "pay-1" "f" "lease-d" 500 150 150 (run others reserved)
      ≡ (some (in_flight "f" "lease-a"), run others reserved))
    × ((complete "pay-1" "lease-a" created 500 150 150 (run others reserved)).0 ≡ true)
unfolding reserve read lookup
reserve_once_example =
    reserve_once "pay-1" "f" "lease-a" 100 100 101 [] others "f" "lease-d" created 500 150 150 refl
      (omega arith, tt, (omega arith, tt, (omega arith, refl, tt))) (omega arith)

completed_is_replayed_example :
    let after = run others (complete "pay-1" "lease-a" created 1000 105 105 reserved).1 in
    reserve "pay-1" "f" "lease-d" 500 150 150 after
    ≡ (some (completed "f" "lease-a" created), after)
unfolding reserve complete read lookup insert
completed_is_replayed_example =
    completed_is_replayed "pay-1" "lease-a" created 1000 105 105 reserved (in_flight "f" "lease-a")
      others "f" "lease-d" 500 150 150 refl refl
      (omega arith, tt, (omega arith, tt, (omega arith, refl, tt))) (omega arith)
