-- ===== src/Bulkhead/Tests.antt =====
-- A bulkhead of one permit and one place in the queue.
use boilerplate_nestjs_api.Prelude.{◌≡◌, refl, true, List, [], ◌∷◌, pos}
use boilerplate_nestjs_api.Bulkhead.{
  Bulkhead, BulkheadPolicy, Event, acquires, admitted, nothing, new, timer_fires, holds,
  release_permit, apply, run,
}
use boilerplate_nestjs_api.Bulkhead.Invariant.{Inv, run-Inv}
use boilerplate_nestjs_api.Bulkhead.Permits.{release_hands_over}

abbrev policy : BulkheadPolicy
policy = record { max_concurrent = 1; max_queued = 1; max_queue_wait_ms = 50 }

abbrev empty : Bulkhead
empty = record {
  policy = policy;
  in_flight = 0;
  waiting = [];
  queue_full_rejections = 0;
  queue_timeout_rejections = 0;
  open_permits = [];
  calls = 0;
}

-- The first call is admitted, the second waits, the third is turned away.
abbrev burst : List Event
burst = acquires (pos 50) 1 ∷ acquires (pos 50) 2 ∷ acquires (pos 50) 3 ∷ []

abbrev full : Bulkhead
full = record {
  policy = policy;
  in_flight = 1;
  waiting = record { call = 1; queued_at = 2 } ∷ [];
  queue_full_rejections = 1;
  queue_timeout_rejections = 0;
  open_permits = 0 ∷ [];
  calls = 3;
}

burst_fills : run burst empty ≡ full
unfolding run apply
burst_fills = refl

run-Inv_example : Inv (run burst empty)
unfolding new
run-Inv_example = run-Inv policy burst empty refl

full-Inv : Inv full
unfolding run new apply
full-Inv = run-Inv policy burst empty refl

release_hands_over_example :
    let (answer, b) = release_permit 0 full in
    (answer ≡ admitted 1)
    × (b.waiting ≡ [])
    × (b.in_flight ≡ 1)
    × (holds 1 b.open_permits ≡ true)
    × (timer_fires 1 60 b ≡ (nothing, b))
unfolding holds
release_hands_over_example =
    release_hands_over 0 60 full (record { call = 1; queued_at = 2 }) [] full-Inv refl refl
