-- ===== src/Messaging/Ladder/Tests.antt =====
-- The ladder of src/messaging/retry-ladder.ts at a concrete run.
use boilerplate_nestjs_api.Prelude.{◌≤◌, ◌≡◌, max, refl, String, false, arith}
use boilerplate_nestjs_api.Backoff.{
  BackoffPolicy, ceiling, next_attempt_delay_ms, worst_case_ladder_ms,
}
use boilerplate_nestjs_api.Messaging.Ladder.{
  fails, exhausted, Surroundings, ladder, run_retry_ladder,
}
use boilerplate_nestjs_api.Messaging.Ladder.Bounds.{IsOver, run_retry_ladder-bounds}

abbrev policy : BackoffPolicy
policy = record { base_ms = 100; max_ms = 250; max_attempts = 4 }

-- Every attempt fails, and every draw is the longest.
abbrev failing : Surroundings String
failing = record {
  aborted_before = λ n. false;
  operation = λ n. fails "down";
  draw = λ n c. c;
  cut_short = λ n. false;
}

failing_run : run_retry_ladder policy failing ≡ (exhausted 4 "down", 550)
unfolding run_retry_ladder ladder next_attempt_delay_ms ceiling
failing_run = refl

run_retry_ladder-bounds_example :
    IsOver (max 1 4) (run_retry_ladder policy failing).0
    × ((run_retry_ladder policy failing).1 ≤ worst_case_ladder_ms policy)
run_retry_ladder-bounds_example = run_retry_ladder-bounds policy failing (λ n c. omega arith)
