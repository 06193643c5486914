-- ===== src/Messaging/Ladder.antt =====
-- src/messaging/retry-ladder.ts: attempts in place, with a sleep between them. What the operation, the
-- signal and the random numbers do at the attempt of a number is an argument.
pub mod Bounds
mod Tests
use boilerplate_nestjs_api.Prelude.{ℕ, zero, suc, ◌+◌, Bool, true, false, Option, none, some}
use boilerplate_nestjs_api.Backoff.{BackoffPolicy, next_attempt_delay_ms}

-- What the operation does: `interrupted` is a `LadderAbortedError` of its own.
pub data Attempt (E : Type 0) : Type 0 where
  succeeds : Attempt E
  fails : E → Attempt E
  interrupted : Attempt E

-- `aborted` is the error thrown; `unfinished` is a loop that is not over.
pub data LadderResult (E : Type 0) : Type 0 where
  succeeded : (attempts : ℕ) → LadderResult E
  exhausted : (attempts : ℕ) → E → LadderResult E
  aborted : LadderResult E
  unfinished : LadderResult E

pub record Surroundings (E : Type 0) : Type 0 where
  pub aborted_before : ℕ → Bool
  pub operation : ℕ → Attempt E
  pub draw : ℕ → ℕ → ℕ
  pub cut_short : ℕ → Bool

module _ {E : Type 0} (policy : BackoffPolicy) (around : Surroundings E) where
  -- The loop after some attempts, with what was slept in full so far.
  unfoldable pub ladder : ℕ → ℕ → ℕ → LadderResult E × ℕ
  ladder zero attempts slept = (unfinished, slept)
  ladder (suc rounds) attempts slept = elim (around.aborted_before (attempts + 1)) [
    | true ↦ (aborted, slept)
    | false ↦ elim (around.operation (attempts + 1)) [
      | succeeds ↦ (succeeded (attempts + 1), slept)
      | interrupted ↦ (aborted, slept)
      | fails e ↦ elim (next_attempt_delay_ms (attempts + 1) policy (around.draw (attempts + 1))) [
        | none ↦ (exhausted (attempts + 1) e, slept)
        | some delay ↦ elim (around.cut_short (attempts + 1)) [
          | true ↦ (aborted, slept)
          | false ↦ ladder rounds (attempts + 1) (slept + delay)
        ]
      ]
    ]
  ]

  -- One round more than the policy has attempts.
  unfoldable pub run_retry_ladder : LadderResult E × ℕ
  unfolding ladder
  run_retry_ladder = ladder (policy.max_attempts + 1) 0 0
