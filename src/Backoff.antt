-- ===== src/Backoff.antt =====
-- src/common/backoff/backoff.ts: full-jitter exponential backoff.
-- Times and delays are whole milliseconds. `draw c` stands for `Math.floor(random() * c)`, with
-- `random` the caller's; the callers count the failure first, so `attempts` is at least 1.
pub mod Bounds
use boilerplate_nestjs_api.Prelude.{
  ℕ, zero, suc, ◌+◌, ◌-◌, ◌*◌, ◌^◌, min, Option, none, some, leb, if◌then◌else◌,
}

pub record BackoffPolicy : Type 0 where
  pub base_ms : ℕ
  pub max_ms : ℕ
  pub max_attempts : ℕ

-- The delay after the given number of failures, before jitter.
unfoldable pub ceiling : ℕ → BackoffPolicy → ℕ
ceiling attempts policy = min policy.max_ms (policy.base_ms * 2 ^ min (attempts - 1) 30)

unfoldable pub next_attempt_delay_ms : ℕ → BackoffPolicy → (ℕ → ℕ) → Option ℕ
next_attempt_delay_ms attempts policy draw =
    if leb policy.max_attempts attempts then none else some (draw (ceiling attempts policy))

-- The loop from `attempts` on, with `rounds` rounds left.
unfoldable pub ladder_from : ℕ → ℕ → BackoffPolicy → ℕ → ℕ
ladder_from zero attempts policy total = total
ladder_from (suc rounds) attempts policy total =
    ladder_from rounds (attempts + 1) policy (total + ceiling attempts policy)

-- `attempts` runs from 1 while it is below `maxAttempts`: `maxAttempts - 1` rounds, or none.
unfoldable pub worst_case_ladder_ms : BackoffPolicy → ℕ
unfolding ladder_from
worst_case_ladder_ms policy = ladder_from (policy.max_attempts - 1) 1 policy 0

unfoldable pub next_attempt_at : ℕ → ℕ → BackoffPolicy → (ℕ → ℕ) → Option ℕ
next_attempt_at now attempts policy draw = elim (next_attempt_delay_ms attempts policy draw) [
  | none ↦ none
  | some delay ↦ some (now + delay)
]
