-- ===== src/Backoff/Bounds.antt =====
-- What the backoff ladder of src/common/backoff/backoff.ts promises its callers.
use native.Mathlib.Nat.{add-zero, add-suc, le_refl, two-pow-succ}
use boilerplate_nestjs_api.Prelude.{
  ℕ, zero, suc, ◌+◌, ◌-◌, ◌*◌, ◌^◌, ◌≤◌, min, ◌≡◌, ◌↔◌, none, some, arith,
}
use boilerplate_nestjs_api.Backoff.{BackoffPolicy, ceiling, next_attempt_delay_ms, ladder_from}

-- A retry is refused exactly when the attempts are spent.
pub next_attempt_delay_ms-none :
    (attempts : ℕ) (policy : BackoffPolicy) (draw : ℕ → ℕ)
    → (next_attempt_delay_ms attempts policy draw ≡ none) ↔ (policy.max_attempts ≤ attempts)
unfolding next_attempt_delay_ms
next_attempt_delay_ms-none attempts policy draw = ground arith

-- A delay that is granted never passes the policy's ceiling, provided a draw stays within its bound.
pub next_attempt_delay_ms-le :
    (attempts : ℕ) (policy : BackoffPolicy) (draw : ℕ → ℕ) {delay : ℕ}
    → ((c : ℕ) → draw c ≤ c)
    → next_attempt_delay_ms attempts policy draw ≡ some delay
    → (delay ≤ policy.max_ms) × (delay ≤ ceiling attempts policy)
unfolding next_attempt_delay_ms ceiling
next_attempt_delay_ms-le attempts policy draw bounded granted =
    ground (arith, bounded (min policy.max_ms (policy.base_ms * 2 ^ min (attempts - 1) 30)))

two-pow_mono : (a d : ℕ) → 2 ^ a ≤ 2 ^ (a + d)
two-pow_mono a zero = rw add-zero (le_refl _)
two-pow_mono a (suc d) = rw (add-suc, two-pow-succ) (omega (arith, two-pow_mono a d))

two-pow_mono_le : (a b : ℕ) → a ≤ b → 2 ^ a ≤ 2 ^ b
two-pow_mono_le a b h = let e : b ≡ a + (b - a) = omega arith in rw e (two-pow_mono a (b - a))

-- The un-jittered delay never falls from one failure to the next.
pub ceiling_mono : (a b : ℕ) (policy : BackoffPolicy) → a ≤ b → ceiling a policy ≤ ceiling b policy
unfolding ceiling
ceiling_mono a b policy h =
    grind (arith, two-pow_mono_le (min (a - 1) 30) (min (b - 1) 30) (omega arith))

-- The sum that the ladder's bound adds up, over the rounds that are left.
pub ladder_from_step :
    (rounds attempts total : ℕ) (policy : BackoffPolicy)
    → ladder_from rounds attempts policy total ≡ total + ladder_from rounds attempts policy 0
unfolding ladder_from
ladder_from_step zero attempts total policy = omega arith
ladder_from_step (suc rounds) attempts total policy = omega (
  arith,
  ladder_from_step rounds (attempts + 1) (total + ceiling attempts policy) policy,
  ladder_from_step rounds (attempts + 1) (0 + ceiling attempts policy) policy,
)
