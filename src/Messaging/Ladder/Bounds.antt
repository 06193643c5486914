-- ===== src/Messaging/Ladder/Bounds.antt =====
-- The bounds of the retry ladder of src/messaging/retry-ladder.ts.
use boilerplate_nestjs_api.Prelude.{
  ℕ, zero, suc, ◌+◌, ◌-◌, ◌≤◌, ◌<◌, max, ◌≡◌, ◌⊎◌, refl, sym, subst, inl, inr, some, arith,
  Option-cases, Bool-cases,
}
use boilerplate_nestjs_api.Backoff.{
  BackoffPolicy, ceiling, next_attempt_delay_ms, ladder_from, worst_case_ladder_ms,
}
use boilerplate_nestjs_api.Backoff.Bounds.{ladder_from_step}
use boilerplate_nestjs_api.Messaging.Ladder.{
  Attempt, succeeds, fails, interrupted, LadderResult, succeeded, exhausted, aborted, unfinished,
  Surroundings, ladder, run_retry_ladder,
}

module _ {E : Type 0} where
  -- The loop is over, within so many attempts.
  abbrev pub IsOver : ℕ → LadderResult E → Type 0
  IsOver most (succeeded attempts) = attempts ≤ most
  IsOver most (exhausted attempts e) = attempts ≤ most
  IsOver most aborted = Unit {0}
  IsOver most unfinished = ⊥

  abbrev Fits : ℕ → ℕ → LadderResult E × ℕ → Type 0
  Fits most budget result = IsOver most result.0 × (result.1 ≤ budget)

  Attempt-cases : (a : Attempt E) → (a ≡ succeeds) ⊎ ((a ≡ interrupted) ⊎ ((e : E) × a ≡ fails e))
  Attempt-cases succeeds = inl refl
  Attempt-cases interrupted = inr (inl refl)
  Attempt-cases (fails e) = inr (inr (e, refl))

-- The most that is slept from here on.
abbrev left : BackoffPolicy → ℕ → ℕ
left policy attempts = ladder_from (policy.max_attempts - 1 - attempts) (attempts + 1) policy 0

left-suc :
    (policy : BackoffPolicy) (attempts : ℕ)
    → attempts + 1 < policy.max_attempts
    → left policy attempts ≡ ceiling (attempts + 1) policy + left policy (attempts + 1)
left-suc policy attempts more =
    let rounds = policy.max_attempts - 1 - (attempts + 1) in
    let one : policy.max_attempts - 1 - attempts ≡ suc rounds = omega arith in rw one (step rounds)
  where
    step :
        (rounds : ℕ)
        → ladder_from (suc rounds) (attempts + 1) policy 0
          ≡ ceiling (attempts + 1) policy + ladder_from rounds (attempts + 1 + 1) policy 0
    step rounds =
        unfold ladder_from in
        omega (
          arith,
          ladder_from_step rounds (attempts + 1 + 1) (0 + ceiling (attempts + 1) policy) policy,
        )

module _ {E : Type 0} (policy : BackoffPolicy) (around : Surroundings E)
    (fair : (n c : ℕ) → around.draw n c ≤ c) where
  delay-le :
      (attempts : ℕ) (delay : ℕ)
      → next_attempt_delay_ms attempts policy (around.draw attempts) ≡ some delay
      → (delay ≤ ceiling attempts policy) × (attempts < policy.max_attempts)
  unfolding next_attempt_delay_ms
  delay-le attempts delay granted = ground (arith, fair attempts (ceiling attempts policy))

  ladder-bounds :
      (rounds attempts slept : ℕ)
      → policy.max_attempts + 1 ≤ attempts + rounds
      → 0 < rounds
      → attempts < max 1 policy.max_attempts
      → Fits
          (max 1 policy.max_attempts)
          (slept + left policy attempts)
          (ladder policy around rounds attempts slept)
  unfolding ladder
  ladder-bounds zero attempts slept enough some_ few = omega arith
  ladder-bounds (suc rounds) attempts slept enough some_ few =
      let n = attempts + 1 in
      elim (Bool-cases (around.aborted_before n)) [
        | inl stopped ↦ from (aborted, slept) (ground (arith, stopped)) (tt, omega arith)
        | inr runs ↦ elim (Attempt-cases (around.operation n)) [
          | inl good ↦
              from (succeeded n, slept) (ground (arith, runs, good)) (omega arith, omega arith)
          | inr (inl cut) ↦ from (aborted, slept) (ground (arith, runs, cut)) (tt, omega arith)
          | inr (inr (e, bad)) ↦
              elim (Option-cases (next_attempt_delay_ms n policy (around.draw n))) [
                | inl spent ↦
                    from (exhausted n e, slept) (ground (arith, runs, bad, spent))
                      (omega arith, omega arith)
                | inr (delay, granted) ↦
                    let (short, more) = delay-le n delay granted in
                    elim (Bool-cases (around.cut_short n)) [
                      | inl woken ↦
                          from (aborted, slept) (ground (arith, runs, bad, granted, woken))
                            (tt, omega arith)
                      | inr slept_well ↦
                          let (over, bound) =
                            ladder-bounds rounds n (slept + delay) (omega arith) (omega arith)
                              (omega arith) in
                          from (ladder policy around rounds n (slept + delay))
                            (ground (arith, runs, bad, granted, slept_well))
                            (over, omega (arith, bound, short, left-suc policy attempts more))
                    ]
              ]
        ]
      ]
    where
      from :
          (r : LadderResult E × ℕ)
          → ladder policy around (suc rounds) attempts slept ≡ r
          → Fits (max 1 policy.max_attempts) (slept + left policy attempts) r
          → Fits
              (max 1 policy.max_attempts)
              (slept + left policy attempts)
              (ladder policy around (suc rounds) attempts slept)
      from r e fits =
          subst (Fits (max 1 policy.max_attempts) (slept + left policy attempts)) (sym e) fits

  -- Whatever the operation, the signal and the random numbers do, where a draw stays within its bound:
  -- the ladder ends, within the attempts of its policy, or one where it has none, and the time slept in
  -- full is within the worst case of the policy.
  pub run_retry_ladder-bounds :
      IsOver (max 1 policy.max_attempts) (run_retry_ladder policy around).0
      × ((run_retry_ladder policy around).1 ≤ worst_case_ladder_ms policy)
  unfolding run_retry_ladder worst_case_ladder_ms
  run_retry_ladder-bounds =
      let (over, bound) =
        ladder-bounds (policy.max_attempts + 1) 0 0 (omega arith) (omega arith) (omega arith) in
      (over, total bound)
    where
      total :
          (ladder policy around (policy.max_attempts + 1) 0 0).1 ≤ 0 + left policy 0
          → (ladder policy around (policy.max_attempts + 1) 0 0).1
            ≤ ladder_from (policy.max_attempts - 1) 1 policy 0
      total bound = ground (arith, bound)
