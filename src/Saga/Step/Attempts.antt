-- ===== src/Saga/Step/Attempts.antt =====
-- The retry ladder of one step in src/saga/saga-orchestrator.service.ts.
use boilerplate_nestjs_api.Prelude.{
  ℕ, ◌+◌, ◌≤◌, ◌<◌, ◌≡◌, true, false, none, some, arith, sym, subst, inl, inr, Option-cases,
  Bool-cases,
}
use boilerplate_nestjs_api.Backoff.{next_attempt_at, next_attempt_delay_ms, ceiling}
use boilerplate_nestjs_api.Saga.Instance.{SagaStatus, SagaInstanceRecord, SagaProgress, is_terminal}
use boilerplate_nestjs_api.Saga.Definition.{SagaStep, SagaDefinition, is_compensatable}
use boilerplate_nestjs_api.Saga.Call.{
  StepError, Turn, Settings, retry_at, call, context, failure_from,
}
use boilerplate_nestjs_api.Saga.Step.{
  progressed, step, run_step, execute_failed, execute_step, compensate_failed, compensate_step,
  undo, stepped_back, is_compensating,
}
use boilerplate_nestjs_api.Saga.Step.Moves.{CallResult-cases}
use boilerplate_nestjs_api.Saga.Step.Invariant.{step-progressed}

-- A retry is granted only for an error that may be retried and with attempts left, and never later
-- than the policy's longest delay.
pub retry_at-some :
    (settings : Settings) (now attempt : ℕ) (e : StepError) (draw : ℕ → ℕ) {at : ℕ}
    → ((c : ℕ) → draw c ≤ c)
    → retry_at settings now attempt e draw ≡ some at
    → (e.unretryable ≡ false)
      × (attempt < settings.policy.max_attempts)
      × (now ≤ at)
      × (at ≤ now + settings.policy.max_ms)
unfolding retry_at next_attempt_at next_attempt_delay_ms ceiling
retry_at-some settings now attempt e draw bounded granted =
    ground (arith, bounded (ceiling attempt settings.policy))

-- A progress that schedules a retry: the instance stays where it is, one attempt is used up, some
-- are left, and the retry is due within the policy's longest delay.
pub record Waits (settings : Settings) (turn : Turn) (r : SagaInstanceRecord) (p : SagaProgress)
    : Type 0 where
  pub stays : p.cursor ≡ r.cursor
  pub keeps : p.state ≡ r.state
  pub same_way : p.status ≡ r.status
  pub counted : p.attempts ≡ r.attempts + 1
  pub left : p.attempts < settings.policy.max_attempts
  pub not_before : turn.at ≤ p.next_attempt_at
  pub in_time : p.next_attempt_at ≤ turn.at + settings.policy.max_ms

-- The progress of an error: it waits, or it has another status or keeps the lease.
abbrev Schedules : SagaProgress → Type 0
Schedules p = (p.release ≡ true) × (is_terminal p.status ≡ false)

module _ (settings : Settings) (turn : Turn) (bounded : (c : ℕ) → turn.draw c ≤ c)
    (definition : SagaDefinition) (r : SagaInstanceRecord) (s : SagaStep) where
  execute_failed-Waits :
      (e : StepError)
      → r.status ≡ SagaStatus.running
      → Schedules (execute_failed settings turn r s e)
      → Waits settings turn r (execute_failed settings turn r s e)
  unfolding execute_failed is_terminal
  execute_failed-Waits e live h =
      elim (Option-cases (retry_at settings turn.at (r.attempts + 1) e turn.draw)) [
        | inl spent ↦ absurd (ground (arith, spent))
        | inr (at, again) ↦
            let facts = retry_at-some settings turn.at (r.attempts + 1) e turn.draw bounded again in
            ground (arith, again, facts)
      ]

  compensate_failed-Waits :
      (e : StepError)
      → r.status ≡ SagaStatus.compensating
      → Schedules (compensate_failed settings turn r s e)
      → Waits settings turn r (compensate_failed settings turn r s e)
  unfolding compensate_failed is_terminal
  compensate_failed-Waits e live h =
      elim (Option-cases (retry_at settings turn.at (r.attempts + 1) e turn.draw)) [
        | inl spent ↦ absurd (ground (arith, spent))
        | inr (at, again) ↦
            let facts = retry_at-some settings turn.at (r.attempts + 1) e turn.draw bounded again in
            ground (arith, again, facts)
      ]

  execute_step-Waits :
      r.status ≡ SagaStatus.running
      → Schedules (execute_step settings turn definition r s)
      → Waits settings turn r (execute_step settings turn definition r s)
  unfolding execute_step is_terminal
  execute_step-Waits live h =
      elim (CallResult-cases
        (call s.name settings.step_timeout_ms (turn.answer (context r s none)))) [
          | inl (patch, done) ↦ absurd (ground (arith, done))
          | inr (e, failed) ↦
              let same : execute_step settings turn definition r s
                  ≡ execute_failed settings turn r s e =
                ground (arith, failed) in
              subst (Waits settings turn r) (sym same)
                (execute_failed-Waits e live (subst Schedules same h))
        ]

  undo-Waits :
      r.status ≡ SagaStatus.compensating
      → Schedules (undo settings turn definition r s)
      → Waits settings turn r (undo settings turn definition r s)
  unfolding undo stepped_back is_terminal
  undo-Waits live h =
      elim (CallResult-cases (
        call s.name settings.step_timeout_ms
          (turn.answer (context r s (some (failure_from definition r)))))) [
            | inl (patch, done) ↦ absurd (ground (arith, done))
            | inr (e, failed) ↦
                let same : undo settings turn definition r s
                    ≡ compensate_failed settings turn r s e =
                  ground (arith, failed) in
                subst (Waits settings turn r) (sym same)
                  (compensate_failed-Waits e live (subst Schedules same h))
          ]

  compensate_step-Waits :
      r.status ≡ SagaStatus.compensating
      → Schedules (compensate_step settings turn definition r s)
      → Waits settings turn r (compensate_step settings turn definition r s)
  unfolding compensate_step stepped_back is_terminal
  compensate_step-Waits live h = elim (Bool-cases (is_compensatable s.kind)) [
    | inl can ↦
        let same : compensate_step settings turn definition r s
            ≡ undo settings turn definition r s =
          ground (arith, can) in
        subst (Waits settings turn r) (sym same) (undo-Waits live (subst Schedules same h))
    | inr skipped ↦ absurd (ground (arith, skipped))
  ]

  run_step-Waits :
      is_terminal r.status ≡ false
      → Schedules (run_step settings turn definition r s)
      → Waits settings turn r (run_step settings turn definition r s)
  unfolding run_step is_terminal
  run_step-Waits live h = elim (Bool-cases (is_compensating r.status)) [
    | inl back ↦
        let same : run_step settings turn definition r s
            ≡ compensate_step settings turn definition r s =
          ground (arith, back) in
        subst (Waits settings turn r) (sym same)
          (compensate_step-Waits (ground arith) (subst Schedules same h))
    | inr ahead ↦
        let same : run_step settings turn definition r s
            ≡ execute_step settings turn definition r s =
          ground (arith, ahead) in
        subst (Waits settings turn r) (sym same)
          (execute_step-Waits (ground arith) (subst Schedules same h))
  ]

-- A step of a live instance that gives its lease back without settling has scheduled a retry: cursor,
-- state and direction stay, one more attempt is counted and some are left, and the retry is due
-- between the time of the step and the policy's longest delay after it.
pub step-Waits :
    (settings : Settings) (turn : Turn) (definition : SagaDefinition) (r : SagaInstanceRecord)
    (p : SagaProgress)
    → ((c : ℕ) → turn.draw c ≤ c)
    → is_terminal r.status ≡ false
    → step settings turn definition r ≡ progressed p
    → (p.release ≡ true) × (is_terminal p.status ≡ false)
    → Waits settings turn r p
step-Waits settings turn definition r p bounded live moved h =
    let (n, s, _, _, _, same) = step-progressed settings turn definition r p moved in
    subst (Waits settings turn r) (sym same)
      (run_step-Waits settings turn bounded definition r s live (subst Schedules same h))
