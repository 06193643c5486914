-- ===== src/Saga/Step/Moves.antt =====
-- The six things that one step of src/saga/saga-orchestrator.service.ts can do to an instance.
use boilerplate_nestjs_api.Prelude.{
  ℕ, ◌+◌, ◌≡◌, ◌≢◌, refl, ◌⊎◌, inl, inr, false, Option, none, some, arith, length, sym, subst,
  Option-cases, Bool-cases,
}
use boilerplate_nestjs_api.Prelude.Int.{succ, pred, is_negative}
use boilerplate_nestjs_api.Saga.Instance.{
  SagaStatus, is_terminal, SagaStatePatch, forward, backward, SagaOutcome, SagaInstanceRecord,
  SagaProgress,
}
use boilerplate_nestjs_api.Saga.Definition.{
  SagaStepKind, compensatable, pivot, retriable, SagaStep, SagaDefinition,
}
use boilerplate_nestjs_api.Saga.Call.{
  StepError, CallResult, resolved, rejected, Turn, Settings, entry, call, retry_at, context,
  failure_from,
}
use boilerplate_nestjs_api.Saga.Step.{
  reaches, finished_or_running, undone_or_compensating, is_compensating, execute_failed,
  execute_step, stepped_back, undo, compensate_failed, compensate_step, run_step,
}

-- What a step at `s` leaves of an instance of a saga with this many steps.
pub data Move (steps : ℕ) (r : SagaInstanceRecord) (s : SagaStep) (p : SagaProgress) : Type 0 where
  advance :
      r.status ≡ SagaStatus.running
      → p.status ≡ finished_or_running (reaches (succ r.cursor) steps)
      → p.cursor ≡ succ r.cursor
      → p.entry.direction ≡ forward
      → p.entry.outcome ≡ SagaOutcome.completed
      → p.entry.step ≡ s.name
      → Move steps r s p
  wait :
      p.status ≡ r.status
      → p.cursor ≡ r.cursor
      → p.entry.outcome ≡ SagaOutcome.failed
      → Move steps r s p
  turn_round :
      r.status ≡ SagaStatus.running
      → s.kind ≢ retriable
      → p.status ≡ SagaStatus.compensating
      → p.cursor ≡ r.cursor
      → p.entry.outcome ≡ SagaOutcome.failed
      → Move steps r s p
  go_back :
      r.status ≡ SagaStatus.compensating
      → p.status ≡ undone_or_compensating (is_negative (pred r.cursor))
      → p.cursor ≡ pred r.cursor
      → p.entry.direction ≡ backward
      → p.entry.outcome ≢ SagaOutcome.failed
      → p.entry.step ≡ s.name
      → Move steps r s p
  stick_ahead :
      r.status ≡ SagaStatus.running
      → s.kind ≡ retriable
      → p.status ≡ SagaStatus.stuck
      → p.cursor ≡ r.cursor
      → p.entry.direction ≡ forward
      → p.entry.outcome ≡ SagaOutcome.failed
      → p.entry.step ≡ s.name
      → Move steps r s p
  stick_back :
      r.status ≡ SagaStatus.compensating
      → s.kind ≡ compensatable
      → p.status ≡ SagaStatus.stuck
      → p.cursor ≡ r.cursor
      → p.entry.direction ≡ backward
      → p.entry.outcome ≡ SagaOutcome.failed
      → p.entry.step ≡ s.name
      → Move steps r s p

pub CallResult-cases :
    (c : CallResult)
    → ((patch : Option SagaStatePatch) × (c ≡ resolved patch))
      ⊎ ((e : StepError) × (c ≡ rejected e))
CallResult-cases (resolved patch) = inl (patch, refl)
CallResult-cases (rejected e) = inr (e, refl)

Kind-cases : (k : SagaStepKind) → (k ≡ retriable) ⊎ (k ≢ retriable)
Kind-cases retriable = inl refl
Kind-cases compensatable = inr (λ e. cc)
Kind-cases pivot = inr (λ e. cc)

module _ (settings : Settings) (turn : Turn) (definition : SagaDefinition) (r : SagaInstanceRecord)
    (s : SagaStep) where
  execute_failed-Move :
      (e : StepError)
      → r.status ≡ SagaStatus.running
      → Move (length definition.steps) r s (execute_failed settings turn r s e)
  unfolding execute_failed entry
  execute_failed-Move e live =
      elim (Option-cases (retry_at settings turn.at (r.attempts + 1) e turn.draw)) [
        | inr (later, again) ↦ rw (again, execute_failed) (wait (ground (arith, live)) refl refl)
        | inl spent ↦ elim (Kind-cases s.kind) [
          | inl past ↦
              stick_ahead live past (ground (arith, spent, past)) (ground (arith, spent, past))
                (ground (arith, spent, past)) (ground (arith, spent, past))
                (ground (arith, spent, past))
          | inr before ↦
              turn_round live before (ground (arith, spent, before)) (ground (arith, spent, before))
                (ground (arith, spent, before))
        ]
      ]

  execute_step-Move :
      r.status ≡ SagaStatus.running
      → Move (length definition.steps) r s (execute_step settings turn definition r s)
  unfolding execute_step entry
  execute_step-Move live =
      elim (CallResult-cases
        (call s.name settings.step_timeout_ms (turn.answer (context r s none)))) [
          | inl (patch, done) ↦
              advance live (ground (arith, done)) (ground (arith, done)) (ground (arith, done))
                (ground (arith, done)) (ground (arith, done))
          | inr (e, failed) ↦ rw (failed, execute_step) (execute_failed-Move e live)
        ]

  stepped_back-Move :
      (outcome : SagaOutcome)
      → outcome ≢ SagaOutcome.failed
      → r.status ≡ SagaStatus.compensating
      → Move (length definition.steps) r s (stepped_back turn r s outcome)
  unfolding stepped_back entry
  stepped_back-Move outcome sound live = go_back live refl refl refl sound refl

  compensate_failed-Move :
      (e : StepError)
      → s.kind ≡ compensatable
      → r.status ≡ SagaStatus.compensating
      → Move (length definition.steps) r s (compensate_failed settings turn r s e)
  unfolding compensate_failed entry
  compensate_failed-Move e kind live =
      elim (Option-cases (retry_at settings turn.at (r.attempts + 1) e turn.draw)) [
        | inr (later, again) ↦ rw (again, compensate_failed) (wait (ground (arith, live)) refl refl)
        | inl spent ↦ rw (spent, compensate_failed) (stick_back live kind refl refl refl refl refl)
      ]

  undo-Move :
      s.kind ≡ compensatable
      → r.status ≡ SagaStatus.compensating
      → Move (length definition.steps) r s (undo settings turn definition r s)
  unfolding undo
  undo-Move kind live =
      elim (CallResult-cases (
        call s.name settings.step_timeout_ms
          (turn.answer (context r s (some (failure_from definition r)))))) [
            | inl (patch, done) ↦
                rw (done, undo) (stepped_back-Move SagaOutcome.completed (λ e. cc) live)
            | inr (e, failed) ↦ rw (failed, undo) (compensate_failed-Move e kind live)
          ]

  skip :
      compensate_step settings turn definition r s ≡ stepped_back turn r s SagaOutcome.skipped
      → r.status ≡ SagaStatus.compensating
      → Move (length definition.steps) r s (compensate_step settings turn definition r s)
  skip same live =
      subst (Move (length definition.steps) r s) (sym same)
        (stepped_back-Move SagaOutcome.skipped (λ e. cc) live)

  compensate_kind :
      (k : SagaStepKind)
      → s.kind ≡ k
      → r.status ≡ SagaStatus.compensating
      → Move (length definition.steps) r s (compensate_step settings turn definition r s)
  unfolding compensate_step
  compensate_kind compensatable e live =
      let same : compensate_step settings turn definition r s ≡ undo settings turn definition r s =
        cc in
      subst (Move (length definition.steps) r s) (sym same) (undo-Move e live)
  compensate_kind pivot e live = skip (cc) live
  compensate_kind retriable e live = skip (cc) live

  -- A step of an instance that is still live does one of the six.
  pub run_step-Move :
      is_terminal r.status ≡ false
      → Move (length definition.steps) r s (run_step settings turn definition r s)
  unfolding run_step is_terminal
  run_step-Move live = elim (Bool-cases (is_compensating r.status)) [
    | inl back ↦ rw back (compensate_kind s.kind refl (ground arith))
    | inr ahead ↦ rw ahead (execute_step-Move (ground arith))
  ]
