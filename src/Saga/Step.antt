-- ===== src/Saga/Step.antt =====
-- src/saga/saga-orchestrator.service.ts: the one thing that a saga does next.
pub mod Invariant
pub mod Moves
pub mod History
pub mod Rollback
pub mod Resumes
pub mod Attempts
use Prim.Native.String.{◌++◌ as str_append}
use boilerplate_nestjs_api.Prelude.{
  ℕ, zero, suc, ◌+◌, String, Bool, true, false, ◌&&◌, List, [], ◌∷◌, ◌++◌, Option, none, some,
  str_eq, leb, length, select, Utf16, utf16, decimal, ℤ, pos, negsuc, if◌then◌else◌,
}
use boilerplate_nestjs_api.Prelude.Int.{succ, pred, is_negative}
use boilerplate_nestjs_api.Saga.Instance.{
  SagaState, SagaStatus, forward, backward, SagaOutcome, SagaStepLogEntry, SagaInstanceRecord,
  SagaProgress,
}
use boilerplate_nestjs_api.Saga.Definition.{
  SagaStepKind, compensatable, pivot, retriable, SagaStep, SagaDefinition,
}
use boilerplate_nestjs_api.Saga.Call.{
  StepError, CallResult, resolved, rejected, Turn, Settings, truncate, entry, merge_state, call,
  retry_at, context, is_forward, is_completed, failure_from, step_at,
}

-- `>=` against a length, which is never negative.
abbrev pub reaches : ℤ → ℕ → Bool
reaches (pos n) length = leb length n
reaches (negsuc n) length = false

abbrev pub finished_or_running : Bool → SagaStatus
finished_or_running true = SagaStatus.completed
finished_or_running false = SagaStatus.running

abbrev pub undone_or_compensating : Bool → SagaStatus
undone_or_compensating true = SagaStatus.compensated
undone_or_compensating false = SagaStatus.compensating

-- The `catch` of `executeStep`: out of attempts, or an error that repeating will not mend.
give_up_forward : SagaInstanceRecord → SagaStep → ℕ → StepError → SagaProgress
give_up_forward r step now e = elim step.kind [
  | retriable ↦ record {
    status = SagaStatus.stuck;
    cursor = r.cursor;
    attempts = r.attempts + 1;
    next_attempt_at = now;
    state = r.state;
    entry = entry step.name forward SagaOutcome.failed (r.attempts + 1) now (some e);
    last_error = some (truncate e.message);
    release = true;
  }
  | _ ↦ record {
    status = SagaStatus.compensating;
    cursor = r.cursor;
    attempts = 0;
    next_attempt_at = now;
    state = r.state;
    entry = entry step.name forward SagaOutcome.failed (r.attempts + 1) now (some e);
    last_error = some (truncate e.message);
    release = false;
  }
]

execute_failed : Settings → Turn → SagaInstanceRecord → SagaStep → StepError → SagaProgress
unfolding give_up_forward
execute_failed settings turn r step e =
    elim (retry_at settings turn.at (r.attempts + 1) e turn.draw) [
      | some retry ↦ record {
        status = SagaStatus.running;
        cursor = r.cursor;
        attempts = r.attempts + 1;
        next_attempt_at = retry;
        state = r.state;
        entry = entry step.name forward SagaOutcome.failed (r.attempts + 1) turn.at (some e);
        last_error = some (truncate e.message);
        release = true;
      }
      | none ↦ give_up_forward r step turn.at e
    ]

execute_step : Settings → Turn → SagaDefinition → SagaInstanceRecord → SagaStep → SagaProgress
unfolding execute_failed
execute_step settings turn definition r step =
    elim (call step.name settings.step_timeout_ms (turn.answer (context r step none))) [
      | resolved patch ↦
          let done = reaches (succ r.cursor) (length definition.steps) in
          record {
            status = finished_or_running done;
            cursor = succ r.cursor;
            attempts = 0;
            next_attempt_at = turn.at;
            state = merge_state r.state patch;
            entry = entry step.name forward SagaOutcome.completed (r.attempts + 1) turn.at none;
            last_error = r.last_error;
            release = done;
          }
      | rejected e ↦ execute_failed settings turn r step e
    ]

-- A step undone, or skipped where there is nothing to undo: the cursor moves back by one.
stepped_back : Turn → SagaInstanceRecord → SagaStep → SagaOutcome → SagaProgress
stepped_back turn r step outcome = record {
  status = undone_or_compensating (is_negative (pred r.cursor));
  cursor = pred r.cursor;
  attempts = 0;
  next_attempt_at = turn.at;
  state = r.state;
  entry = entry step.name backward outcome (r.attempts + 1) turn.at none;
  last_error = r.last_error;
  release = is_negative (pred r.cursor);
}

compensate_failed : Settings → Turn → SagaInstanceRecord → SagaStep → StepError → SagaProgress
compensate_failed settings turn r step e =
    elim (retry_at settings turn.at (r.attempts + 1) e turn.draw) [
      | some retry ↦ record {
        status = SagaStatus.compensating;
        cursor = r.cursor;
        attempts = r.attempts + 1;
        next_attempt_at = retry;
        state = r.state;
        entry = entry step.name backward SagaOutcome.failed (r.attempts + 1) turn.at (some e);
        last_error = r.last_error;
        release = true;
      }
      | none ↦ record {
        status = SagaStatus.stuck;
        cursor = r.cursor;
        attempts = r.attempts + 1;
        next_attempt_at = turn.at;
        state = r.state;
        entry = entry step.name backward SagaOutcome.failed (r.attempts + 1) turn.at (some e);
        last_error = some (truncate e.message);
        release = true;
      }
    ]

undo : Settings → Turn → SagaDefinition → SagaInstanceRecord → SagaStep → SagaProgress
unfolding stepped_back compensate_failed
undo settings turn definition r step =
    elim (call step.name settings.step_timeout_ms
      (turn.answer (context r step (some (failure_from definition r))))) [
        | resolved _ ↦ stepped_back turn r step SagaOutcome.completed
        | rejected e ↦ compensate_failed settings turn r step e
      ]

compensate_step : Settings → Turn → SagaDefinition → SagaInstanceRecord → SagaStep → SagaProgress
unfolding undo
compensate_step settings turn definition r step = elim step.kind [
  | compensatable ↦ undo settings turn definition r step
  | _ ↦ stepped_back turn r step SagaOutcome.skipped
]

-- Why an instance cannot be resumed.
pub data SagaResumeError : Type 0 where
  moved : String → ℕ → SagaDefinition → Option SagaStep → SagaResumeError
  outside : ℤ → SagaDefinition → SagaResumeError

pub data StepResult : Type 0 where
  progressed : SagaProgress → StepResult
  unresumable : SagaResumeError → StepResult

abbrev pub completed_forward : List SagaStepLogEntry → List SagaStepLogEntry
completed_forward = select (λ item. is_forward item.direction && is_completed item.outcome)

abbrev pub is_named : Option SagaStep → String → Bool
is_named none name = false
is_named (some step) name = str_eq step.name name

-- The loop of `assertResumable`, from `index` on.
first_moved : SagaDefinition → ℕ → List SagaStepLogEntry → Option SagaResumeError
first_moved definition index [] = none
first_moved definition index (item ∷ completed) =
    let rest = first_moved definition (suc index) completed in
    let expected = step_at definition.steps (pos index) in
    if is_named expected item.step then rest else some (moved item.step index definition expected)

unfoldable pub assert_resumable : SagaDefinition → SagaInstanceRecord → Option SagaResumeError
unfolding first_moved
assert_resumable definition r = first_moved definition 0 (completed_forward r.log)

abbrev pub is_compensating : SagaStatus → Bool
is_compensating SagaStatus.compensating = true
is_compensating _ = false

-- The step at the cursor, in the direction that the saga is going.
unfoldable pub run_step :
    Settings → Turn → SagaDefinition → SagaInstanceRecord → SagaStep → SagaProgress
unfolding execute_step compensate_step
run_step settings turn definition r step =
    if is_compensating r.status
    then compensate_step settings turn definition r step
    else execute_step settings turn definition r step

unfoldable pub step : Settings → Turn → SagaDefinition → SagaInstanceRecord → StepResult
step settings turn definition r = elim (assert_resumable definition r) [
  | some problem ↦ unresumable problem
  | none ↦ elim (step_at definition.steps r.cursor) [
    | none ↦ unresumable (outside r.cursor definition)
    | some at_cursor ↦ progressed (run_step settings turn definition r at_cursor)
  ]
]
