-- ===== src/Saga/Call.antt =====
-- src/saga/saga-orchestrator.service.ts: the helpers around one call of a participant. A participant
-- is what the environment answers to a call; the clock and the jitter come with each turn.
use Prim.Native.String.{◌++◌ as str_append}
use boilerplate_nestjs_api.Prelude.{
  ℕ, String, Bool, true, false, ◌&&◌, List, [], ◌∷◌, ◌++◌, Option, none, some, leb, length,
  get_elem?, take, insert, Utf16, utf16, decimal, ℤ, pos, negsuc, if◌then◌else◌,
}
use boilerplate_nestjs_api.Backoff.{BackoffPolicy, next_attempt_at}
use boilerplate_nestjs_api.Saga.Instance.{
  SagaState, SagaStatePatch, SagaDirection, forward, backward, SagaOutcome, SagaStepLogEntry,
  SagaInstanceRecord,
}
use boilerplate_nestjs_api.Saga.Definition.{SagaStep, SagaDefinition}

-- `UnretryableStepError` is told apart from the other errors by its class.
pub record StepError : Type 0 where
  pub unretryable : Bool
  pub message : Utf16

-- A step's promise: its patch, if it returns one, or the error.
pub data CallResult : Type 0 where
  resolved : Option SagaStatePatch → CallResult
  rejected : StepError → CallResult

pub record SagaFailure : Type 0 where
  pub step : String
  pub message : Utf16

pub record SagaStepContext : Type 0 where
  pub saga_id : String
  pub state : SagaState
  pub idempotency_key : String
  pub correlation_id : Option String
  pub failure : Option SagaFailure

-- What the environment does during one iteration: the clock at the step, what the participant's
-- promise had come to when the timer fired (`none`: it was still pending), and the jitter.
pub record Turn : Type 0 where
  pub at : ℕ
  pub answer : SagaStepContext → Option CallResult
  pub draw : ℕ → ℕ

pub record Settings : Type 0 where
  pub lease_ms : ℕ
  pub step_timeout_ms : ℕ
  pub policy : BackoffPolicy

-- `message.slice(0, limit - 1)` and an ellipsis, past the limit of 500.
unfoldable pub truncate : Utf16 → Utf16
truncate message = if leb (length message) 500 then message else take 499 message ++ 0x2026 ∷ []

unfoldable pub entry :
    String → SagaDirection → SagaOutcome → ℕ → ℕ → Option StepError → SagaStepLogEntry
entry step direction outcome attempt at none = record {
  step = step;
  direction = direction;
  outcome = outcome;
  attempt = attempt;
  at = at;
  error = none;
}
entry step direction outcome attempt at (some e) = record {
  step = step;
  direction = direction;
  outcome = outcome;
  attempt = attempt;
  at = at;
  error = some (truncate e.message);
}

unfoldable pub merge_entries : SagaState → SagaStatePatch → SagaState
merge_entries merged [] = merged
merge_entries merged ((key, none) ∷ patch) = merge_entries merged patch
merge_entries merged ((key, some value) ∷ patch) = merge_entries (insert key value merged) patch

unfoldable pub merge_state : SagaState → Option SagaStatePatch → SagaState
unfolding merge_entries
merge_state state none = state
merge_state state (some patch) = merge_entries state patch

-- `SagaStepTimeoutError` where the timer wins the race.
unfoldable pub call : String → ℕ → Option CallResult → CallResult
call step timeout_ms none = rejected (record {
  unretryable = false;
  message =
      utf16 (str_append (str_append "Step \"" step) "\" did not settle within ")
      ++ decimal timeout_ms
      ++ utf16 "ms.";
})
call step timeout_ms (some result) = result

-- When the step may next be tried, or `none` to stop trying.
unfoldable pub retry_at : Settings → ℕ → ℕ → StepError → (ℕ → ℕ) → Option ℕ
retry_at settings now attempt e draw =
    if e.unretryable then none else next_attempt_at now attempt settings.policy draw

unfoldable pub context : SagaInstanceRecord → SagaStep → Option SagaFailure → SagaStepContext
context r step failure = record {
  saga_id = r.id;
  state = r.state;
  idempotency_key = str_append (str_append r.id ":") step.name;
  correlation_id = r.correlation_id;
  failure = failure;
}

abbrev pub is_forward : SagaDirection → Bool
is_forward forward = true
is_forward backward = false

abbrev pub is_completed : SagaOutcome → Bool
is_completed SagaOutcome.completed = true
is_completed _ = false

abbrev pub is_failed : SagaOutcome → Bool
is_failed SagaOutcome.failed = true
is_failed _ = false

-- The forward failure that was logged last.
unfoldable pub last_failure : List SagaStepLogEntry → Option SagaStepLogEntry
last_failure [] = none
last_failure (item ∷ log) = elim (last_failure log) [
  | some later ↦ some later
  | none ↦ if is_forward item.direction && is_failed item.outcome then some item else none
]

abbrev pub or_else : Option Utf16 → Utf16 → Utf16
or_else none message = message
or_else (some message) _ = message

-- `definition.steps[cursor]`
unfoldable pub step_at : List SagaStep → ℤ → Option SagaStep
step_at steps (pos n) = get_elem? steps n
step_at steps (negsuc n) = none

unfoldable pub name_or_unknown : Option SagaStep → String
name_or_unknown none = "unknown"
name_or_unknown (some step) = step.name

unfoldable pub failure_from : SagaDefinition → SagaInstanceRecord → SagaFailure
unfolding last_failure name_or_unknown step_at
failure_from definition r = elim (last_failure r.log) [
  | some item ↦ record {
    step = item.step;
    message = or_else item.error (or_else r.last_error (utf16 "unknown failure"));
  }
  | none ↦ record {
    step = name_or_unknown (step_at definition.steps r.cursor);
    message = or_else r.last_error (utf16 "unknown failure");
  }
]
