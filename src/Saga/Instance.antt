-- ===== src/Saga/Instance.antt =====
-- src/saga/saga-instance.ts, src/saga/saga-state.ts and src/saga/ports/saga-store.port.ts: one
-- persisted saga, and what a runner writes back after a step. Times are milliseconds.
use boilerplate_nestjs_api.Prelude.{ℕ, String, Bool, true, false, List, Option, Dict, Utf16, ℤ}

-- A number is kept as the text that JSON has for it: nothing here computes with one.
mutual
  pub data JsonValue : Type 0 where
    null : JsonValue
    boolean : Bool → JsonValue
    number : String → JsonValue
    text : String → JsonValue
    array : JsonItems → JsonValue
    object : JsonFields → JsonValue

  pub data JsonItems : Type 0 where
    nil : JsonItems
    cons : JsonValue → JsonItems → JsonItems

  pub data JsonFields : Type 0 where
    end : JsonFields
    field : String → JsonValue → JsonFields → JsonFields

abbrev pub SagaState : Type 0
SagaState = Dict JsonValue

-- A patch may set a key to `undefined`, which is `none`.
abbrev pub SagaStatePatch : Type 0
SagaStatePatch = List (String × Option JsonValue)

pub data SagaStatus : Type 0 where
  running compensating completed compensated stuck : SagaStatus

unfoldable pub is_terminal : SagaStatus → Bool
is_terminal SagaStatus.completed = true
is_terminal SagaStatus.compensated = true
is_terminal SagaStatus.stuck = true
is_terminal _ = false

pub data SagaDirection : Type 0 where
  forward backward : SagaDirection

pub data SagaOutcome : Type 0 where
  completed failed skipped : SagaOutcome

pub record SagaStepLogEntry : Type 0 where
  pub step : String
  pub direction : SagaDirection
  pub outcome : SagaOutcome
  pub at : ℕ
  pub attempt : ℕ
  pub error : Option Utf16

pub record NewSagaInstance : Type 0 where
  pub id : String
  pub name : String
  pub state : SagaState
  pub correlation_id : Option String

pub record SagaInstanceRecord : Type 0 where
  pub id : String
  pub name : String
  pub status : SagaStatus
  pub cursor : ℤ
  pub attempts : ℕ
  pub next_attempt_at : ℕ
  pub state : SagaState
  pub log : List SagaStepLogEntry
  pub last_error : Option Utf16
  pub correlation_id : Option String
  pub locked_by : Option String
  pub locked_until : Option ℕ
  pub created_at : ℕ
  pub updated_at : ℕ

pub record SagaProgress : Type 0 where
  pub status : SagaStatus
  pub cursor : ℤ
  pub attempts : ℕ
  pub next_attempt_at : ℕ
  pub state : SagaState
  pub entry : SagaStepLogEntry
  pub last_error : Option Utf16
  pub release : Bool

pub record SagaClaim : Type 0 where
  pub owner : String
  pub now : ℕ
  pub lease_ms : ℕ
