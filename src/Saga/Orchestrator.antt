-- ===== src/Saga/Orchestrator.antt =====
-- src/saga/saga-orchestrator.service.ts and src/saga/saga-registry.ts: driving an instance over the
-- table that the runners share. `others` is what they did to it while a participant was called.
pub mod Settles
pub mod Outcome
mod Tests
use Prim.Native.String.{◌++◌ as str_append}
use boilerplate_nestjs_api.Prelude.{
  ℕ, zero, suc, ◌+◌, ◌*◌, String, Bool, true, false, List, [], ◌∷◌, ◌++◌, Option, none, some,
  str_eq, length, Dict, lookup, insert, Utf16, utf16, decimal, ℤ, pos, negsuc, if◌then◌else◌,
}
use boilerplate_nestjs_api.Saga.Instance.{
  SagaState, SagaStatus, is_terminal, NewSagaInstance, SagaInstanceRecord, SagaProgress, SagaClaim,
}
use boilerplate_nestjs_api.Saga.Definition.{SagaStep, SagaDefinition}
use boilerplate_nestjs_api.Saga.Store as Store
use boilerplate_nestjs_api.Saga.Call.{Turn, Settings, truncate}
use boilerplate_nestjs_api.Saga.Step.{
  SagaResumeError, moved, outside, StepResult, progressed, unresumable, step,
}

abbrev pub Registry : Type 0
Registry = Dict SagaDefinition

-- `none`: the name is registered already, and `SagaDefinitionError` is thrown.
unfoldable pub register : SagaDefinition → Registry → Option Registry
register definition registry = elim (lookup definition.name registry) [
  | some _ ↦ none
  | none ↦ some (insert definition.name definition registry)
]

-- `randomUUID()` and the clock are arguments. `none`: the saga is unknown, or the row exists.
unfoldable pub start :
    Registry
    → String
    → SagaState
    → Option String
    → String
    → ℕ
    → Store.Table
    → Option (SagaInstanceRecord × Store.Table)
start registry name state correlation_id uuid now table = elim (lookup name registry) [
  | none ↦ none
  | some _ ↦
      Store.create
        (record { id = uuid; name = name; state = state; correlation_id = correlation_id }) now
        table
]

-- What one iteration of the loop meets.
pub record Round : Type 0 where
  pub turn : Turn
  pub others : Store.Table → Store.Table
  pub saved_at : ℕ

-- How `drive` came to return.
pub data Ending : Type 0 where
  terminal released lost_lease abandoned exhausted row_missing : Ending

pub record Driven : Type 0 where
  pub instance_ : SagaInstanceRecord
  pub ending : Ending
  pub table : Store.Table

pub or_current : Option SagaInstanceRecord → SagaInstanceRecord → SagaInstanceRecord
or_current none current = current
or_current (some found) current = found

quoted : String → Utf16
quoted name = utf16 (str_append (str_append "\"" name) "\"")

show_cursor : ℤ → Utf16
show_cursor (pos n) = decimal n
show_cursor (negsuc n) = utf16 "-" ++ decimal (suc n)

-- A name that is the empty text counts as no name.
show_expected : Option SagaStep → Utf16
unfolding quoted
show_expected none = utf16 "nothing"
show_expected (some expected) =
    if str_eq expected.name "" then utf16 "nothing" else quoted expected.name

problem : SagaResumeError → Utf16
unfolding quoted show_cursor show_expected
problem (moved name index definition expected) =
    utf16 "it completed "
    ++ (quoted name
        ++ (utf16 " at position "
            ++ (decimal index
                ++ (utf16 ", where "
                    ++ (quoted definition.name ++ (utf16 " now has " ++ show_expected expected))))))
problem (outside cursor definition) =
    utf16 "cursor "
    ++ (show_cursor cursor
        ++ (utf16 " is outside the "
            ++ (decimal (length definition.steps)
                ++ (utf16 " steps of " ++ quoted definition.name))))

resume_message : String → SagaResumeError → Utf16
unfolding problem
resume_message id e =
    utf16 (str_append (str_append "Saga " id) " cannot be resumed: ") ++ (problem e ++ utf16 ".")

-- The update throws where the row is gone.
abandon : SagaInstanceRecord → Utf16 → ℕ → Store.Table → Driven
unfolding or_current
abandon r reason now table = elim (Store.abandon_row r.id (truncate reason) now table) [
  | none ↦ record { instance_ = r; ending = row_missing; table = table }
  | some updated ↦ record {
    instance_ = or_current (Store.find r.id updated) r;
    ending = abandoned;
    table = updated;
  }
]

abbrev pub lease : Settings → String → ℕ → SagaClaim
lease settings owner now = record { owner = owner; now = now; lease_ms = settings.lease_ms }

module _ (settings : Settings) (owner : String) (rounds : ℕ → Round) where
  -- The loop at `iteration`, with `left` iterations to go before it stops.
  drive_loop : SagaDefinition → ℕ → ℕ → SagaInstanceRecord → Store.Table → Driven
  unfolding abandon or_current resume_message
  drive_loop definition zero iteration current table = record {
    instance_ = current;
    ending = exhausted;
    table = table;
  }
  drive_loop definition (suc left) iteration current table =
      let now = (rounds iteration).saved_at in
      let seen = (rounds iteration).others table in
      elim (is_terminal current.status) [
        | true ↦ record { instance_ = current; ending = terminal; table = table }
        | false ↦ elim (step settings (rounds iteration).turn definition current) [
          | unresumable e ↦ abandon current (resume_message current.id e) now table
          | progressed progress ↦
              let (saved, written) =
                Store.save current.id (lease settings owner now) progress seen in
              elim saved [
                | none ↦ record {
                  instance_ = or_current (Store.find current.id written) current;
                  ending = lost_lease;
                  table = written;
                }
                | some next ↦ elim progress.release [
                  | true ↦ record { instance_ = next; ending = released; table = written }
                  | false ↦ drive_loop definition left (suc iteration) next written
                ]
              ]
        ]
      ]

  pub drive : Registry → SagaInstanceRecord → Store.Table → Driven
  unfolding drive_loop quoted
  drive registry claimed table = elim (lookup claimed.name registry) [
    | none ↦
        abandon claimed
          (utf16 "no definition named " ++ (quoted claimed.name ++ utf16 " is registered"))
          (rounds 0).saved_at table
    | some definition ↦ drive_loop definition (length definition.steps * 2 + 2) 0 claimed table
  ]

  -- `none`: there is no such instance. A claim that is not won answers with the row as it is.
  pub advance : Registry → String → ℕ → Store.Table → Option SagaInstanceRecord × Store.Table
  unfolding drive
  advance registry id now table =
      let (won, after) = Store.claim id (lease settings owner now) table in
      elim won [
        | none ↦ (Store.find id after, after)
        | some claimed ↦
            let driven = drive registry claimed after in (some driven.instance_, driven.table)
      ]

  pub advance_claimed : Registry → SagaInstanceRecord → Store.Table → Driven
  advance_claimed registry claimed table = drive registry claimed table
