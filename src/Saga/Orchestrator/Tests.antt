-- ===== src/Saga/Orchestrator/Tests.antt =====
-- A checkout of three steps, run over an in-memory table.
use boilerplate_nestjs_api.Prelude.{
  ℕ, suc, ◌+◌, ◌<◌, ◌≡◌, ◌≢◌, refl, true, false, [], ◌∷◌, Option, none, some, arith, take, reverse,
  get_elem?, lookup, insert, utf16, pos, inl, inr,
}
use boilerplate_nestjs_api.Backoff.{next_attempt_at, next_attempt_delay_ms, ceiling}
use boilerplate_nestjs_api.Saga.Instance.{SagaStatus, SagaInstanceRecord, is_terminal}
use boilerplate_nestjs_api.Saga.Definition.{SagaStep, SagaDefinition, compensatable, pivot}
use boilerplate_nestjs_api.Saga.Definition.Shape.{Shaped}
use boilerplate_nestjs_api.Saga.Store as Store
use boilerplate_nestjs_api.Saga.Call.{
  CallResult, resolved, rejected, SagaStepContext, Turn, Settings, entry, call, context,
  merge_state, truncate, retry_at, step_at, failure_from,
}
use boilerplate_nestjs_api.Saga.Step.{step, progressed, run_step, assert_resumable}
use boilerplate_nestjs_api.Saga.Step.History.{
  FollowsRecord, TurnedAt, names, done_names, undone_names,
}
use boilerplate_nestjs_api.Saga.Orchestrator.{Registry, Round, exhausted, drive}
use boilerplate_nestjs_api.Saga.Orchestrator.Outcome.{Sound, drive-Sound, drive_compensates}
use native.Mathlib.Nat.{le_refl}
use mathlib.Core.Bool.{false≢true}
use boilerplate_nestjs_api.Prelude.{◌↔◌, eq_iff}
use boilerplate_nestjs_api.Saga.Instance.{SagaProgress, SagaClaim, SagaOutcome, forward}
use boilerplate_nestjs_api.Saga.Definition.{define_saga, ok}
use boilerplate_nestjs_api.Saga.Definition.Shape.{Distinct, define_saga_iff}
use boilerplate_nestjs_api.Saga.Store.Lease.{claim_excludes, save_after_takeover}
use boilerplate_nestjs_api.Saga.Step.Attempts.{Waits, step-Waits}
use boilerplate_nestjs_api.Saga.Step.Rollback.{step-Follows}
use boilerplate_nestjs_api.Saga.Step.Resumes.{step_resumes}
use boilerplate_nestjs_api.Saga.Orchestrator.Settles.{drive-settles}

abbrev reserve : SagaStep
reserve = record { name = "reserve"; kind = compensatable }

abbrev pay : SagaStep
pay = record { name = "pay"; kind = compensatable }

abbrev ship : SagaStep
ship = record { name = "ship"; kind = pivot }

abbrev checkout : SagaDefinition
checkout = record { name = "checkout"; steps = reserve ∷ pay ∷ ship ∷ [] }

abbrev settings : Settings
settings = record {
  lease_ms = 30000;
  step_timeout_ms = 10000;
  policy = record { base_ms = 500; max_ms = 60000; max_attempts = 6 };
}

-- Every call succeeds, but paying is refused for good on the way forward.
abbrev answers : SagaStepContext → Option CallResult
answers c = elim c.failure [
  | some _ ↦ some (resolved none)
  | none ↦ elim (lookup c.idempotency_key (("s1:pay", true) ∷ [])) [
    | some _ ↦ some (rejected (record { unretryable = true; message = utf16 "declined" }))
    | none ↦ some (resolved none)
  ]
]

abbrev round : ℕ → Round
round i = record {
  turn = record { at = 100 + i; answer = answers; draw = λ c. c };
  others = λ t. t;
  saved_at = 100 + i;
}

abbrev claimed : SagaInstanceRecord
claimed =
    Store.leased
      (Store.new_row (record { id = "s1"; name = "checkout"; state = []; correlation_id = none })
        50)
      (record { owner = "w1"; now = 60; lease_ms = 30000 })

abbrev table : Store.Table
table = ("s1", claimed) ∷ []

abbrev registry : Registry
registry = ("checkout", checkout) ∷ []

declined_compensates :
    (drive settings "w1" round registry claimed table).instance_.status ≡ SagaStatus.compensated
unfolding drive step run_step assert_resumable lookup insert Store.save Store.find call entry
    context merge_state truncate retry_at next_attempt_at next_attempt_delay_ms ceiling is_terminal
    step_at failure_from
declined_compensates = refl

drive_compensates_example :
    let log = (drive settings "w1" round registry claimed table).instance_.log in
    (m : ℕ) × TurnedAt checkout.steps m
    × (done_names log ≡ take m (names checkout.steps))
    × (undone_names log ≡ reverse (take (suc m) (names checkout.steps)))
    × ((i : ℕ) (s : SagaStep)
        → i < m
        → get_elem? checkout.steps i ≡ some s
        → s.kind ≡ compensatable)
unfolding lookup Store.find
drive_compensates_example =
    drive_compensates settings "w1" round registry checkout claimed table (λ i t. refl) refl refl
      (0, refl, omega arith, refl, refl) (inl (refl, inl (refl, inr (refl, tt))))
      declined_compensates

drive-Sound_example : Sound checkout.steps (drive settings "w1" round registry claimed table)
unfolding lookup Store.find
drive-Sound_example =
    drive-Sound settings "w1" round registry checkout claimed table (λ i t. refl) refl refl
      (0, refl, omega arith, refl, refl)

drive-settles_example : (drive settings "w1" round registry claimed table).ending ≢ exhausted
drive-settles_example = drive-settles settings "w1" round registry claimed table

abbrev fresh : SagaInstanceRecord
fresh =
    Store.new_row (record { id = "s1"; name = "checkout"; state = []; correlation_id = none }) 50

-- The second step of the same saga fails in a way that may be retried.
abbrev busy : Turn
busy = record {
  at = 100;
  answer = λ c. some (rejected (record { unretryable = false; message = utf16 "busy" }));
  draw = λ c. c;
}

abbrev waiting : SagaProgress
waiting = record {
  status = SagaStatus.running;
  cursor = pos 0;
  attempts = 1;
  next_attempt_at = 600;
  state = [];
  entry =
      entry "reserve" forward SagaOutcome.failed 1 100
        (some (record { unretryable = false; message = utf16 "busy" }));
  last_error = some (utf16 "busy");
  release = true;
}

busy_waits : step settings busy checkout claimed ≡ progressed waiting
unfolding step run_step assert_resumable call entry context truncate retry_at next_attempt_at
    next_attempt_delay_ms ceiling step_at utf16
busy_waits = refl

step-Waits_example : Waits settings busy claimed waiting
unfolding is_terminal
step-Waits_example =
    step-Waits settings busy checkout claimed waiting (λ c. le_refl c) refl busy_waits (refl, refl)

step-Follows_example :
    FollowsRecord checkout.steps
      (Store.saved_row claimed (record { owner = "w1"; now = 100; lease_ms = 30000 }) waiting)
unfolding is_terminal
step-Follows_example =
    step-Follows settings busy checkout claimed
      (record { owner = "w1"; now = 100; lease_ms = 30000 }) waiting
      (0, refl, omega arith, refl, refl) refl busy_waits

step_resumes_example :
    (n : ℕ) × (s : SagaStep) × (claimed.cursor ≡ pos n)
    × (get_elem? checkout.steps n ≡ some s)
    × (step settings busy checkout claimed ≡ progressed (run_step settings busy checkout claimed s))
unfolding is_terminal
step_resumes_example =
    step_resumes settings busy checkout claimed (0, refl, omega arith, refl, refl) refl

define_saga_iff_example : (define_saga "checkout" checkout.steps ≡ ok checkout) ↔ (
    (checkout.steps ≢ [])
    × Distinct checkout.steps
    × Shaped checkout.steps
    × (checkout ≡ record { name = "checkout"; steps = checkout.steps }))
define_saga_iff_example = define_saga_iff "checkout" checkout.steps checkout

abbrev other : SagaClaim
other = record { owner = "w2"; now = 30060; lease_ms = 30000 }

claim_excludes_example :
    Store.claim "s1"
      (record other { now = 30059 })
      (Store.claim "s1"
        (record { owner = "w1"; now = 60; lease_ms = 30000 })
        (("s1", fresh) ∷ [])).1
    ≡ (
      none,
      (Store.claim "s1"
          (record { owner = "w1"; now = 60; lease_ms = 30000 })
          (("s1", fresh) ∷ [])).1,
    )
unfolding Store.claim Store.is_claimable lookup
claim_excludes_example =
    claim_excludes "s1" (record { owner = "w1"; now = 60; lease_ms = 30000 })
      (record other { now = 30059 }) (("s1", fresh) ∷ []) claimed refl (omega arith)

save_after_takeover_example :
    Store.save "s1"
      (record { owner = "w1"; now = 30070; lease_ms = 30000 })
      waiting
      (Store.claim "s1" other table).1
    ≡ (none, (Store.claim "s1" other table).1)
unfolding Store.claim Store.is_claimable lookup
save_after_takeover_example =
    save_after_takeover "s1" (record { owner = "w1"; now = 30070; lease_ms = 30000 }) other waiting
      table (Store.leased claimed other) refl (λ e. false≢true ((eq_iff "w1" "w2").1 e))
