-- ===== src/Saga/Step/History.antt =====
-- The log of an instance in src/saga against the steps of its definition.
use mathlib.Core.List.{append-nil}
use boilerplate_nestjs_api.Prelude.{
  ℕ, zero, suc, ◌≤◌, ◌<◌, String, ◌≡◌, ◌≢◌, refl, ap, ◌∙◌, ◌⊎◌, false, not, ◌&&◌, List, [], ◌∷◌,
  ◌++◌, reverse, some, arith, length, take, get_elem?, select, select-append, ℤ, pos,
}
use boilerplate_nestjs_api.Saga.Instance.{
  SagaStatus, SagaDirection, forward, backward, SagaOutcome, SagaStepLogEntry, SagaInstanceRecord,
}
use boilerplate_nestjs_api.Saga.Definition.{SagaStep, compensatable, retriable}
use boilerplate_nestjs_api.Saga.Call.{is_forward, is_completed, is_failed}
use boilerplate_nestjs_api.Saga.Step.{completed_forward}

abbrev pub names : List SagaStep → List String
names [] = []
names (s ∷ steps) = s.name ∷ names steps

abbrev pub entry_names : List SagaStepLogEntry → List String
entry_names [] = []
entry_names (item ∷ log) = item.step ∷ entry_names log

-- The steps that were completed going forward, oldest first.
abbrev pub done_names : List SagaStepLogEntry → List String
done_names log = entry_names (completed_forward log)

-- The steps that were undone, or skipped on the way back, oldest first.
abbrev pub undone_names : List SagaStepLogEntry → List String
undone_names log =
    entry_names
      (select (λ item. not (is_forward item.direction) && not (is_failed item.outcome)) log)

-- The instance turned round at step `m`, which is no retriable step.
abbrev pub TurnedAt : List SagaStep → ℕ → Type 0
TurnedAt steps m = (s : SagaStep) × (get_elem? steps m ≡ some s) × (s.kind ≢ retriable)

-- Going forward, the steps below the cursor are completed.
abbrev pub Ahead : List SagaStep → ℤ → List SagaStepLogEntry → Type 0
Ahead steps cursor log =
    (n : ℕ) × (cursor ≡ pos n)
    × (n < length steps)
    × (done_names log ≡ take n (names steps))
    × (undone_names log ≡ [])

-- Going back from step `m`, the steps from `m` down to above the cursor are undone, in that order.
abbrev pub Back : List SagaStep → ℤ → List SagaStepLogEntry → Type 0
Back steps cursor log =
    (c : ℕ) × (m : ℕ) × (cursor ≡ pos c)
    × (c ≤ m)
    × TurnedAt steps m
    × (done_names log ≡ take m (names steps))
    × (undone_names log ++ reverse (take (suc c) (names steps))
        ≡ reverse (take (suc m) (names steps)))

-- The last entry is a failure of the step.
abbrev pub EndsFailed : SagaStep → SagaDirection → List SagaStepLogEntry → Type 0
EndsFailed s direction log =
    (before : List SagaStepLogEntry) × (item : SagaStepLogEntry) × (log ≡ before ++ item ∷ [])
    × (item.step ≡ s.name)
    × (item.direction ≡ direction)
    × (item.outcome ≡ SagaOutcome.failed)

-- Stuck at the step of the cursor, which failed last: going forward at a retriable one, or going back
-- at a compensatable one.
abbrev pub Stuck : List SagaStep → ℤ → List SagaStepLogEntry → Type 0
Stuck steps cursor log =
    (n : ℕ) × (s : SagaStep) × (cursor ≡ pos n)
    × (get_elem? steps n ≡ some s)
    × (((s.kind ≡ retriable) × EndsFailed s forward log × Ahead steps cursor log)
        ⊎ ((s.kind ≡ compensatable) × EndsFailed s backward log × Back steps cursor log))

-- What the log says at each status.
abbrev pub Follows : List SagaStep → SagaStatus → ℤ → List SagaStepLogEntry → Type 0
Follows steps SagaStatus.running cursor log = Ahead steps cursor log
Follows steps SagaStatus.completed cursor log =
    (done_names log ≡ names steps) × (undone_names log ≡ [])
Follows steps SagaStatus.compensating cursor log = Back steps cursor log
Follows steps SagaStatus.compensated cursor log =
    (m : ℕ) × TurnedAt steps m
    × (done_names log ≡ take m (names steps))
    × (undone_names log ≡ reverse (take (suc m) (names steps)))
Follows steps SagaStatus.stuck cursor log = Stuck steps cursor log

abbrev pub FollowsRecord : List SagaStep → SagaInstanceRecord → Type 0
FollowsRecord steps r = Follows steps r.status r.cursor r.log

pub entry_names-append :
    (xs ys : List SagaStepLogEntry) → entry_names (xs ++ ys) ≡ entry_names xs ++ entry_names ys
entry_names-append [] ys = refl
entry_names-append (x ∷ xs) ys = ap (◌∷◌ x.step) (entry_names-append xs ys)

pub done_names-append :
    (xs ys : List SagaStepLogEntry) → done_names (xs ++ ys) ≡ done_names xs ++ done_names ys
done_names-append xs ys =
    ap entry_names (select-append _ xs ys)
    ∙ entry_names-append (completed_forward xs) (completed_forward ys)

pub undone_names-append :
    (xs ys : List SagaStepLogEntry) → undone_names (xs ++ ys) ≡ undone_names xs ++ undone_names ys
undone_names-append xs ys = ap entry_names (select-append _ xs ys) ∙ entry_names-append _ _

pub names-get_elem? :
    (steps : List SagaStep) (n : ℕ) {s : SagaStep}
    → get_elem? steps n ≡ some s
    → get_elem? (names steps) n ≡ some s.name
names-get_elem? [] n h = absurd (cc h)
names-get_elem? (x ∷ steps) zero h = ground arith
names-get_elem? (x ∷ steps) (suc n) h = names-get_elem? steps n h

pub length-names : (steps : List SagaStep) → length (names steps) ≡ length steps
length-names [] = refl
length-names (s ∷ steps) = ap suc (length-names steps)

-- The log after one more entry, by the kind of the entry.
pub done_names-snoc :
    (log : List SagaStepLogEntry) (item : SagaStepLogEntry)
    → item.direction ≡ forward
    → item.outcome ≡ SagaOutcome.completed
    → done_names (log ++ item ∷ []) ≡ done_names log ++ item.step ∷ []
done_names-snoc log item d o =
    done_names-append log (item ∷ []) ∙ ap (◌++◌ (done_names log)) (ground arith)

pub done_names_same :
    (log : List SagaStepLogEntry) (item : SagaStepLogEntry)
    → (is_forward item.direction && is_completed item.outcome) ≡ false
    → done_names (log ++ item ∷ []) ≡ done_names log
done_names_same log item no_entry =
    done_names-append log (item ∷ [])
    ∙ ap (◌++◌ (done_names log)) (ground (arith, no_entry))
    ∙ append-nil (done_names log)

pub undone_names-snoc :
    (log : List SagaStepLogEntry) (item : SagaStepLogEntry)
    → item.direction ≡ backward
    → item.outcome ≢ SagaOutcome.failed
    → undone_names (log ++ item ∷ []) ≡ undone_names log ++ item.step ∷ []
undone_names-snoc log item d o =
    undone_names-append log (item ∷ []) ∙ ap (◌++◌ (undone_names log)) (ground arith)

pub undone_names_same :
    (log : List SagaStepLogEntry) (item : SagaStepLogEntry)
    → (not (is_forward item.direction) && not (is_failed item.outcome)) ≡ false
    → undone_names (log ++ item ∷ []) ≡ undone_names log
undone_names_same log item no_entry =
    undone_names-append log (item ∷ [])
    ∙ ap (◌++◌ (undone_names log)) (ground (arith, no_entry))
    ∙ append-nil (undone_names log)
