-- ===== src/Saga/Step/Invariant.antt =====
-- How far an instance of src/saga/saga-orchestrator.service.ts can still go.
use boilerplate_nestjs_api.Prelude.{
  ℕ, ◌+◌, ◌-◌, ◌*◌, ◌≤◌, ◌<◌, ◌≡◌, refl, false, none, some, arith, length, get_elem?, get_elem?-lt,
  inl, inr, Option-cases, ltb, if◌then◌else◌, ℤ, pos, negsuc,
}
use boilerplate_nestjs_api.Saga.Instance.{SagaStatus, SagaInstanceRecord, SagaProgress, is_terminal}
use boilerplate_nestjs_api.Saga.Definition.{SagaStep, SagaDefinition}
use boilerplate_nestjs_api.Saga.Call.{Turn, Settings, step_at}
use boilerplate_nestjs_api.Saga.Step.{progressed, step, run_step, assert_resumable}

-- The iterations that are left at most: up to the last step, round, and back to the first.
abbrev pub rank : ℕ → SagaStatus → ℤ → ℕ
rank steps SagaStatus.running (pos n) = 2 * steps - n
rank steps SagaStatus.running (negsuc n) = 0
rank steps SagaStatus.compensating (pos n) = if ltb n steps then n + 1 else 0
rank steps SagaStatus.compensating (negsuc n) = 0
rank steps _ cursor = 0

pub rank-le : (steps : ℕ) (status : SagaStatus) (cursor : ℤ) → rank steps status cursor ≤ 2 * steps
rank-le steps SagaStatus.running (pos n) = omega arith
rank-le steps SagaStatus.compensating (pos n) = ground arith
rank-le steps _ _ = omega arith

run_step-rank :
    (settings : Settings) (turn : Turn) (definition : SagaDefinition) (r : SagaInstanceRecord)
    (at_cursor : SagaStep) (n : ℕ)
    → r.cursor ≡ pos n
    → n < length definition.steps
    → is_terminal r.status ≡ false
    → (run_step settings turn definition r at_cursor).release ≡ false
    → rank
        (length definition.steps)
        (run_step settings turn definition r at_cursor).status
        (run_step settings turn definition r at_cursor).cursor
      < rank (length definition.steps) r.status r.cursor
unfolding run_step is_terminal
run_step-rank settings turn definition r at_cursor n e h live goes_on = ground arith

-- A step that makes progress has found a step at the cursor, and has run it.
pub step-progressed :
    (settings : Settings) (turn : Turn) (definition : SagaDefinition) (r : SagaInstanceRecord)
    (p : SagaProgress)
    → step settings turn definition r ≡ progressed p
    → (n : ℕ) × (s : SagaStep) × (r.cursor ≡ pos n)
      × (get_elem? definition.steps n ≡ some s)
      × (assert_resumable definition r ≡ none)
      × (p ≡ run_step settings turn definition r s)
unfolding step step_at
step-progressed settings turn definition r p h =
    elim (Option-cases (assert_resumable definition r)) [
      | inr (e, bad) ↦ absurd (ground (arith, bad))
      | inl fine ↦ at_cursor r.cursor refl fine
    ]
  where
    at_cursor :
        (c : ℤ)
        → r.cursor ≡ c
        → assert_resumable definition r ≡ none
        → (n : ℕ) × (s : SagaStep) × (r.cursor ≡ pos n)
          × (get_elem? definition.steps n ≡ some s)
          × (assert_resumable definition r ≡ none)
          × (p ≡ run_step settings turn definition r s)
    at_cursor (negsuc n) e fine = absurd (ground (arith, fine))
    at_cursor (pos n) e fine = elim (Option-cases (get_elem? definition.steps n)) [
      | inl gone ↦ absurd (ground (arith, fine))
      | inr (s, found) ↦ (n, s, e, found, fine, ground (arith, fine))
    ]

pub step-rank :
    (settings : Settings) (turn : Turn) (definition : SagaDefinition) (r : SagaInstanceRecord)
    (p : SagaProgress)
    → is_terminal r.status ≡ false
    → step settings turn definition r ≡ progressed p
    → p.release ≡ false
    → rank (length definition.steps) p.status p.cursor
      < rank (length definition.steps) r.status r.cursor
step-rank settings turn definition r p live h goes_on =
    let (n, s, e, found, _, same) = step-progressed settings turn definition r p h in
    rw same (
      run_step-rank settings turn definition r s n e (get_elem?-lt definition.steps n found) live
        (rw same at goes_on))
