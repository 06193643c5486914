-- ===== src/Saga/Step/Resumes.antt =====
-- `assertResumable` of src/saga/saga-orchestrator.service.ts accepts what the orchestrator wrote.
use boilerplate_nestjs_api.Prelude.{
  ℕ, suc, ◌+◌, ◌<◌, String, ◌≡◌, refl, sym, ap, ◌∙◌, false, List, [], ◌∷◌, none, some, arith,
  length, get_elem?, get_elem?-lt, get_elem?-some, get_elem?-take, take, eq_iff, pos,
}
use boilerplate_nestjs_api.Saga.Instance.{
  SagaStatus, SagaStepLogEntry, SagaInstanceRecord, is_terminal,
}
use boilerplate_nestjs_api.Saga.Definition.{SagaStep, SagaDefinition}
use boilerplate_nestjs_api.Saga.Call.{Turn, Settings, step_at}
use boilerplate_nestjs_api.Saga.Step.{
  completed_forward, first_moved, assert_resumable, step, progressed, run_step,
}
use boilerplate_nestjs_api.Saga.Step.History.{
  names, entry_names, done_names, Follows, FollowsRecord, names-get_elem?, length-names,
}

module _ (definition : SagaDefinition) where
  -- The names that were completed are the first names of the definition, from `index` on.
  first_moved-none :
      (index : ℕ) (items : List SagaStepLogEntry)
      → ((i : ℕ) (x : String)
          → get_elem? (entry_names items) i ≡ some x
          → get_elem? (names definition.steps) (index + i) ≡ some x)
      → first_moved definition index items ≡ none
  unfolding first_moved step_at
  first_moved-none index [] h = refl
  first_moved-none index (item ∷ items) h =
      let here : get_elem? (names definition.steps) index ≡ some item.step =
        ap (get_elem? (names definition.steps)) (omega arith) ∙ h 0 item.step refl in
      let rest =
        first_moved-none (suc index) items
          (λ i x e. ap (get_elem? (names definition.steps)) (omega arith) ∙ h (suc i) x e) in
      let (s, found) = get_elem?-some definition.steps index (
        omega (
          arith,
          length-names definition.steps,
          get_elem?-lt (names definition.steps) index here,
        )) in
      ground (
        arith,
        found,
        rest,
        here,
        names-get_elem? definition.steps index found,
        eq_iff s.name item.step,
      )

  assert_resumable-none :
      (r : SagaInstanceRecord) (k : ℕ)
      → done_names r.log ≡ take k (names definition.steps)
      → assert_resumable definition r ≡ none
  unfolding assert_resumable
  assert_resumable-none r k h = first_moved-none 0 (completed_forward r.log) λ i x e.
      ap (get_elem? (names definition.steps)) (omega arith)
      ∙ get_elem?-take k (names definition.steps) i (ap (λ l. get_elem? l i) (sym h) ∙ e)

  -- A live instance whose log follows the definition names a step with its cursor.
  at_live :
      (r : SagaInstanceRecord) (status : SagaStatus)
      → is_terminal status ≡ false
      → Follows definition.steps status r.cursor r.log
      → (n : ℕ) × (k : ℕ) × (r.cursor ≡ pos n)
        × (n < length definition.steps)
        × (done_names r.log ≡ take k (names definition.steps))
  unfolding is_terminal
  at_live r SagaStatus.running live (n, e, lt, d, u) = (n, n, e, lt, d)
  at_live r SagaStatus.compensating live (c, m, e, le, (s, found, _), d, u) =
      (c, m, e, omega (arith, get_elem?-lt definition.steps m found), d)
  at_live r SagaStatus.completed live h = cc
  at_live r SagaStatus.compensated live h = cc
  at_live r SagaStatus.stuck live h = cc

-- A live instance whose log follows the definition is always resumed: the step at its cursor exists
-- and is the one that runs.
pub step_resumes :
    (settings : Settings) (turn : Turn) (definition : SagaDefinition) (r : SagaInstanceRecord)
    → FollowsRecord definition.steps r
    → is_terminal r.status ≡ false
    → (n : ℕ) × (s : SagaStep) × (r.cursor ≡ pos n)
      × (get_elem? definition.steps n ≡ some s)
      × (step settings turn definition r ≡ progressed (run_step settings turn definition r s))
unfolding step step_at
step_resumes settings turn definition r h live =
    let (n, k, e, lt, d) = at_live definition r r.status live h in
    let (s, found) = get_elem?-some definition.steps n lt in
    let fine = assert_resumable-none definition r k d in
    (n, s, e, found, ground (arith, fine, found, e))
