-- ===== src/Saga/Definition/Shape.antt =====
-- src/saga/saga-definition.ts: exactly which lists of steps are a saga.
use boilerplate_nestjs_api.Prelude.{
  ℕ, suc, ◌+◌, ◌≤◌, ◌<◌, String, ◌≡◌, ◌≢◌, refl, ◌↔◌, ◌⊎◌, false, List, [], ◌∷◌, none, arith,
  eq_iff, length, select,
}
use boilerplate_nestjs_api.Saga.Definition.{
  compensatable, pivot, retriable, SagaStep, SagaDefinition, ok, is_pivot, has, repeated_name,
  boundary_of, misplaced, checked, define_saga,
}

-- No step of the list has this name.
abbrev pub Fresh : String → List SagaStep → Type 0
Fresh name [] = Unit {0}
Fresh name (step ∷ steps) = (step.name ≢ name) × Fresh name steps

abbrev pub Distinct : List SagaStep → Type 0
Distinct [] = Unit {0}
Distinct (step ∷ steps) = Fresh step.name steps × Distinct steps

abbrev pub AllRetriable : List SagaStep → Type 0
AllRetriable [] = Unit {0}
AllRetriable (step ∷ steps) = (step.kind ≡ retriable) × AllRetriable steps

-- Compensatable steps, then nothing, or one pivot with retriable steps behind it.
abbrev pub Shaped : List SagaStep → Type 0
Shaped [] = Unit {0}
Shaped (step ∷ steps) =
    ((step.kind ≡ compensatable) × Shaped steps) ⊎ ((step.kind ≡ pivot) × AllRetriable steps)

abbrev Disjoint : List String → List SagaStep → Type 0
Disjoint [] steps = Unit {0}
Disjoint (name ∷ seen) steps = Fresh name steps × Disjoint seen steps

Disjoint-cons :
    (seen : List String) (step : SagaStep) (steps : List SagaStep)
    → Disjoint seen (step ∷ steps) ↔ ((has step.name seen ≡ false) × Disjoint seen steps)
unfolding has
Disjoint-cons [] step steps = ground arith
Disjoint-cons (name ∷ seen) step steps =
    ground (arith, eq_iff name step.name, Disjoint-cons seen step steps)

Disjoint-nil : (seen : List String) → Disjoint seen []
Disjoint-nil [] = tt
Disjoint-nil (name ∷ seen) = (tt, Disjoint-nil seen)

repeated_name-none :
    (seen : List String) (steps : List SagaStep)
    → (repeated_name seen steps ≡ none) ↔ (Distinct steps × Disjoint seen steps)
unfolding repeated_name
repeated_name-none seen [] = (λ _. (tt, Disjoint-nil seen), λ _. refl)
repeated_name-none seen (step ∷ steps) =
    ground (arith, Disjoint-cons seen step steps, repeated_name-none (step.name ∷ seen) steps)

misplaced_after :
    (boundary index : ℕ) (steps : List SagaStep)
    → boundary < index
    → (misplaced boundary index steps ≡ none) ↔ AllRetriable steps
unfolding misplaced
misplaced_after boundary index [] h = (λ _. tt, λ _. refl)
misplaced_after boundary index (step ∷ steps) h =
    ground (arith, misplaced_after boundary (suc index) steps (omega arith))

misplaced-boundary_of :
    (index boundary : ℕ) (steps : List SagaStep)
    → boundary ≡ index + boundary_of steps
    → (misplaced boundary index steps ≡ none) ↔ Shaped steps
unfolding misplaced boundary_of
misplaced-boundary_of index boundary [] h = (λ _. tt, λ _. refl)
misplaced-boundary_of index boundary (step ∷ steps) h = ground (
  arith,
  misplaced-boundary_of (suc index) boundary steps,
  misplaced_after boundary (suc index) steps,
)

pivots : List SagaStep → ℕ
pivots steps = length (select (λ step. is_pivot step.kind) steps)

AllRetriable-pivots : (steps : List SagaStep) → AllRetriable steps → pivots steps ≡ 0
unfolding pivots
AllRetriable-pivots [] h = refl
AllRetriable-pivots (step ∷ steps) h = ground (arith, AllRetriable-pivots steps)

Shaped-pivots : (steps : List SagaStep) → Shaped steps → pivots steps ≤ 1
unfolding pivots
Shaped-pivots [] h = omega arith
Shaped-pivots (step ∷ steps) h = ground (arith, Shaped-pivots steps, AllRetriable-pivots steps)

checked_iff :
    (name : String) (steps : List SagaStep) (definition : SagaDefinition)
    → (checked name steps ≡ ok definition)
      ↔ (Distinct steps × Shaped steps × (definition ≡ record { name = name; steps = steps }))
unfolding checked pivots
checked_iff name steps definition = ground (
  arith,
  repeated_name-none [] steps,
  misplaced-boundary_of 0 (boundary_of steps) steps,
  Shaped-pivots steps,
)

-- `defineSaga` accepts a list of steps exactly when it is not empty, no name is declared twice, and
-- it is compensatable steps followed by nothing or by one pivot with retriable steps behind it; and
-- it then returns the name and the steps as they were given.
pub define_saga_iff :
    (name : String) (steps : List SagaStep) (definition : SagaDefinition)
    → (define_saga name steps ≡ ok definition) ↔ (
        (steps ≢ [])
        × Distinct steps
        × Shaped steps
        × (definition ≡ record { name = name; steps = steps }))
unfolding define_saga
define_saga_iff name [] definition = ground arith
define_saga_iff name (step ∷ steps) definition =
    ground (arith, checked_iff name (step ∷ steps) definition)
