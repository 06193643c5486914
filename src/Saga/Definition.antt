-- ===== src/Saga/Definition.antt =====
-- src/saga/saga-definition.ts: an ordered list of steps, and the shapes that are accepted. What a
-- step does is the participant's; a step is its name and its kind.
pub mod Shape
pub mod Pivot
use boilerplate_nestjs_api.Prelude.{
  ℕ, suc, String, Bool, true, false, not, ◌&&◌, ◌||◌, List, [], ◌∷◌, Option, none, some, str_eq,
  ltb, length, select, if◌then◌else◌,
}

pub data SagaStepKind : Type 0 where
  compensatable pivot retriable : SagaStepKind

pub record SagaStep : Type 0 where
  pub name : String
  pub kind : SagaStepKind

pub record SagaDefinition : Type 0 where
  pub name : String
  pub steps : List SagaStep

pub data SagaDefinitionError : Type 0 where
  no_steps : SagaDefinitionError
  declared_twice : String → SagaDefinitionError
  several_pivots : SagaDefinitionError
  not_compensatable not_retriable : String → SagaDefinitionError

pub data Defined : Type 0 where
  ok : SagaDefinition → Defined
  refused : SagaDefinitionError → Defined

abbrev pub is_compensatable : SagaStepKind → Bool
is_compensatable compensatable = true
is_compensatable _ = false

abbrev pub is_pivot : SagaStepKind → Bool
is_pivot pivot = true
is_pivot _ = false

abbrev pub is_retriable : SagaStepKind → Bool
is_retriable retriable = true
is_retriable _ = false

-- `seen.has(name)`
has : String → List String → Bool
has name [] = false
has name (x ∷ seen) = str_eq x name || has name seen

-- The loop over the steps with the `seen` set: the first name that is declared twice.
repeated_name : List String → List SagaStep → Option String
unfolding has
repeated_name seen [] = none
repeated_name seen (step ∷ steps) =
    let rest = repeated_name (step.name ∷ seen) steps in
    if has step.name seen then some step.name else rest

-- `findIndex`, with `steps.length` in place of -1: the boundary.
boundary_of : List SagaStep → ℕ
boundary_of [] = 0
boundary_of (step ∷ steps) = if is_pivot step.kind then 0 else suc (boundary_of steps)

-- The last loop, from `index` on: the first step on the wrong side of the boundary.
misplaced : ℕ → ℕ → List SagaStep → Option SagaDefinitionError
misplaced boundary index [] = none
misplaced boundary index (step ∷ steps) =
    let rest = misplaced boundary (suc index) steps in
    if ltb index boundary && not (is_compensatable step.kind)
    then some (not_compensatable step.name)
    else if ltb boundary index && not (is_retriable step.kind)
    then some (not_retriable step.name)
    else rest

-- The checks after the one for an empty list, in the order of the source.
checked : String → List SagaStep → Defined
checked name steps = elim (repeated_name [] steps) [
  | some twice ↦ refused (declared_twice twice)
  | none ↦
      if ltb 1 (length (select (λ step. is_pivot step.kind) steps))
      then refused several_pivots
      else elim (misplaced (boundary_of steps) 0 steps) [
        | some problem ↦ refused problem
        | none ↦ ok (record { name = name; steps = steps })
      ]
]

unfoldable pub define_saga : String → List SagaStep → Defined
unfolding checked repeated_name boundary_of misplaced
define_saga name [] = refused no_steps
define_saga name (step ∷ steps) = checked name (step ∷ steps)
