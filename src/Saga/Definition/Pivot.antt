-- ===== src/Saga/Definition/Pivot.antt =====
-- The pivot of src/saga/saga-definition.ts: what may be rolled back from a step.
use boilerplate_nestjs_api.Prelude.{
  ℕ, zero, suc, ◌<◌, ◌≡◌, ◌≢◌, inl, inr, List, [], ◌∷◌, some, arith, get_elem?,
}
use boilerplate_nestjs_api.Saga.Definition.{compensatable, retriable, SagaStep}
use boilerplate_nestjs_api.Saga.Definition.Shape.{AllRetriable, Shaped}

AllRetriable-get_elem? :
    (steps : List SagaStep) (m : ℕ) {s : SagaStep}
    → AllRetriable steps
    → get_elem? steps m ≡ some s
    → s.kind ≡ retriable
AllRetriable-get_elem? [] m h e = cc
AllRetriable-get_elem? (x ∷ steps) zero h e = ground arith
AllRetriable-get_elem? (x ∷ steps) (suc m) h e = AllRetriable-get_elem? steps m h.1 e

-- In a well-shaped saga every step before one that is not retriable is compensatable.
pub Shaped-before :
    (steps : List SagaStep) (m i : ℕ) {s t : SagaStep}
    → Shaped steps
    → get_elem? steps m ≡ some s
    → s.kind ≢ retriable
    → i < m
    → get_elem? steps i ≡ some t
    → t.kind ≡ compensatable
Shaped-before [] m i h e kind lt f = cc
Shaped-before (x ∷ steps) zero i h e kind lt f = elim lt [ ]
Shaped-before (x ∷ steps) (suc m) zero (inl (c, h)) e kind lt f = ground arith
Shaped-before (x ∷ steps) (suc m) (suc i) (inl (c, h)) e kind lt f =
    Shaped-before steps m i h e kind (omega arith) f
Shaped-before (x ∷ steps) (suc m) i (inr (p, h)) e kind lt f =
    absurd (kind (AllRetriable-get_elem? steps m h e))
