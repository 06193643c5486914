-- ===== src/Saga/Orchestrator/Settles.antt =====
-- The guard of the loop in src/saga/saga-orchestrator.service.ts: `drive` always settles.
use boilerplate_nestjs_api.Prelude.{
  ℕ, zero, suc, ◌+◌, ◌*◌, ◌<◌, String, ◌≡◌, ◌≢◌, refl, ◌⊎◌, inl, inr, true, false, Option, arith,
  length, lookup, Option-cases, Bool-cases,
}
use boilerplate_nestjs_api.Saga.Instance.{SagaInstanceRecord, SagaProgress, is_terminal}
use boilerplate_nestjs_api.Saga.Definition.{SagaDefinition}
use boilerplate_nestjs_api.Saga.Store as Store
use boilerplate_nestjs_api.Saga.Store.Lease.{save-some}
use boilerplate_nestjs_api.Saga.Call.{Turn, Settings}
use boilerplate_nestjs_api.Saga.Step.{StepResult, progressed, unresumable, step}
use boilerplate_nestjs_api.Saga.Step.Invariant.{rank, rank-le, step-rank}
use boilerplate_nestjs_api.Saga.Orchestrator.{
  Registry, Round, exhausted, abandon, lease, drive_loop, drive,
}

module _ (settings : Settings) (owner : String) (rounds : ℕ → Round) where
  -- An iteration ends the loop in some other way, or goes on from a row that has the progress.
  iteration_settles :
      (definition : SagaDefinition) (left iteration : ℕ) (current : SagaInstanceRecord)
      (table : Store.Table)
      → ((p : SagaProgress) (next : SagaInstanceRecord) (written : Store.Table)
          → step settings (rounds iteration).turn definition current ≡ progressed p
          → is_terminal current.status ≡ false
          → p.release ≡ false
          → (next.status ≡ p.status) × (next.cursor ≡ p.cursor)
          → (drive_loop settings owner rounds definition left (suc iteration) next written).ending
            ≢ exhausted)
      → (drive_loop settings owner rounds definition (suc left) iteration current table).ending
        ≢ exhausted
  unfolding drive_loop
  iteration_settles definition left iteration current table goes_on =
      go (step settings turn definition current) (Bool-cases (is_terminal current.status)) refl
    where
      turn : Turn
      turn = (rounds iteration).turn

      written : SagaProgress → Option SagaInstanceRecord × Store.Table
      written p =
          Store.save current.id (lease settings owner (rounds iteration).saved_at) p
            ((rounds iteration).others table)

      go :
          (result : StepResult)
          → (is_terminal current.status ≡ true) ⊎ (is_terminal current.status ≡ false)
          → step settings turn definition current ≡ result
          → (drive_loop settings owner rounds definition (suc left) iteration current table).ending
            ≢ exhausted
      go result (inl over) e = ground (arith, over)
      go (unresumable bad) (inr live) e = ground (arith, live, e)
      go (progressed p) (inr live) e = elim (Option-cases (written p).0) [
        | inl lost ↦ ground (arith, live, e, lost)
        | inr (next, won) ↦ ground (
          arith,
          live,
          e,
          won,
          goes_on p next (written p).1 e live,
          save-some current.id (lease settings owner (rounds iteration).saved_at) p
              ((rounds iteration).others table) won,
        )
      ]

  drive_loop-settles :
      (definition : SagaDefinition) (left iteration : ℕ) (current : SagaInstanceRecord)
      (table : Store.Table)
      → rank (length definition.steps) current.status current.cursor < left
      → (drive_loop settings owner rounds definition left iteration current table).ending
        ≢ exhausted
  drive_loop-settles definition zero iteration current table h = elim h [ ]
  drive_loop-settles definition (suc left) iteration current table h =
      iteration_settles definition left iteration current table λ p next written moved live on same.
        drive_loop-settles definition left (suc iteration) next written (
          rw (same.0, same.1)
            (omega (
              arith,
              step-rank settings (rounds iteration).turn definition current p live moved on,
            )))

  -- `drive` never runs into the bound of its loop: whatever the participants answer, the clock and
  -- the jitter give, the other runners do to the table meanwhile and the row says, it returns at a
  -- terminal status, at a progress that releases the lease, at a lost lease or an abandoned row.
  pub drive-settles :
      (registry : Registry) (claimed : SagaInstanceRecord) (table : Store.Table)
      → (drive settings owner rounds registry claimed table).ending ≢ exhausted
  unfolding drive abandon
  drive-settles registry claimed table = elim (Option-cases (lookup claimed.name registry)) [
    | inl unknown ↦ ground (arith, unknown)
    | inr (definition, known) ↦
        rw (known, drive)
          (drive_loop-settles definition (length definition.steps * 2 + 2) 0 claimed table
            (omega (arith, rank-le (length definition.steps) claimed.status claimed.cursor)))
  ]
