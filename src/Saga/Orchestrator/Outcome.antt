-- ===== src/Saga/Orchestrator/Outcome.antt =====
-- What `drive` of src/saga/saga-orchestrator.service.ts leaves of an instance that nobody else writes.
use boilerplate_nestjs_api.Prelude.{
  ℕ, zero, suc, ◌+◌, ◌*◌, ◌<◌, String, ◌≡◌, ◌≢◌, refl, sym, ap, ◌∙◌, subst, ◌⊎◌, inl, inr, false,
  List, Option, none, some, arith, length, take, reverse, get_elem?, lookup, insert, lookup-insert,
  eq_refl, Option-cases, Bool-cases,
}
use boilerplate_nestjs_api.Saga.Instance.{
  SagaState, NewSagaInstance, SagaInstanceRecord, SagaProgress, SagaStatus, SagaClaim, is_terminal,
}
use boilerplate_nestjs_api.Saga.Definition.{SagaStep, SagaDefinition, compensatable}
use boilerplate_nestjs_api.Saga.Definition.Shape.{Shaped}
use boilerplate_nestjs_api.Saga.Definition.Pivot.{Shaped-before}
use boilerplate_nestjs_api.Saga.Store as Store
use boilerplate_nestjs_api.Saga.Store.Lease.{save-some, save-none}
use boilerplate_nestjs_api.Saga.Call.{Settings}
use boilerplate_nestjs_api.Saga.Step.{progressed, step, run_step}
use boilerplate_nestjs_api.Saga.Step.History.{
  names, done_names, undone_names, TurnedAt, Follows, FollowsRecord,
}
use boilerplate_nestjs_api.Saga.Step.Rollback.{step-Follows}
use boilerplate_nestjs_api.Saga.Step.Resumes.{step_resumes}
use boilerplate_nestjs_api.Saga.Orchestrator.{
  Registry, Round, abandoned, row_missing, terminal, released, lost_lease, Driven, lease,
  drive_loop, start, drive, or_current,
}

-- The instance that comes back follows the definition, and it was not given up as unresumable.
abbrev pub Sound : List SagaStep → Driven → Type 0
Sound steps d = FollowsRecord steps d.instance_ × (d.ending ≢ abandoned) × (d.ending ≢ row_missing)

module _ (settings : Settings) (owner : String) (rounds : ℕ → Round) (id : String)
    (quiet : (i : ℕ) (t : Store.Table) → Store.find id ((rounds i).others t) ≡ Store.find id t)
    (definition : SagaDefinition) where
  -- The write of one iteration: refused, and the row is still the current one; or the current row
  -- with the progress in it.
  written_row :
      (iteration : ℕ) (current : SagaInstanceRecord) (table : Store.Table) (p : SagaProgress)
      → Store.find id table ≡ some current
      → (((Store.save id
              (lease settings owner (rounds iteration).saved_at)
              p
              ((rounds iteration).others table)).0
            ≡ none)
          × (Store.find id
                (Store.save id
                  (lease settings owner (rounds iteration).saved_at)
                  p
                  ((rounds iteration).others table)).1
              ≡ some current))
        ⊎ ((Store.save id
              (lease settings owner (rounds iteration).saved_at)
              p
              ((rounds iteration).others table)).0
            ≡ some (Store.saved_row current (lease settings owner (rounds iteration).saved_at) p))
          × (Store.find id
                (Store.save id
                  (lease settings owner (rounds iteration).saved_at)
                  p
                  ((rounds iteration).others table)).1
              ≡ some (Store.saved_row current (lease settings owner (rounds iteration).saved_at) p))
  written_row iteration current table p there = elim (Option-cases (Store.save id by p seen).0) [
    | inl lost ↦
        inl (lost, ap (Store.find id) (save-none id by p seen lost) ∙ quiet iteration table ∙ there)
    | inr (next, won) ↦
        let (row, was, _, is_saved, now) = save-some id by p seen won in
        let same : some row ≡ some current = sym was ∙ quiet iteration table ∙ there in
        let next_is : next ≡ Store.saved_row current by p = cc in
        inr (won ∙ ap some next_is, now ∙ ap some next_is)
  ]
    where
      by : SagaClaim
      by = lease settings owner (rounds iteration).saved_at

      seen : Store.Table
      seen = (rounds iteration).others table

  -- One iteration from a row that follows the definition, if the rest of the loop is sound.
  iteration-Sound :
      (left iteration : ℕ) (current : SagaInstanceRecord) (table : Store.Table)
      → current.id ≡ id
      → Store.find id table ≡ some current
      → FollowsRecord definition.steps current
      → ((next : SagaInstanceRecord) (written : Store.Table)
          → next.id ≡ id
          → Store.find id written ≡ some next
          → FollowsRecord definition.steps next
          → Sound definition.steps
              (drive_loop settings owner rounds definition left (suc iteration) next written))
      → Sound definition.steps
          (drive_loop settings owner rounds definition (suc left) iteration current table)
  unfolding drive_loop or_current
  iteration-Sound left iteration current table named there h rest =
      elim (Bool-cases (is_terminal current.status)) [
        | inl over ↦
            let d : Driven = record { instance_ = current; ending = terminal; table = table } in
            ends_as d (ground (arith, over)) (h, λ e. cc, λ e. cc)
        | inr live ↦
            let (n, s, _, _, moves) =
              step_resumes settings (rounds iteration).turn definition current h live in
            moved live (run_step settings (rounds iteration).turn definition current s) moves
      ]
    where
      by : SagaClaim
      by = lease settings owner (rounds iteration).saved_at

      ends_as :
          (d : Driven)
          → drive_loop settings owner rounds definition (suc left) iteration current table ≡ d
          → Sound definition.steps d
          → Sound definition.steps
              (drive_loop settings owner rounds definition (suc left) iteration current table)
      ends_as d e k = subst (Sound definition.steps) (sym e) k

      moved :
          is_terminal current.status ≡ false
          → (p : SagaProgress)
          → step settings (rounds iteration).turn definition current ≡ progressed p
          → Sound definition.steps
              (drive_loop settings owner rounds definition (suc left) iteration current table)
      moved live p e =
          let seen : Store.Table = (rounds iteration).others table in
          let follows =
            step-Follows settings (rounds iteration).turn definition current by p h live e in
          elim (written_row iteration current table p there) [
            | inl (lost, kept) ↦
                let d : Driven = record {
                  instance_ = current;
                  ending = lost_lease;
                  table = (Store.save id by p seen).1;
                } in
                ends_as d (ground (arith, live, e, lost, kept, named)) (h, λ q. cc, λ q. cc)
            | inr (won, kept) ↦ elim (Bool-cases p.release) [
              | inl lets_go ↦
                  let d : Driven = record {
                    instance_ = Store.saved_row current by p;
                    ending = released;
                    table = (Store.save id by p seen).1;
                  } in
                  ends_as d (ground (arith, live, e, won, lets_go, named))
                    (follows, λ q. cc, λ q. cc)
              | inr keeps ↦
                  ends_as
                    (drive_loop settings owner rounds definition left (suc iteration)
                      (Store.saved_row current by p) (Store.save id by p seen).1)
                    (ground (arith, live, e, won, keeps, named))
                    (rest (Store.saved_row current by p) (Store.save id by p seen).1 named kept
                      follows)
            ]
          ]

  drive_loop-Sound :
      (left iteration : ℕ) (current : SagaInstanceRecord) (table : Store.Table)
      → current.id ≡ id
      → Store.find id table ≡ some current
      → FollowsRecord definition.steps current
      → Sound definition.steps
          (drive_loop settings owner rounds definition left iteration current table)
  unfolding drive_loop
  drive_loop-Sound zero iteration current table named there h = (h, λ e. cc, λ e. cc)
  drive_loop-Sound (suc left) iteration current table named there h =
      iteration-Sound left iteration current table named there h
        (drive_loop-Sound left (suc iteration))

-- While the other runners leave the row alone, `drive` never gives up an instance whose log follows
-- the registered definition, and the instance that it returns follows it too: completed forward
-- names are the steps below the cursor, undone names the steps from where it turned down to the
-- cursor, and a compensated one is undone in full; a stuck one follows it the way that it was going, and
-- its last entry is a failure of the step of the cursor, which is retriable going forward and
-- compensatable going back.
pub drive-Sound :
    (settings : Settings) (owner : String) (rounds : ℕ → Round) (registry : Registry)
    (definition : SagaDefinition) (claimed : SagaInstanceRecord) (table : Store.Table)
    → ((i : ℕ) (t : Store.Table)
        → Store.find claimed.id ((rounds i).others t) ≡ Store.find claimed.id t)
    → lookup claimed.name registry ≡ some definition
    → Store.find claimed.id table ≡ some claimed
    → FollowsRecord definition.steps claimed
    → Sound definition.steps (drive settings owner rounds registry claimed table)
unfolding drive
drive-Sound settings owner rounds registry definition claimed table quiet known there h =
    rw (known, drive)
      (drive_loop-Sound settings owner rounds claimed.id quiet definition
        (length definition.steps * 2 + 2) 0 claimed table refl there h)

-- A saga that is started stands before the first step of its definition, with nothing logged.
pub start-Follows :
    (registry : Registry) (name : String) (state : SagaState) (correlation_id : Option String)
    (uuid : String) (now : ℕ) (table after : Store.Table) (r : SagaInstanceRecord)
    (definition : SagaDefinition)
    → lookup name registry ≡ some definition
    → 0 < length definition.steps
    → start registry name state correlation_id uuid now table ≡ some (r, after)
    → FollowsRecord definition.steps r × (r.name ≡ name) × (Store.find r.id after ≡ some r)
unfolding start Store.create Store.find
start-Follows registry name state correlation_id uuid now table after r definition known some_step
      e =
    elim (Option-cases (lookup uuid table)) [
      | inr (row, taken) ↦ absurd (ground (arith, known, taken))
      | inl free ↦
          let made : Store.new_row new now ≡ r = ground (arith, known, free) in
          let wrote : insert uuid (Store.new_row new now) table ≡ after =
            ground (arith, known, free) in
          subst (λ t. FollowsRecord definition.steps r × (r.name ≡ name) × (lookup r.id t ≡ some r))
            wrote
            (subst
              (λ x.
                FollowsRecord definition.steps x
                × (x.name ≡ name)
                × (lookup x.id (insert uuid (Store.new_row new now) table) ≡ some x))
              made
              (
                (0, refl, some_step, refl, refl),
                refl,
                ground (arith, lookup-insert uuid uuid (Store.new_row new now) table, eq_refl uuid),
              ))
    ]
  where
    new : NewSagaInstance
    new = record { id = uuid; name = name; state = state; correlation_id = correlation_id }

-- An instance that `drive` compensates, of a definition in the accepted shape, turned round at a step
-- `m` that is not past the pivot: the steps below `m` were completed, all of them compensatable,
-- and the steps from `m` down to the first were undone, in that order.
pub drive_compensates :
    (settings : Settings) (owner : String) (rounds : ℕ → Round) (registry : Registry)
    (definition : SagaDefinition) (claimed : SagaInstanceRecord) (table : Store.Table)
    → ((i : ℕ) (t : Store.Table)
        → Store.find claimed.id ((rounds i).others t) ≡ Store.find claimed.id t)
    → lookup claimed.name registry ≡ some definition
    → Store.find claimed.id table ≡ some claimed
    → FollowsRecord definition.steps claimed
    → Shaped definition.steps
    → (drive settings owner rounds registry claimed table).instance_.status ≡ SagaStatus.compensated
    → let log = (drive settings owner rounds registry claimed table).instance_.log in
      (m : ℕ) × TurnedAt definition.steps m
      × (done_names log ≡ take m (names definition.steps))
      × (undone_names log ≡ reverse (take (suc m) (names definition.steps)))
      × ((i : ℕ) (s : SagaStep)
          → i < m
          → get_elem? definition.steps i ≡ some s
          → s.kind ≡ compensatable)
drive_compensates settings owner rounds registry definition claimed table quiet known there h shape
      e =
    let d : Driven = drive settings owner rounds registry claimed table in
    let (sound, _, _) =
      drive-Sound settings owner rounds registry definition claimed table quiet known there h in
    let (m, (s, found, kind), done, undone) =
      subst (λ st. Follows definition.steps st d.instance_.cursor d.instance_.log) e sound in
    (
      m,
      (s, found, kind),
      done,
      undone,
      λ i t lt at_i. Shaped-before definition.steps m i shape found kind lt at_i,
    )
