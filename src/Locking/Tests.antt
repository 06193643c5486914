-- ===== src/Locking/Tests.antt =====
-- The lock of src/common/locking/in-memory-distributed-lock.ts at concrete calls.
use boilerplate_nestjs_api.Prelude.{ℕ, ◌<◌, ◌≡◌, refl, List, [], ◌∷◌, none, lookup, insert, arith}
use boilerplate_nestjs_api.Locking.{
  InMemoryLock, LockHandle, claim, release, apply, Call, claims, releases, run,
}
use boilerplate_nestjs_api.Locking.Exclusion.{claim_excludes_others, fencing_grows}

abbrev fresh : InMemoryLock
fresh = record { entries = []; counter = 0 }

abbrev jobs : LockHandle
jobs = record { key = "jobs"; fencing_token = 1 }

abbrev stale : LockHandle
stale = record { key = "jobs"; fencing_token = 0 }

abbrev meanwhile : List (ℕ × Call)
meanwhile = (110, claims "jobs" 50 "b") ∷ (120, claims "mail" 50 "c") ∷ (130, releases stale) ∷ []

claim_excludes_others_example :
    let after = run meanwhile (claim "jobs" 100 100 "a" fresh).1 in
    claim "jobs" 50 199 "b" after ≡ (none, after)
unfolding claim run lookup apply release insert
claim_excludes_others_example =
    claim_excludes_others "jobs" 100 100 "a" fresh jobs meanwhile 50 199 "b" refl
      (omega arith, tt, (omega arith, tt, (omega arith, refl, tt))) (omega arith)

fencing_grows_example : 1 < 3
unfolding claim run lookup apply release insert
fencing_grows_example =
    fencing_grows "jobs" "jobs" 100 100 50 300 "a" "d" fresh jobs
      (record { key = "jobs"; fencing_token = 3 }) meanwhile refl refl
