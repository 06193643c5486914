-- ===== src/Locking/Redlock/Tests.antt =====
-- Three nodes of src/common/locking/redlock.service.ts, of which one is down.
use boilerplate_nestjs_api.Prelude.{
  ℕ, zero, suc, ◌+◌, ◌<◌, ◌/◌, ◌≡◌, refl, List, [], ◌∷◌, arith, lookup, insert, remove,
}
use boilerplate_nestjs_api.Locking.Redlock.{
  Node, lost, answered, Contact, Attempt, RedlockHandle, failed, attempt, publish, on_every_node,
  redlock_acquire, redlock_bump_fence, redlock_release, release_everywhere, claimed, greatest,
  answers,
}
use boilerplate_nestjs_api.Locking.Redlock.Schedule.{Call, tries, releases, run, apply}
use boilerplate_nestjs_api.Locking.Redlock.Keeping.{Others}
use boilerplate_nestjs_api.Locking.Redlock.Exclusion.{redlock_excludes}
use boilerplate_nestjs_api.Locking.Redlock.Fencing.{redlock_fencing}

abbrev drift : ℕ → ℕ
drift ttl_ms = ttl_ms / 100 + 2

abbrev node : Node
node = record { locks = []; fence = 6 }

abbrev cluster : List Node
cluster = node ∷ node ∷ node ∷ []

-- The third node is down.
abbrev two_up : ℕ → ℕ → Contact
two_up at zero = record { reach = answered; at = at; before = [] }
two_up at (suc zero) = record { reach = answered; at = at; before = [] }
two_up at (suc (suc i)) = record { reach = lost; at = at; before = [] }

abbrev at_time : ℕ → Attempt
at_time start = record {
  start = start;
  voted_at = start + 5;
  published_at = start + 8;
  made_at = start + 8;
  voting = two_up (start + 2);
  publishing = two_up (start + 6);
  releasing = two_up (start + 9);
}

two_up-at : (at i : ℕ) → (two_up at i).at ≡ at
two_up-at at zero = refl
two_up-at at (suc zero) = refl
two_up-at at (suc (suc i)) = refl

unseen : (at : ℕ) → Others "jobs" "a" 1100 (two_up at)
unseen at zero = tt
unseen at (suc zero) = tt
unseen at (suc (suc i)) = tt

abbrev handle : RedlockHandle
handle = record { key = "jobs"; value = "a"; fencing_token = 7; valid_until = 1088 }

abbrev meanwhile : List Call
meanwhile = tries "jobs" "b" 1000 (at_time 200) ∷ releases "jobs" "c" (two_up 300) ∷ []

redlock_excludes_example :
    (1088 + 12 + 108 ≡ 100 + 1000 + 108)
    × ((attempt drift "jobs" "d" 500
          (at_time 900)
          (run drift meanwhile (attempt drift "jobs" "a" 1000 (at_time 100) cluster).1)).0
        ≡ failed)
unfolding attempt publish on_every_node redlock_acquire redlock_bump_fence claimed greatest answers
    lookup insert
redlock_excludes_example =
    redlock_excludes drift "jobs" "a" 1000 (at_time 100) cluster handle meanwhile "d" 500
      (at_time 900) (λ i. omega (arith, two_up-at 102 i)) refl (unseen 106)
      (
        (refl, (λ i. omega (arith, two_up-at 202 i)), unseen 202, unseen 206, unseen 209),
        ((refl, unseen 300), tt),
      )
      (unseen 902) (λ i. omega (arith, two_up-at 902 i))

redlock_fencing_example : 7 < 8
unfolding attempt publish on_every_node redlock_acquire redlock_bump_fence redlock_release
    release_everywhere claimed greatest answers lookup insert remove run apply
redlock_fencing_example =
    redlock_fencing drift "jobs" "a" 1000 (at_time 100) cluster handle
      (releases "jobs" "a" (two_up 300) ∷ []) "jobs" "b" 1000 (at_time 400)
      (record { key = "jobs"; value = "b"; fencing_token = 8; valid_until = 1388 }) refl refl
