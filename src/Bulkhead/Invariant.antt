-- ===== src/Bulkhead/Invariant.antt =====
-- What holds of the bulkhead of src/common/bulkhead/bulkhead.ts between any two events.
use boilerplate_nestjs_api.Prelude.{
  ℕ, suc, ◌+◌, ◌≤◌, ◌<◌, ◌≡◌, refl, inl, inr, true, List, [], ◌∷◌, ◌++◌, some, arith, ltb, ◌==◌,
  length, length-append, Option-cases, Bool-cases, subst, ℤ, if◌then◌else◌,
}
use boilerplate_nestjs_api.Bulkhead.{
  Bulkhead, BulkheadPolicy, Waiter, Event, acquires, fires, gives_back, new, acquire, find_waiter,
  drop_waiter, timer_fires, holds, drop_permit, release_permit, apply, run,
}

-- How often a call waits, and how often it has an open permit.
abbrev pub waits : ℕ → List Waiter → ℕ
waits call [] = 0
waits call (w ∷ waiting) = (if w.call == call then 1 else 0) + waits call waiting

abbrev pub permits : ℕ → List ℕ → ℕ
permits call [] = 0
permits call (c ∷ others) = (if c == call then 1 else 0) + permits call others

pub record Inv (b : Bulkhead) : Type 0 where
  pub counted : b.in_flight ≡ length b.open_permits
  pub capped : b.in_flight ≤ b.policy.max_concurrent
  pub busy : 0 < length b.waiting → b.in_flight ≡ b.policy.max_concurrent
  pub queue_capped : length b.waiting ≤ b.policy.max_queued
  pub once : (call : ℕ) → waits call b.waiting + permits call b.open_permits ≤ 1
  pub fresh : (call : ℕ) → b.calls ≤ call → waits call b.waiting + permits call b.open_permits ≡ 0

waits-append :
    (call : ℕ) (xs ys : List Waiter) → waits call (xs ++ ys) ≡ waits call xs + waits call ys
waits-append call [] ys = omega arith
waits-append call (x ∷ xs) ys = omega (arith, waits-append call xs ys)

drop_waiter_found :
    (call : ℕ) (xs : List Waiter) (w : Waiter)
    → find_waiter call xs ≡ some w
    → suc (length (drop_waiter call xs)) ≡ length xs
unfolding find_waiter drop_waiter
drop_waiter_found call [] w h = cc
drop_waiter_found call (x ∷ xs) w h = ground (arith, drop_waiter_found call xs w)

waits-drop_waiter :
    (call other : ℕ) (xs : List Waiter) → waits other (drop_waiter call xs) ≤ waits other xs
unfolding drop_waiter
waits-drop_waiter call other [] = omega arith
waits-drop_waiter call other (x ∷ xs) = ground (arith, waits-drop_waiter call other xs)

drop_permit_held :
    (call : ℕ) (xs : List ℕ) → holds call xs ≡ true → suc (length (drop_permit call xs)) ≡ length xs
unfolding holds drop_permit
drop_permit_held call [] h = cc
drop_permit_held call (x ∷ xs) h = ground (arith, drop_permit_held call xs)

permits-drop_permit :
    (call other : ℕ) (xs : List ℕ) → permits other (drop_permit call xs) ≤ permits other xs
unfolding drop_permit
permits-drop_permit call other [] = omega arith
permits-drop_permit call other (x ∷ xs) = ground (arith, permits-drop_permit call other xs)

new-Inv : (policy : BulkheadPolicy) (b : Bulkhead) → new policy ≡ some b → Inv b
unfolding new
new-Inv policy b h = elim (Bool-cases (ltb policy.max_concurrent 1)) [
  | inl refused ↦ absurd (ground (arith, refused))
  | inr fine ↦
      let made : (record {
        policy = policy;
        in_flight = 0;
        waiting = [];
        queue_full_rejections = 0;
        queue_timeout_rejections = 0;
        open_permits = [];
        calls = 0;
      })
          ≡ b =
        ground (arith, fine) in
      subst Inv made (record {
        counted = refl;
        capped = omega arith;
        busy = λ q. absurd (omega arith);
        queue_capped = omega arith;
        once = λ call. omega arith;
        fresh = λ call q. refl;
      })
]

acquire-Inv : (wait : ℤ) (now : ℕ) (b : Bulkhead) → Inv b → Inv (acquire wait now b).1
unfolding acquire
acquire-Inv wait now b v = record {
  counted = ground arith;
  capped = ground arith;
  busy = ground (arith, length-append b.waiting (record { call = b.calls; queued_at = now } ∷ []));
  queue_capped =
      ground (arith, length-append b.waiting (record { call = b.calls; queued_at = now } ∷ []));
  once = λ call. ground (
    arith,
    v.once call,
    v.fresh call,
    waits-append call b.waiting (record { call = b.calls; queued_at = now } ∷ []),
  );
  fresh = λ call q. ground (
    arith,
    v.fresh call,
    waits-append call b.waiting (record { call = b.calls; queued_at = now } ∷ []),
  );
}

timer_fires-Inv : (call now : ℕ) (b : Bulkhead) → Inv b → Inv (timer_fires call now b).1
unfolding timer_fires
timer_fires-Inv call now b v = elim (Option-cases (find_waiter call b.waiting)) [
  | inl gone ↦ rw (gone, timer_fires) v
  | inr (w, there) ↦
      let shorter = drop_waiter_found call b.waiting w there in
      record {
        counted = ground (arith, there);
        capped = ground (arith, there);
        busy = ground (arith, there, shorter);
        queue_capped = ground (arith, there, shorter);
        once = λ other. ground (arith, there, v.once other, waits-drop_waiter call other b.waiting);
        fresh =
            λ other q. ground (arith, there, v.fresh other, waits-drop_waiter call other b.waiting);
      }
]

release_permit-Inv : (call : ℕ) (b : Bulkhead) → Inv b → Inv (release_permit call b).1
unfolding release_permit
release_permit-Inv call b v = elim (Bool-cases (holds call b.open_permits)) [
  | inr closed ↦ rw (closed, release_permit) v
  | inl held ↦
      let fewer = drop_permit_held call b.open_permits held in
      record {
        counted = ground (arith, held, fewer);
        capped = ground (arith, held, fewer);
        busy = ground (arith, held, fewer);
        queue_capped = ground (arith, held, fewer);
        once = λ other.
            ground (arith, held, v.once other, permits-drop_permit call other b.open_permits);
        fresh = λ other q.
            ground (arith, held, v.fresh other, permits-drop_permit call other b.open_permits);
      }
]

-- Every event keeps the books: as many permits out as are counted, no more than the cap, nobody
-- waiting while a permit is free, no more waiting than allowed, and every call at most once.
pub apply-Inv : (e : Event) (b : Bulkhead) → Inv b → Inv (apply e b).1
unfolding apply
apply-Inv (acquires wait now) b v = acquire-Inv wait now b v
apply-Inv (fires call now) b v = timer_fires-Inv call now b v
apply-Inv (gives_back call) b v = release_permit-Inv call b v

run_from-Inv : (events : List Event) (b : Bulkhead) → Inv b → Inv (run events b)
unfolding run
run_from-Inv [] b v = v
run_from-Inv (e ∷ events) b v = run_from-Inv events (apply e b).1 (apply-Inv e b v)

-- After any events at all, in any order, a bulkhead that was accepted has never more permits out
-- than its cap, counts them right, leaves nobody waiting while one is free, has no longer a queue
-- than allowed, and no call waits or holds twice.
pub run-Inv :
    (policy : BulkheadPolicy) (events : List Event) (b : Bulkhead)
    → new policy ≡ some b
    → Inv (run events b)
run-Inv policy events b h = run_from-Inv events b (new-Inv policy b h)
