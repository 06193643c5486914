-- ===== src/Bulkhead/Permits.antt =====
-- Who gets a permit of src/common/bulkhead/bulkhead.ts that comes back, and how often.
use boilerplate_nestjs_api.Prelude.{
  ℕ, suc, ◌≡◌, refl, inl, inr, true, false, List, [], ◌∷◌, none, arith, Bool-cases,
}
use boilerplate_nestjs_api.Bulkhead.{
  Bulkhead, Waiter, admitted, nothing, find_waiter, timer_fires, holds, drop_permit, release_permit,
}
use boilerplate_nestjs_api.Bulkhead.Invariant.{Inv, waits, permits}

find_waiter-none : (call : ℕ) (xs : List Waiter) → waits call xs ≡ 0 → find_waiter call xs ≡ none
unfolding find_waiter
find_waiter-none call [] h = refl
find_waiter-none call (x ∷ xs) h = ground (arith, find_waiter-none call xs)

holds-false : (call : ℕ) (xs : List ℕ) → permits call xs ≡ 0 → holds call xs ≡ false
unfolding holds
holds-false call [] h = refl
holds-false call (x ∷ xs) h = ground (arith, holds-false call xs)

permits-drop_permit_self :
    (call : ℕ) (xs : List ℕ)
    → holds call xs ≡ true
    → suc (permits call (drop_permit call xs)) ≡ permits call xs
unfolding holds drop_permit
permits-drop_permit_self call [] h = cc
permits-drop_permit_self call (x ∷ xs) h = ground (arith, permits-drop_permit_self call xs)

-- A permit that is given back while others wait goes to the one that waits longest: it is admitted
-- under its own permit, the rest keep their order, the count never dips, and its timer, should it
-- still fire, does nothing.
pub release_hands_over :
    (call now : ℕ) (b : Bulkhead) (w : Waiter) (ws : List Waiter)
    → Inv b
    → holds call b.open_permits ≡ true
    → b.waiting ≡ w ∷ ws
    → let (answer, b') = release_permit call b in
      (answer ≡ admitted w.call)
      × (b'.waiting ≡ ws)
      × (b'.in_flight ≡ b.in_flight)
      × (holds w.call b'.open_permits ≡ true)
      × (timer_fires w.call now b' ≡ (nothing, b'))
unfolding release_permit holds timer_fires
release_hands_over call now b w ws v held queue =
    let alone : waits w.call ws ≡ 0 = ground (arith, v.once w.call, queue) in
    ground (arith, held, queue, find_waiter-none w.call ws alone)

-- Giving a permit back twice is giving it back once: the second call changes nothing.
pub release_permit_twice :
    (call : ℕ) (b : Bulkhead)
    → Inv b
    → release_permit call (release_permit call b).1 ≡ (nothing, (release_permit call b).1)
unfolding release_permit
release_permit_twice call b v = elim (Bool-cases (holds call b.open_permits)) [
  | inr closed ↦ ground (arith, closed)
  | inl held ↦
      let last : permits call (release_permit call b).1.open_permits ≡ 0 =
        ground (arith, held, permits-drop_permit_self call b.open_permits held, v.once call) in
      let shut = holds-false call (release_permit call b).1.open_permits last in
      rw (shut, release_permit) refl
]
