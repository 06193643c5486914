-- ===== src/Messaging/Broker/Turns.antt =====
-- That src/messaging/in-memory-broker.ts reads and settles with nothing skipped.
use boilerplate_nestjs_api.Prelude.{
  ℕ, ◌+◌, ◌≡◌, refl, subst, inl, inr, Bool, true, false, ◌&&◌, not, List, [], ◌∷◌, Option, none,
  some, arith, ltb, ◌==◌, length, Option-cases, Bool-cases,
}
use boilerplate_nestjs_api.Messaging.Broker.{
  Partition, Offsets, offset_of, begin_pass, turn, Member, is_idle, is_empty, read_from, read,
  settled, handling_of,
}
use boilerplate_nestjs_api.Messaging.Broker.AtLeastOnce.{
  AllServed, MemberServed, MembersServed, ReadingServed, Served, offset_of-Served,
  set_offset-AllServed,
}

pub read_from-Served :
    (handled committed : Offsets) (length : ℕ) (p : Partition) (m : Member)
    → AllServed handled committed
    → MemberServed handled m
    → Served handled p (read_from committed length p m)
unfolding read_from
read_from-Served handled committed length p m all served =
    elim (Option-cases (offset_of p m.positions)) [
      | inl here ↦ elim (Option-cases (offset_of p committed)) [
        | inl neither ↦ rw (here, neither, served.2) (λ k below. ground (arith, below))
        | inr found ↦ rw (here, found.1) (offset_of-Served handled p committed found.0 all found.1)
      ]
      | inr found ↦ rw found.1 (offset_of-Served handled p m.positions found.0 served.0 found.1)
    ]

pub turn-MemberServed :
    (handled committed : Offsets) (length : Option ℕ) (p : Partition) (m : Member)
    → AllServed handled committed
    → MemberServed handled m
    → m.handling ≡ none
    → MemberServed handled (turn committed length p m)
unfolding turn
turn-MemberServed handled committed none p m all served idle = served
turn-MemberServed handled committed (some length) p m all served idle =
    let from = read_from-Served handled committed length p m all served in
    let positions =
      set_offset-AllServed handled p (read_from committed length p m) m.positions served.0 from in
    elim (Bool-cases (ltb (read_from committed length p m) length)) [
      | inl more ↦ rw more (positions, from, served.2)
      | inr end ↦ rw end (positions, tt, served.2)
    ]

pub begin_pass-MemberServed :
    (handled : Offsets) (m : Member) → MemberServed handled m → MemberServed handled (begin_pass m)
unfolding begin_pass
begin_pass-MemberServed handled m served =
    elim (Bool-cases (not m.stopped && (is_idle m.handling && is_empty m.pass))) [
      | inl begins ↦ rw begins served
      | inr goes_on ↦ rw goes_on served
    ]

pub read-MemberServed :
    (handled committed : Offsets) (log_length : Partition → Option ℕ) (m : Member)
    → AllServed handled committed
    → MemberServed handled m
    → MemberServed handled (read committed log_length m)
unfolding read
read-MemberServed handled committed log_length m all served = go m.pass refl
  where
    go :
        (pass : List Partition) → m.pass ≡ pass → MemberServed handled (read committed log_length m)
    go [] ended = rw ended served
    go (p ∷ rest) next = elim (Bool-cases m.stopped) [
      | inl stopped ↦ rw (next, stopped) served
      | inr running ↦ elim (Option-cases m.handling) [
        | inl idle ↦
            rw (next, running, idle)
              (turn-MemberServed handled committed (log_length p) p
                (record m { stopped = false; pass = rest; handling = none }) all
                (served.0, tt, served.2) refl)
        | inr busy ↦
            let at : ReadingServed handled (some busy.0) =
              subst (ReadingServed handled) busy.1 served.1 in
            rw (next, running, busy.1) (served.0, at, served.2)
      ]
    ]

pub settled-MemberServed :
    (handled : Offsets) (ok : Bool) (m : Member)
    → MemberServed handled m
    → ((reading : Partition × ℕ)
        → ok ≡ true
        → m.handling ≡ some reading
        → Served handled reading.0 (reading.1 + 1))
    → MemberServed handled (settled ok m)
unfolding settled
settled-MemberServed handled ok m served after = elim (Option-cases m.handling) [
  | inl idle ↦ rw idle (served.0, tt, served.2)
  | inr busy ↦ elim (Bool-cases ok) [
    | inl good ↦
        rw (busy.1, good)
          (
            set_offset-AllServed handled busy.0.0 (busy.0.1 + 1) m.positions served.0
                (after busy.0 good busy.1),
            tt,
            served.2,
          )
    | inr bad ↦ rw (busy.1, bad) (served.0, tt, served.2)
  ]
]

pub handling_of-Served :
    (handled : Offsets) (id : ℕ) (members : List Member)
    → MembersServed handled members
    → ReadingServed handled (handling_of id members)
unfolding handling_of
handling_of-Served handled id [] all = tt
handling_of-Served handled id (m ∷ members) all = elim (Bool-cases (m.id == id)) [
  | inl here ↦ rw here all.0.1
  | inr other ↦ rw other (handling_of-Served handled id members all.1)
]
