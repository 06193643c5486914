-- ===== src/Messaging/Broker/Calls.antt =====
-- That src/messaging/in-memory-broker.ts commits nothing that was not handled, over any calls and turns.
use boilerplate_nestjs_api.Prelude.{
  ℕ, ◌+◌, ◌<◌, ◌≡◌, refl, subst, inl, inr, String, Bool, true, false, List, [], ◌∷◌, Option, some,
  ◌==◌, Option-cases, Bool-cases,
}
use boilerplate_nestjs_api.Messaging.Broker.{
  Partition, Offsets, offset_of, empty_group, Member, Group, join, leave, stop, begin_next,
  begin_pass, read_next, read, settle, settled, handling_of, with_member, rebalance,
}
use boilerplate_nestjs_api.Messaging.Broker.AtLeastOnce.{
  was_handled, Served, ReadingServed, MembersServed, GroupServed, more-AllServed,
  more-MembersServed, next-Served, offset_of-Served, set_offset-AllServed, reassign-MembersServed,
  append-MembersServed, without-MembersServed, with_member-MembersServed,
}
use boilerplate_nestjs_api.Messaging.Broker.Turns.{
  begin_pass-MemberServed, read-MemberServed, settled-MemberServed, handling_of-Served,
}

-- What happens to a group whose members all read from the beginning. A rebalance deals out the partitions
-- that there are by then, and a read sees the logs as they are by then.
pub data Call : Type 0 where
  joins : (id : ℕ) → (topics : List String) → (partitions : List Partition) → Call
  leaves : (id : ℕ) → (partitions : List Partition) → Call
  stops : (id : ℕ) → Call
  begins : (id : ℕ) → Call
  reads : (id : ℕ) → (log_length : Partition → Option ℕ) → Call
  settles : (id : ℕ) → (ok : Bool) → Call

pub apply : Call → Group → Group
unfolding join leave stop begin_next read_next settle
apply (joins id topics partitions) group = join id topics true partitions group
apply (leaves id partitions) group = leave id partitions group
apply (stops id) group = stop id group
apply (begins id) group = begin_next id group
apply (reads id log_length) group = read_next id log_length group
apply (settles id ok) group = settle id ok group

unfoldable pub run : List Call → Group → Group
unfolding apply
run [] group = group
run (call ∷ calls) group = run calls (apply call group)

settled-MembersServed :
    (handled : Offsets) (id : ℕ) (ok : Bool) (members : List Member)
    → MembersServed handled members
    → ((reading : Partition × ℕ)
        → ok ≡ true
        → handling_of id members ≡ some reading
        → Served handled reading.0 (reading.1 + 1))
    → MembersServed handled (with_member id (settled ok) members)
unfolding with_member handling_of
settled-MembersServed handled id ok [] all after = tt
settled-MembersServed handled id ok (m ∷ members) all after = elim (Bool-cases (m.id == id)) [
  | inl here ↦ rw here (
    settled-MemberServed handled ok m all.0
        (λ reading good at. after reading good (rw (here, at) refl)),
    all.1,
  )
  | inr other ↦ rw other (
    all.0,
    settled-MembersServed handled id ok members all.1
        (λ reading good at. after reading good (rw (other, at) refl)),
  )
]

settle-GroupServed :
    (id : ℕ) (ok : Bool) (group : Group) → GroupServed group → GroupServed (settle id ok group)
unfolding settle
settle-GroupServed id ok group all = elim (Option-cases (handling_of id group.members)) [
  | inl idle ↦
      rw (settle, idle)
        (
          all.0,
          settled-MembersServed group.handled id ok group.members all.1 (λ reading good at. cc),
        )
  | inr busy ↦ elim (Bool-cases ok) [
    | inl good ↦
        let below =
          subst (ReadingServed group.handled) busy.1
            (handling_of-Served group.handled id group.members all.1) in
        let next = next-Served group.handled busy.0 below in
        rw (settle, busy.1, good)
          (
            set_offset-AllServed (busy.0 ∷ group.handled) busy.0.0 (busy.0.1 + 1) group.committed
                (more-AllServed busy.0 group.handled group.committed all.0) next,
            settled-MembersServed (busy.0 ∷ group.handled) id true group.members
                (more-MembersServed busy.0 group.handled group.members all.1)
                (λ reading okay at.
                  subst (λ (r : Partition × ℕ). Served (busy.0 ∷ group.handled) r.0 (r.1 + 1)) (cc)
                    next),
          )
    | inr bad ↦
        rw (settle, busy.1, bad)
          (
            all.0,
            settled-MembersServed group.handled id false group.members all.1
                (λ reading okay at. cc),
          )
  ]
]

rebalance-GroupServed :
    (partitions : List Partition) (group : Group)
    → GroupServed group
    → GroupServed (rebalance partitions group)
unfolding rebalance
rebalance-GroupServed partitions group all =
    (all.0, reassign-MembersServed group.handled _ 0 partitions group.members all.1)

apply-GroupServed :
    (call : Call) (group : Group) → GroupServed group → GroupServed (apply call group)
unfolding apply join leave stop begin_next read_next
apply-GroupServed (joins id topics partitions) group all =
    rebalance-GroupServed partitions _
      (all.0, append-MembersServed group.handled group.members _ all.1 (tt, tt, refl))
apply-GroupServed (leaves id partitions) group all =
    rebalance-GroupServed partitions _
      (all.0, without-MembersServed group.handled id group.members all.1)
apply-GroupServed (stops id) group all =
    (all.0, with_member-MembersServed group.handled id _ group.members (λ m served. served) all.1)
apply-GroupServed (begins id) group all = (
  all.0,
  with_member-MembersServed group.handled id begin_pass group.members
      (begin_pass-MemberServed group.handled) all.1,
)
apply-GroupServed (reads id log_length) group all = (
  all.0,
  with_member-MembersServed group.handled id (read group.committed log_length) group.members
      (λ m served. read-MemberServed group.handled group.committed log_length m all.0 served) all.1,
)
apply-GroupServed (settles id ok) group all = settle-GroupServed id ok group all

run-GroupServed :
    (calls : List Call) (group : Group) → GroupServed group → GroupServed (run calls group)
unfolding run
run-GroupServed [] group all = all
run-GroupServed (call ∷ calls) group all =
    run-GroupServed calls (apply call group) (apply-GroupServed call group all)

-- In a group whose members read from the beginning, after any members have joined, stopped or left, with
-- the partitions dealt out anew each time, and after any reads, of logs of any lengths, and any handlers
-- that resolved or failed, in any order: where an offset is committed for a partition, the handlers have
-- resolved for every record of the partition below it.
pub commits_handled :
    (calls : List Call) (p : Partition) (offset k : ℕ)
    → offset_of p (run calls empty_group).committed ≡ some offset
    → k < offset
    → was_handled p k (run calls empty_group).handled ≡ true
commits_handled calls p offset k committed below =
    offset_of-Served (run calls empty_group).handled p (run calls empty_group).committed offset
      (run-GroupServed calls empty_group (tt, tt)).0 committed k below
