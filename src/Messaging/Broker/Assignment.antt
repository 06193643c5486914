-- ===== src/Messaging/Broker/Assignment.antt =====
-- That a rebalance of src/messaging/in-memory-broker.ts hands out every partition once.
use boilerplate_nestjs_api.Prelude.{
  ℕ, zero, suc, ◌+◌, ◌%◌, ◌<◌, ◌≡◌, refl, inl, inr, ◌&&◌, List, [], ◌∷◌, arith, length, ltb, leb,
  ◌==◌, Bool-cases, if◌then◌else◌,
}
use boilerplate_nestjs_api.Messaging.Broker.{
  Partition, same_partition, Member, Group, deal, reassign, rebalance,
}

-- How many times the partition is in the list.
abbrev pub times : Partition → List Partition → ℕ
times p [] = 0
times p (q ∷ partitions) = (if same_partition q p then 1 else 0) + times p partitions

-- How many times the members together hold it.
abbrev pub holders : Partition → List Member → ℕ
holders p [] = 0
holders p (m ∷ members) = times p m.assigned + holders p members

-- What so many members from a number on are dealt.
abbrev dealt : Partition → ℕ → ℕ → ℕ → ℕ → List Partition → ℕ
dealt p count index zero place partitions = 0
dealt p count index (suc k) place partitions =
    times p (deal count index place partitions) + dealt p count (index + 1) k place partitions

holders-reassign :
    (p : Partition) (count index : ℕ) (partitions : List Partition) (members : List Member)
    → holders p (reassign count index partitions members)
      ≡ dealt p count index (length members) 0 partitions
unfolding reassign
holders-reassign p count index partitions [] = refl
holders-reassign p count index partitions (m ∷ members) =
    rw (holders-reassign p count (index + 1) partitions members) refl

dealt-nil : (p : Partition) (count index k place : ℕ) → dealt p count index k place [] ≡ 0
unfolding deal
dealt-nil p count index zero place = refl
dealt-nil p count index (suc k) place = ground (arith, dealt-nil p count (index + 1) k place)

-- One partition more goes to the member whose number its place gives, where that is among them.
dealt-cons :
    (p q : Partition) (count index k place : ℕ) (partitions : List Partition)
    → dealt p count index k place (q ∷ partitions)
      ≡ (if leb index (place % count) && ltb (place % count) (index + k)
          then times p (q ∷ [])
          else 0)
        + dealt p count index k (place + 1) partitions
unfolding deal
dealt-cons p q count index zero place partitions = ground arith
dealt-cons p q count index (suc k) place partitions =
    let rest = dealt-cons p q count (index + 1) k place partitions in
    elim (Bool-cases (place % count == index)) [
      | inl here ↦ ground (arith, rest, here)
      | inr other ↦ ground (arith, rest, other)
    ]

dealt-times :
    (p : Partition) (count place : ℕ) (partitions : List Partition)
    → 0 < count
    → dealt p count 0 count place partitions ≡ times p partitions
dealt-times p count place [] members = dealt-nil p count 0 count place
dealt-times p count place (q ∷ partitions) members =
    let rest = dealt-times p count (place + 1) partitions members in
    let first = dealt-cons p q count 0 count place partitions in
    ground (arith, rest, first, members)

-- After a rebalance of a group that has members, its members together hold each partition as often as the
-- list of partitions has it: once, where the list has it once, and never, where it has not.
pub rebalance_hands_out :
    (p : Partition) (partitions : List Partition) (group : Group)
    → 0 < length group.members
    → holders p (rebalance partitions group).members ≡ times p partitions
unfolding rebalance
rebalance_hands_out p partitions group some_member =
    rw (holders-reassign p (length group.members) 0 partitions group.members)
      (dealt-times p (length group.members) 0 partitions some_member)
