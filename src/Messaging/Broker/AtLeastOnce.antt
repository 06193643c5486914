-- ===== src/Messaging/Broker/AtLeastOnce.antt =====
-- That src/messaging/in-memory-broker.ts commits nothing that was not handled.
use boilerplate_nestjs_api.Prelude.{
  ℕ, ◌+◌, ◌<◌, ◌≡◌, sym, subst, inl, inr, Bool, true, false, ◌&&◌, ◌||◌, List, [], ◌∷◌, ◌++◌,
  Option, none, some, arith, eq_iff, ◌==◌, Bool-cases,
}
use boilerplate_nestjs_api.Messaging.Broker.{
  Partition, same_partition, Offsets, offset_of, set_offset, holds, kept_positions, Member, Group,
  deal, reassign, without, with_member,
}

-- The handlers have resolved for the record.
abbrev pub was_handled : Partition → ℕ → Offsets → Bool
was_handled p k [] = false
was_handled p k (entry ∷ handled) =
    (same_partition entry.0 p && entry.1 == k) || was_handled p k handled

-- They have for every record below the offset.
abbrev pub Served : Offsets → Partition → ℕ → Type 0
Served handled p offset = (k : ℕ) → k < offset → was_handled p k handled ≡ true

abbrev pub AllServed : Offsets → Offsets → Type 0
AllServed handled [] = Unit {0}
AllServed handled (entry ∷ offsets) = Served handled entry.0 entry.1 × AllServed handled offsets

abbrev pub ReadingServed : Offsets → Option (Partition × ℕ) → Type 0
ReadingServed handled none = Unit {0}
ReadingServed handled (some reading) = Served handled reading.0 reading.1

abbrev pub MemberServed : Offsets → Member → Type 0
MemberServed handled m =
    AllServed handled m.positions × ReadingServed handled m.handling × (m.from_beginning ≡ true)

abbrev pub MembersServed : Offsets → List Member → Type 0
MembersServed handled [] = Unit {0}
MembersServed handled (m ∷ members) = MemberServed handled m × MembersServed handled members

abbrev pub GroupServed : Group → Type 0
GroupServed group =
    AllServed group.handled group.committed × MembersServed group.handled group.members

same_partition-refl_or :
    (p : Partition) (a b : Bool) → a ≡ true → ((same_partition p p && a) || b) ≡ true
same_partition-refl_or p a b h = ground (arith, eq_iff p.topic p.topic, h)

more-was_handled :
    (reading : Partition × ℕ) (handled : Offsets) (p : Partition) (k : ℕ)
    → was_handled p k handled ≡ true
    → was_handled p k (reading ∷ handled) ≡ true
more-was_handled reading handled p k h = ground (arith, h)

same_partition-eq : (p q : Partition) → same_partition p q ≡ true → p ≡ q
same_partition-eq p q h = ground (arith, eq_iff p.topic q.topic)

pub offset_of-Served :
    (handled : Offsets) (p : Partition) (offsets : Offsets) (offset : ℕ)
    → AllServed handled offsets
    → offset_of p offsets ≡ some offset
    → Served handled p offset
unfolding offset_of
offset_of-Served handled p [] offset all h = cc
offset_of-Served handled p (entry ∷ offsets) offset all h =
    elim (Bool-cases (same_partition entry.0 p)) [
      | inl here ↦
          subst (λ q. Served handled q offset) (same_partition-eq entry.0 p here)
            (subst (Served handled entry.0) (ground (arith, h, here)) all.0)
      | inr other ↦ offset_of-Served handled p offsets offset all.1 (ground (arith, h, other))
    ]

pub set_offset-AllServed :
    (handled : Offsets) (p : Partition) (offset : ℕ) (offsets : Offsets)
    → AllServed handled offsets
    → Served handled p offset
    → AllServed handled (set_offset p offset offsets)
unfolding set_offset
set_offset-AllServed handled p offset [] all this = (this, tt)
set_offset-AllServed handled p offset (entry ∷ offsets) all this =
    elim (Bool-cases (same_partition entry.0 p)) [
      | inl here ↦ rw here (
        subst (λ q. Served handled q offset) (sym (same_partition-eq entry.0 p here)) this,
        all.1,
      )
      | inr other ↦ rw other (all.0, set_offset-AllServed handled p offset offsets all.1 this)
    ]

pub kept_positions-AllServed :
    (handled : Offsets) (assigned : List Partition) (positions : Offsets)
    → AllServed handled positions
    → AllServed handled (kept_positions assigned positions)
unfolding kept_positions
kept_positions-AllServed handled assigned [] all = tt
kept_positions-AllServed handled assigned (entry ∷ positions) all =
    let rest = kept_positions-AllServed handled assigned positions all.1 in
    elim (Bool-cases (holds entry.0 assigned)) [
      | inl here ↦ rw here (all.0, rest)
      | inr gone ↦ rw gone rest
    ]

pub reassign-MembersServed :
    (handled : Offsets) (count index : ℕ) (partitions : List Partition) (members : List Member)
    → MembersServed handled members
    → MembersServed handled (reassign count index partitions members)
unfolding reassign
reassign-MembersServed handled count index partitions [] all = tt
reassign-MembersServed handled count index partitions (m ∷ members) all = (
  (
    kept_positions-AllServed handled (deal count index 0 partitions) m.positions all.0.0,
    all.0.1,
    all.0.2,
  ),
  reassign-MembersServed handled count (index + 1) partitions members all.1,
)

pub append-MembersServed :
    (handled : Offsets) (members : List Member) (m : Member)
    → MembersServed handled members
    → MemberServed handled m
    → MembersServed handled (members ++ m ∷ [])
append-MembersServed handled [] m all one = (one, tt)
append-MembersServed handled (n ∷ members) m all one =
    (all.0, append-MembersServed handled members m all.1 one)

pub without-MembersServed :
    (handled : Offsets) (id : ℕ) (members : List Member)
    → MembersServed handled members
    → MembersServed handled (without id members)
unfolding without
without-MembersServed handled id [] all = tt
without-MembersServed handled id (m ∷ members) all =
    let rest = without-MembersServed handled id members all.1 in
    elim (Bool-cases (m.id == id)) [ inl here ↦ rw here rest | inr other ↦ rw other (all.0, rest) ]

pub with_member-MembersServed :
    (handled : Offsets) (id : ℕ) (change : Member → Member) (members : List Member)
    → ((m : Member) → MemberServed handled m → MemberServed handled (change m))
    → MembersServed handled members
    → MembersServed handled (with_member id change members)
unfolding with_member
with_member-MembersServed handled id change [] keeps all = tt
with_member-MembersServed handled id change (m ∷ members) keeps all =
    elim (Bool-cases (m.id == id)) [
      | inl here ↦ rw here (keeps m all.0, all.1)
      | inr other ↦
          rw other (all.0, with_member-MembersServed handled id change members keeps all.1)
    ]

-- More records handled serve no fewer offsets.
pub more-AllServed :
    (reading : Partition × ℕ) (handled offsets : Offsets)
    → AllServed handled offsets
    → AllServed (reading ∷ handled) offsets
more-AllServed reading handled [] all = tt
more-AllServed reading handled (entry ∷ offsets) all = (
  λ k below. more-was_handled reading handled entry.0 k (all.0 k below),
  more-AllServed reading handled offsets all.1,
)

more-ReadingServed :
    (reading : Partition × ℕ) (handled : Offsets) (handling : Option (Partition × ℕ))
    → ReadingServed handled handling
    → ReadingServed (reading ∷ handled) handling
more-ReadingServed reading handled none served = tt
more-ReadingServed reading handled (some at) served =
    λ k below. more-was_handled reading handled at.0 k (served k below)

pub more-MembersServed :
    (reading : Partition × ℕ) (handled : Offsets) (members : List Member)
    → MembersServed handled members
    → MembersServed (reading ∷ handled) members
more-MembersServed reading handled [] all = tt
more-MembersServed reading handled (m ∷ members) all = (
  (
    more-AllServed reading handled m.positions all.0.0,
    more-ReadingServed reading handled m.handling all.0.1,
    all.0.2,
  ),
  more-MembersServed reading handled members all.1,
)

-- The record that was just handled serves the offset after it.
pub next-Served :
    (handled : Offsets) (reading : Partition × ℕ)
    → Served handled reading.0 reading.1
    → Served (reading ∷ handled) reading.0 (reading.1 + 1)
next-Served handled reading served k below = elim (Bool-cases (reading.1 == k)) [
  | inl here ↦
      same_partition-refl_or reading.0 (reading.1 == k) (was_handled reading.0 k handled) here
  | inr other ↦
      more-was_handled reading handled reading.0 k (served k (ground (arith, below, other)))
]
