-- ===== src/Messaging/Broker.antt =====
-- src/messaging/in-memory-broker.ts: the groups that read its logs. The
-- pump of a member is a step that reads a record and one that settles it, between which anything may
-- happen; the waiting and waking of the pumps is left out.
pub mod Assignment
pub mod AtLeastOnce
pub mod Calls
pub mod Logs
pub mod Turns
mod Tests
use boilerplate_nestjs_api.Prelude.{
  ℕ, zero, suc, ◌+◌, ◌*◌, ◌^◌, ◌%◌, Utf16, String, Bool, true, false, ◌&&◌, ◌||◌, not, List, [],
  ◌∷◌, ◌++◌, Option, none, some, ltb, leb, ◌==◌, str_eq, length, get_elem?, set, replicate, Dict,
  lookup, insert, if◌then◌else◌,
}

-- `topic#partition`
pub record Partition : Type 0 where
  pub topic : String
  pub number : ℕ

abbrev pub same_partition : Partition → Partition → Bool
same_partition a b = str_eq a.topic b.topic && a.number == b.number

-- A `Map` from partitions to offsets.
abbrev pub Offsets : Type 0
Offsets = List (Partition × ℕ)

pub offset_of : Partition → Offsets → Option ℕ
offset_of p [] = none
offset_of p (entry ∷ offsets) =
    if same_partition entry.0 p then some entry.1 else offset_of p offsets

pub set_offset : Partition → ℕ → Offsets → Offsets
set_offset p offset [] = (p, offset) ∷ []
set_offset p offset (entry ∷ offsets) =
    if same_partition entry.0 p
    then (entry.0, offset) ∷ offsets
    else entry ∷ set_offset p offset offsets

pub holds : Partition → List Partition → Bool
holds p [] = false
holds p (q ∷ assigned) = same_partition q p || holds p assigned

-- The read positions of the partitions that are still held.
pub kept_positions : List Partition → Offsets → Offsets
unfolding holds
kept_positions assigned [] = []
kept_positions assigned (entry ∷ positions) =
    let rest = kept_positions assigned positions in
    if holds entry.0 assigned then entry ∷ rest else rest

pub record Member : Type 0 where
  pub id : ℕ
  pub topics : List String
  pub from_beginning : Bool
  pub assigned : List Partition
  pub positions : Offsets
  pub stopped : Bool
  -- what is left of the list of partitions that the pump goes through, which a rebalance leaves as it is
  pub pass : List Partition
  -- the record that the handler of the pump is at, if any
  pub handling : Option (Partition × ℕ)

-- `handled` is what the handlers of the group have resolved for, for the properties only.
pub record Group : Type 0 where
  pub committed : Offsets
  pub members : List Member
  pub handled : Offsets

-- The partitions that stand at the places of a member, out of so many.
pub deal : ℕ → ℕ → ℕ → List Partition → List Partition
deal members index place [] = []
deal members index place (p ∷ partitions) =
    let rest = deal members index (place + 1) partitions in
    if place % members == index then p ∷ rest else rest

abbrev pub reassigned : ℕ → ℕ → List Partition → Member → Member
reassigned members index partitions member = record member {
  assigned = deal members index 0 partitions;
  positions = kept_positions (deal members index 0 partitions) member.positions;
}

pub reassign : ℕ → ℕ → List Partition → List Member → List Member
reassign members index partitions [] = []
reassign members index partitions (m ∷ rest) =
    reassigned members index partitions m ∷ reassign members (index + 1) partitions rest

pub rebalance : List Partition → Group → Group
unfolding reassign deal kept_positions
rebalance partitions group = record group {
  members = reassign (length group.members) 0 partitions group.members;
}

abbrev pub empty_group : Group
empty_group = record { committed = []; members = []; handled = [] }

pub join : ℕ → List String → Bool → List Partition → Group → Group
unfolding rebalance
join id topics from_beginning partitions group = rebalance partitions (record group {
  members =
      group.members
      ++ record {
        id = id;
        topics = topics;
        from_beginning = from_beginning;
        assigned = [];
        positions = [];
        stopped = false;
        pass = [];
        handling = none;
      }
        ∷ [];
})

pub without : ℕ → List Member → List Member
without id [] = []
without id (m ∷ rest) = let others = without id rest in if m.id == id then others else m ∷ others

pub leave : ℕ → List Partition → Group → Group
unfolding without rebalance
leave id partitions group =
    rebalance partitions (record group { members = without id group.members })

-- A change of the member of a number.
pub with_member : ℕ → (Member → Member) → List Member → List Member
with_member id change [] = []
with_member id change (m ∷ rest) =
    if m.id == id then change m ∷ rest else m ∷ with_member id change rest

pub stop : ℕ → Group → Group
unfolding with_member
stop id group = record group {
  members = with_member id (λ m. record m { stopped = true }) group.members;
}

abbrev pub or_start : Option ℕ → Option ℕ → Bool → ℕ → ℕ
or_start (some position) committed from_beginning length = position
or_start none (some offset) from_beginning length = offset
or_start none none from_beginning length = if from_beginning then 0 else length

-- Where the member reads the partition from.
pub read_from : Offsets → ℕ → Partition → Member → ℕ
unfolding offset_of
read_from committed length p m =
    or_start (offset_of p m.positions) (offset_of p committed) m.from_beginning length

abbrev pub is_idle : Option (Partition × ℕ) → Bool
is_idle none = true
is_idle (some reading) = false

abbrev pub is_empty : List Partition → Bool
is_empty [] = true
is_empty (p ∷ pass) = false

-- The pump starts on the partitions that it holds by now.
pub begin_pass : Member → Member
begin_pass m =
    if not m.stopped && (is_idle m.handling && is_empty m.pass)
    then record m { pass = m.assigned }
    else m

-- A partition whose log has so many records, up to the call of the handler.
pub turn : Offsets → Option ℕ → Partition → Member → Member
unfolding read_from set_offset
turn committed none p m = m
turn committed (some length) p m = record m {
  positions = set_offset p (read_from committed length p m) m.positions;
  handling =
      if ltb (read_from committed length p m) length
      then some (p, read_from committed length p m)
      else none;
}

-- The next partition of the pass, unless the handler is still at a record.
pub read : Offsets → (Partition → Option ℕ) → Member → Member
unfolding turn
read committed log_length m = elim m.pass [
  | [] ↦ m
  | p ∷ rest ↦
      if m.stopped
      then record m { pass = [] }
      else if is_idle m.handling
      then turn committed (log_length p) p (record m { pass = rest })
      else m
]

-- The rest of it: the handler has resolved, or it has failed or run out of time.
pub settled : Bool → Member → Member
unfolding set_offset
settled ok m = elim m.handling [
  | none ↦ m
  | some reading ↦
      if ok
      then record m {
        positions = set_offset reading.0 (reading.1 + 1) m.positions;
        handling = none;
      }
      else record m { handling = none }
]

pub handling_of : ℕ → List Member → Option (Partition × ℕ)
handling_of id [] = none
handling_of id (m ∷ rest) = if m.id == id then m.handling else handling_of id rest

pub settle : ℕ → Bool → Group → Group
unfolding handling_of with_member settled set_offset
settle id ok group = record group {
  committed = elim (handling_of id group.members) [
    | none ↦ group.committed
    | some reading ↦
        if ok then set_offset reading.0 (reading.1 + 1) group.committed else group.committed
  ];
  members = with_member id (settled ok) group.members;
  handled = elim (handling_of id group.members) [
    | none ↦ group.handled
    | some reading ↦ if ok then reading ∷ group.handled else group.handled
  ];
}

pub begin_next : ℕ → Group → Group
unfolding with_member begin_pass
begin_next id group = record group { members = with_member id begin_pass group.members }

pub read_next : ℕ → (Partition → Option ℕ) → Group → Group
unfolding with_member read
read_next id log_length group = record group {
  members = with_member id (read group.committed log_length) group.members;
}
