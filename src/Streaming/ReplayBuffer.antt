-- ===== src/Streaming/ReplayBuffer.antt =====
-- src/streaming/replay-buffer.ts: a ring of fixed capacity, indexed by the number of appends.
pub mod Window
use boilerplate_nestjs_api.Prelude.{
  ℕ, zero, suc, ◌+◌, ◌-◌, ◌%◌, List, [], ◌∷◌, Option, none, some, ltb, length, get_elem?, set,
  replicate, if◌then◌else◌,
}

pub record Sequenced (E : Type 0) : Type 0 where
  pub seq : ℕ
  pub event : E

pub record ReplayBuffer (E : Type 0) : Type 0 where
  pub capacity : ℕ
  pub slots : List (Option (Sequenced E))
  pub appended : ℕ

module _ {E : Type 0} where
  -- The constructor refuses a capacity of zero.
  unfoldable pub new : ℕ → Option (ReplayBuffer E)
  new capacity =
      if ltb capacity 1
      then none
      else some (record { capacity = capacity; slots = replicate capacity none; appended = 0 })

  unfoldable pub append : Sequenced E → ReplayBuffer E → ReplayBuffer E
  append entry b = record b {
    slots = set b.slots (b.appended % b.capacity) (some entry);
    appended = b.appended + 1;
  }

  -- `Math.max(0, appended - capacity)`
  abbrev pub oldest_index : ReplayBuffer E → ℕ
  oldest_index b = b.appended - b.capacity

  -- A slot that was never written reads as `undefined`, and so does one out of range.
  abbrev pub slot : ReplayBuffer E → ℕ → Option (Sequenced E)
  slot b i = elim (get_elem? b.slots (i % b.capacity)) [ none ↦ none | some content ↦ content ]

  pub oldest_seq : ReplayBuffer E → Option ℕ
  oldest_seq b = elim (slot b (oldest_index b)) [ none ↦ none | some entry ↦ some entry.seq ]

  -- The loop from `i` on, with `rounds` rounds to go.
  since_from : ReplayBuffer E → ℕ → ℕ → ℕ → List (Sequenced E)
  since_from b seq zero i = []
  since_from b seq (suc rounds) i =
      let rest = since_from b seq rounds (i + 1) in
      elim (slot b i) [
        | none ↦ rest
        | some entry ↦ if ltb seq entry.seq then entry ∷ rest else rest
      ]

  pub since : ℕ → ReplayBuffer E → List (Sequenced E)
  unfolding since_from
  since seq b = since_from b seq (b.appended - oldest_index b) (oldest_index b)
