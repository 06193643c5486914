-- ===== src/Streaming/ReplayBuffer/Window.antt =====
-- The ring of src/streaming/replay-buffer.ts is the end of the list of all that was appended.
use native.Mathlib.Nat.{mod-eq_of_lt, mod-lt, div-add-mod'}
use native.Mathlib.Decide.{dec_lt}
use native.Mathlib.Numerals.{add-one}
use boilerplate_nestjs_api.Prelude.{
  ℕ, zero, suc, ◌+◌, ◌-◌, ◌*◌, ◌/◌, ◌%◌, ◌≤◌, ◌<◌, ◌≡◌, ◌≢◌, refl, sym, ap, ◌∙◌, inl, inr, List, [],
  ◌∷◌, ◌++◌, Option, none, some, arith, ltb, length, get_elem?, drop, select, replicate,
  length-replicate, get_elem?-some, subst, length-append, length-set, get_elem?-set_self,
  get_elem?-set_ne, get_elem?-lt, Bool-cases,
}
use boilerplate_nestjs_api.Streaming.ReplayBuffer.{
  Sequenced, ReplayBuffer, new, append, oldest_index, oldest_seq, since_from, since,
}

-- Two indices less than a capacity apart have different slots.
slots_apart : (i j c : ℕ) → 0 < c → i < j → j < i + c → i % c ≢ j % c
slots_apart i j c pos lt near e = elim (dec_lt (i / c) (j / c)) [
  | yes up ↦
      let more : (i / c + 1) * c ≤ j / c * c = grind arith in
      absurd (omega (arith, div-add-mod' i c, div-add-mod' j c, more))
  | no up ↦
      let less : j / c * c ≤ i / c * c = grind arith in
      absurd (omega (arith, div-add-mod' i c, div-add-mod' j c, less))
]

module _ {E : Type 0} where
  -- The buffer has been given this history, oldest first.
  pub record Holds (b : ReplayBuffer E) (history : List (Sequenced E)) : Type 0 where
    pub room : 0 < b.capacity
    pub sized : length b.slots ≡ b.capacity
    pub counted : b.appended ≡ length history
    pub kept :
        (i : ℕ)
        → b.appended ≤ i + b.capacity
        → i < b.appended
        → get_elem? b.slots (i % b.capacity) ≡ some (get_elem? history i)
    pub blank : b.appended ≡ 0 → get_elem? b.slots 0 ≡ some none

  get_elem?-append_last :
      (xs : List (Sequenced E)) (x : Sequenced E) → get_elem? (xs ++ x ∷ []) (length xs) ≡ some x
  get_elem?-append_last [] x = refl
  get_elem?-append_last (y ∷ xs) x = get_elem?-append_last xs x

  get_elem?-append_left :
      (xs ys : List (Sequenced E)) (i : ℕ) → i < length xs → get_elem? (xs ++ ys) i ≡ get_elem? xs i
  get_elem?-append_left [] ys i h = elim h [ ]
  get_elem?-append_left (x ∷ xs) ys zero h = refl
  get_elem?-append_left (x ∷ xs) ys (suc i) h = get_elem?-append_left xs ys i (omega arith)

  pub append-Holds :
      (b : ReplayBuffer E) (history : List (Sequenced E)) (entry : Sequenced E)
      → Holds b history
      → Holds (append entry b) (history ++ entry ∷ [])
  unfolding append
  append-Holds b history entry h = record {
    room = h.room;
    sized = length-set b.slots (b.appended % b.capacity) (some entry) ∙ h.sized;
    counted = omega (arith, length-append history (entry ∷ []), h.counted);
    kept = λ i low high. elim (dec_lt i b.appended) [
      | yes older ↦
          get_elem?-set_ne b.slots (b.appended % b.capacity) (i % b.capacity) (some entry)
            (λ e. slots_apart i b.appended b.capacity h.room older (omega (arith, low)) (sym e))
          ∙ h.kept i (omega (arith, low)) older
          ∙ ap some
              (sym (get_elem?-append_left history (entry ∷ []) i (omega (arith, h.counted, older))))
      | no newest ↦
          let same : i ≡ b.appended = omega (arith, high, newest) in
          rw same (
            get_elem?-set_self b.slots (b.appended % b.capacity) (some entry)
              (omega (arith, h.sized, h.room, mod-lt b.appended h.room))
            ∙ ap some (
                sym (get_elem?-append_last history entry)
                ∙ ap (get_elem? (history ++ entry ∷ [])) (sym h.counted)))
    ];
    blank = λ e. absurd (omega (arith, e));
  }

  first_blank :
      (n : ℕ) → 0 < n → get_elem? {A = Option (Sequenced E)} (replicate n none) 0 ≡ some none
  first_blank zero h = elim h [ ]
  first_blank (suc n) h = refl

  pub new-Holds : (capacity : ℕ) (b : ReplayBuffer E) → new capacity ≡ some b → Holds b []
  unfolding new
  new-Holds capacity b h = elim (Bool-cases (ltb capacity 1)) [
    | inl refused ↦ absurd (ground (arith, refused))
    | inr fine ↦
        let made : (record { capacity = capacity; slots = replicate capacity none; appended = 0 })
            ≡ b =
          ground (arith, fine) in
        subst (λ x. Holds x []) made
          (record {
            room = ground (arith, fine);
            sized = length-replicate capacity none;
            counted = refl;
            kept = λ i low high. absurd (omega (arith, high));
            blank = λ e. first_blank capacity (ground (arith, fine));
          })
  ]

  drop-past : (xs : List (Sequenced E)) (i : ℕ) → length xs ≤ i → drop i xs ≡ []
  drop-past [] zero h = refl
  drop-past [] (suc i) h = refl
  drop-past (x ∷ xs) zero h = elim h [ ]
  drop-past (x ∷ xs) (suc i) h = drop-past xs i (omega arith)

  drop-get_elem? :
      (xs : List (Sequenced E)) (i : ℕ) {x : Sequenced E}
      → get_elem? xs i ≡ some x
      → drop i xs ≡ x ∷ drop (suc i) xs
  drop-get_elem? [] i h = absurd (cc h)
  drop-get_elem? (y ∷ xs) zero h = ground arith
  drop-get_elem? (y ∷ xs) (suc i) h = drop-get_elem? xs i h

  since_from-select :
      (b : ReplayBuffer E) (history : List (Sequenced E)) (seq rounds i : ℕ)
      → Holds b history
      → b.appended ≤ i + b.capacity
      → i + rounds ≡ b.appended
      → since_from b seq rounds i ≡ select (λ entry. ltb seq entry.seq) (drop i history)
  unfolding since_from
  since_from-select b history seq zero i h low e =
      ap (select (λ entry. ltb seq entry.seq))
        (sym (drop-past history i (omega (arith, h.counted))))
  since_from-select b history seq (suc rounds) i h low e =
      let (x, found) = get_elem?-some history i (omega (arith, h.counted)) in
      let kept = h.kept i low (omega arith) in
      let rest = since_from-select b history seq rounds (i + 1) h (omega arith) (omega arith) in
      rw (drop-get_elem? history i found)
        (ground (arith, kept, found, rest, ap (λ (k : ℕ). drop k history) (add-one i)))

  -- A window that has been given a history returns, of its last `capacity` events, those after the
  -- position, oldest first.
  pub since-select :
      (b : ReplayBuffer E) (history : List (Sequenced E)) (seq : ℕ)
      → Holds b history
      → since seq b
        ≡ select (λ entry. ltb seq entry.seq) (drop (length history - b.capacity) history)
  unfolding since
  since-select b history seq h =
      since_from-select b history seq (b.appended - oldest_index b) (oldest_index b) h (omega arith)
        (omega arith)
      ∙ ap (λ (k : ℕ). select (λ entry. ltb seq entry.seq) (drop (k - b.capacity) history))
          h.counted

  -- The oldest position of a window that has been given something, and of one that has not.
  pub oldest_seq-some :
      (b : ReplayBuffer E) (history : List (Sequenced E)) (entry : Sequenced E)
      → Holds b history
      → get_elem? history (length history - b.capacity) ≡ some entry
      → oldest_seq b ≡ some entry.seq
  unfolding oldest_seq
  oldest_seq-some b history entry h found =
      let there = get_elem?-lt history (length history - b.capacity) found in
      let kept = h.kept (oldest_index b) (omega arith) (omega (arith, there, h.counted)) in
      let same : get_elem? history (oldest_index b) ≡ some entry =
        ap (λ (k : ℕ). get_elem? history (k - b.capacity)) h.counted ∙ found in
      ground (arith, kept, same)

  pub oldest_seq-none : (b : ReplayBuffer E) → Holds b [] → oldest_seq b ≡ none
  unfolding oldest_seq
  oldest_seq-none b h =
      let first : oldest_index b % b.capacity ≡ 0 =
        ap (λ (k : ℕ). k % b.capacity) (omega (arith, h.counted)) ∙ mod-eq_of_lt h.room in
      let blank = ap (get_elem? b.slots) first ∙ h.blank h.counted in ground (arith, blank)
