-- ===== src/Streaming/Hub/CatchUp.antt =====
-- A client that resumes a stream of src/streaming/event-stream.service.ts misses nothing.
use mathlib.Core.List.{append-nil}
use boilerplate_nestjs_api.Prelude.{
  same_text, ℕ, zero, suc, ◌+◌, ◌-◌, ◌≤◌, ◌≡◌, refl, sym, ap, ◌∙◌, true, List, [], ◌∷◌, ◌++◌, none,
  some, arith, ltb, length, get_elem?, get_elem?-some, drop, select, Utf16, if◌then◌else◌, subst,
}
use boilerplate_nestjs_api.Streaming.ReplayBuffer.{
  Sequenced, ReplayBuffer, new, append, oldest_seq, since,
}
use boilerplate_nestjs_api.Streaming.ReplayBuffer.Window.{
  Holds, append-Holds, new-Holds, since-select, oldest_seq-some, oldest_seq-none,
}
use boilerplate_nestjs_api.Streaming.Cursor.{StreamCursor}
use boilerplate_nestjs_api.Streaming.Hub.{
  EventStreamHub, cursor_ahead, buffer_evicted, new_hub, record_event, record_all, evicted,
  resume_from, evicted,
}

module _ {E : Type 0} where
  -- The events, numbered from one past the base.
  abbrev pub numbered : ℕ → List E → List (Sequenced E)
  numbered base [] = []
  numbered base (event ∷ events) =
      record { seq = base + 1; event = event } ∷ numbered (base + 1) events

  length-numbered : (base : ℕ) (events : List E) → length (numbered base events) ≡ length events
  length-numbered base [] = refl
  length-numbered base (event ∷ events) = ap suc (length-numbered (base + 1) events)

  seq-numbered :
      (base : ℕ) (events : List E) (i : ℕ) {entry : Sequenced E}
      → get_elem? (numbered base events) i ≡ some entry
      → entry.seq ≡ base + i + 1
  seq-numbered base [] i h = absurd (cc h)
  seq-numbered base (event ∷ events) zero h = ground arith
  seq-numbered base (event ∷ events) (suc i) h = omega (arith, seq-numbered (base + 1) events i h)

  drop-numbered :
      (k base : ℕ) (events : List E)
      → drop k (numbered base events) ≡ numbered (base + k) (drop k events)
  drop-numbered zero base events = ap (λ (b : ℕ). numbered b events) (omega arith)
  drop-numbered (suc k) base [] = refl
  drop-numbered (suc k) base (event ∷ events) =
      drop-numbered k (base + 1) events ∙ ap (λ (b : ℕ). numbered b (drop k events)) (omega arith)

  drop-nil : (n : ℕ) → drop {A = E} n [] ≡ []
  drop-nil zero = refl
  drop-nil (suc n) = refl

  drop-drop : (j k : ℕ) (events : List E) → drop j (drop k events) ≡ drop (k + j) events
  drop-drop j zero events = ap (λ (n : ℕ). drop n events) (omega arith)
  drop-drop j (suc k) [] = drop-nil j ∙ sym (drop-nil (suc k + j))
  drop-drop j (suc k) (event ∷ events) =
      drop-drop j k events ∙ ap (λ (n : ℕ). drop n (event ∷ events)) {x = suc (k + j)} (omega arith)

  -- The entries after a position are those from it on.
  select-numbered :
      (base c : ℕ) (events : List E)
      → select (λ entry. ltb (base + c) entry.seq) (numbered base events)
        ≡ drop c (numbered base events)
  select-numbered base zero [] = refl
  select-numbered base (suc c) [] = refl
  select-numbered base zero (event ∷ events) =
      let rest = select_all (base + 1) (base + 0) events (omega arith) in ground (arith, rest)
    where
      select_all :
          (b low : ℕ) (others : List E)
          → low ≤ b
          → select (λ entry. ltb low entry.seq) (numbered b others) ≡ numbered b others
      select_all b low [] h = refl
      select_all b low (other ∷ others) h =
          ground (arith, select_all (b + 1) low others (omega arith))
  select-numbered base (suc c) (event ∷ events) =
      let rest = select-numbered (base + 1) c events in
      let same : base + 1 + c ≡ base + suc c = omega arith in
      ground (
        arith,
        subst
            (λ (n : ℕ).
              select (λ entry. ltb n entry.seq) (numbered (base + 1) events)
              ≡ drop c (numbered (base + 1) events))
            same rest,
      )

  append_assoc_numbered :
      (h : List (Sequenced E)) (entry : Sequenced E) (rest : List (Sequenced E))
      → (h ++ entry ∷ []) ++ rest ≡ h ++ entry ∷ rest
  append_assoc_numbered [] entry rest = refl
  append_assoc_numbered (x ∷ h) entry rest = ap (◌∷◌ x) (append_assoc_numbered h entry rest)

  -- What recording events does to a hub.
  record Recorded (hub after : EventStreamHub E) (h : List (Sequenced E)) (count : ℕ) : Type 0 where
    holds : Holds after.buffer h
    seq : after.seq ≡ hub.seq + count
    epoch : after.epoch ≡ hub.epoch
    capacity : after.buffer.capacity ≡ hub.buffer.capacity

  record_all-Recorded :
      (events : List E) (hub : EventStreamHub E) (h : List (Sequenced E))
      → Holds hub.buffer h
      → Recorded hub (record_all events hub) (h ++ numbered hub.seq events) (length events)
  unfolding record_all record_event append
  record_all-Recorded [] hub h v = record {
    holds = rw append-nil v;
    seq = omega arith;
    epoch = refl;
    capacity = refl;
  }
  record_all-Recorded (event ∷ events) hub h v =
      let entry : Sequenced E = record { seq = hub.seq + 1; event = event } in
      let rest =
        record_all-Recorded events (record_event event hub) (h ++ entry ∷ [])
          (append-Holds hub.buffer h entry v) in
      record {
        holds =
            subst (Holds (record_all events (record_event event hub)).buffer)
              (append_assoc_numbered h entry (numbered (hub.seq + 1) events)) rest.holds;
        seq = omega (arith, rest.seq);
        epoch = rest.epoch;
        capacity = rest.capacity;
      }

  -- The events that a window still has, after a position that it still reaches.
  backlog :
      (b : ReplayBuffer E) (events : List E) (c : ℕ)
      → Holds b (numbered 0 events)
      → length events ≤ c + b.capacity
      → since c b ≡ numbered c (drop c events)
  backlog b events c v reach =
      let k : ℕ = length events - b.capacity in
      let d : ℕ = c - k in
      let c_is : k + d ≡ c = omega arith in
      since-select b (numbered 0 events) c v
      ∙ ap
          (λ (n : ℕ). select (λ entry. ltb c entry.seq) (drop (n - b.capacity) (numbered 0 events)))
          (length-numbered 0 events)
      ∙ ap (select (λ entry. ltb c entry.seq)) (drop-numbered k 0 events)
      ∙ subst
          (λ (n : ℕ).
            select (λ entry. ltb n entry.seq) (numbered (0 + k) (drop k events))
            ≡ numbered n (drop n events))
          c_is
          (ap (λ (n : ℕ). select (λ entry. ltb (k + d) entry.seq) (numbered n (drop k events)))
              (omega arith)
            ∙ select-numbered k d (drop k events)
            ∙ drop-numbered d k (drop k events)
            ∙ ap (numbered (k + d)) (drop-drop d k events))

  -- Whether the window has lost events after the position.
  evicted-oldest :
      (b : ReplayBuffer E) (events : List E) (c : ℕ)
      → Holds b (numbered 0 events)
      → evicted c (oldest_seq b) ≡ ltb (c + b.capacity) (length events)
  evicted-oldest b [] c v = ap (evicted c) (oldest_seq-none b v) ∙ sym (ground arith)
  evicted-oldest b (event ∷ events) c v =
      let all : List E = event ∷ events in
      let (entry, found) =
        get_elem?-some (numbered 0 all) (length (numbered 0 all) - b.capacity)
          (omega (arith, v.room)) in
      let number = seq-numbered 0 all (length (numbered 0 all) - b.capacity) found in
      let size = length-numbered 0 all in
      ap (evicted c) (oldest_seq-some b (numbered 0 all) entry v found)
      ∙ ground (arith, number, size, v.room)

  -- A cursor of this process, after any events recorded since it started: one that is ahead of the
  -- stream is refused; one before which the window has lost events is refused; any other is served
  -- with exactly the events after it, in order and under their numbers. A refusal starts the client
  -- at the current position with no backlog.
  pub resume_from-record_all :
      (capacity : ℕ) (b : ReplayBuffer E) (epoch : Utf16) (events : List E) (cursor : StreamCursor)
      → new capacity ≡ some b
      → same_text cursor.epoch epoch ≡ true
      → let n = length events in
        resume_from cursor (record_all events (new_hub epoch b)) ≡ (
          if ltb n cursor.seq
          then record { from = n; backlog = []; gap = some cursor_ahead }
          else if ltb (cursor.seq + b.capacity) n
          then record { from = n; backlog = []; gap = some buffer_evicted }
          else record {
            from = cursor.seq;
            backlog = numbered cursor.seq (drop cursor.seq events);
            gap = none;
          })
  unfolding resume_from new_hub
  resume_from-record_all capacity b epoch events cursor made same =
      let r = record_all-Recorded events (new_hub epoch b) [] (new-Holds capacity b made) in
      let after : EventStreamHub E = record_all events (new_hub epoch b) in
      let lost = evicted-oldest after.buffer events cursor.seq r.holds in
      let whole = backlog after.buffer events cursor.seq r.holds in
      let same' : same_text cursor.epoch after.epoch ≡ true =
        ap (same_text cursor.epoch) r.epoch ∙ same in
      ground (arith, same', r.seq, r.capacity, lost, whole)
