-- ===== src/Saga/Step/Rollback.antt =====
-- Every step of src/saga/saga-orchestrator.service.ts keeps the log in line with the definition.
use mathlib.Core.List.{append-nil, append_assoc, reverse-append}
use boilerplate_nestjs_api.Prelude.{
  ℕ, zero, suc, ◌≤◌, ◌<◌, ◌≡◌, refl, sym, ap, ◌∙◌, subst, ◌⊎◌, inl, inr, true, false, List, [], ◌∷◌,
  ◌++◌, reverse, some, arith, length, take, get_elem?, get_elem?-lt, take-suc, take-length, leb,
  leb→le, Bool-cases, ℤ, pos,
}
use boilerplate_nestjs_api.Saga.Instance.{
  SagaStatus, SagaStepLogEntry, SagaInstanceRecord, SagaProgress, SagaClaim, is_terminal,
}
use boilerplate_nestjs_api.Saga.Definition.{SagaStep, SagaDefinition}
use boilerplate_nestjs_api.Saga.Store.{saved_row}
use boilerplate_nestjs_api.Saga.Call.{Turn, Settings}
use boilerplate_nestjs_api.Saga.Step.{
  step, progressed, reaches, finished_or_running, undone_or_compensating,
}
use boilerplate_nestjs_api.Prelude.Int.{succ, pred, is_negative}
use boilerplate_nestjs_api.Saga.Step.Moves.{
  Move, advance, wait, turn_round, go_back, stick_ahead, stick_back, run_step-Move,
}
use boilerplate_nestjs_api.Saga.Step.Invariant.{step-progressed}
use boilerplate_nestjs_api.Saga.Step.History.{
  TurnedAt, names, done_names, undone_names, Follows, FollowsRecord, names-get_elem?, length-names,
  done_names-snoc, done_names_same, undone_names-snoc, undone_names_same,
}

module _ (steps : List SagaStep) (log : List SagaStepLogEntry) (s : SagaStep) (n : ℕ)
    (found : get_elem? steps n ≡ some s) where
  -- One more step completed.
  longer :
      (item : SagaStepLogEntry)
      → done_names (log ++ item ∷ []) ≡ done_names log ++ item.step ∷ []
      → item.step ≡ s.name
      → done_names log ≡ take n (names steps)
      → done_names (log ++ item ∷ []) ≡ take (suc n) (names steps)
  longer item grown same before =
      rw (grown, same, before) (sym (take-suc (names steps) n (names-get_elem? steps n found)))

  -- One more step undone.
  back_one :
      (item : SagaStepLogEntry) (m : ℕ)
      → undone_names (log ++ item ∷ []) ≡ undone_names log ++ item.step ∷ []
      → item.step ≡ s.name
      → undone_names log ++ reverse (take (suc n) (names steps))
        ≡ reverse (take (suc m) (names steps))
      → undone_names (log ++ item ∷ []) ++ reverse (take n (names steps))
        ≡ reverse (take (suc m) (names steps))
  back_one item m grown same before =
      rw (grown, same, append_assoc)
        (ap (◌++◌ (undone_names log)) (sym (reverse-append (take n (names steps)) (s.name ∷ [])))
          ∙ ap (λ l. undone_names log ++ reverse l)
              (sym (take-suc (names steps) n (names-get_elem? steps n found)))
          ∙ before)

-- The same predicate at an equal status and cursor.
Follows-at :
    (steps : List SagaStep) (log : List SagaStepLogEntry) {a b : SagaStatus} {c d : ℤ}
    → b ≡ a
    → d ≡ c
    → Follows steps a c log
    → Follows steps b d log
Follows-at steps log {a} {b} {c} {d} e f h =
    subst (λ x. Follows steps b x log) (sym f) (subst (λ x. Follows steps x c log) (sym e) h)

-- Of a live instance the predicate reads the log through the names alone.
Follows-same :
    (steps : List SagaStep) (status : SagaStatus) (c : ℤ) (log longer_log : List SagaStepLogEntry)
    → is_terminal status ≡ false
    → done_names longer_log ≡ done_names log
    → undone_names longer_log ≡ undone_names log
    → Follows steps status c log
    → Follows steps status c longer_log
Follows-same steps SagaStatus.running c log l live d u (n, e, lt, f, g) = (n, e, lt, d ∙ f, u ∙ g)
Follows-same steps SagaStatus.compensating c log l live d u (n, m, e, le, t, f, g) =
    (n, m, e, le, t, d ∙ f, rw u g)
Follows-same steps SagaStatus.completed c log l live d u h = absurd (unfold is_terminal in cc)
Follows-same steps SagaStatus.compensated c log l live d u h = absurd (unfold is_terminal in cc)
Follows-same steps SagaStatus.stuck c log l live d u h = absurd (unfold is_terminal in cc)

-- Back from the step at the cursor to the one before it, or to the end.
goes_back :
    (steps : List SagaStep) (log : List SagaStepLogEntry) (n m : ℕ)
    → n ≤ m
    → TurnedAt steps m
    → done_names log ≡ take m (names steps)
    → undone_names log ++ reverse (take n (names steps)) ≡ reverse (take (suc m) (names steps))
    → Follows steps (undone_or_compensating (is_negative (pred (pos n)))) (pred (pos n)) log
goes_back steps log zero m le t d u = (m, t, d, sym (append-nil (undone_names log)) ∙ u)
goes_back steps log (suc n) m le t d u = (n, m, refl, omega arith, t, d, u)

module _ (steps : List SagaStep) (r : SagaInstanceRecord) (s : SagaStep) (p : SagaProgress) (n : ℕ)
    (at_n : r.cursor ≡ pos n) (found : get_elem? steps n ≡ some s) (room : n < length steps) where
  abbrev pub after : List SagaStepLogEntry
  after = r.log ++ p.entry ∷ []

  finishes :
      (k : ℕ)
      → (leb (length steps) k ≡ true) ⊎ (leb (length steps) k ≡ false)
      → k ≤ length steps
      → done_names after ≡ take k (names steps)
      → undone_names after ≡ []
      → Follows steps (finished_or_running (reaches (pos k) (length steps))) (pos k) after
  finishes k (inl all) h d u =
      let e : length (names steps) ≡ k = omega (arith, length-names steps, leb→le _ _ all) in
      rw all (d ∙ ap (λ j. take j (names steps)) (sym e) ∙ take-length (names steps), u)
  finishes k (inr more) h d u = rw more (k, refl, ground (arith, more), d, u)

  same_place : (k : ℕ) → r.cursor ≡ pos k → k ≡ n
  same_place k e = ground (arith, e, at_n)

  pub Move-Follows :
      is_terminal r.status ≡ false
      → Follows steps r.status r.cursor r.log
      → Move (length steps) r s p
      → Follows steps p.status p.cursor after
  Move-Follows goes h (advance live st cu dir out same) =
      let (k, e, lt, d, u) = Follows-at steps r.log (sym live) (sym at_n) h in
      let k_is : k ≡ n = ground arith in
      Follows-at steps after
        (st ∙ ap (λ c. finished_or_running (reaches (succ c) (length steps))) at_n)
        (cu ∙ ap succ at_n)
        (finishes (suc n) (Bool-cases _) (omega arith)
          (longer steps r.log s n found p.entry (done_names-snoc r.log p.entry dir out) same
            (d ∙ ap (λ j. take j (names steps)) k_is))
          (undone_names_same r.log p.entry (ground arith) ∙ u))
  Move-Follows goes h (wait st cu out) = Follows-at steps after st cu (
      Follows-same steps r.status r.cursor r.log after goes
        (done_names_same r.log p.entry (ground arith))
        (undone_names_same r.log p.entry (ground arith)) h)
  Move-Follows goes h (turn_round live kind st cu out) =
      let (k, e, lt, d, u) = Follows-at steps r.log (sym live) (sym at_n) h in
      let k_is : k ≡ n = ground arith in
      let none_undone : undone_names after ≡ [] =
        undone_names_same r.log p.entry (ground arith) ∙ u in
      Follows-at steps after st (cu ∙ at_n) (
        n,
        n,
        refl,
        omega arith,
        (s, found, kind),
        done_names_same r.log p.entry (ground arith) ∙ (d ∙ ap (λ j. take j (names steps)) k_is),
        ap (λ l. l ++ reverse (take (suc n) (names steps))) none_undone,
      )
  Move-Follows goes h (go_back live st cu dir out same) =
      let (c, m, e, le, t, d, u) = Follows-at steps r.log (sym live) (sym at_n) h in
      let c_is : c ≡ n = ground arith in
      Follows-at steps after (st ∙ ap (λ x. undone_or_compensating (is_negative (pred x))) at_n)
        (cu ∙ ap pred at_n)
        (goes_back steps after n m (omega arith) t
          (done_names_same r.log p.entry (ground arith) ∙ d)
          (back_one steps r.log s n found p.entry m (undone_names-snoc r.log p.entry dir out) same
            (ap (λ j. undone_names r.log ++ reverse (take (suc j) (names steps))) (sym c_is) ∙ u)))
  Move-Follows goes h (stick_ahead live kind st cu dir out same) =
      let (k, e, lt, d, u) = Follows-at steps r.log (sym live) refl h in
      Follows-at steps after st (cu ∙ at_n) (
        n,
        s,
        refl,
        found,
        inl (
          kind,
          (r.log, p.entry, refl, same, dir, out),
          (
            n,
            refl,
            room,
            done_names_same r.log p.entry (ground arith)
                ∙ (d ∙ ap (λ j. take j (names steps)) (same_place k e)),
            undone_names_same r.log p.entry (ground arith) ∙ u,
          ),
        ),
      )
  Move-Follows goes h (stick_back live kind st cu dir out same) =
      let (c, m, e, le, t, d, u) = Follows-at steps r.log (sym live) refl h in
      let c_is : c ≡ n = same_place c e in
      Follows-at steps after st (cu ∙ at_n) (
        n,
        s,
        refl,
        found,
        inr (
          kind,
          (r.log, p.entry, refl, same, dir, out),
          (
            n,
            m,
            refl,
            omega arith,
            t,
            done_names_same r.log p.entry (ground arith) ∙ d,
            ap (λ l. l ++ reverse (take (suc n) (names steps)))
                  (undone_names_same r.log p.entry (ground arith))
                ∙ (ap (λ j. undone_names r.log ++ reverse (take (suc j) (names steps))) (sym c_is)
                    ∙ u),
          ),
        ),
      )

-- A step of a live instance whose log follows the definition leaves a row whose log follows it too:
-- completed forward names are the steps below the cursor, undone names the steps above it; and where
-- the row is stuck, the same holds, and the last entry is a failure of the step of the cursor, which is
-- retriable going forward and compensatable going back.
pub step-Follows :
    (settings : Settings) (turn : Turn) (definition : SagaDefinition) (r : SagaInstanceRecord)
    (by : SagaClaim) (p : SagaProgress)
    → FollowsRecord definition.steps r
    → is_terminal r.status ≡ false
    → step settings turn definition r ≡ progressed p
    → FollowsRecord definition.steps (saved_row r by p)
step-Follows settings turn definition r by p h live moved =
    let (n, s, e, found, _, same) = step-progressed settings turn definition r p moved in
    Move-Follows definition.steps r s p n e found (get_elem?-lt definition.steps n found) live h (
      subst (Move (length definition.steps) r s) (sym same)
        (run_step-Move settings turn definition r s live))
