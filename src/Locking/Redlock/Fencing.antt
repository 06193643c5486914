-- ===== src/Locking/Redlock/Fencing.antt =====
-- Fencing of src/common/locking/redlock.service.ts.
use boilerplate_nestjs_api.Prelude.{
  ℕ, ◌≤◌, ◌<◌, ◌≡◌, sym, subst, ◌∙◌, inl, inr, String, Bool, true, List, [], ◌∷◌, some, arith, leb,
  length, Bool-cases,
}
use boilerplate_nestjs_api.Locking.Redlock.{
  Node, Command, asks_vote, raises_fence, withdraws, prolongs, obey, obey_all, redlock_acquire,
  redlock_bump_fence, redlock_release, redlock_extend, Contact, on_every_node, quorum, greatest,
  answers, Attempt, RedlockHandle, acquired, release_everywhere, attempt, extend_everywhere,
}
use boilerplate_nestjs_api.Locking.Redlock.Counting.{
  count, length-on_every_node, count-on_every_node, answers-count, claimed-others,
}
use boilerplate_nestjs_api.Locking.Redlock.Schedule.{
  Call, tries, extends, releases, apply, run, attempt-passes, attempt-acquired, length-attempt,
  length-run,
}

abbrev pub reached : ℕ → Node → Bool
reached token node = leb token node.fence

acquire_reached :
    (token : ℕ) (k v : String) (ttl_ms at : ℕ) (node : Node)
    → reached token node ≡ true
    → reached token (redlock_acquire k v ttl_ms at node).1 ≡ true
unfolding redlock_acquire
acquire_reached token k v ttl_ms at node h = ground arith

bump_reached :
    (token new at : ℕ) (node : Node)
    → reached token node ≡ true
    → reached token (redlock_bump_fence new at node).1 ≡ true
unfolding redlock_bump_fence
bump_reached token new at node h = ground arith

bump_reaches :
    (token at : ℕ) (node : Node) → reached token (redlock_bump_fence token at node).1 ≡ true
unfolding redlock_bump_fence
bump_reaches token at node = ground arith

release_reached :
    (token : ℕ) (k v : String) (at : ℕ) (node : Node)
    → reached token node ≡ true
    → reached token (redlock_release k v at node).1 ≡ true
unfolding redlock_release
release_reached token k v at node h = ground arith

extend_reached :
    (token : ℕ) (k v : String) (ttl_ms at : ℕ) (node : Node)
    → reached token node ≡ true
    → reached token (redlock_extend k v ttl_ms at node).1 ≡ true
unfolding redlock_extend
extend_reached token k v ttl_ms at node h = ground arith

obey_all-reached :
    (token : ℕ) (commands : List Command) (node : Node)
    → reached token node ≡ true
    → reached token (obey_all commands node) ≡ true
unfolding obey_all obey
obey_all-reached token [] node h = h
obey_all-reached token (asks_vote k v ttl_ms at ∷ commands) node h =
    obey_all-reached token commands _ (acquire_reached token k v ttl_ms at node h)
obey_all-reached token (raises_fence new at ∷ commands) node h =
    obey_all-reached token commands _ (bump_reached token new at node h)
obey_all-reached token (withdraws k v at ∷ commands) node h =
    obey_all-reached token commands _ (release_reached token k v at node h)
obey_all-reached token (prolongs k v ttl_ms at ∷ commands) node h =
    obey_all-reached token commands _ (extend_reached token k v ttl_ms at node h)

vote_above :
    (token new : ℕ) (k v : String) (ttl_ms at : ℕ) (node : Node)
    → reached token node ≡ true
    → (redlock_acquire k v ttl_ms at node).0 ≡ some new
    → token < new
unfolding redlock_acquire
vote_above token new k v ttl_ms at node h voted = ground arith

module _ (drift : ℕ → ℕ) (token : ℕ) where
  abbrev fenced : List Node → ℕ
  fenced = count (reached token)

  count-release :
      (k v : String) (contact : ℕ → Contact) (nodes : List Node)
      → fenced nodes ≤ fenced (release_everywhere k v contact nodes)
  unfolding release_everywhere
  count-release k v contact nodes =
      count-on_every_node (redlock_release k v) contact (reached token) 0 nodes
        (λ i. obey_all-reached token (contact i).before)
        (λ i node. release_reached token k v (contact i).at node)

  apply-count : (call : Call) (nodes : List Node) → fenced nodes ≤ fenced (apply drift call nodes)
  unfolding apply extend_everywhere
  apply-count (tries k v ttl_ms env) nodes =
      let (votes, after) = on_every_node (redlock_acquire k v ttl_ms) env.voting 0 nodes in
      let bumped = (on_every_node (redlock_bump_fence (greatest votes)) env.publishing 0 after).1 in
      let voted =
        count-on_every_node (redlock_acquire k v ttl_ms) env.voting (reached token) 0 nodes
          (λ i. obey_all-reached token (env.voting i).before)
          (λ i node. acquire_reached token k v ttl_ms (env.voting i).at node) in
      let bumps =
        count-on_every_node (redlock_bump_fence (greatest votes)) env.publishing (reached token) 0
          after (λ i. obey_all-reached token (env.publishing i).before)
          (λ i node. bump_reached token (greatest votes) (env.publishing i).at node) in
      attempt-passes drift (λ result. fenced nodes ≤ fenced result) k v ttl_ms env nodes
        (omega (arith, voted, count-release k v env.releasing after))
        (omega (arith, voted, bumps, count-release k v env.releasing bumped))
        (omega (arith, voted, bumps))
  apply-count (extends k v ttl_ms env) nodes =
      let after = (on_every_node (redlock_extend k v ttl_ms) env.voting 0 nodes).1 in
      let extended =
        count-on_every_node (redlock_extend k v ttl_ms) env.voting (reached token) 0 nodes
          (λ i. obey_all-reached token (env.voting i).before)
          (λ i node. extend_reached token k v ttl_ms (env.voting i).at node) in
      ground (arith, extended, count-release k v env.releasing after)
  apply-count (releases k v contact) nodes = count-release k v contact nodes

  run-count :
      (calls : List Call) (nodes : List Node) → fenced nodes ≤ fenced (run drift calls nodes)
  unfolding run
  run-count [] nodes = omega arith
  run-count (call ∷ calls) nodes =
      omega (arith, apply-count call nodes, run-count calls (apply drift call nodes))

module _ (drift : ℕ → ℕ) where
  -- Of two acquisitions, of any keys, with anything between them, whatever others have the nodes do
  -- between any two of their commands, and whichever nodes are reached, the later has the greater
  -- fencing token.
  pub redlock_fencing :
      (key value : String) (ttl_ms : ℕ) (env : Attempt) (nodes : List Node) (handle : RedlockHandle)
      (calls : List Call) (key' value' : String) (ttl' : ℕ) (env' : Attempt)
      (handle' : RedlockHandle)
      → (attempt drift key value ttl_ms env nodes).0 ≡ acquired handle
      → (attempt drift key' value' ttl' env'
          (run drift calls (attempt drift key value ttl_ms env nodes).1)).0
        ≡ acquired handle'
      → handle.fencing_token < handle'.fencing_token
  redlock_fencing key value ttl_ms env nodes handle calls key' value' ttl' env' handle' won again =
      let (votes, voted) = on_every_node (redlock_acquire key value ttl_ms) env.voting 0 nodes in
      let token = greatest votes in
      let first = (attempt drift key value ttl_ms env nodes).1 in
      let later = run drift calls first in
      let seen = attempt-acquired drift key value ttl_ms env nodes handle won in
      let seen' = attempt-acquired drift key' value' ttl' env' later handle' again in
      let published =
        answers-count (redlock_bump_fence token) env.publishing (reached token) 0 voted
          (λ i node. bump_reaches token (env.publishing i).at node) in
      let fenced_first : quorum voted ≤ count (reached token) first = omega (
        arith,
        seen.1,
        subst
            (λ n.
              answers (on_every_node (redlock_bump_fence token) env.publishing 0 voted).0
              ≤ count (reached token) n)
            (sym seen.2) published,
      ) in
      let size : length later ≡ length voted =
        length-run drift calls first
        ∙ length-attempt drift key value ttl_ms env nodes
        ∙ sym (length-on_every_node (redlock_acquire key value ttl_ms) env.voting 0 nodes) in
      elim (Bool-cases (
        leb (greatest (on_every_node (redlock_acquire key' value' ttl') env'.voting 0 later).0)
          token)) [
            | inr above ↦ ground (arith, above, seen.3, seen'.3)
            | inl below ↦
                let refused =
                  claimed-others (redlock_acquire key' value' ttl') env'.voting (reached token)
                    token 0 later (λ i. obey_all-reached token (env'.voting i).before)
                    (λ i node new h.
                      vote_above token new key' value' ttl' (env'.voting i).at node h)
                    (ground (arith, below)) in
                absurd (
                  omega (
                    arith,
                    refused,
                    seen'.0,
                    fenced_first,
                    run-count drift token calls first,
                    size,
                  ))
          ]
