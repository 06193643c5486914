-- ===== src/Locking/Redlock/Exclusion.antt =====
-- Mutual exclusion of src/common/locking/redlock.service.ts, for clocks that agree.
use boilerplate_nestjs_api.Prelude.{
  ℕ, ◌+◌, ◌≤◌, ◌<◌, ◌≡◌, sym, subst, ◌∙◌, String, true, false, List, [], ◌∷◌, some, arith, length,
}
use boilerplate_nestjs_api.Locking.Redlock.{
  Node, redlock_acquire, redlock_bump_fence, redlock_release, redlock_extend, Contact,
  on_every_node, quorum, greatest, Attempt, RedlockHandle, acquired, failed, release_everywhere,
  attempt, extend_everywhere,
}
use boilerplate_nestjs_api.Locking.Redlock.Counting.{
  count, count-on_every_node, claimed-count, claimed-others,
}
use boilerplate_nestjs_api.Locking.Redlock.Schedule.{
  Call, tries, extends, releases, apply, run, attempt-passes, attempt-acquired, attempt-few,
  length-attempt, length-run,
}
use boilerplate_nestjs_api.Locking.Redlock.Keeping.{
  keeps_lease, is_of, Others, Foreign, Quiet, acquire_keeps, bump_keeps, release_keeps,
  extend_keeps, obey_all_keeps, lease_refuses, vote_leases,
}

module _ (drift : ℕ → ℕ) where
  module _ (key value : String) (until : ℕ) where
    abbrev leases : List Node → ℕ
    leases = count (keeps_lease key value until)

    count-release :
        (k v : String) (contact : ℕ → Contact) (nodes : List Node)
        → is_of key value until k v ≡ false
        → Others key value until contact
        → leases nodes ≤ leases (release_everywhere k v contact nodes)
    unfolding release_everywhere
    count-release k v contact nodes other others =
        count-on_every_node (redlock_release k v) contact (keeps_lease key value until) 0 nodes
          (λ i node. obey_all_keeps key value until (contact i).before node (others i))
          (λ i node. release_keeps key value until k v (contact i).at node other)

    bump-count :
        (token : ℕ) (contact : ℕ → Contact) (nodes : List Node)
        → Others key value until contact
        → leases nodes ≤ leases (on_every_node (redlock_bump_fence token) contact 0 nodes).1
    bump-count token contact nodes others =
        count-on_every_node (redlock_bump_fence token) contact (keeps_lease key value until) 0 nodes
          (λ i node. obey_all_keeps key value until (contact i).before node (others i))
          (λ i node. bump_keeps key value until token (contact i).at node)

    apply-count :
        (call : Call) (nodes : List Node)
        → Foreign key value until call
        → leases nodes ≤ leases (apply drift call nodes)
    unfolding apply extend_everywhere
    apply-count (tries k v ttl_ms env) nodes (other, early, at_votes, at_bumps, at_releases) =
        let (votes, after) = on_every_node (redlock_acquire k v ttl_ms) env.voting 0 nodes in
        let bumped =
          (on_every_node (redlock_bump_fence (greatest votes)) env.publishing 0 after).1 in
        let voted =
          count-on_every_node (redlock_acquire k v ttl_ms) env.voting (keeps_lease key value until)
            0 nodes
            (λ i node. obey_all_keeps key value until (env.voting i).before node (at_votes i))
            (λ i node. acquire_keeps key value until k v ttl_ms (env.voting i).at node (early i)) in
        let bumps = bump-count (greatest votes) env.publishing after at_bumps in
        attempt-passes drift (λ result. leases nodes ≤ leases result) k v ttl_ms env nodes
          (omega (arith, voted, count-release k v env.releasing after other at_releases))
          (omega (arith, voted, bumps, count-release k v env.releasing bumped other at_releases))
          (omega (arith, voted, bumps))
    apply-count (extends k v ttl_ms env) nodes (other, at_votes, at_releases) =
        let after = (on_every_node (redlock_extend k v ttl_ms) env.voting 0 nodes).1 in
        let extended =
          count-on_every_node (redlock_extend k v ttl_ms) env.voting (keeps_lease key value until) 0
            nodes (λ i node. obey_all_keeps key value until (env.voting i).before node (at_votes i))
            (λ i node. extend_keeps key value until k v ttl_ms (env.voting i).at node other) in
        ground (arith, extended, count-release k v env.releasing after other at_releases)
    apply-count (releases k v contact) nodes (other, others) =
        count-release k v contact nodes other others

  module _ (key value : String) (until : ℕ) where
    run-count :
        (calls : List Call) (nodes : List Node)
        → Quiet key value until calls
        → leases key value until nodes ≤ leases key value until (run drift calls nodes)
    unfolding run
    run-count [] nodes quiet = omega arith
    run-count (call ∷ calls) nodes (foreign, quiet) = omega (
      arith,
      apply-count key value until call nodes foreign,
      run-count calls (apply drift call nodes) quiet,
    )

  -- With clocks that agree, so that no node votes by a clock before the start: once an attempt has
  -- acquired a key, and until a lease that ran from its start would end, whatever other values do to the
  -- nodes since they voted, at each node between any two commands, voting before that end, and
  -- whichever nodes are reached, no later attempt at the key that asks for votes before that end
  -- acquires it. The handle takes itself for valid until that end less the drift, and longer by the
  -- time between the check of what is left of the lease and the reading of the clock that the handle
  -- is made with.
  pub redlock_excludes :
      (key value : String) (ttl_ms : ℕ) (env : Attempt) (nodes : List Node) (handle : RedlockHandle)
      (calls : List Call) (value' : String) (ttl' : ℕ) (env' : Attempt)
      → ((i : ℕ) → env.start ≤ (env.voting i).at)
      → (attempt drift key value ttl_ms env nodes).0 ≡ acquired handle
      → Others key value (env.start + ttl_ms) env.publishing
      → Quiet key value (env.start + ttl_ms) calls
      → Others key value (env.start + ttl_ms) env'.voting
      → ((i : ℕ) → (env'.voting i).at < env.start + ttl_ms)
      → (handle.valid_until + drift ttl_ms + env.published_at ≡ env.start + ttl_ms + env.made_at)
        × ((attempt drift key value' ttl' env'
              (run drift calls (attempt drift key value ttl_ms env nodes).1)).0
            ≡ failed)
  redlock_excludes key value ttl_ms env nodes handle calls value' ttl' env' from_start won at_bumps
        quiet at_rivals early =
      let until = env.start + ttl_ms in
      let (votes, voted) = on_every_node (redlock_acquire key value ttl_ms) env.voting 0 nodes in
      let first = (attempt drift key value ttl_ms env nodes).1 in
      let (most, published, bumped, token, alive, valid) =
        attempt-acquired drift key value ttl_ms env nodes handle won in
      let leased =
        claimed-count (redlock_acquire key value ttl_ms) env.voting (keeps_lease key value until) 0
          nodes
          (λ i node token h.
            vote_leases key value until ttl_ms (env.voting i).at token node
              (omega (arith, from_start i)) h) in
      let carried = bump-count key value until (greatest votes) env.publishing voted at_bumps in
      let kept = run-count key value until calls first quiet in
      let later = run drift calls first in
      let rivals = (on_every_node (redlock_acquire key value' ttl') env'.voting 0 later).0 in
      let refused =
        claimed-others (redlock_acquire key value' ttl') env'.voting (keeps_lease key value until)
          (greatest rivals) 0 later
          (λ i node. obey_all_keeps key value until (env'.voting i).before node (at_rivals i))
          (λ i node token has h. absurd (no_vote i node token has h)) (omega arith) in
      let size : length later ≡ length nodes =
        length-run drift calls first ∙ length-attempt drift key value ttl_ms env nodes in
      let still : quorum nodes ≤ leases key value until later = omega (
        arith,
        most,
        leased,
        subst (λ n. leases key value until voted ≤ leases key value until n) (sym bumped) carried,
        kept,
      ) in
      (
        omega (arith, valid, alive),
        attempt-few drift key value' ttl' env' later (omega (arith, refused, still, size)),
      )
    where
      no_vote :
          (i : ℕ) (node : Node) (token : ℕ)
          → keeps_lease key value (env.start + ttl_ms) node ≡ true
          → (redlock_acquire key value' ttl' (env'.voting i).at node).0 ≡ some token
          → ⊥
      no_vote i node token has h = cc (
        lease_refuses key value (env.start + ttl_ms) value' ttl' (env'.voting i).at node (early i)
            has,
        h,
      )
