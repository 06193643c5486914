-- ===== src/Locking/Redlock/Schedule.antt =====
-- Calls of src/common/locking/redlock.service.ts in some order, and what an attempt leaves.
use boilerplate_nestjs_api.Prelude.{
  ℕ, ◌+◌, ◌-◌, ◌≤◌, ◌<◌, ◌≡◌, refl, subst, ◌∙◌, inl, inr, String, ◌||◌, List, [], ◌∷◌, arith, ltb,
  length, Bool-cases,
}
use boilerplate_nestjs_api.Locking.Redlock.{
  Node, redlock_acquire, redlock_bump_fence, redlock_release, redlock_extend, Contact,
  on_every_node, quorum, claimed, greatest, answers, Attempt, RedlockHandle, acquired, failed,
  spent, max_safe_integer, release_everywhere, publish, attempt, extend_everywhere,
}
use boilerplate_nestjs_api.Locking.Redlock.Counting.{length-on_every_node}

-- What the holders and their rivals do.
pub data Call : Type 0 where
  tries : (key : String) → (value : String) → (ttl_ms : ℕ) → Attempt → Call
  extends : (key : String) → (value : String) → (ttl_ms : ℕ) → Attempt → Call
  releases : (key : String) → (value : String) → (ℕ → Contact) → Call

module _ (drift : ℕ → ℕ) where
  unfoldable pub apply : Call → List Node → List Node
  apply (tries key value ttl_ms env) nodes = (attempt drift key value ttl_ms env nodes).1
  apply (extends key value ttl_ms env) nodes =
      (extend_everywhere drift key value ttl_ms env nodes).1
  apply (releases key value contact) nodes = release_everywhere key value contact nodes

  unfoldable pub run : List Call → List Node → List Node
  run [] nodes = nodes
  run (call ∷ calls) nodes = run calls (apply call nodes)

  -- The nodes after an attempt are those of one of its passes.
  pub attempt-passes :
      (P : List Node → Type 0) (key value : String) (ttl_ms : ℕ) (env : Attempt) (nodes : List Node)
      → let (votes, after) = on_every_node (redlock_acquire key value ttl_ms) env.voting 0 nodes in
        P (release_everywhere key value env.releasing after)
        → P (
            release_everywhere key value env.releasing
              (on_every_node (redlock_bump_fence (greatest votes)) env.publishing 0 after).1)
        → P (on_every_node (redlock_bump_fence (greatest votes)) env.publishing 0 after).1
        → P (attempt drift key value ttl_ms env nodes).1
  unfolding attempt publish
  attempt-passes P key value ttl_ms env nodes failed_ withdrawn done_ =
      let (votes, after) = on_every_node (redlock_acquire key value ttl_ms) env.voting 0 nodes in
      elim (Bool-cases (
        ltb (claimed votes) (quorum nodes) || spent ttl_ms (drift ttl_ms) env.start env.voted_at)) [
          | inl few ↦ subst P (ground (arith, few)) failed_
          | inr enough ↦ elim (Bool-cases (ltb max_safe_integer (greatest votes))) [
            | inl big ↦ subst P (ground (arith, enough, big)) failed_
            | inr small ↦
                let bumps =
                  (on_every_node (redlock_bump_fence (greatest votes)) env.publishing 0 after).0 in
                elim (Bool-cases (
                  ltb (answers bumps) (quorum after)
                  || spent ttl_ms (drift ttl_ms) env.start env.published_at)) [
                    | inl few ↦ subst P (ground (arith, enough, small, few)) withdrawn
                    | inr all ↦ subst P (ground (arith, enough, small, all)) done_
                  ]
          ]
        ]

  length-release_everywhere :
      (key value : String) (contact : ℕ → Contact) (nodes : List Node)
      → length (release_everywhere key value contact nodes) ≡ length nodes
  unfolding release_everywhere
  length-release_everywhere key value contact =
      length-on_every_node (redlock_release key value) contact 0

  pub length-attempt :
      (key value : String) (ttl_ms : ℕ) (env : Attempt) (nodes : List Node)
      → length (attempt drift key value ttl_ms env nodes).1 ≡ length nodes
  length-attempt key value ttl_ms env nodes =
      let (votes, after) = on_every_node (redlock_acquire key value ttl_ms) env.voting 0 nodes in
      let bumped = (on_every_node (redlock_bump_fence (greatest votes)) env.publishing 0 after).1 in
      let voted = length-on_every_node (redlock_acquire key value ttl_ms) env.voting 0 nodes in
      let bumps =
        length-on_every_node (redlock_bump_fence (greatest votes)) env.publishing 0 after in
      attempt-passes (λ result. length result ≡ length nodes) key value ttl_ms env nodes
        (length-release_everywhere key value env.releasing after ∙ voted)
        (length-release_everywhere key value env.releasing bumped ∙ bumps ∙ voted) (bumps ∙ voted)

  pub length-apply : (call : Call) (nodes : List Node) → length (apply call nodes) ≡ length nodes
  unfolding apply extend_everywhere
  length-apply (tries key value ttl_ms env) nodes = length-attempt key value ttl_ms env nodes
  length-apply (extends key value ttl_ms env) nodes =
      let after = (on_every_node (redlock_extend key value ttl_ms) env.voting 0 nodes).1 in
      let extended = length-on_every_node (redlock_extend key value ttl_ms) env.voting 0 nodes in
      ground (arith, extended, length-release_everywhere key value env.releasing after)
  length-apply (releases key value contact) nodes =
      length-release_everywhere key value contact nodes

  pub length-run : (calls : List Call) (nodes : List Node) → length (run calls nodes) ≡ length nodes
  unfolding run
  length-run [] nodes = refl
  length-run (call ∷ calls) nodes = length-run calls (apply call nodes) ∙ length-apply call nodes

  -- What an attempt that acquires has seen.
  pub attempt-acquired :
      (key value : String) (ttl_ms : ℕ) (env : Attempt) (nodes : List Node) (handle : RedlockHandle)
      → (attempt drift key value ttl_ms env nodes).0 ≡ acquired handle
      → let (votes, after) = on_every_node (redlock_acquire key value ttl_ms) env.voting 0 nodes in
        let (bumps, bumped) =
          on_every_node (redlock_bump_fence (greatest votes)) env.publishing 0 after in
        (quorum nodes ≤ claimed votes)
        × (quorum after ≤ answers bumps)
        × ((attempt drift key value ttl_ms env nodes).1 ≡ bumped)
        × (handle.fencing_token ≡ greatest votes)
        × (env.published_at + drift ttl_ms < env.start + ttl_ms)
        × (handle.valid_until
            ≡ env.made_at + (env.start + ttl_ms - (env.published_at + drift ttl_ms)))
  unfolding attempt publish
  attempt-acquired key value ttl_ms env nodes handle won =
      let (votes, after) = on_every_node (redlock_acquire key value ttl_ms) env.voting 0 nodes in
      elim (Bool-cases (
        ltb (claimed votes) (quorum nodes) || spent ttl_ms (drift ttl_ms) env.start env.voted_at)) [
          | inl few ↦ absurd (ground (arith, few, won))
          | inr enough ↦ elim (Bool-cases (ltb max_safe_integer (greatest votes))) [
            | inl big ↦ absurd (ground (arith, enough, big, won))
            | inr small ↦
                let bumps =
                  (on_every_node (redlock_bump_fence (greatest votes)) env.publishing 0 after).0 in
                elim (Bool-cases (
                  ltb (answers bumps) (quorum after)
                  || spent ttl_ms (drift ttl_ms) env.start env.published_at)) [
                    | inl few ↦ absurd (ground (arith, enough, small, few, won))
                    | inr all ↦ (
                      ground (arith, enough),
                      ground (arith, all),
                      ground (arith, enough, small, all),
                      ground (arith, enough, small, all, won),
                      ground (arith, all),
                      ground (arith, enough, small, all, won),
                    )
                  ]
          ]
        ]

  pub attempt-few :
      (key value : String) (ttl_ms : ℕ) (env : Attempt) (nodes : List Node)
      → claimed (on_every_node (redlock_acquire key value ttl_ms) env.voting 0 nodes).0
        < quorum nodes
      → (attempt drift key value ttl_ms env nodes).0 ≡ failed
  unfolding attempt
  attempt-few key value ttl_ms env nodes few = ground arith
