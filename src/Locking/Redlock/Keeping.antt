-- ===== src/Locking/Redlock/Keeping.antt =====
-- What keeps a lease at one node of src/common/locking/redlock.service.ts.
use boilerplate_nestjs_api.Prelude.{
  ℕ, ◌+◌, ◌≤◌, ◌<◌, ◌≡◌, inl, inr, String, Bool, true, false, ◌&&◌, List, [], ◌∷◌, Option, none,
  some, arith, eq_iff, eq_refl, str_eq, leb, lookup, lookup-insert, lookup-remove, Option-cases,
}
use boilerplate_nestjs_api.Locking.Redlock.{
  Lease, Node, Command, asks_vote, raises_fence, withdraws, prolongs, obey, obey_all,
  redlock_acquire, redlock_bump_fence, redlock_release, redlock_extend, Contact,
}
use boilerplate_nestjs_api.Locking.Redlock.Schedule.{Call, tries, extends, releases}

module _ (key value : String) (until : ℕ) where
  abbrev leased_until : Option Lease → Bool
  leased_until none = false
  leased_until (some lease) = str_eq lease.value value && leb until lease.expires_at

  -- The node has the lease, until the time at least.
  abbrev pub keeps_lease : Node → Bool
  keeps_lease node = leased_until (lookup key node.locks)

  abbrev pub is_of : String → String → Bool
  is_of k v = str_eq k key && str_eq v value

  -- None of the commands is of the lease, and votes are asked for before the time.
  abbrev pub Other : List Command → Type 0
  Other [] = Unit {0}
  Other (asks_vote k v ttl_ms at ∷ commands) = (is_of k v ≡ false) × (at < until) × Other commands
  Other (raises_fence token at ∷ commands) = Other commands
  Other (withdraws k v at ∷ commands) = (is_of k v ≡ false) × Other commands
  Other (prolongs k v ttl_ms at ∷ commands) = (is_of k v ≡ false) × Other commands

  -- The same of all that the nodes ran for others in a pass.
  abbrev pub Others : (ℕ → Contact) → Type 0
  Others contact = (i : ℕ) → Other (contact i).before

  abbrev pub Foreign : Call → Type 0
  Foreign (tries k v ttl_ms env) =
      (is_of k v ≡ false)
      × ((i : ℕ) → (env.voting i).at < until)
      × Others env.voting
      × Others env.publishing
      × Others env.releasing
  Foreign (extends k v ttl_ms env) = (is_of k v ≡ false) × Others env.voting × Others env.releasing
  Foreign (releases k v contact) = (is_of k v ≡ false) × Others contact

  abbrev pub Quiet : List Call → Type 0
  Quiet [] = Unit {0}
  Quiet (call ∷ calls) = Foreign call × Quiet calls

  pub acquire_keeps :
      (k v : String) (ttl_ms at : ℕ) (node : Node)
      → at < until
      → keeps_lease node ≡ true
      → keeps_lease (redlock_acquire k v ttl_ms at node).1 ≡ true
  unfolding redlock_acquire
  acquire_keeps k v ttl_ms at node early held = ground (
    arith,
    eq_iff k key,
    lookup-insert k key (record { value = v; expires_at = at + ttl_ms }) node.locks,
  )

  pub bump_keeps :
      (token at : ℕ) (node : Node)
      → keeps_lease node ≡ true
      → keeps_lease (redlock_bump_fence token at node).1 ≡ true
  unfolding redlock_bump_fence
  bump_keeps token at node held = ground arith

  pub release_keeps :
      (k v : String) (at : ℕ) (node : Node)
      → is_of k v ≡ false
      → keeps_lease node ≡ true
      → keeps_lease (redlock_release k v at node).1 ≡ true
  unfolding redlock_release
  release_keeps k v at node other held = elim (Option-cases (lookup k node.locks)) [
    | inl gone ↦ ground (arith, gone)
    | inr (lease, there) ↦ ground (
      arith,
      there,
      eq_iff k key,
      eq_refl key,
      eq_iff lease.value v,
      eq_iff lease.value value,
      eq_iff v value,
      lookup-remove k key node.locks,
    )
  ]

  pub extend_keeps :
      (k v : String) (ttl_ms at : ℕ) (node : Node)
      → is_of k v ≡ false
      → keeps_lease node ≡ true
      → keeps_lease (redlock_extend k v ttl_ms at node).1 ≡ true
  unfolding redlock_extend
  extend_keeps k v ttl_ms at node other held = elim (Option-cases (lookup k node.locks)) [
    | inl gone ↦ ground (arith, gone)
    | inr (lease, there) ↦ ground (
      arith,
      there,
      eq_iff k key,
      eq_refl key,
      eq_iff lease.value v,
      eq_iff lease.value value,
      eq_iff v value,
      lookup-insert k key (record { value = v; expires_at = at + ttl_ms }) node.locks,
    )
  ]

  pub obey_all_keeps :
      (commands : List Command) (node : Node)
      → Other commands
      → keeps_lease node ≡ true
      → keeps_lease (obey_all commands node) ≡ true
  unfolding obey_all obey
  obey_all_keeps [] node other held = held
  obey_all_keeps (asks_vote k v ttl_ms at ∷ commands) node (other, early, rest) held =
      obey_all_keeps commands _ rest (acquire_keeps k v ttl_ms at node early held)
  obey_all_keeps (raises_fence token at ∷ commands) node rest held =
      obey_all_keeps commands _ rest (bump_keeps token at node held)
  obey_all_keeps (withdraws k v at ∷ commands) node (other, rest) held =
      obey_all_keeps commands _ rest (release_keeps k v at node other held)
  obey_all_keeps (prolongs k v ttl_ms at ∷ commands) node (other, rest) held =
      obey_all_keeps commands _ rest (extend_keeps k v ttl_ms at node other held)

  -- A node with the lease does not vote, and one that votes has it.
  pub lease_refuses :
      (v : String) (ttl_ms at : ℕ) (node : Node)
      → at < until
      → keeps_lease node ≡ true
      → (redlock_acquire key v ttl_ms at node).0 ≡ none
  unfolding redlock_acquire
  lease_refuses v ttl_ms at node early held = ground arith

  pub vote_leases :
      (ttl_ms at token : ℕ) (node : Node)
      → until ≤ at + ttl_ms
      → (redlock_acquire key value ttl_ms at node).0 ≡ some token
      → keeps_lease (redlock_acquire key value ttl_ms at node).1 ≡ true
  unfolding redlock_acquire
  vote_leases ttl_ms at token node late voted = ground (
    arith,
    eq_refl key,
    eq_refl value,
    lookup-insert key key (record { value = value; expires_at = at + ttl_ms }) node.locks,
  )
