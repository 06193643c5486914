-- ===== src/Locking/Exclusion.antt =====
-- Mutual exclusion and fencing of src/common/locking/in-memory-distributed-lock.ts.
use boilerplate_nestjs_api.Prelude.{
  ℕ, ◌+◌, ◌≤◌, ◌<◌, ◌≡◌, subst, inl, inr, String, Bool, false, ◌&&◌, List, [], ◌∷◌, none, some,
  arith, eq_iff, eq_refl, str_eq, ◌==◌, lookup, lookup-insert, lookup-remove, Option-cases,
}
use boilerplate_nestjs_api.Locking.{
  Entry, InMemoryLock, LockHandle, current, claim, extend, release, Call, claims, extends, releases,
  apply, run,
}

-- The call comes before the time, and does not use the handle of the key and token.
abbrev pub is_of : String → ℕ → LockHandle → Bool
is_of key token handle = str_eq handle.key key && handle.fencing_token == token

abbrev pub Foreign : String → ℕ → Call → Type 0
Foreign key token (claims k ttl_ms value) = Unit {0}
Foreign key token (extends handle extend_ms) = is_of key token handle ≡ false
Foreign key token (releases handle) = is_of key token handle ≡ false

abbrev pub Quiet : String → ℕ → ℕ → List (ℕ × Call) → Type 0
Quiet key token until [] = Unit {0}
Quiet key token until (timed ∷ calls) =
    (timed.0 < until) × Foreign key token timed.1 × Quiet key token until calls

apply_keeps :
    (key : String) (now : ℕ) (call : Call) (lock : InMemoryLock) (entry : Entry)
    → lookup key lock.entries ≡ some entry
    → now < entry.expires_at
    → Foreign key entry.fencing_token call
    → lookup key (apply now call lock).entries ≡ some entry
unfolding apply claim extend release
apply_keeps key now (claims k ttl_ms value) lock entry held early foreign = ground (
  arith,
  eq_iff k key,
  lookup-insert k key
      (record { value = value; fencing_token = lock.counter + 1; expires_at = now + ttl_ms })
      lock.entries,
)
apply_keeps key now (extends handle extend_ms) lock entry held early foreign =
    elim (Option-cases (current handle now (lookup handle.key lock.entries))) [
      | inl no_holder ↦ ground (arith, no_holder)
      | inr (mine, live) ↦ ground (
        arith,
        live,
        eq_iff handle.key key,
        lookup-insert handle.key key (record mine { expires_at = now + extend_ms }) lock.entries,
      )
    ]
apply_keeps key now (releases handle) lock entry held early foreign =
    ground (arith, eq_iff handle.key key, lookup-remove handle.key key lock.entries)

run_keeps :
    (key : String) (calls : List (ℕ × Call)) (lock : InMemoryLock) (entry : Entry)
    → lookup key lock.entries ≡ some entry
    → Quiet key entry.fencing_token entry.expires_at calls
    → lookup key (run calls lock).entries ≡ some entry
unfolding run
run_keeps key [] lock entry held quiet = held
run_keeps key ((now, call) ∷ calls) lock entry held quiet =
    run_keeps key calls (apply now call lock) entry
      (apply_keeps key now call lock entry held quiet.0 quiet.1) quiet.2

-- After a claim is won, and whatever calls others make before it expires, of this key or any other,
-- nobody else can claim the key before that, and a refused claim changes nothing.
pub claim_excludes_others :
    (key : String) (ttl_ms now : ℕ) (value : String) (lock : InMemoryLock) (handle : LockHandle)
    (calls : List (ℕ × Call)) (ttl' later : ℕ) (value' : String)
    → (claim key ttl_ms now value lock).0 ≡ some handle
    → Quiet key handle.fencing_token (now + ttl_ms) calls
    → later < now + ttl_ms
    → let after = run calls (claim key ttl_ms now value lock).1 in
      claim key ttl' later value' after ≡ (none, after)
claim_excludes_others key ttl_ms now value lock handle calls ttl' later value' won quiet early =
    let entry : Entry = record {
      value = value;
      fencing_token = lock.counter + 1;
      expires_at = now + ttl_ms;
    } in
    let token : handle.fencing_token ≡ lock.counter + 1 = unfold claim in ground (arith, won) in
    let held : lookup key (claim key ttl_ms now value lock).1.entries ≡ some entry =
      unfold claim in ground (arith, won, lookup-insert key key entry lock.entries, eq_refl key) in
    let kept =
      run_keeps key calls (claim key ttl_ms now value lock).1 entry held
        (subst (λ (t : ℕ). Quiet key t (now + ttl_ms) calls) token quiet) in
    refused kept
  where
    refused :
        let after = run calls (claim key ttl_ms now value lock).1 in
        lookup key after.entries
          ≡ some (record {
            value = value;
            fencing_token = lock.counter + 1;
            expires_at = now + ttl_ms;
          })
        → claim key ttl' later value' after ≡ (none, after)
    refused kept = unfold claim in ground (arith, kept, early)

apply-counter :
    (now : ℕ) (call : Call) (lock : InMemoryLock) → lock.counter ≤ (apply now call lock).counter
unfolding apply claim extend release
apply-counter now (claims k ttl_ms value) lock = ground arith
apply-counter now (extends handle extend_ms) lock = ground arith
apply-counter now (releases handle) lock = ground arith

run-counter :
    (calls : List (ℕ × Call)) (lock : InMemoryLock) → lock.counter ≤ (run calls lock).counter
unfolding run
run-counter [] lock = omega arith
run-counter ((now, call) ∷ calls) lock =
    omega (arith, apply-counter now call lock, run-counter calls (apply now call lock))

-- Of two claims that are won, of any keys and with any calls between, the later has the greater
-- fencing token.
pub fencing_grows :
    (key key' : String) (ttl_ms now ttl' later : ℕ) (value value' : String) (lock : InMemoryLock)
    (handle handle' : LockHandle) (calls : List (ℕ × Call))
    → (claim key ttl_ms now value lock).0 ≡ some handle
    → (claim key' ttl' later value' (run calls (claim key ttl_ms now value lock).1)).0
      ≡ some handle'
    → handle.fencing_token < handle'.fencing_token
unfolding claim
fencing_grows key key' ttl_ms now ttl' later value value' lock handle handle' calls won again =
    ground (arith, run-counter calls (unfold claim in (claim key ttl_ms now value lock).1))
