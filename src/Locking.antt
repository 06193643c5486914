-- ===== src/Locking.antt =====
-- src/common/locking/in-memory-distributed-lock.ts: the lock as a map. The clock is read once in each
-- call and is an argument; entries are told apart, as the objects are, by their fencing tokens.
pub mod Exclusion
pub mod Redlock
mod Tests
use boilerplate_nestjs_api.Prelude.{
  ℕ, zero, suc, ◌+◌, ◌-◌, min, String, Bool, true, false, ◌&&◌, ◌||◌, List, [], ◌∷◌, Option, none,
  some, ltb, leb, ◌==◌, Dict, lookup, insert, remove, if◌then◌else◌,
}

pub record Entry : Type 0 where
  pub value : String
  pub fencing_token : ℕ
  pub expires_at : ℕ

pub record InMemoryLock : Type 0 where
  pub entries : Dict Entry
  pub counter : ℕ

pub record LockHandle : Type 0 where
  pub key : String
  pub fencing_token : ℕ

abbrev pub is_held : Option Entry → ℕ → Bool
is_held none now = false
is_held (some existing) now = ltb now existing.expires_at

-- `value` is made from the counter and a random number; nothing reads it.
pub claim : String → ℕ → ℕ → String → InMemoryLock → Option LockHandle × InMemoryLock
claim key ttl_ms now value lock = if is_held (lookup key lock.entries) now then (none, lock) else (
  some (record { key = key; fencing_token = lock.counter + 1 }),
  record {
    entries =
        insert key
          (record { value = value; fencing_token = lock.counter + 1; expires_at = now + ttl_ms })
          lock.entries;
    counter = lock.counter + 1;
  },
)

-- The entry of the handle, if it is still the live holder of its key.
abbrev pub current : LockHandle → ℕ → Option Entry → Option Entry
current handle now none = none
current handle now (some entry) =
    if entry.fencing_token == handle.fencing_token && ltb now entry.expires_at
    then some entry
    else none

pub extend : LockHandle → ℕ → ℕ → InMemoryLock → Bool × InMemoryLock
extend handle extend_ms now lock = elim (current handle now (lookup handle.key lock.entries)) [
  | none ↦ (false, lock)
  | some entry ↦ (
    true,
    record lock {
      entries = insert handle.key (record entry { expires_at = now + extend_ms }) lock.entries;
    },
  )
]

pub release : LockHandle → ℕ → InMemoryLock → Bool × InMemoryLock
release handle now lock = elim (current handle now (lookup handle.key lock.entries)) [
  | none ↦ (false, lock)
  | some _ ↦ (true, record lock { entries = remove handle.key lock.entries })
]

-- One pass of the waiting loop: the clock at the claim and after it, the holder's value, and what
-- others did to the lock during the sleep that may follow.
pub record Pass : Type 0 where
  pub now : ℕ
  pub checked_at : ℕ
  pub value : String
  pub others : InMemoryLock → InMemoryLock

pub data Acquired : Type 0 where
  handle_of : LockHandle → Acquired
  gave_up : Acquired
  bad_ttl : Acquired
  still_waiting : Acquired

-- The loop over the passes that the environment grants.
wait_for : String → ℕ → ℕ → List Pass → InMemoryLock → Acquired × InMemoryLock
wait_for key ttl_ms deadline [] lock = (still_waiting, lock)
wait_for key ttl_ms deadline (pass ∷ passes) lock =
    let (handle, after) = claim key ttl_ms pass.now pass.value lock in
    elim handle [
      | some won ↦ (handle_of won, after)
      | none ↦ elim (leb deadline pass.checked_at) [
        | true ↦ (gave_up, after)
        | false ↦ wait_for key ttl_ms deadline passes (pass.others after)
      ]
    ]

abbrev max_safe_integer : ℕ
max_safe_integer = 9007199254740991

pub acquire : String → ℕ → ℕ → ℕ → List Pass → InMemoryLock → Acquired × InMemoryLock
unfolding wait_for
acquire key ttl_ms wait_ms started passes lock =
    if ttl_ms == 0 || ltb max_safe_integer ttl_ms
    then (bad_ttl, lock)
    else wait_for key ttl_ms (started + wait_ms) passes lock

-- What the holders of the process do, each at its own time.
pub data Call : Type 0 where
  claims : String → ℕ → String → Call
  extends : LockHandle → ℕ → Call
  releases : LockHandle → Call

pub apply : ℕ → Call → InMemoryLock → InMemoryLock
apply now (claims key ttl_ms value) lock = (claim key ttl_ms now value lock).1
apply now (extends handle extend_ms) lock = (extend handle extend_ms now lock).1
apply now (releases handle) lock = (release handle now lock).1

pub run : List (ℕ × Call) → InMemoryLock → InMemoryLock
run [] lock = lock
run ((now, call) ∷ calls) lock = run calls (apply now call lock)
