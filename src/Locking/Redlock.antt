-- ===== src/Locking/Redlock.antt =====
-- src/common/locking/redlock.service.ts: a lock over independent Redis nodes. The scripts that it sends
-- are run as Redis documents their commands: a key that has expired is absent. What reaches a node and
-- when, and the clock of the client, are arguments.
pub mod Counting
pub mod Schedule
pub mod Keeping
pub mod Exclusion
pub mod Fencing
mod Tests
use boilerplate_nestjs_api.Prelude.{
  ℕ, zero, suc, ◌+◌, ◌-◌, ◌/◌, max, String, Bool, true, false, ◌&&◌, ◌||◌, List, [], ◌∷◌, Option,
  none, some, ltb, leb, ◌==◌, str_eq, length, Dict, lookup, insert, remove, if◌then◌else◌,
}

pub record Lease : Type 0 where
  pub value : String
  pub expires_at : ℕ

pub record Node : Type 0 where
  pub locks : Dict Lease
  pub fence : ℕ

abbrev pub absent : ℕ → Option Lease → Bool
absent at none = true
absent at (some lease) = leb lease.expires_at at

abbrev pub has_value : String → ℕ → Option Lease → Bool
has_value value at none = false
has_value value at (some lease) = ltb at lease.expires_at && str_eq lease.value value

-- `none`: the script answers -1.
pub redlock_acquire : String → String → ℕ → ℕ → Node → Option ℕ × Node
redlock_acquire key value ttl_ms at node =
    if absent at (lookup key node.locks)
    then (
      some (node.fence + 1),
      record {
        locks = insert key (record { value = value; expires_at = at + ttl_ms }) node.locks;
        fence = node.fence + 1;
      },
    )
    else (none, node)

-- The script answers 1.
pub redlock_bump_fence : ℕ → ℕ → Node → Unit {0} × Node
redlock_bump_fence token at node =
    (tt, if ltb node.fence token then record node { fence = token } else node)

pub redlock_release : String → String → ℕ → Node → Bool × Node
redlock_release key value at node =
    if has_value value at (lookup key node.locks)
    then (true, record node { locks = remove key node.locks })
    else (false, node)

pub redlock_extend : String → String → ℕ → ℕ → Node → Bool × Node
redlock_extend key value ttl_ms at node =
    if has_value value at (lookup key node.locks)
    then (
      true,
      record node {
        locks = insert key (record { value = value; expires_at = at + ttl_ms }) node.locks;
      },
    )
    else (false, node)

-- A command may fail before the node, or be run there and have no answer in time.
pub data Reach : Type 0 where
  lost unanswered answered : Reach

-- The command of another caller, at one node.
pub data Command : Type 0 where
  asks_vote : (key value : String) → (ttl_ms at : ℕ) → Command
  raises_fence : (token at : ℕ) → Command
  withdraws : (key value : String) → (at : ℕ) → Command
  prolongs : (key value : String) → (ttl_ms at : ℕ) → Command

unfoldable pub obey : Command → Node → Node
unfolding redlock_acquire redlock_bump_fence redlock_release redlock_extend
obey (asks_vote key value ttl_ms at) node = (redlock_acquire key value ttl_ms at node).1
obey (raises_fence token at) node = (redlock_bump_fence token at node).1
obey (withdraws key value at) node = (redlock_release key value at node).1
obey (prolongs key value ttl_ms at) node = (redlock_extend key value ttl_ms at node).1

unfoldable pub obey_all : List Command → Node → Node
unfolding obey
obey_all [] node = node
obey_all (command ∷ commands) node = obey_all commands (obey command node)

-- `before` are the commands of others that the node ran since this caller's last one.
pub record Contact : Type 0 where
  pub reach : Reach
  pub at : ℕ
  pub before : List Command

module _ {R : Type 0} (command : ℕ → Node → R × Node) (contact : ℕ → Contact) where
  -- `none`: an error stands in the result of the node.
  pub on_every_node : ℕ → List Node → List (Option R) × List Node
  unfolding obey_all
  on_every_node index [] = ([], [])
  on_every_node index (node ∷ nodes) =
      let (results, after) = on_every_node (index + 1) nodes in
      let found = obey_all (contact index).before node in
      let (result, changed) = command (contact index).at found in
      elim (contact index).reach [
        | lost ↦ (none ∷ results, found ∷ after)
        | unanswered ↦ (none ∷ results, changed ∷ after)
        | answered ↦ (some result ∷ results, changed ∷ after)
      ]

abbrev pub quorum : List Node → ℕ
quorum nodes = length nodes / 2 + 1

abbrev pub token_of : Option (Option ℕ) → Option ℕ
token_of none = none
token_of (some vote) = vote

-- How many nodes voted, and the greatest token.
pub claimed : List (Option (Option ℕ)) → ℕ
claimed [] = 0
claimed (vote ∷ votes) = elim (token_of vote) [ none ↦ claimed votes | some _ ↦ claimed votes + 1 ]

pub greatest : List (Option (Option ℕ)) → ℕ
greatest [] = 0
greatest (vote ∷ votes) = elim (token_of vote) [
  | none ↦ greatest votes
  | some token ↦ max token (greatest votes)
]

pub answers {ℓ} : {A : Type ℓ} → List (Option A) → ℕ
answers [] = 0
answers (none ∷ results) = answers results
answers (some _ ∷ results) = answers results + 1

-- `filter((result) => result.value === 1)`
pub agreed : List (Option Bool) → ℕ
agreed [] = 0
agreed (some true ∷ results) = agreed results + 1
agreed (_ ∷ results) = agreed results

-- What an attempt meets: the clock when it starts, after the votes, after the publication, and when the
-- handle is made; and the nodes in each pass over them.
pub record Attempt : Type 0 where
  pub start : ℕ
  pub voted_at : ℕ
  pub published_at : ℕ
  pub made_at : ℕ
  pub voting : ℕ → Contact
  pub publishing : ℕ → Contact
  pub releasing : ℕ → Contact

pub record RedlockHandle : Type 0 where
  pub key : String
  pub value : String
  pub fencing_token : ℕ
  pub valid_until : ℕ

pub data Attempted : Type 0 where
  acquired : RedlockHandle → Attempted
  failed : Attempted
  token_overflow : Attempted

abbrev pub max_safe_integer : ℕ
max_safe_integer = 9007199254740991

-- `ttlMs - (now - start) - drift <= 0`
abbrev pub spent : ℕ → ℕ → ℕ → ℕ → Bool
spent ttl_ms drift start now = leb (start + ttl_ms) (now + drift)

pub release_everywhere : String → String → (ℕ → Contact) → List Node → List Node
unfolding on_every_node
release_everywhere key value contact nodes =
    (on_every_node (redlock_release key value) contact 0 nodes).1

-- One pass of the waiting loop: the value that was drawn, what the attempt meets, the clock after it,
-- and what others do to the nodes during the sleep that may follow.
pub record Pass : Type 0 where
  pub value : String
  pub env : Attempt
  pub checked_at : ℕ
  pub others : List Node → List Node

-- `none`: the wait is over. With the passes used up it is not.
pub data Waited : Type 0 where
  ended : Attempted → Waited
  bad_argument : Waited
  still_waiting : Waited

-- A handle as its holder has it: `live` until it is released or an extension fails.
pub record Held : Type 0 where
  pub handle : RedlockHandle
  pub live : Bool

-- Whether a quorum still had the value.
pub release : Held → (ℕ → Contact) → ℕ → List Node → Bool × (Held × List Node)
release held contact now nodes =
    if held.live
    then (let (results, after) =
          on_every_node (redlock_release held.handle.key held.handle.value) contact 0 nodes in
        (
          leb (quorum nodes) (agreed results),
          (record { handle = record held.handle { valid_until = now }; live = false }, after),
        ))
    else (false, (held, nodes))

module _ (drift : ℕ → ℕ) where
  pub publish : String → String → ℕ → Attempt → ℕ → List Node → Attempted × List Node
  publish key value ttl_ms env token nodes =
      let (bumps, after) = on_every_node (redlock_bump_fence token) env.publishing 0 nodes in
      if ltb (answers bumps) (quorum nodes)
        || spent ttl_ms (drift ttl_ms) env.start env.published_at
      then (failed, release_everywhere key value env.releasing after)
      else (
        acquired (record {
          key = key;
          value = value;
          fencing_token = token;
          valid_until = env.made_at + (env.start + ttl_ms - (env.published_at + drift ttl_ms));
        }),
        after,
      )

  pub attempt : String → String → ℕ → Attempt → List Node → Attempted × List Node
  unfolding publish
  attempt key value ttl_ms env nodes =
      let (votes, after) = on_every_node (redlock_acquire key value ttl_ms) env.voting 0 nodes in
      if ltb (claimed votes) (quorum nodes) || spent ttl_ms (drift ttl_ms) env.start env.voted_at
      then (failed, release_everywhere key value env.releasing after)
      else if ltb max_safe_integer (greatest votes)
      then (token_overflow, release_everywhere key value env.releasing after)
      else publish key value ttl_ms env (greatest votes) after

  -- `none`: the quorum is lost. What is left of the lease is counted from the start.
  pub extend_everywhere : String → String → ℕ → Attempt → List Node → Option ℕ × List Node
  extend_everywhere key value ttl_ms env nodes =
      let (results, after) = on_every_node (redlock_extend key value ttl_ms) env.voting 0 nodes in
      if ltb (agreed results) (quorum nodes) || spent ttl_ms (drift ttl_ms) env.start env.voted_at
      then (none, release_everywhere key value env.releasing after)
      else (some (env.start + ttl_ms - (env.voted_at + drift ttl_ms)), after)

  pub wait_for : String → ℕ → ℕ → List Pass → List Node → Waited × List Node
  unfolding attempt
  wait_for key ttl_ms deadline [] nodes = (still_waiting, nodes)
  wait_for key ttl_ms deadline (pass ∷ passes) nodes =
      let (result, after) = attempt key pass.value ttl_ms pass.env nodes in
      elim result [
        | acquired handle ↦ (ended (acquired handle), after)
        | token_overflow ↦ (ended token_overflow, after)
        | failed ↦ elim (leb deadline pass.checked_at) [
          | true ↦ (ended failed, after)
          | false ↦ wait_for key ttl_ms deadline passes (pass.others after)
        ]
      ]

  pub acquire : String → ℕ → ℕ → ℕ → List Pass → List Node → Waited × List Node
  unfolding wait_for
  acquire key ttl_ms wait_ms started passes nodes =
      if ttl_ms == 0 || ltb max_safe_integer ttl_ms
      then (bad_argument, nodes)
      else wait_for key ttl_ms (started + wait_ms) passes nodes

  -- `none`: the time to live is refused. The clock is read once more for the new expiry.
  pub extend : Held → ℕ → Attempt → List Node → Option Bool × (Held × List Node)
  unfolding extend_everywhere
  extend held ttl_ms env nodes =
      if ttl_ms == 0 || ltb max_safe_integer ttl_ms
      then (none, (held, nodes))
      else if held.live
      then extended (extend_everywhere held.handle.key held.handle.value ttl_ms env nodes)
      else (some false, (held, nodes))
    where
      extended : Option ℕ × List Node → Option Bool × (Held × List Node)
      extended (none, after) = (
        some false,
        (record { handle = record held.handle { valid_until = env.made_at }; live = false }, after),
      )
      extended (some validity, after) = (
        some true,
        (
          record held { handle = record held.handle { valid_until = env.made_at + validity } },
          after,
        ),
      )
