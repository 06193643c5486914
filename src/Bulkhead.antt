-- ===== src/Bulkhead.antt =====
-- src/common/bulkhead/bulkhead.ts: a counting semaphore with a bounded FIFO wait queue. Calls of
-- `acquire` are numbered; a permit is known by the call that got it, and `open_permits` holds those
-- whose `released` flag is still false. Times and budgets are whole milliseconds.
pub mod Invariant
pub mod Permits
mod Tests
use boilerplate_nestjs_api.Prelude.{
  ℕ, zero, suc, ◌+◌, ◌-◌, min, Bool, true, false, ◌||◌, List, [], ◌∷◌, ◌++◌, Option, none, some,
  ltb, leb, ◌==◌, length, ℤ, pos, negsuc, if◌then◌else◌,
}

pub record BulkheadPolicy : Type 0 where
  pub max_concurrent : ℕ
  pub max_queued : ℕ
  pub max_queue_wait_ms : ℕ

pub data RejectionReason : Type 0 where
  queue_full queue_timeout : RejectionReason

pub record Waiter : Type 0 where
  pub call : ℕ
  pub queued_at : ℕ

pub record Bulkhead : Type 0 where
  pub policy : BulkheadPolicy
  pub in_flight : ℕ
  pub waiting : List Waiter
  pub queue_full_rejections : ℕ
  pub queue_timeout_rejections : ℕ
  pub open_permits : List ℕ
  pub calls : ℕ

-- The constructor refuses a cap of zero.
unfoldable pub new : BulkheadPolicy → Option Bulkhead
new policy =
    if ltb policy.max_concurrent 1
    then none
    else some (record {
      policy = policy;
      in_flight = 0;
      waiting = [];
      queue_full_rejections = 0;
      queue_timeout_rejections = 0;
      open_permits = [];
      calls = 0;
    })

-- What happens to a call: it is admitted, it waits with a timer of so many milliseconds, or it is
-- rejected after so many.
pub data Answer : Type 0 where
  admitted : ℕ → Answer
  queued : ℕ → ℕ → Answer
  rejected : RejectionReason → ℕ → Answer
  nothing : Answer

abbrev pub budget : ℤ → BulkheadPolicy → ℕ
budget (pos wait) policy = min wait policy.max_queue_wait_ms
budget (negsuc n) policy = 0

pub acquire : ℤ → ℕ → Bulkhead → Answer × Bulkhead
acquire wait_budget_ms now b =
    if ltb b.in_flight b.policy.max_concurrent
    then (
      admitted b.calls,
      record b {
        in_flight = b.in_flight + 1;
        open_permits = b.calls ∷ b.open_permits;
        calls = b.calls + 1;
      },
    )
    else if budget wait_budget_ms b.policy == 0
    then (
      rejected queue_timeout 0,
      record b { queue_timeout_rejections = b.queue_timeout_rejections + 1; calls = b.calls + 1 },
    )
    else if leb b.policy.max_queued (length b.waiting)
    then (
      rejected queue_full 0,
      record b { queue_full_rejections = b.queue_full_rejections + 1; calls = b.calls + 1 },
    )
    else (
      queued b.calls (budget wait_budget_ms b.policy),
      record b {
        waiting = b.waiting ++ record { call = b.calls; queued_at = now } ∷ [];
        calls = b.calls + 1;
      },
    )

-- `indexOf` and `splice`: the waiter of a call, and the queue without it.
pub find_waiter : ℕ → List Waiter → Option Waiter
find_waiter call [] = none
find_waiter call (w ∷ waiting) = if w.call == call then some w else find_waiter call waiting

pub drop_waiter : ℕ → List Waiter → List Waiter
drop_waiter call [] = []
drop_waiter call (w ∷ waiting) = if w.call == call then waiting else w ∷ drop_waiter call waiting

-- The timer of a call fires. (`release` clears the timer of a waiter that it admits.)
pub timer_fires : ℕ → ℕ → Bulkhead → Answer × Bulkhead
timer_fires call now b = elim (find_waiter call b.waiting) [
  | none ↦ (nothing, b)
  | some w ↦ (
    rejected queue_timeout (now - w.queued_at),
    record b {
      waiting = drop_waiter call b.waiting;
      queue_timeout_rejections = b.queue_timeout_rejections + 1;
    },
  )
]

pub holds : ℕ → List ℕ → Bool
holds call [] = false
holds call (c ∷ permits) = c == call || holds call permits

pub drop_permit : ℕ → List ℕ → List ℕ
drop_permit call [] = []
drop_permit call (c ∷ permits) = if c == call then permits else c ∷ drop_permit call permits

-- A permit goes straight to the oldest waiter, or back. (From 0 the source would go below.)
pub release : Bulkhead → Answer × Bulkhead
release b = elim b.waiting [
  | [] ↦ (nothing, record b { in_flight = b.in_flight - 1 })
  | w ∷ rest ↦
      (admitted w.call, record b { waiting = rest; open_permits = w.call ∷ b.open_permits })
]

-- The function that a permit is: a second call of it does nothing.
pub release_permit : ℕ → Bulkhead → Answer × Bulkhead
unfolding release
release_permit call b =
    if holds call b.open_permits
    then release (record b { open_permits = drop_permit call b.open_permits })
    else (nothing, b)

-- What callers and timers do to a bulkhead.
pub data Event : Type 0 where
  acquires : ℤ → ℕ → Event
  fires : ℕ → ℕ → Event
  gives_back : ℕ → Event

pub apply : Event → Bulkhead → Answer × Bulkhead
unfolding acquire timer_fires release_permit
apply (acquires wait_budget_ms now) b = acquire wait_budget_ms now b
apply (fires call now) b = timer_fires call now b
apply (gives_back call) b = release_permit call b

pub run : List Event → Bulkhead → Bulkhead
run [] b = b
run (e ∷ events) b = run events (apply e b).1
