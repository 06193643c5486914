-- ===== src/Realtime/Socket.antt =====
-- src/realtime/backpressured-socket.ts: the send side of one connection. What the socket and the clock
-- answer during a call is an argument of it; what is done to the socket is a log, the newest first.
pub mod Told
mod Tests
use boilerplate_nestjs_api.Prelude.{
  ℕ, zero, suc, ◌+◌, ◌/◌, String, Bool, true, false, List, [], ◌∷◌, Option, none, some, ltb, leb,
  if◌then◌else◌,
}

pub record BackpressureOptions : Type 0 where
  pub high_water_mark_bytes : ℕ
  pub grace_ms : ℕ

-- `checked_at` is the clock when it is read a second time, to compare it with the grace.
pub record Observed : Type 0 where
  pub is_open : Bool
  pub buffered_amount : ℕ
  pub now : ℕ
  pub checked_at : ℕ

pub data SendOutcome : Type 0 where
  sent dropped closed : SendOutcome

-- What is asked of the socket. `lagged_frame` and `close_slow` carry the count they report.
pub data Action (F : Type 0) : Type 0 where
  write_frame : F → Action F
  lagged_frame : ℕ → ℕ → Action F
  close_slow : ℕ → Action F
  close_with : ℕ → String → Action F
  ping_peer : Action F
  cut : Action F

pub record BackpressuredSocket (F : Type 0) : Type 0 where
  pub lagging_since : Option ℕ
  pub dropped_while_lagging : ℕ
  pub dropped_total : ℕ
  pub actions : List (Action F)

abbrev pub low_water_mark_bytes : BackpressureOptions → ℕ
low_water_mark_bytes options = options.high_water_mark_bytes / 2

-- `now - since >= graceMs`, where the clock may have gone back
abbrev pub overdue : BackpressureOptions → ℕ → ℕ → Bool
overdue options since now = leb (since + options.grace_ms) now

module _ {F : Type 0} where
  pub connected : BackpressuredSocket F
  connected = record {
    lagging_since = none;
    dropped_while_lagging = 0;
    dropped_total = 0;
    actions = [];
  }

  abbrev pub act : Action F → BackpressuredSocket F → BackpressuredSocket F
  act action socket = record socket { actions = action ∷ socket.actions }

  pub close_slow_consumer : BackpressuredSocket F → BackpressuredSocket F
  close_slow_consumer socket = record socket {
    lagging_since = none;
    actions = close_slow socket.dropped_while_lagging ∷ socket.actions;
  }

  pub recover : BackpressuredSocket F → BackpressuredSocket F
  recover socket = elim socket.lagging_since [
    | none ↦ record socket { lagging_since = none; dropped_while_lagging = 0 }
    | some since ↦ record socket {
      lagging_since = none;
      dropped_while_lagging = 0;
      actions = lagged_frame socket.dropped_while_lagging since ∷ socket.actions;
    }
  ]

  abbrev pub count_drop : BackpressuredSocket F → BackpressuredSocket F
  count_drop socket = record socket {
    dropped_while_lagging = socket.dropped_while_lagging + 1;
    dropped_total = socket.dropped_total + 1;
  }

  pub stay_lagging :
      BackpressureOptions → ℕ → BackpressuredSocket F → SendOutcome × BackpressuredSocket F
  unfolding close_slow_consumer
  stay_lagging options now socket = elim socket.lagging_since [
    | none ↦ (dropped, count_drop socket)
    | some since ↦
        (if overdue options since now
          then (closed, close_slow_consumer (count_drop socket))
          else (dropped, count_drop socket))
  ]

  pub send :
      BackpressureOptions
      → Observed
      → F
      → BackpressuredSocket F
      → SendOutcome × BackpressuredSocket F
  unfolding stay_lagging recover
  send options seen frame socket =
      if seen.is_open
      then elim socket.lagging_since [
        | some _ ↦
            (if ltb (low_water_mark_bytes options) seen.buffered_amount
              then stay_lagging options seen.checked_at socket
              else (sent, act (write_frame frame) (recover socket)))
        | none ↦
            (if ltb options.high_water_mark_bytes seen.buffered_amount
              then stay_lagging options seen.checked_at
                  (record socket { lagging_since = some seen.now; dropped_while_lagging = 0 })
              else (sent, act (write_frame frame) socket))
      ]
      else (closed, socket)

  pub review : BackpressureOptions → Observed → BackpressuredSocket F → BackpressuredSocket F
  unfolding close_slow_consumer recover
  review options seen socket =
      if seen.is_open
      then elim socket.lagging_since [
        | none ↦ socket
        | some since ↦
            (if overdue options since seen.now
              then close_slow_consumer socket
              else if leb seen.buffered_amount (low_water_mark_bytes options)
              then recover socket
              else socket)
      ]
      else socket

  pub close : Observed → ℕ → String → BackpressuredSocket F → BackpressuredSocket F
  close seen code reason socket =
      if seen.is_open then act (close_with code reason) socket else socket

  pub ping : Observed → BackpressuredSocket F → BackpressuredSocket F
  ping seen socket = if seen.is_open then act ping_peer socket else socket

  pub terminate : BackpressuredSocket F → BackpressuredSocket F
  terminate socket = act cut socket

  pub send_unconditionally : Observed → F → BackpressuredSocket F → BackpressuredSocket F
  send_unconditionally seen frame socket =
      if seen.is_open then act (write_frame frame) socket else socket
