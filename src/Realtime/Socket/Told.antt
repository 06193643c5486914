-- ===== src/Realtime/Socket/Told.antt =====
-- What src/realtime/backpressured-socket.ts tells the peer about the frames it dropped.
use boilerplate_nestjs_api.Prelude.{
  ℕ, ◌+◌, ◌/◌, ◌≤◌, ◌≡◌, refl, subst, ◌↔◌, String, true, List, [], ◌∷◌, none, some, arith,
  if◌then◌else◌,
}
use boilerplate_nestjs_api.Realtime.Socket.{
  BackpressureOptions, Observed, sent, Action, write_frame, lagged_frame, close_slow, close_with,
  ping_peer, cut, BackpressuredSocket, close_slow_consumer, recover, stay_lagging, send, review,
  close, ping, terminate, send_unconditionally, connected,
}

pub data Call (F : Type 0) : Type 0 where
  sends : F → Call F
  reviews : Call F
  closes : ℕ → String → Call F
  pings : Call F
  terminates : Call F
  farewell : F → Call F

module _ {F : Type 0} where
  unfoldable pub apply :
      BackpressureOptions → Observed → Call F → BackpressuredSocket F → BackpressuredSocket F
  apply options seen (sends frame) socket = (send options seen frame socket).1
  apply options seen reviews socket = review options seen socket
  apply options seen (closes code reason) socket = close seen code reason socket
  apply options seen pings socket = ping seen socket
  apply options seen terminates socket = terminate socket
  apply options seen (farewell frame) socket = send_unconditionally seen frame socket

  unfoldable pub run :
      BackpressureOptions → List (Observed × Call F) → BackpressuredSocket F → BackpressuredSocket F
  run options [] socket = socket
  run options ((seen, call) ∷ calls) socket = run options calls (apply options seen call socket)

  -- The drops that the peer was told of, in a lagged frame or in the reason of the close.
  abbrev pub told : List (Action F) → ℕ
  told [] = 0
  told (lagged_frame count since ∷ actions) = count + told actions
  told (close_slow count ∷ actions) = count + told actions
  told (write_frame _ ∷ actions) = told actions
  told (close_with _ _ ∷ actions) = told actions
  told (ping_peer ∷ actions) = told actions
  told (cut ∷ actions) = told actions

  -- The drops that the peer is still to be told of.
  abbrev pub untold : BackpressuredSocket F → ℕ
  untold socket = elim socket.lagging_since [ none ↦ 0 | some _ ↦ socket.dropped_while_lagging ]

  abbrev pub written : List (Action F) → ℕ
  written [] = 0
  written (write_frame _ ∷ actions) = written actions + 1
  written (lagged_frame _ _ ∷ actions) = written actions
  written (close_slow _ ∷ actions) = written actions
  written (close_with _ _ ∷ actions) = written actions
  written (ping_peer ∷ actions) = written actions
  written (cut ∷ actions) = written actions

  -- A frame that is handed over while the socket is open.
  abbrev pub hands : Observed → Call F → ℕ
  hands seen (sends frame) = if seen.is_open then 1 else 0
  hands seen (farewell frame) = if seen.is_open then 1 else 0
  hands seen reviews = 0
  hands seen (closes code reason) = 0
  hands seen pings = 0
  hands seen terminates = 0

  abbrev pub handed : List (Observed × Call F) → ℕ
  handed [] = 0
  handed ((seen, call) ∷ calls) = hands seen call + handed calls

  -- Of `given` frames, each is written or the peer is told of it, or is still to be.
  abbrev pub Accounts : ℕ → BackpressuredSocket F → Type 0
  Accounts given socket =
      (given ≡ written socket.actions + (told socket.actions + untold socket))
      × (given ≡ written socket.actions + socket.dropped_total)

  apply-Accounts :
      (given : ℕ) (options : BackpressureOptions) (seen : Observed) (call : Call F)
      (socket : BackpressuredSocket F)
      → Accounts given socket
      → Accounts (given + hands seen call) (apply options seen call socket)
  unfolding apply send review close ping terminate send_unconditionally stay_lagging recover
      close_slow_consumer
  apply-Accounts given options seen (sends frame) socket (all, counted) =
      (ground (arith, all), ground (arith, counted))
  apply-Accounts given options seen reviews socket (all, counted) =
      (ground (arith, all), ground (arith, counted))
  apply-Accounts given options seen (closes code reason) socket (all, counted) =
      (ground (arith, all), ground (arith, counted))
  apply-Accounts given options seen pings socket (all, counted) =
      (ground (arith, all), ground (arith, counted))
  apply-Accounts given options seen terminates socket (all, counted) =
      (ground (arith, all), ground (arith, counted))
  apply-Accounts given options seen (farewell frame) socket (all, counted) =
      (ground (arith, all), ground (arith, counted))

  run_from :
      (given : ℕ) (options : BackpressureOptions) (calls : List (Observed × Call F))
      (socket : BackpressuredSocket F)
      → Accounts given socket
      → Accounts (given + handed calls) (run options calls socket)
  unfolding run
  run_from given options [] socket before = subst (λ n. Accounts n socket) (omega arith) before
  run_from given options ((seen, call) ∷ calls) socket before =
      subst (λ n. Accounts n (run options calls (apply options seen call socket))) (omega arith)
        (run_from (given + hands seen call) options calls (apply options seen call socket)
          (apply-Accounts given options seen call socket before))

  -- After any calls on a new connection, whatever the socket and the clock answer: of the frames that
  -- were handed over while the socket was open, by `send` or as a farewell, each was written, or counted
  -- in a lagged frame or in the reason of a close, or is counted in the lag that goes on; and those that
  -- were not written are the total that the connection gives of its drops.
  pub run-Accounts :
      (options : BackpressureOptions) (calls : List (Observed × Call F))
      → Accounts (handed calls) (run options calls connected)
  run-Accounts options calls =
      subst (λ n. Accounts n (run options calls connected)) (omega arith)
        (run_from 0 options calls connected (unfold connected in (refl, refl)))

  -- The most bytes that may be unflushed for the next frame to be written.
  abbrev pub mark : BackpressureOptions → BackpressuredSocket F → ℕ
  mark options socket = elim socket.lagging_since [
    | none ↦ options.high_water_mark_bytes
    | some _ ↦ options.high_water_mark_bytes / 2
  ]

  -- A frame is reported as sent exactly when the socket is open and its buffer is not over the mark,
  -- the low one while the connection lags and the high one otherwise.
  pub send_iff :
      (options : BackpressureOptions) (seen : Observed) (frame : F) (socket : BackpressuredSocket F)
      → (send options seen frame socket).0 ≡ sent
        ↔ (seen.is_open ≡ true) × (seen.buffered_amount ≤ mark options socket)
  unfolding send stay_lagging recover close_slow_consumer
  send_iff options seen frame socket =
      (λ was_sent. (ground arith, ground arith), λ allowed. ground (arith, allowed.0, allowed.1))
