-- ===== src/Realtime/Socket/Tests.antt =====
-- The connection of src/realtime/backpressured-socket.ts at concrete calls.
use boilerplate_nestjs_api.Prelude.{ℕ, ◌≡◌, refl, String, true, List, [], ◌∷◌}
use boilerplate_nestjs_api.Realtime.Socket.{
  BackpressureOptions, Observed, connected, send, write_frame, lagged_frame, stay_lagging, recover,
}
use boilerplate_nestjs_api.Realtime.Socket.Told.{
  Call, sends, apply, run, handed, Accounts, run-Accounts,
}

abbrev options : BackpressureOptions
options = record { high_water_mark_bytes = 100; grace_ms = 1000 }

abbrev seen : ℕ → ℕ → Observed
seen buffered now = record {
  is_open = true;
  buffered_amount = buffered;
  now = now;
  checked_at = now;
}

-- A burst: two frames are dropped, then the peer drains and is told.
abbrev burst : List (Observed × Call String)
burst =
    (seen 0 10, sends "a")
    ∷ (seen 101 20, sends "b")
    ∷ (seen 60 30, sends "c")
    ∷ (seen 50 40, sends "d")
    ∷ []

told_after_burst :
    (run options burst connected).actions
    ≡ write_frame "d" ∷ lagged_frame 2 20 ∷ write_frame "a" ∷ []
unfolding run apply send stay_lagging recover connected
told_after_burst = refl

run-Accounts_example : Accounts (handed burst) (run options burst connected)
run-Accounts_example = run-Accounts options burst
