-- ===== src/Auth/RefreshTokens/Tests.antt =====
-- Runs of the model of src/auth/prisma-refresh-token.store.ts at concrete inputs.
use boilerplate_nestjs_api.Prelude.{◌≡◌, ◌≢◌, refl, true, List, [], ◌∷◌, none, lookup, insert}
use boilerplate_nestjs_api.Auth.RefreshTokens.{
  Tables, ConsumedRefreshToken, claimed, consume, refresh, invalid,
}
use boilerplate_nestjs_api.Auth.RefreshTokens.Updates.{finished}
use boilerplate_nestjs_api.Auth.RefreshTokens.Calls.{Call, issues, consumes, prunes, run}
use boilerplate_nestjs_api.Auth.RefreshTokens.Once.{claimed_once}
use boilerplate_nestjs_api.Auth.RefreshTokens.Session.{replay_ends_session}

abbrev no_tables : Tables
no_tables = record { tokens = []; families = [] }

-- One who signed in.
abbrev signed_in : Tables
unfolding run
signed_in =
    run
      (issues (record { token = "a"; user_id = "ann"; expires_at = 1000; family_id = none })
          "family-1"
        ∷ [])
      no_tables

abbrev the_row : ConsumedRefreshToken
the_row = record { user_id = "ann"; expires_at = 1000; family_id = "family-1" }

-- Another signs in, and what expired before long ago is pruned.
abbrev meanwhile : List Call
meanwhile =
    issues (record { token = "x"; user_id = "bob"; expires_at = 1000; family_id = none }) "family-2"
    ∷ consumes "x" 3
    ∷ prunes 5
    ∷ []

claimed_once_example :
    (finished "family-1" (consume "a" 9 (run meanwhile (consume "a" 2 signed_in).1)).1 ≡ true)
    × ((again : ConsumedRefreshToken)
        → (consume "a" 9 (run meanwhile (consume "a" 2 signed_in).1)).0 ≡ claimed again
        → again.family_id ≢ "family-1")
unfolding run consume lookup insert
claimed_once_example = claimed_once "a" 2 9 signed_in the_row meanwhile refl refl

-- The token "a" was exchanged for "b", and comes back.
-- The old token comes back from two clients at once: one of them between the transactions of the other.
abbrev at_once : List Call
at_once = consumes "a" 21 ∷ []

replay_ends_session_example :
    (refresh "b" 30 "d" 1000 (run []) (
      run meanwhile
        (refresh "a" 20 "c" 1000
          (run at_once)
          (run meanwhile (refresh "a" 2 "b" 1000 (run []) signed_in).1)).1)).0
    ≡ invalid
unfolding run consume refresh lookup insert
replay_ends_session_example =
    replay_ends_session "a" "b" "c" "d" 2 20 30 1000 1000 1000 signed_in the_row meanwhile meanwhile
      [] at_once [] refl refl refl refl refl refl refl refl refl refl
