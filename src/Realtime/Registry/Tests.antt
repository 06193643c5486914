-- ===== src/Realtime/Registry/Tests.antt =====
-- Runs of the model of src/realtime/connection-registry.ts at concrete inputs.
use boilerplate_nestjs_api.Prelude.{◌≡◌, refl, String, [], ◌∷◌, some, lookup, insert, remove}
use boilerplate_nestjs_api.Realtime.Registry.{
  has, Registry, rooms_of, members_of, Reachable, starts, connects, disconnects, subscribes,
  unsubscribes, empty_registry, handle_connection, handle_disconnect, handle_subscribe,
  handle_unsubscribe,
}
use boilerplate_nestjs_api.Realtime.Registry.Agreement.{indexes_agree}
use boilerplate_nestjs_api.Realtime.Registry.Connected.{members_connected}

abbrev one : Registry
one = handle_connection 2 "s1" "c1" (("user:1", tt) ∷ []) empty_registry

abbrev two : Registry
two = handle_connection 2 "s2" "c2" (("user:2", tt) ∷ []) one

abbrev subscribed : Registry
subscribed = handle_subscribe "s1" ("events:a" ∷ []) (handle_subscribe "s2" ("events:a" ∷ []) two)

-- Two connections, a room that both are in, and one of them gone.
abbrev last : Registry
last = handle_unsubscribe "s2" ("user:2" ∷ []) (handle_disconnect "s1" subscribed)

last-Reachable : Reachable 2 last
unfolding lookup insert handle_connection
last-Reachable = unsubscribes "s2" ("user:2" ∷ []) (
    disconnects "s1" (
      subscribes "s1" ("events:a" ∷ []) (
        subscribes "s2" ("events:a" ∷ []) (
          connects "s2" "c2" (("user:2", tt) ∷ []) refl refl
            (connects "s1" "c1" (("user:1", tt) ∷ []) refl refl starts)))))

only_one_left : members_of "events:a" last ≡ ("c2", tt) ∷ []
unfolding lookup insert remove handle_connection handle_disconnect handle_subscribe
    handle_unsubscribe
only_one_left = refl

indexes_agree_example : has "c2" (members_of "events:a" last) ≡ has "events:a" (rooms_of "c2" last)
indexes_agree_example = indexes_agree 2 last-Reachable "c2" "events:a"

members_connected_example : (socket : String) × (lookup socket last.by_socket ≡ some "c2")
unfolding lookup insert remove handle_connection handle_disconnect handle_subscribe
    handle_unsubscribe
members_connected_example = members_connected 2 last-Reachable "c2" "events:a" refl
