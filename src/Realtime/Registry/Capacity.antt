-- ===== src/Realtime/Registry/Capacity.antt =====
-- How many connections realtime.gateway.ts holds at once.
use boilerplate_nestjs_api.Prelude.{
  ℕ, ◌+◌, ◌≤◌, ◌≡◌, refl, inl, inr, String, List, [], ◌∷◌, arith, Dict, lookup, insert, remove,
  Option-cases, Bool-cases, length, leb,
}
use boilerplate_nestjs_api.Realtime.Registry.{
  has, Registry, rooms_of, add, forget, join, leave, join_all, leave_all, handle_connection,
  handle_disconnect, handle_subscribe, handle_unsubscribe, Reachable, starts, connects, disconnects,
  subscribes, unsubscribes,
}

length-insert :
    (key value : String) (entries : Dict String)
    → length (insert key value entries) ≤ length entries + 1
unfolding insert
length-insert key value [] = ground arith
length-insert key value (entry ∷ entries) = ground (arith, length-insert key value entries)

length-remove :
    (key : String) (entries : Dict String) → length (remove key entries) ≤ length entries
unfolding remove
length-remove key [] = ground arith
length-remove key (entry ∷ entries) = ground (arith, length-remove key entries)

-- Rooms do not change who is connected.
by_socket-join_all :
    (connection : String) (rooms : List String) (registry : Registry)
    → (join_all connection rooms registry).by_socket ≡ registry.by_socket
unfolding join_all join
by_socket-join_all connection [] registry = refl
by_socket-join_all connection (room ∷ rooms) registry =
    let rest = by_socket-join_all connection rooms (join connection room registry).1 in
    elim (Bool-cases (has room (rooms_of connection registry))) [
      | inl already ↦ ground (arith, rest, already)
      | inr new ↦ ground (arith, rest, new)
    ]

by_socket-leave_all :
    (connection : String) (rooms : List String) (registry : Registry)
    → (leave_all connection rooms registry).by_socket ≡ registry.by_socket
unfolding leave_all leave
by_socket-leave_all connection [] registry = refl
by_socket-leave_all connection (room ∷ rooms) registry =
    let rest = by_socket-leave_all connection rooms (leave connection room registry).1 in
    elim (Bool-cases (has room (rooms_of connection registry))) [
      | inl in_it ↦ ground (arith, rest, in_it)
      | inr not_in_it ↦ ground (arith, rest, not_in_it)
    ]

-- Whatever sockets have connected, disconnected, subscribed and unsubscribed, no more connections are held
-- than may be.
pub connections_bounded :
    (max_connections : ℕ) {registry : Registry}
    → Reachable max_connections registry
    → length registry.by_socket ≤ max_connections
unfolding handle_connection handle_disconnect handle_subscribe handle_unsubscribe add forget
connections_bounded max starts = ground arith
connections_bounded max (connects {registry = before} socket own rooms new_socket fresh reached) =
    elim (Bool-cases (leb max (length before.by_socket))) [
      | inl full ↦ rw full (connections_bounded max reached)
      | inr spare ↦ rw spare (ground (arith, spare, length-insert socket own before.by_socket))
    ]
connections_bounded max (disconnects {registry = before} socket reached) =
    elim (Option-cases (lookup socket before.by_socket)) [
      | inl unknown ↦ rw (handle_disconnect, forget, unknown) (connections_bounded max reached)
      | inr known ↦
          rw (handle_disconnect, forget, known.1)
            (ground (arith, length-remove socket before.by_socket, connections_bounded max reached))
    ]
connections_bounded max (subscribes {registry = before} socket rooms reached) =
    elim (Option-cases (lookup socket before.by_socket)) [
      | inl unknown ↦ rw (handle_subscribe, unknown) (connections_bounded max reached)
      | inr known ↦
          rw (handle_subscribe, known.1, by_socket-join_all known.0 rooms before)
            (connections_bounded max reached)
    ]
connections_bounded max (unsubscribes {registry = before} socket rooms reached) =
    elim (Option-cases (lookup socket before.by_socket)) [
      | inl unknown ↦ rw (handle_unsubscribe, unknown) (connections_bounded max reached)
      | inr known ↦
          rw (handle_unsubscribe, known.1, by_socket-leave_all known.0 rooms before)
            (connections_bounded max reached)
    ]
