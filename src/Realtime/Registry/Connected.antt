-- ===== src/Realtime/Registry/Connected.antt =====
-- That src/realtime/connection-registry.ts keeps nothing of a connection that has gone, and that
-- realtime.gateway.ts keeps to its number of connections.
use boilerplate_nestjs_api.Prelude.{
  ℕ, ◌≡◌, sym, subst, inl, inr, String, true, false, List, [], ◌∷◌, some, arith, eq_iff, str_eq,
  lookup, remove, lookup-insert, lookup-remove, Option-cases, Bool-cases, length, leb,
}
use boilerplate_nestjs_api.Realtime.Registry.{
  Names, has, is_none, Registry, empty_registry, rooms_of, members_of, add, forget, join, leave,
  join_all, leave_all, handle_connection, handle_disconnect, handle_subscribe, handle_unsubscribe,
  Reachable, starts, connects, disconnects, subscribes, unsubscribes,
}
use boilerplate_nestjs_api.Realtime.Registry.Updates.{
  in_room, in_room-index, in_room-deindex, in_room-index_all, in_room-deindex_all,
}
use boilerplate_nestjs_api.Realtime.Registry.Agreement.{Agrees, rooms_of-same, indexes_agree}

-- The socket whose connection it is.
abbrev pub Connected : String → Registry → Type 0
Connected connection registry =
    (socket : String) × (lookup socket registry.by_socket ≡ some connection)

-- Every member of a room is connected.
abbrev pub Placed : Registry → Type 0
Placed registry = (c r : String) → in_room c r registry.by_room ≡ true → Connected c registry

empty-Placed : Placed empty_registry
unfolding lookup
empty-Placed c r member = cc

join-Placed :
    (connection room : String) (registry : Registry)
    → Connected connection registry
    → Placed registry
    → Placed (join connection room registry).1
      × Connected connection (join connection room registry).1
unfolding join
join-Placed connection room registry known placed =
    elim (Bool-cases (has room (rooms_of connection registry))) [
      | inl already ↦ rw already (placed, known)
      | inr new ↦ rw new (
        (λ c r member. elim (Bool-cases (str_eq connection c)) [
          | inl same ↦ subst (λ x. Connected x registry) ((eq_iff connection c).0 same) known
          | inr other ↦
              placed c r
                (ground (arith, in_room-index room connection r c registry.by_room, member, other))
        ]),
        known,
      )
    ]

join_all-Placed :
    (connection : String) (rooms : List String) (registry : Registry)
    → Connected connection registry
    → Placed registry
    → Placed (join_all connection rooms registry)
unfolding join_all
join_all-Placed connection [] registry known placed = placed
join_all-Placed connection (room ∷ rooms) registry known placed =
    let joined = join-Placed connection room registry known placed in
    join_all-Placed connection rooms (join connection room registry).1 joined.1 joined.0

leave-Placed :
    (connection room : String) (registry : Registry)
    → Placed registry
    → Placed (leave connection room registry).1
unfolding leave
leave-Placed connection room registry placed =
    elim (Bool-cases (has room (rooms_of connection registry))) [
      | inl in_it ↦ rw in_it (λ c r member.
          placed c r (ground (arith, in_room-deindex room connection r c registry.by_room, member)))
      | inr not_in_it ↦ rw not_in_it placed
    ]

leave_all-Placed :
    (connection : String) (rooms : List String) (registry : Registry)
    → Placed registry
    → Placed (leave_all connection rooms registry)
unfolding leave_all
leave_all-Placed connection [] registry placed = placed
leave_all-Placed connection (room ∷ rooms) registry placed =
    leave_all-Placed connection rooms (leave connection room registry).1
      (leave-Placed connection room registry placed)

-- A socket that was there before keeps its connection.
Connected-add :
    (socket connection c : String) (rooms : Names) (registry : Registry)
    → is_none (lookup socket registry.by_socket) ≡ true
    → Connected c registry
    → Connected c (add socket connection rooms registry)
unfolding add
Connected-add socket connection c rooms registry fresh known =
    elim (Bool-cases (str_eq socket known.0)) [
      | inl same ↦
          let found =
            subst (λ x. lookup x registry.by_socket ≡ some c) (sym ((eq_iff socket known.0).0 same))
              known.1 in
          ground (arith, found, fresh)
      | inr other ↦ (
        known.0,
        ground (arith, lookup-insert socket known.0 connection registry.by_socket, other, known.1),
      )
    ]

add-Placed :
    (socket connection : String) (rooms : Names) (registry : Registry)
    → is_none (lookup socket registry.by_socket) ≡ true
    → Placed registry
    → Placed (add socket connection rooms registry)
unfolding add
add-Placed socket connection rooms registry fresh placed c r member =
    elim (Bool-cases (str_eq connection c)) [
      | inl same ↦
          subst (λ x. Connected x (add socket connection rooms registry))
            ((eq_iff connection c).0 same)
            (
              socket,
              ground (
                arith,
                lookup-insert socket socket connection registry.by_socket,
                eq_iff socket socket,
              ),
            )
      | inr other ↦ Connected-add socket connection c rooms registry fresh (
          placed c r (
            ground (arith, in_room-index_all rooms connection r c registry.by_room, member, other)))
    ]

-- What has another connection stays when a socket is forgotten.
Connected-remove :
    (socket connection c : String) (registry : Registry)
    → lookup socket registry.by_socket ≡ some connection
    → str_eq connection c ≡ false
    → (known : Connected c registry) → lookup known.0 (remove socket registry.by_socket) ≡ some c
Connected-remove socket connection c registry found other known =
    elim (Bool-cases (str_eq socket known.0)) [
      | inl same ↦
          let there =
            subst (λ x. lookup x registry.by_socket ≡ some c) (sym ((eq_iff socket known.0).0 same))
              known.1 in
          ground (arith, there, found, other, eq_iff connection c)
      | inr elsewhere ↦
          ground (arith, lookup-remove socket known.0 registry.by_socket, elsewhere, known.1)
    ]

forget-Placed :
    (socket : String) (registry : Registry)
    → Agrees registry
    → Placed registry
    → Placed (forget socket registry)
unfolding forget
forget-Placed socket registry agrees placed =
    elim (Option-cases (lookup socket registry.by_socket)) [
      | inl unknown ↦ rw (forget, unknown) placed
      | inr known ↦
          rw (forget, known.1)
            (λ c r member.
              let after =
                in_room-deindex_all (rooms_of known.0 registry) known.0 r c registry.by_room in
              let before : in_room c r registry.by_room ≡ true = ground (arith, after, member) in
              let other : str_eq known.0 c ≡ false =
                ground
                  (arith, after, member, agrees c r, rooms_of-same known.0 c r registry.rooms) in
              let at = placed c r before in
              (at.0, Connected-remove socket known.0 c registry known.1 other at))
    ]

-- Whatever sockets have connected, disconnected, subscribed and unsubscribed, a connection that is in a
-- room is the connection of a socket that is still there.
pub members_connected :
    (max_connections : ℕ) {registry : Registry}
    → Reachable max_connections registry
    → (connection room : String) → has connection (members_of room registry) ≡ true
    → (socket : String) × (lookup socket registry.by_socket ≡ some connection)
unfolding handle_connection handle_disconnect handle_subscribe handle_unsubscribe
members_connected max starts connection room = empty-Placed connection room
members_connected max (connects {registry = before} socket own rooms new_socket fresh reached)
      connection room =
    elim (Bool-cases (leb max (length before.by_socket))) [
      | inl full ↦ rw full (members_connected max reached connection room)
      | inr spare ↦ rw spare (
          add-Placed socket own rooms before new_socket (members_connected max reached) connection
            room)
    ]
members_connected max (disconnects {registry = before} socket reached) connection room =
    forget-Placed socket before (indexes_agree max reached) (members_connected max reached)
      connection room
members_connected max (subscribes {registry = before} socket rooms reached) connection room =
    elim (Option-cases (lookup socket before.by_socket)) [
      | inl unknown ↦ rw (handle_subscribe, unknown) (members_connected max reached connection room)
      | inr known ↦
          rw (handle_subscribe, known.1)
            (join_all-Placed known.0 rooms before (socket, known.1) (members_connected max reached)
              connection room)
    ]
members_connected max (unsubscribes {registry = before} socket rooms reached) connection room =
    elim (Option-cases (lookup socket before.by_socket)) [
      | inl unknown ↦
          rw (handle_unsubscribe, unknown) (members_connected max reached connection room)
      | inr known ↦
          rw (handle_unsubscribe, known.1)
            (leave_all-Placed known.0 rooms before (members_connected max reached) connection room)
    ]
