-- ===== src/Realtime/Registry/Agreement.antt =====
-- That the two indexes of src/realtime/connection-registry.ts agree.
use boilerplate_nestjs_api.Prelude.{
  ℕ, ◌≡◌, refl, subst, inl, inr, String, true, List, [], ◌∷◌, arith, eq_iff, str_eq, Dict, lookup,
  insert, remove, lookup-insert, Option-cases, Bool-cases, if◌then◌else◌, length, leb,
}
use boilerplate_nestjs_api.Realtime.Registry.{
  Names, has, is_none, or_empty, Registry, empty_registry, rooms_of, members_of, add, forget, join,
  leave, join_all, leave_all, handle_connection, handle_disconnect, handle_subscribe,
  handle_unsubscribe, Reachable, starts, connects, disconnects, subscribes, unsubscribes,
}
use boilerplate_nestjs_api.Realtime.Registry.Updates.{
  has-insert, has-remove, has-empty, in_room-index, in_room-deindex, in_room-index_all,
  in_room-deindex_all,
}

abbrev pub Agrees : Registry → Type 0
Agrees registry = (c r : String) → has c (members_of r registry) ≡ has r (rooms_of c registry)

empty-Agrees : Agrees empty_registry
unfolding lookup
empty-Agrees c r = refl

rooms_of-insert :
    (connection c r : String) (names : Names) (rooms : Dict Names)
    → has r (or_empty (lookup c (insert connection names rooms)))
      ≡ (if str_eq connection c then has r names else has r (or_empty (lookup c rooms)))
rooms_of-insert connection c r names rooms = ground (arith, lookup-insert connection c names rooms)

-- Two names that are tested equal have the same rooms.
pub rooms_of-same :
    (connection c r : String) (rooms : Dict Names)
    → str_eq connection c ≡ true
    → has r (or_empty (lookup c rooms)) ≡ has r (or_empty (lookup connection rooms))
rooms_of-same connection c r rooms same =
    subst (λ x. has r (or_empty (lookup x rooms)) ≡ has r (or_empty (lookup connection rooms)))
      ((eq_iff connection c).0 same) refl

join-Agrees :
    (connection room : String) (registry : Registry)
    → Agrees registry
    → Agrees (join connection room registry).1
unfolding join
join-Agrees connection room registry agrees c r =
    elim (Bool-cases (has room (rooms_of connection registry))) [
      | inl already ↦ rw already (agrees c r)
      | inr new ↦ rw new (
          ground (
            arith,
            agrees c r,
            in_room-index room connection r c registry.by_room,
            rooms_of-insert connection c r (insert room tt (rooms_of connection registry))
                registry.rooms,
            rooms_of-same connection c r registry.rooms,
            has-insert room r (rooms_of connection registry),
          ))
    ]

leave-Agrees :
    (connection room : String) (registry : Registry)
    → Agrees registry
    → Agrees (leave connection room registry).1
unfolding leave
leave-Agrees connection room registry agrees c r =
    elim (Bool-cases (has room (rooms_of connection registry))) [
      | inl in_it ↦ rw in_it (
          ground (
            arith,
            agrees c r,
            in_room-deindex room connection r c registry.by_room,
            rooms_of-insert connection c r (remove room (rooms_of connection registry))
                registry.rooms,
            rooms_of-same connection c r registry.rooms,
            has-remove room r (rooms_of connection registry),
          ))
      | inr not_in_it ↦ rw not_in_it (agrees c r)
    ]

-- A connection that is not known yet is in no room.
add-Agrees :
    (socket connection : String) (rooms : Names) (registry : Registry)
    → is_none (lookup connection registry.rooms) ≡ true
    → Agrees registry
    → Agrees (add socket connection rooms registry)
unfolding add
add-Agrees socket connection rooms registry fresh agrees c r = ground (
  arith,
  agrees c r,
  fresh,
  in_room-index_all rooms connection r c registry.by_room,
  rooms_of-insert connection c r rooms registry.rooms,
  rooms_of-same connection c r registry.rooms,
  has-empty [] r refl,
)

forget-Agrees :
    (socket : String) (registry : Registry) → Agrees registry → Agrees (forget socket registry)
unfolding forget
forget-Agrees socket registry agrees c r = elim (Option-cases (lookup socket registry.by_socket)) [
  | inl unknown ↦ rw (forget, unknown) (agrees c r)
  | inr known ↦
      rw (forget, known.1)
        (ground (
          arith,
          agrees c r,
          in_room-deindex_all (rooms_of known.0 registry) known.0 r c registry.by_room,
          rooms_of-insert known.0 c r [] registry.rooms,
          rooms_of-same known.0 c r registry.rooms,
          has-empty [] r refl,
        ))
]

join_all-Agrees :
    (connection : String) (rooms : List String) (registry : Registry)
    → Agrees registry
    → Agrees (join_all connection rooms registry)
unfolding join_all
join_all-Agrees connection [] registry agrees = agrees
join_all-Agrees connection (room ∷ rooms) registry agrees =
    join_all-Agrees connection rooms (join connection room registry).1
      (join-Agrees connection room registry agrees)

leave_all-Agrees :
    (connection : String) (rooms : List String) (registry : Registry)
    → Agrees registry
    → Agrees (leave_all connection rooms registry)
unfolding leave_all
leave_all-Agrees connection [] registry agrees = agrees
leave_all-Agrees connection (room ∷ rooms) registry agrees =
    leave_all-Agrees connection rooms (leave connection room registry).1
      (leave-Agrees connection room registry agrees)

-- Whatever sockets have connected, disconnected, subscribed and unsubscribed, the index of rooms has a
-- connection in a room exactly when the connection has the room.
pub indexes_agree :
    (max_connections : ℕ) {registry : Registry}
    → Reachable max_connections registry
    → (connection room : String)
    → has connection (members_of room registry) ≡ has room (rooms_of connection registry)
unfolding handle_connection handle_disconnect handle_subscribe handle_unsubscribe
indexes_agree max starts connection room = empty-Agrees connection room
indexes_agree max (connects {registry = before} socket own rooms new_socket fresh reached)
      connection room =
    elim (Bool-cases (leb max (length before.by_socket))) [
      | inl full ↦ rw full (indexes_agree max reached connection room)
      | inr spare ↦
          rw spare
            (add-Agrees socket own rooms before fresh (indexes_agree max reached) connection room)
    ]
indexes_agree max (disconnects {registry = before} socket reached) connection room =
    forget-Agrees socket before (indexes_agree max reached) connection room
indexes_agree max (subscribes {registry = before} socket rooms reached) connection room =
    elim (Option-cases (lookup socket before.by_socket)) [
      | inl unknown ↦ rw (handle_subscribe, unknown) (indexes_agree max reached connection room)
      | inr known ↦
          rw (handle_subscribe, known.1)
            (join_all-Agrees known.0 rooms before (indexes_agree max reached) connection room)
    ]
indexes_agree max (unsubscribes {registry = before} socket rooms reached) connection room =
    elim (Option-cases (lookup socket before.by_socket)) [
      | inl unknown ↦ rw (handle_unsubscribe, unknown) (indexes_agree max reached connection room)
      | inr known ↦
          rw (handle_unsubscribe, known.1)
            (leave_all-Agrees known.0 rooms before (indexes_agree max reached) connection room)
    ]
