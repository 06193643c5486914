-- ===== src/Realtime/Registry.antt =====
-- src/realtime/connection-registry.ts, and what realtime.gateway.ts does to it. A socket and a
-- connection are objects there, and stand here by a name; the set of rooms of a connection is
-- kept by its name, also after it has been forgotten.
pub mod Agreement
pub mod Capacity
pub mod Connected
pub mod Updates
mod Tests
use boilerplate_nestjs_api.Prelude.{
  ℕ, ◌≡◌, String, Bool, true, false, List, [], ◌∷◌, Option, none, some, leb, length, Dict, lookup,
  insert, remove, if◌then◌else◌,
}

abbrev pub is_some {ℓ} : {A : Type ℓ} → Option A → Bool
is_some none = false
is_some (some a) = true

abbrev pub is_none {ℓ} : {A : Type ℓ} → Option A → Bool
is_none none = true
is_none (some a) = false

-- A `Set` of names.
abbrev pub Names : Type 0
Names = Dict (Unit {0})

abbrev pub has : String → Names → Bool
has name names = is_some (lookup name names)

abbrev pub is_empty : Names → Bool
is_empty [] = true
is_empty (name ∷ names) = false

abbrev pub or_empty : Option Names → Names
or_empty none = []
or_empty (some names) = names

pub record Registry : Type 0 where
  pub by_socket : Dict String
  pub by_room : Dict Names
  -- the field `rooms` of each connection
  pub rooms : Dict Names

abbrev pub empty_registry : Registry
empty_registry = record { by_socket = []; by_room = []; rooms = [] }

abbrev pub rooms_of : String → Registry → Names
rooms_of connection registry = or_empty (lookup connection registry.rooms)

abbrev pub members_of : String → Registry → Names
members_of room registry = or_empty (lookup room registry.by_room)

pub index : String → String → Dict Names → Dict Names
index room connection by_room = elim (lookup room by_room) [
  | none ↦ insert room ((connection, tt) ∷ []) by_room
  | some members ↦ insert room (insert connection tt members) by_room
]

pub deindex : String → String → Dict Names → Dict Names
deindex room connection by_room = elim (lookup room by_room) [
  | none ↦ by_room
  | some members ↦
      if is_empty (remove connection members)
      then remove room by_room
      else insert room (remove connection members) by_room
]

pub index_all : Names → String → Dict Names → Dict Names
unfolding index
index_all [] connection by_room = by_room
index_all (room ∷ rooms) connection by_room =
    index_all rooms connection (index room.0 connection by_room)

pub deindex_all : Names → String → Dict Names → Dict Names
unfolding deindex
deindex_all [] connection by_room = by_room
deindex_all (room ∷ rooms) connection by_room =
    deindex_all rooms connection (deindex room.0 connection by_room)

-- `add`, of a connection with the rooms that it starts in.
pub add : String → String → Names → Registry → Registry
unfolding index_all
add socket connection rooms registry = record {
  by_socket = insert socket connection registry.by_socket;
  by_room = index_all rooms connection registry.by_room;
  rooms = insert connection rooms registry.rooms;
}

-- `remove`
pub forget : String → Registry → Registry
unfolding deindex_all
forget socket registry = elim (lookup socket registry.by_socket) [
  | none ↦ registry
  | some connection ↦ record {
    by_socket = remove socket registry.by_socket;
    by_room = deindex_all (rooms_of connection registry) connection registry.by_room;
    rooms = insert connection [] registry.rooms;
  }
]

pub join : String → String → Registry → Bool × Registry
unfolding index
join connection room registry =
    if has room (rooms_of connection registry) then (false, registry) else (
      true,
      record registry {
        by_room = index room connection registry.by_room;
        rooms = insert connection (insert room tt (rooms_of connection registry)) registry.rooms;
      },
    )

pub leave : String → String → Registry → Bool × Registry
unfolding deindex
leave connection room registry =
    if has room (rooms_of connection registry)
    then (
      true,
      record registry {
        by_room = deindex room connection registry.by_room;
        rooms = insert connection (remove room (rooms_of connection registry)) registry.rooms;
      },
    )
    else (false, registry)

-- The gateway takes a connection while there is room for one.
unfoldable pub handle_connection : ℕ → String → String → Names → Registry → Registry
unfolding add
handle_connection max_connections socket connection rooms registry =
    if leb max_connections (length registry.by_socket)
    then registry
    else add socket connection rooms registry

unfoldable pub handle_disconnect : String → Registry → Registry
unfolding forget
handle_disconnect socket registry = forget socket registry

pub join_all : String → List String → Registry → Registry
unfolding join
join_all connection [] registry = registry
join_all connection (room ∷ rooms) registry =
    join_all connection rooms (join connection room registry).1

pub leave_all : String → List String → Registry → Registry
unfolding leave
leave_all connection [] registry = registry
leave_all connection (room ∷ rooms) registry =
    leave_all connection rooms (leave connection room registry).1

-- With the rooms that the message asks for and the connection may have.
unfoldable pub handle_subscribe : String → List String → Registry → Registry
unfolding join_all
handle_subscribe socket rooms registry = elim (lookup socket registry.by_socket) [
  | none ↦ registry
  | some connection ↦ join_all connection rooms registry
]

unfoldable pub handle_unsubscribe : String → List String → Registry → Registry
unfolding leave_all
handle_unsubscribe socket rooms registry = elim (lookup socket registry.by_socket) [
  | none ↦ registry
  | some connection ↦ leave_all connection rooms registry
]

-- What the messages of clients make of the registry. A socket connects once, and its connection
-- has a name of its own.
pub data Reachable (max_connections : ℕ) : Registry → Type 0 where
  starts : Reachable max_connections empty_registry
  connects :
      {registry : Registry}
      → (socket connection : String) → (rooms : Names)
      → is_none (lookup socket registry.by_socket) ≡ true
      → is_none (lookup connection registry.rooms) ≡ true
      → Reachable max_connections registry
      → Reachable max_connections
          (handle_connection max_connections socket connection rooms registry)
  disconnects :
      {registry : Registry}
      → (socket : String) → Reachable max_connections registry
      → Reachable max_connections (handle_disconnect socket registry)
  subscribes :
      {registry : Registry}
      → (socket : String) → (rooms : List String) → Reachable max_connections registry
      → Reachable max_connections (handle_subscribe socket rooms registry)
  unsubscribes :
      {registry : Registry}
      → (socket : String) → (rooms : List String) → Reachable max_connections registry
      → Reachable max_connections (handle_unsubscribe socket rooms registry)
