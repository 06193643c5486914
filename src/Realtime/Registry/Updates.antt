-- ===== src/Realtime/Registry/Updates.antt =====
-- What an update of the two indexes of src/realtime/connection-registry.ts does to who is where.
use boilerplate_nestjs_api.Prelude.{
  ◌≡◌, refl, subst, inl, inr, String, Bool, true, false, ◌&&◌, ◌||◌, not, [], ◌∷◌, none, some,
  arith, eq_iff, str_eq, Dict, lookup, insert, remove, lookup-insert, lookup-remove, Option-cases,
  Bool-cases, if◌then◌else◌,
}
use boilerplate_nestjs_api.Realtime.Registry.{
  Names, has, is_empty, or_empty, index, deindex, index_all, deindex_all,
}

-- Whether the connection is in the room, by the index of rooms.
abbrev pub in_room : String → String → Dict Names → Bool
in_room connection room by_room = has connection (or_empty (lookup room by_room))

pub has-insert :
    (added name : String) (names : Names)
    → has name (insert added tt names) ≡ (str_eq added name || has name names)
has-insert added name names = ground (arith, lookup-insert added name tt names)

pub has-remove :
    (gone name : String) (names : Names)
    → has name (remove gone names) ≡ (not (str_eq gone name) && has name names)
has-remove gone name names = ground (arith, lookup-remove gone name names)

has-single : (name wanted : String) → has wanted ((name, tt) ∷ []) ≡ str_eq name wanted
unfolding lookup
has-single name wanted = ground arith

has-cons :
    (entry : String × Unit {0}) (names : Names) (name : String)
    → has name (entry ∷ names) ≡ (str_eq entry.0 name || has name names)
unfolding lookup
has-cons entry names name = ground arith

pub has-empty : (names : Names) (name : String) → is_empty names ≡ true → has name names ≡ false
unfolding lookup
has-empty [] name empty = refl
has-empty (entry ∷ names) name empty = cc

in_room-insert :
    (room r c : String) (names : Names) (by_room : Dict Names)
    → in_room c r (insert room names by_room)
      ≡ (if str_eq room r then has c names else in_room c r by_room)
in_room-insert room r c names by_room = ground (arith, lookup-insert room r names by_room)

in_room-remove :
    (room r c : String) (by_room : Dict Names)
    → in_room c r (remove room by_room) ≡ (not (str_eq room r) && in_room c r by_room)
in_room-remove room r c by_room = ground (arith, lookup-remove room r by_room, has-empty [] c refl)

-- In the room itself.
in_room-at :
    (room r c : String) (names : Names) (by_room : Dict Names)
    → str_eq room r ≡ true
    → lookup room by_room ≡ some names
    → in_room c r by_room ≡ has c names
in_room-at room r c names by_room same found =
    subst (λ x. in_room c x by_room ≡ has c names) ((eq_iff room r).0 same) (rw found refl)

in_room-none :
    (room r c : String) (by_room : Dict Names)
    → str_eq room r ≡ true
    → lookup room by_room ≡ none
    → in_room c r by_room ≡ false
unfolding lookup
in_room-none room r c by_room same missing =
    subst (λ x. in_room c x by_room ≡ false) ((eq_iff room r).0 same) (rw missing refl)

pub in_room-index :
    (room connection r c : String) (by_room : Dict Names)
    → in_room c r (index room connection by_room)
      ≡ ((str_eq room r && str_eq connection c) || in_room c r by_room)
unfolding index
in_room-index room connection r c by_room = elim (Option-cases (lookup room by_room)) [
  | inl missing ↦
      rw (index, missing)
        (ground (
          arith,
          in_room-insert room r c ((connection, tt) ∷ []) by_room,
          has-single connection c,
          in_room-none room r c by_room,
          missing,
        ))
  | inr found ↦
      rw (index, found.1)
        (ground (
          arith,
          in_room-insert room r c (insert connection tt found.0) by_room,
          has-insert connection c found.0,
          in_room-at room r c found.0 by_room,
          found.1,
        ))
]

pub in_room-deindex :
    (room connection r c : String) (by_room : Dict Names)
    → in_room c r (deindex room connection by_room)
      ≡ (not (str_eq room r && str_eq connection c) && in_room c r by_room)
unfolding deindex
in_room-deindex room connection r c by_room = elim (Option-cases (lookup room by_room)) [
  | inl missing ↦ rw (deindex, missing) (ground (arith, in_room-none room r c by_room, missing))
  | inr found ↦ elim (Bool-cases (is_empty (remove connection found.0))) [
    | inl empty ↦
        rw (deindex, found.1, empty)
          (ground (
            arith,
            in_room-remove room r c by_room,
            has-empty (remove connection found.0) c empty,
            has-remove connection c found.0,
            in_room-at room r c found.0 by_room,
            found.1,
          ))
    | inr more ↦
        rw (deindex, found.1, more)
          (ground (
            arith,
            in_room-insert room r c (remove connection found.0) by_room,
            has-remove connection c found.0,
            in_room-at room r c found.0 by_room,
            found.1,
          ))
  ]
]

pub in_room-index_all :
    (rooms : Names) (connection r c : String) (by_room : Dict Names)
    → in_room c r (index_all rooms connection by_room)
      ≡ ((has r rooms && str_eq connection c) || in_room c r by_room)
unfolding index_all
in_room-index_all [] connection r c by_room = ground (arith, has-empty [] r refl)
in_room-index_all (room ∷ rooms) connection r c by_room = ground (
  arith,
  in_room-index_all rooms connection r c (index room.0 connection by_room),
  in_room-index room.0 connection r c by_room,
  has-cons room rooms r,
)

pub in_room-deindex_all :
    (rooms : Names) (connection r c : String) (by_room : Dict Names)
    → in_room c r (deindex_all rooms connection by_room)
      ≡ (not (has r rooms && str_eq connection c) && in_room c r by_room)
unfolding deindex_all
in_room-deindex_all [] connection r c by_room = ground (arith, has-empty [] r refl)
in_room-deindex_all (room ∷ rooms) connection r c by_room = ground (
  arith,
  in_room-deindex_all rooms connection r c (deindex room.0 connection by_room),
  in_room-deindex room.0 connection r c by_room,
  has-cons room rooms r,
)
