-- ===== src/Server/Rooms/Grace.antt =====
-- The grace period of a player who has lost the connection.
use chess_kung_fu.Prelude.{
  ℕ, ◌+◌, ◌≤◌, ◌≡◌, refl, Bool, true, ◌&&◌, ◌||◌, some, List, [], ◌∷◌, any, any-append, arith, ◌==◌,
  String, string_eq, Dict, lookup, insert, insert_here, Bool-cases, inl, inr, if_false, if_true,
  if-elim, eq_of_==, ◌∙◌, sym, ap, subst,
}
use mathlib.Core.Option.{some_inj}
use text.Mathlib.TextEquality.{eq_iff}
use chess_kung_fu.Server.Rooms.{
  disconnected, Room, RoomMember, is_player, RoomService, put_member, disconnect_grace_ms,
  mark_disconnected, has_expired, expired_members, expired_rooms, expired_disconnects,
}

-- `(room_id, user_id) in pairs`
abbrev pub is_listed : String → String → List (String × String) → Bool
is_listed room_id user_id pairs = any (λ e. e.0 == room_id && e.1 == user_id) pairs

or_left : (a b : Bool) → a ≡ true → (a || b) ≡ true
or_left a b h = ground arith

or_right : (a b : Bool) → b ≡ true → (a || b) ≡ true
or_right a b h = ground arith

listed_member :
    (now : ℕ) (room_id u : String) (m : RoomMember) (members : Dict String RoomMember)
    → lookup u members ≡ some m
    → has_expired now m ≡ true
    → is_listed room_id u (expired_members now room_id members) ≡ true
unfolding lookup expired_members
listed_member now room_id u m [] h late = absurd (ground arith)
listed_member now room_id u m ((v, n) ∷ members) h late = elim (Bool-cases (u == v)) [
  | inl same ↦
      let found : n ≡ m =
        some_inj.0 (sym (if_true (u == v) (some n) (lookup u members) same) ∙ h) in
      rw (ap (has_expired now) found ∙ late)
        (ground (arith, eq_iff room_id room_id, eq_iff v u, eq_of_== {a = u} {b = v} same))
  | inr other ↦
      let rest =
        listed_member now room_id u m members
          (sym (if_false (u == v) (some n) (lookup u members) other) ∙ h) late in
      if-elim (λ (l : List (String × String)). is_listed room_id u l ≡ true) (has_expired now n)
        (or_right (room_id == room_id && v == u) _ rest) rest
]

listed_room :
    (now : ℕ) (room_id u : String) (m : RoomMember) (room : Room) (rooms : Dict String Room)
    → lookup room_id rooms ≡ some room
    → lookup u room.members ≡ some m
    → has_expired now m ≡ true
    → is_listed room_id u (expired_rooms now rooms) ≡ true
unfolding lookup expired_rooms
listed_room now room_id u m room [] h here late = absurd (ground arith)
listed_room now room_id u m room ((r, x) ∷ rooms) h here late =
    any-append (λ e. e.0 == room_id && e.1 == u) (expired_members now r x.members)
      (expired_rooms now rooms)
    ∙ elim (Bool-cases (room_id == r)) [
      | inl same ↦
          let found : x ≡ room =
            some_inj.0 (sym (if_true (room_id == r) (some x) (lookup room_id rooms) same) ∙ h) in
          or_left _ _ (
            subst (λ k. is_listed room_id u (expired_members now k x.members) ≡ true)
              (eq_of_== {a = room_id} {b = r} same)
              (listed_member now room_id u m x.members
                (ap (λ (z : Room). lookup u z.members) found ∙ here) late))
      | inr other ↦ or_right _ _ (
          listed_room now room_id u m room rooms
            (sym (if_false (room_id == r) (some x) (lookup room_id rooms) other) ∙ h) here late)
    ]

-- `mark_disconnected` on a member who plays in the room gives that room, and from twenty seconds
-- later on, if nothing else happens, `expired_disconnects` lists the player with the room.
pub grace_expires :
    (s : RoomService) (now later : ℕ) (u rid : String) (room : Room) (m : RoomMember)
    → lookup u s.user_room ≡ some rid
    → lookup rid s.rooms ≡ some room
    → lookup u room.members ≡ some m
    → is_player m.role ≡ true
    → now + disconnect_grace_ms ≤ later
    → (s' : RoomService) × (mark_disconnected s now u ≡ some (s', some rid))
      × (is_listed rid u (expired_disconnects s' later) ≡ true)
unfolding mark_disconnected
grace_expires s now later u rid room m home there here plays wait =
    let gone : RoomMember = record m {
      status = disconnected;
      disconnect_deadline = some (now + disconnect_grace_ms);
    } in
    (
      put_member s rid room u gone,
      rw (home, there, here, plays, mark_disconnected) refl,
      listed_room later rid u gone (record room { members = insert u gone room.members })
          (insert rid (record room { members = insert u gone room.members }) s.rooms)
          (insert_here rid _ s.rooms) (insert_here u gone room.members) (rw plays (ground arith)),
    )
