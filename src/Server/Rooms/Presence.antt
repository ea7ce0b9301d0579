-- ===== src/Server/Rooms/Presence.antt =====
-- Server/application/room_service.py: users who go, come back, or stay away too long.
use chess_kung_fu.Prelude.{
  ℕ, ◌+◌, ◌-◌, ◌*◌, ◌/◌, Bool, true, false, not, ◌&&◌, Option, none, some, List, [], ◌∷◌, ◌++◌,
  if◌then◌else◌, nat_eq, string_eq, leb, String, Dict, lookup, insert, erase,
}
use chess_kung_fu.Model.{color_eq}
use chess_kung_fu.Server.Rooms.Domain.{
  ConnectionStatus, RoomMember, Room, is_player, connected, disconnected,
}
use chess_kung_fu.Server.Rooms.Entry.{RoomService, put_member}

abbrev pub disconnect_grace_ms : ℕ
disconnect_grace_ms = 20 * 1000

-- A viewer, or a user who is no member, leaves the room.
unfoldable pub drop_user : RoomService → String → Room → String → RoomService
drop_user s room_id room user_id = record s {
  rooms = insert room_id (record room { members = erase user_id room.members }) s.rooms;
  user_room = erase user_id s.user_room;
}

-- `none` in front is the `KeyError` of `self._rooms[room_id]`.
unfoldable pub mark_disconnected : RoomService → ℕ → String → Option (RoomService × Option String)
unfolding drop_user
mark_disconnected s now user_id = elim (lookup user_id s.user_room) [
  | none ↦ some (s, none)
  | some room_id ↦ (elim (lookup room_id s.rooms) [
    | none ↦ none
    | some room ↦ (elim (lookup user_id room.members) [
      | none ↦ some (drop_user s room_id room user_id, none)
      | some member ↦
          if not (is_player member.role)
          then some (drop_user s room_id room user_id, none)
          else some (
            put_member s room_id room user_id (record member {
              status = disconnected;
              disconnect_deadline = some (now + disconnect_grace_ms);
            }),
            some room_id,
          )
    ])
  ])
]

-- The member of a room, through both dictionaries.
unfoldable pub find_member : RoomService → String → String → Option (Room × RoomMember)
find_member s room_id user_id = elim (lookup room_id s.rooms) [
  | none ↦ none
  | some room ↦ (elim (lookup user_id room.members) [
    | none ↦ none
    | some member ↦ some (room, member)
  ])
]

unfoldable pub reconnect : RoomService → String → RoomService × Option String
unfolding find_member
reconnect s user_id = elim (lookup user_id s.user_room) [
  | none ↦ (s, none)
  | some room_id ↦ (elim (find_member s room_id user_id) [
    | none ↦ (s, none)
    | some (room, member) ↦ (
      put_member s room_id room user_id
          (record member { status = connected; disconnect_deadline = none }),
      some room_id,
    )
  ])
]

unfoldable pub clear_disconnect_deadline : RoomService → String → String → RoomService
unfolding find_member
clear_disconnect_deadline s room_id user_id = elim (find_member s room_id user_id) [
  | none ↦ s
  | some (room, member) ↦
      put_member s room_id room user_id (record member { disconnect_deadline = none })
]

-- `member.disconnect_deadline is not None and member.disconnect_deadline <= now`
abbrev pub passed : Option ℕ → ℕ → Bool
passed none now = false
passed (some deadline) now = leb deadline now

abbrev pub is_disconnected : ConnectionStatus → Bool
is_disconnected connected = false
is_disconnected disconnected = true

abbrev pub has_expired : ℕ → RoomMember → Bool
has_expired now m =
    is_disconnected m.status && (passed m.disconnect_deadline now && is_player m.role)

unfoldable pub expired_members : ℕ → String → Dict String RoomMember → List (String × String)
expired_members now room_id [] = []
expired_members now room_id ((uid, m) ∷ members) =
    let rest = expired_members now room_id members in
    if has_expired now m then (room_id, uid) ∷ rest else rest

unfoldable pub expired_rooms : ℕ → Dict String Room → List (String × String)
unfolding expired_members
expired_rooms now [] = []
expired_rooms now ((room_id, room) ∷ rooms) =
    expired_members now room_id room.members ++ expired_rooms now rooms

-- `expired_disconnects`, at the time `now`
abbrev pub expired_disconnects : RoomService → ℕ → List (String × String)
expired_disconnects s now = expired_rooms now s.rooms

-- `max(0, int(deadline - now))`, in whole seconds
abbrev pub seconds_left : ℕ → ℕ → ℕ
seconds_left deadline now = (deadline - now) / 1000

unfoldable pub countdown_members : ℕ → String → Dict String RoomMember → List (String × String × ℕ)
countdown_members now room_id [] = []
countdown_members now room_id ((uid, m) ∷ members) =
    let rest = countdown_members now room_id members in
    if is_disconnected m.status
    then (elim m.disconnect_deadline [
      | none ↦ rest
      | some deadline ↦ (room_id, uid, seconds_left deadline now) ∷ rest
    ])
    else rest

unfoldable pub countdown_rooms : ℕ → Dict String Room → List (String × String × ℕ)
unfolding countdown_members
countdown_rooms now [] = []
countdown_rooms now ((room_id, room) ∷ rooms) =
    countdown_members now room_id room.members ++ countdown_rooms now rooms

-- `disconnect_countdowns`, at the time `now`
abbrev pub disconnect_countdowns : RoomService → ℕ → List (String × String × ℕ)
disconnect_countdowns s now = countdown_rooms now s.rooms

unfoldable pub is_elo_updated : RoomService → String → Bool
is_elo_updated s room_id = elim (lookup room_id s.rooms) [
  | none ↦ false
  | some room ↦ room.elo_updated
]

unfoldable pub mark_elo_updated : RoomService → String → RoomService
mark_elo_updated s room_id = elim (lookup room_id s.rooms) [
  | none ↦ s
  | some room ↦ record s { rooms = insert room_id (record room { elo_updated = true }) s.rooms }
]
