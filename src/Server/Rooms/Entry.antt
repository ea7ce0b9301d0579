-- ===== src/Server/Rooms/Entry.antt =====
-- Server/application/room_service.py: making rooms, coming into them, and looking them up.
use chess_kung_fu.Prelude.{
  ℕ, Bool, true, false, not, ◌&&◌, ◌||◌, Option, none, some, List, [], ◌∷◌, ◌++◌, filter, length,
  if◌then◌else◌, ◌==◌, nat_eq, string_eq, String, Dict, lookup, insert, contains,
}
use chess_kung_fu.Model.{color_eq}
use chess_kung_fu.Server.Rooms.Domain.{
  PlayerRole, RoomMember, new_member, Room, is_player, is_white, is_black, as_white, as_black,
  viewer,
}

-- The `ValueError`s of the service.
pub data RoomError : Type 0 where
  already_in_a_room room_not_found : RoomError
  user_already_in_room room_already_exists : String → RoomError

pub data Result (A : Type 0) : Type 0 where
  ok : A → Result A
  raise : RoomError → Result A

pub record RoomService : Type 0 where
  pub rooms : Dict String Room
  pub user_room : Dict String String
  pub started : List String

abbrev pub new_service : RoomService
new_service = record { rooms = []; user_room = []; started = [] }

abbrev pub get_room : RoomService → String → Option Room
get_room s room_id = lookup room_id s.rooms

abbrev pub active_room_count : RoomService → ℕ
active_room_count s = length s.rooms

abbrev pub room_id_for_user : RoomService → String → Option String
room_id_for_user s user_id = lookup user_id s.user_room

-- `if existing:`, for a string or `None`
abbrev pub truthy : Option String → Bool
truthy none = false
truthy (some t) = not (t == "")

-- `self._rooms[room_id] = room` for a room whose game has begun, after the callback.
abbrev pub opened : RoomService → String → Dict String RoomMember → Dict String String → RoomService
opened s room_id members user_room = record {
  rooms =
      insert room_id
        (record { room_id = room_id; members = members; elo_updated = false; game_started = true })
        s.rooms;
  user_room = user_room;
  started = s.started ++ room_id ∷ [];
}

unfoldable pub create_room : RoomService → String → String → Result RoomService
create_room s token creator_user_id =
    if truthy (lookup creator_user_id s.user_room)
    then raise already_in_a_room
    else ok (
        opened s token (insert creator_user_id (new_member creator_user_id as_white) [])
          (insert creator_user_id token s.user_room))

-- `room_id or secrets.token_hex(3)`
abbrev pub chosen_id : Option String → String → String
chosen_id none token = token
chosen_id (some r) token = if r == "" then token else r

unfoldable pub create_matched_room :
    RoomService → String → String → String → Option String → Result RoomService
create_matched_room s token user_a user_b room_id =
    let id = chosen_id room_id token in
    if contains user_a s.user_room
    then raise (user_already_in_room user_a)
    else if contains user_b s.user_room
    then raise (user_already_in_room user_b)
    else if contains id s.rooms
    then raise (room_already_exists id)
    else ok (
        opened s id
          (insert user_b (new_member user_b as_black)
            (insert user_a (new_member user_a as_white) []))
          (insert user_b id (insert user_a id s.user_room)))

-- The number of members with a player's role.
abbrev pub player_count : Dict String RoomMember → ℕ
player_count members = length (filter (λ e. is_player e.1.role) members)

abbrev pub joining_role : ℕ → PlayerRole
joining_role n = if n == 0 then as_white else if n == 1 then as_black else viewer

-- The rest of `join_room`, past its guards.
unfoldable pub seat : RoomService → Room → String → String → RoomService × PlayerRole
seat s room room_id user_id =
    let role = joining_role (player_count room.members) in
    let starts = is_player role && not room.game_started in
    let room' = record room {
      members = insert user_id (new_member user_id role) room.members;
      game_started = room.game_started || starts;
    } in
    (
      record {
        rooms = insert room_id room' s.rooms;
        user_room = insert user_id room_id s.user_room;
        started = if starts then s.started ++ room_id ∷ [] else s.started;
      },
      role,
    )

unfoldable pub join_room : RoomService → String → String → Result (RoomService × PlayerRole)
unfolding seat
join_room s room_id user_id = elim (lookup room_id s.rooms) [
  | none ↦ raise room_not_found
  | some room ↦
      if contains user_id s.user_room
      then raise already_in_a_room
      else ok (seat s room room_id user_id)
]

unfoldable pub member_role : RoomService → String → String → Option PlayerRole
member_role s room_id user_id = elim (lookup room_id s.rooms) [
  | none ↦ none
  | some room ↦ (elim (lookup user_id room.members) [
    | none ↦ none
    | some member ↦ some member.role
  ])
]

-- The loop of `get_room_players`: the last member of each colour.
unfoldable pub last_players :
    Dict String RoomMember → Option String × Option String → Option String × Option String
last_players [] acc = acc
last_players ((uid, m) ∷ members) (white_id, black_id) = last_players members (
    if is_white m.role
    then (some uid, black_id)
    else if is_black m.role
    then (white_id, some uid)
    else (white_id, black_id))

unfoldable pub get_room_players : RoomService → String → Option String × Option String
unfolding last_players
get_room_players s room_id = elim (lookup room_id s.rooms) [
  | none ↦ (none, none)
  | some room ↦ last_players room.members (none, none)
]

-- A write to a member of a room.
abbrev pub put_member : RoomService → String → Room → String → RoomMember → RoomService
put_member s room_id room user_id m = record s {
  rooms = insert room_id (record room { members = insert user_id m room.members }) s.rooms;
}
