-- ===== src/Server/Rooms/Domain.antt =====
-- Server/domain/models.py: `PlayerRole`, `ConnectionStatus`, `RoomMember` and `Room`.
use chess_kung_fu.Prelude.{
  ℕ, Bool, true, false, Option, none, some, List, [], ◌∷◌, map, filter, if◌then◌else◌, ◌==◌, nat_eq,
  string_eq, String, Dict, lookup,
}
use chess_kung_fu.Model.{Color, white, black, color_eq}

-- `PlayerRole`
pub data PlayerRole : Type 0 where
  as_white as_black viewer : PlayerRole

pub data ConnectionStatus : Type 0 where
  connected disconnected : ConnectionStatus

pub record RoomMember : Type 0 where
  pub user_id : String
  pub role : PlayerRole
  pub status : ConnectionStatus
  pub disconnect_deadline : Option ℕ

abbrev pub new_member : String → PlayerRole → RoomMember
new_member user_id role = record {
  user_id = user_id;
  role = role;
  status = connected;
  disconnect_deadline = none;
}

pub record Room : Type 0 where
  pub room_id : String
  pub members : Dict String RoomMember
  pub elo_updated : Bool
  pub game_started : Bool

-- `role in (PlayerRole.WHITE, PlayerRole.BLACK)`
abbrev pub is_player : PlayerRole → Bool
is_player as_white = true
is_player as_black = true
is_player viewer = false

abbrev pub is_white : PlayerRole → Bool
is_white as_white = true
is_white _ = false

abbrev pub is_black : PlayerRole → Bool
is_black as_black = true
is_black _ = false

unfoldable pub player_ids : Room → List String
player_ids room = map (λ e. e.0) (filter (λ e. is_player e.1.role) room.members)

abbrev pub color_of_role : PlayerRole → Option Color
color_of_role as_white = some white
color_of_role as_black = some black
color_of_role viewer = none

unfoldable pub color_of : Room → String → Option Color
unfolding lookup
color_of room user_id = elim (lookup user_id room.members) [
  | none ↦ none
  | some member ↦ color_of_role member.role
]

abbrev pub has_color : Option Color → Color → Bool
has_color none want = false
has_color (some c) want = c == want

-- The loop of `opponent_of`.
unfoldable pub first_of_color : Room → Color → List String → Option String
unfolding color_of
first_of_color room want [] = none
first_of_color room want (uid ∷ uids) =
    if has_color (color_of room uid) want then some uid else first_of_color room want uids

unfoldable pub opponent_of : Room → String → Option String
unfolding color_of first_of_color player_ids
opponent_of room user_id = elim (color_of room user_id) [
  | none ↦ none
  | some my_color ↦
      first_of_color room (if my_color == white then black else white) (player_ids room)
]
