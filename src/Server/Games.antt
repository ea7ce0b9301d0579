-- ===== src/Server/Games.antt =====
-- Server/infrastructure/game/engine_adapter.py (`KungFuEngineAdapter`, which wraps one engine) and
-- the engines and moves of Server/application/game_service.py (`GameService`). The engine that the
-- factory makes for a new room is an argument. Endings has the games' clock, forfeits and the Elo.
pub mod Submits
pub mod Snapshots
pub mod Endings
pub mod Ratings
pub mod Players
pub mod Forfeits
pub mod Arenas
use chess_kung_fu.Prelude.{
  ℕ, ◌*◌, ◌≡◌, Bool, true, false, not, ◌&&◌, Option, none, some, List, [], ◌∷◌, ◌++◌, map,
  if◌then◌else◌, ◌==◌, Eq, String, string_eq, Dict, lookup, insert, erase, ℤ, pos, ◌-ℤ◌, abs, max,
}
use chess_kung_fu.Model.{
  Text, text, Position, position_eq, PieceStatus, idle, moving, jumping, captured, Color, white,
  black, color_eq, color_text, type_text, Piece, Store, Board, get_piece, get_all_pieces,
}
use chess_kung_fu.Realtime.{has_active_motion}
use chess_kung_fu.Engine.{GameEngine, handle_move_request, update_game_clock}
use chess_kung_fu.Server.Protocol.{Json, null, number, str, Fields, field, no_fields, Parsed}
use chess_kung_fu.Server.Protocol.Play.{PieceSnapshot, Entry, snapshot, StateMessage, state_to_dict}
use chess_kung_fu.Server.Rooms.{
  PlayerRole, as_white, as_black, viewer, RoomService, Room, RoomMember, get_room, room_id_for_user,
  member_role,
}

abbrev pub adapter_ms_per_cell : ℕ
adapter_ms_per_cell = 1000

abbrev pub chebyshev_duration_ms : Position → Position → ℤ
chebyshev_duration_ms start end =
    let dr = abs (end.row -ℤ start.row) in
    let dc = abs (end.col -ℤ start.col) in pos (max dr dc * adapter_ms_per_cell)

-- The reasons that come with the answer to a move.
pub data Reason : Type 0 where
  fine game_already_over not_your_piece illegal_move no_active_game : Reason
  not_in_a_room viewers_cannot_move : Reason

-- `piece is None or piece.color != color`, on the other side
abbrev pub is_own : GameEngine → Option ℕ → Color → Bool
is_own e none color = false
is_own e (some piece) color = (e.store piece).color == color

unfoldable pub try_player_move : GameEngine → Color → ℤ × ℤ → ℤ × ℤ → GameEngine × Bool × Reason
try_player_move e color start end =
    let start_pos : Position = record { row = start.0; col = start.1 } in
    let end_pos : Position = record { row = end.0; col = end.1 } in
    if e.game_over
    then (e, false, game_already_over)
    else if not (is_own e (get_piece e.board start_pos) color)
    then (e, false, not_your_piece)
    else let (e', accepted) =
        handle_move_request e start_pos end_pos (chebyshev_duration_ms start_pos end_pos) in
      if accepted then (e', true, fine) else (e', false, illegal_move)

-- `force_forfeit` of the adapter
unfoldable pub forfeit : GameEngine → Color → GameEngine
forfeit e winner_color =
    if e.game_over then e else record e { winner = some winner_color; game_over = true }

-- `piece.status.name`
abbrev pub status_name : PieceStatus → Text
status_name idle = text "IDLE"
status_name moving = text "MOVING"
status_name jumping = text "JUMPING"
status_name captured = text "CAPTURED"

abbrev pub snapshot_of : Position → Piece → PieceSnapshot
snapshot_of p piece = record {
  row = p.row;
  col = p.col;
  color = color_text piece.color;
  type = type_text piece.piece_type;
  status = status_name piece.status;
}

abbrev pub winner_json : Option Color → Json
winner_json none = null
winner_json (some c) = str (color_text c)

-- The message of `snapshot_state`, and its dictionary.
abbrev pub state_message_of : GameEngine → Text → StateMessage
state_message_of e room_id = record {
  pieces = map (λ cell. snapshot (snapshot_of cell.0 (e.store cell.1))) (get_all_pieces e.board);
  score =
      field "w" (number (pos e.scoreboard.plaier1_score))
        (field "b" (number (pos e.scoreboard.plaier2_score)) no_fields);
  game_over = e.game_over;
  winner = winner_json e.winner;
  room_id = str room_id;
}

unfoldable pub snapshot_state : GameEngine → Text → Parsed Fields
snapshot_state e room_id = state_to_dict (state_message_of e room_id)

-- The event `PLAYER_MOVE`
pub record MoveEvent : Type 0 where
  pub room_id : String
  pub user_id : String
  pub start : ℤ × ℤ
  pub end : ℤ × ℤ

-- `GameService`, with the rooms it reads and the events it has published.
pub record GameService : Type 0 where
  pub rooms : RoomService
  pub engines : Dict String GameEngine
  pub published : List MoveEvent

-- `fresh` is what the factory makes.
unfoldable pub create_engine_for_room : GameEngine → GameService → String → GameService
create_engine_for_room fresh s room_id = record s { engines = insert room_id fresh s.engines }

abbrev pub get_engine : GameService → String → Option GameEngine
get_engine s room_id = lookup room_id s.engines

unfoldable pub remove_engine : GameService → String → GameService
remove_engine s room_id = record s { engines = erase room_id s.engines }

unfoldable pub handle_move :
    GameService → String → Color → ℤ × ℤ → ℤ × ℤ → GameService × Bool × Reason
unfolding try_player_move
handle_move s room_id color start end = elim (lookup room_id s.engines) [
  | none ↦ (s, false, no_active_game)
  | some engine ↦
      let (engine', accepted, reason) = try_player_move engine color start end in
      (record s { engines = insert room_id engine' s.engines }, accepted, reason)
]

-- The colour of a role that is no viewer's.
abbrev pub player_color : Option PlayerRole → Option Color
player_color (some as_white) = some white
player_color (some as_black) = some black
player_color _ = none

-- `MoveOutcome`
pub record MoveOutcome : Type 0 where
  pub ok : Bool
  pub reason : Reason
  pub room_id : Option String
  pub start : Option (ℤ × ℤ)
  pub end : Option (ℤ × ℤ)
  pub member_ids : List String

abbrev pub refusal : Reason → MoveOutcome
refusal reason = record {
  ok = false;
  reason = reason;
  room_id = none;
  start = none;
  end = none;
  member_ids = [];
}

abbrev pub member_ids_of : Option Room → List String
member_ids_of none = []
member_ids_of (some room) = map (λ e. e.0) room.members

-- What `submit_move` does and answers once the move is accepted.
abbrev pub accepted_move : GameService → String → String → ℤ × ℤ → ℤ × ℤ → GameService × MoveOutcome
accepted_move s room_id user_id start end = (
  record s {
    published =
        s.published
        ++ record { room_id = room_id; user_id = user_id; start = start; end = end } ∷ [];
  },
  record {
    ok = true;
    reason = fine;
    room_id = some room_id;
    start = some start;
    end = some end;
    member_ids = member_ids_of (get_room s.rooms room_id);
  },
)

-- The rest of `submit_move`, past the lookup of the player's colour.
unfoldable pub submit_as :
    GameService → String → String → Color → ℤ × ℤ → ℤ × ℤ → GameService × MoveOutcome
unfolding handle_move
submit_as s room_id user_id color start end =
    let (s', accepted, reason) = handle_move s room_id color start end in
    if accepted then accepted_move s' room_id user_id start end else (s', refusal reason)

unfoldable pub submit_move : GameService → String → ℤ × ℤ → ℤ × ℤ → GameService × MoveOutcome
unfolding submit_as
submit_move s user_id start end = elim (room_id_for_user s.rooms user_id) [
  | none ↦ (s, refusal not_in_a_room)
  | some room_id ↦ (elim (player_color (member_role s.rooms room_id user_id)) [
    | none ↦ (s, refusal viewers_cannot_move)
    | some color ↦ submit_as s room_id user_id color start end
  ])
]
