-- ===== src/Engine/Calls.antt =====
-- engine/game_engine.py: `GameEngine`, and its requests for jumps and moves.
use chess_kung_fu.Prelude.{
  ℕ, ◌-◌, Bool, true, false, not, Option, none, some, ◌++◌, map, if◌then◌else◌, ◌==◌, ℤ, pos,
  int_eq, nat_eq,
}
use chess_kung_fu.Model.{
  Text, text, show_int, Position, position_eq, idle, moving, status_eq, Color, color_eq, PieceType,
  type_eq, type_text, Piece, Store, set_status, Board, get_piece,
}
use chess_kung_fu.Rules.{is_move_legal}
use chess_kung_fu.Realtime.{RealTimeArbiter, new_arbiter, start_jump, start_motion}
use chess_kung_fu.Engine.Scores.{Scoreboard, new_scoreboard, add_move}

pub record GameEngine : Type 0 where
  pub store : Store
  pub board : Board
  pub arbiter : RealTimeArbiter
  pub scoreboard : Scoreboard
  pub game_over : Bool
  pub winner : Option Color

-- `GameEngine(board)`
abbrev pub new_engine : Store → Board → GameEngine
new_engine store board = record {
  store = store;
  board = board;
  arbiter = new_arbiter;
  scoreboard = new_scoreboard;
  game_over = false;
  winner = none;
}

-- `piece.piece_type.upper()`
abbrev pub upper_type : PieceType → Text
upper_type t = map (λ c. c - 32) (type_text t)

-- "(row,col)"
abbrev pub square_text : Position → Text
square_text p = text "(" ++ (show_int p.row ++ (text "," ++ (show_int p.col ++ text ")")))

abbrev pub jump_text : Piece → Position → Text
jump_text piece position = upper_type piece.piece_type ++ (text " jump " ++ square_text position)

abbrev pub move_text : Piece → Position → Position → Text
move_text piece start end =
    upper_type piece.piece_type
    ++ (text " " ++ (square_text start ++ (text "->" ++ square_text end)))

-- The rest of `handle_jump_request`, past its guards.
unfoldable pub accept_jump : GameEngine → ℕ → Position → GameEngine
unfolding start_jump add_move
accept_jump e piece position =
    let (store', arbiter') = start_jump e.store e.arbiter piece position (pos 1000) in
    record e {
      store = store';
      arbiter = arbiter';
      scoreboard =
          (add_move e.scoreboard (store' piece).color (jump_text (store' piece) position)).0;
    }

-- `not piece or piece.status != PieceStatus.IDLE`, on the other side: the idle piece.
unfoldable pub idle_piece : GameEngine → Position → Option ℕ
idle_piece e p = elim (get_piece e.board p) [
  | none ↦ none
  | some piece ↦ if (e.store piece).status == idle then some piece else none
]

unfoldable pub handle_jump_request : GameEngine → Position → GameEngine × Bool
unfolding accept_jump idle_piece
handle_jump_request e position = if e.game_over then (e, false) else (elim (idle_piece e position) [
  | none ↦ (e, false)
  | some piece ↦ (accept_jump e piece position, true)
])

-- The rest of `handle_move_request`, past its guards. The status is written here and again by
-- the arbiter.
unfoldable pub accept_move : GameEngine → ℕ → Position → Position → ℤ → GameEngine
unfolding add_move
accept_move e piece start end duration_ms =
    let (store', arbiter') =
      start_motion (set_status e.store piece moving) e.arbiter piece start end duration_ms in
    record e {
      store = store';
      arbiter = arbiter';
      scoreboard =
          (add_move e.scoreboard (store' piece).color (move_text (store' piece) start end)).0;
    }

unfoldable pub handle_move_request : GameEngine → Position → Position → ℤ → GameEngine × Bool
unfolding accept_move idle_piece
handle_move_request e start end duration_ms =
    if e.game_over then (e, false) else (elim (idle_piece e start) [
      | none ↦ (e, false)
      | some piece ↦
          if not (is_move_legal e.store e.board start end)
          then (e, false)
          else (accept_move e piece start end duration_ms, true)
    ])
