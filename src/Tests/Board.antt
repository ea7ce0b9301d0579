-- ===== src/Tests/Board.antt =====
-- The witnesses of the board, the rules, the arbiter, the engine and the controller.
use chess_kung_fu.Prelude.{◌≡◌, ◌↔◌, refl, true, false, none, some, arith, elem, pos, ◌<◌}
use chess_kung_fu.Model.{position_eq, moving, white, get_piece, set_status}
use chess_kung_fu.Rules.{get_straight_moves, get_pawn_moves, is_move_legal, straight_directions}
use chess_kung_fu.Rules.Rays.{CanSlide, get_straight_moves_iff}
use chess_kung_fu.Rules.Pawn.{CanPawnMove, get_pawn_moves_iff}
use chess_kung_fu.Rules.Legal.{IsLegal, is_move_legal_iff}
use chess_kung_fu.Realtime.{RealTimeArbiter, new_arbiter, new_motion, advance_time, start_motion}
use chess_kung_fu.Realtime.Clock.{Advanced, advance_time_lem}
use chess_kung_fu.Realtime.Ids.{after_launch, start_motion_lem, new_arbiter-IsValid}
use chess_kung_fu.Engine.{GameEngine, handle_move_request, update_game_clock}
use chess_kung_fu.Engine.Valid.{IsValid}
use chess_kung_fu.Engine.Runs.{move, clock, Reaches, here, next, Reaches-IsValid, Reaches_frozen}
use chess_kung_fu.Control.{floor_cell, Controller, click, to_position, duration}
use chess_kung_fu.Control.Pixels.{InCell, to_position_iff}
use chess_kung_fu.Control.Clicks.{click_pair}
use chess_kung_fu.Tests.Games.{square, pieces, board, game, game-IsValid}

get_straight_moves_iff_example :
    (elem (square 3 0) (get_straight_moves pieces board (square 7 0)) ≡ true)
    ↔ CanSlide pieces board straight_directions (square 7 0) (square 3 0)
get_straight_moves_iff_example = get_straight_moves_iff pieces board (square 7 0) (square 3 0)

get_pawn_moves_iff_example :
    (elem (square 4 0) (get_pawn_moves pieces board (square 3 0)) ≡ true)
    ↔ CanPawnMove pieces board (square 3 0) (square 4 0)
get_pawn_moves_iff_example = get_pawn_moves_iff pieces board (square 3 0) (square 4 0)

is_move_legal_iff_example :
    (is_move_legal pieces board (square 7 0) (square 3 0) ≡ true)
    ↔ IsLegal pieces board (square 7 0) (square 3 0)
is_move_legal_iff_example = is_move_legal_iff pieces board (square 7 0) (square 3 0)

start_motion_lem_example :
    start_motion pieces new_arbiter 0 (square 7 0) (square 3 0) (pos 4000) ≡ (
      set_status pieces 0 moving,
      after_launch new_arbiter
          (new_motion new_arbiter 0 (square 7 0) (square 3 0) (pos 4000) false),
    )
start_motion_lem_example =
    start_motion_lem pieces new_arbiter 0 (square 7 0) (square 3 0) (pos 4000) new_arbiter-IsValid

abbrev in_flight : RealTimeArbiter
in_flight = (start_motion pieces new_arbiter 0 (square 7 0) (square 3 0) (pos 4000)).1

advance_time_lem_example :
    Advanced in_flight
      (advance_time in_flight (pos 4000)).0
      (pos 4000)
      (advance_time in_flight (pos 4000)).1
advance_time_lem_example = advance_time_lem in_flight (pos 4000)

-- The rook is sent to the pawn's square, and four seconds pass.
abbrev sent : GameEngine
sent = (handle_move_request game (square 7 0) (square 3 0) (pos 4000)).0

abbrev landed : GameEngine
landed = update_game_clock sent (pos 4000)

abbrev run : Reaches game landed
run = next (next here (move game (square 7 0) (square 3 0) (pos 4000))) (clock sent (pos 4000))

Reaches-IsValid_example : IsValid landed
Reaches-IsValid_example = Reaches-IsValid run game-IsValid

abbrev over : GameEngine
over = record game { game_over = true; winner = some white }

Reaches_frozen_example : (handle_move_request over (square 7 0) (square 3 0) (pos 4000)).0 ≡ over
Reaches_frozen_example =
    Reaches_frozen (next here (move over (square 7 0) (square 3 0) (pos 4000))) refl

to_position_iff_example :
    (to_position board (pos 250) (pos 130) ≡ some (square 1 2))
    ↔ ((1 < 8) × (2 < 8) × InCell 1 (pos 130) × InCell 2 (pos 250))
to_position_iff_example = to_position_iff board (pos 250) (pos 130) 1 2

abbrev table : Controller
table = record { engine = game; selected = none }

click_pair_example : click (click table (pos 50) (pos 750)) (pos 50) (pos 350) ≡ record {
  engine =
      (handle_move_request game (square 7 0) (square 3 0) (duration (square 7 0) (square 3 0))).0;
  selected = none;
}
unfolding to_position get_piece floor_cell
click_pair_example =
    click_pair table (pos 50) (pos 750) (pos 50) (pos 350) (square 7 0) (square 3 0) 0 refl refl
      refl refl (λ e. ground arith) refl
