-- ===== src/Tests/Duel.antt =====
-- Two rooks sent at each other: the witness of the dropped move.
use chess_kung_fu.Prelude.{◌≡◌, refl, true, false, lookup, pos, ◌+ℤ◌, ◌-ℤ◌}
use chess_kung_fu.Model.{get_piece}
use chess_kung_fu.Rules.{is_move_legal, reaches, piece_at, get_straight_moves, rays, ray, in_bounds}
use chess_kung_fu.Realtime.{
  new_motion, start_motion, collides, are_on_collision_course, on_column, sign, remove,
  resolve_common_route_collision,
}
use chess_kung_fu.Engine.{GameEngine, handle_move_request, accept_move}
use chess_kung_fu.Engine.Valid.{IsValid, handle_move_request-IsValid}
use chess_kung_fu.Engine.Requests.{Accepted, handle_move_request_accepts}
use chess_kung_fu.Engine.Runs.{here}
use chess_kung_fu.Engine.Stranded.{IsStranded, dropped_move_strands}
use chess_kung_fu.Tests.Games.{square, rooks, column, duel, duel-IsValid}

duel-Accepted : Accepted duel (square 0 0) 1
unfolding get_piece lookup
duel-Accepted = record { running = refl; here = refl; rests = refl }

black_legal : is_move_legal rooks column (square 0 0) (square 7 0) ≡ true
unfolding is_move_legal reaches piece_at get_piece get_straight_moves rays ray in_bounds lookup ◌+ℤ◌
black_legal = refl

-- The black rook is under way.
abbrev first : GameEngine
first = accept_move duel 1 (square 0 0) (square 7 0) (pos 7000)

first-IsValid : IsValid first
first-IsValid =
    rw
      (handle_move_request_accepts duel (square 0 0) (square 7 0) (pos 7000) 1 duel-Accepted
        black_legal)
      at (handle_move_request-IsValid duel (square 0 0) (square 7 0) (pos 7000) duel-IsValid)

first-Accepted : Accepted first (square 7 0) 0
unfolding get_piece lookup accept_move start_motion
first-Accepted = record { running = refl; here = refl; rests = refl }

white_legal : is_move_legal first.store first.board (square 7 0) (square 0 0) ≡ true
unfolding is_move_legal reaches piece_at get_piece get_straight_moves rays ray in_bounds lookup ◌+ℤ◌
    accept_move start_motion
white_legal = refl

head_on :
    collides
      (new_motion first.arbiter 0 (square 7 0) (square 0 0) (pos 7000) false)
      first.arbiter.active_motions
    ≡ true
unfolding collides remove are_on_collision_course on_column sign ◌-ℤ◌ ◌+ℤ◌ accept_move start_motion
    resolve_common_route_collision
head_on = refl

dropped_move_strands_example :
    ((handle_move_request first (square 7 0) (square 0 0) (pos 7000)).1 ≡ true)
    × IsStranded 0 (handle_move_request first (square 7 0) (square 0 0) (pos 7000)).0
dropped_move_strands_example =
    dropped_move_strands first (square 7 0) (square 0 0) (pos 7000) 0 first-IsValid first-Accepted
      white_legal head_on here
