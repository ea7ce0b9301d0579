-- ===== src/Engine/Clocks.antt =====
-- engine/game_engine.py: `update_game_clock`, with the body of its loop.
use chess_kung_fu.Prelude.{
  ℕ, Bool, true, false, not, ◌&&◌, none, some, List, [], ◌∷◌, ◌++◌, if◌then◌else◌, ◌==◌, ℤ, pos,
  ◌-ℤ◌, ltb_ℤ, int_eq, nat_eq, leb,
}
use chess_kung_fu.Prelude.Sort.{sort}
use chess_kung_fu.Model.{
  text, Position, position_eq, idle, jumping, captured, status_eq, Color, white, color_eq,
  color_text, PieceType, king, queen, pawn, type_eq, Piece, write, set_status, Board, get_piece,
  set_piece,
}
use chess_kung_fu.Realtime.{Motion, advance_time}
use chess_kung_fu.Engine.Scores.{add_capture_points}
use chess_kung_fu.Engine.Calls.{GameEngine}

-- `if captured.piece_type == 'k'`: the game is over.
abbrev pub end_game : GameEngine → PieceType → Color → GameEngine
end_game e captured_type color =
    if captured_type == king then record e { game_over = true; winner = some color } else e

-- `if self.board.get_piece(motion.start) is motion.piece: self.board.set_piece(motion.start, None)`
unfoldable pub leave_start : Board → Motion → Board
leave_start b m = elim (get_piece b m.start) [
  | none ↦ b
  | some r ↦ if r == m.piece then set_piece b m.start none else b
]

-- The first capture of the loop: the piece that arrives is taken by the jumper `j`.
unfoldable pub captured_by_jumper : GameEngine → Motion → ℕ → GameEngine
unfolding leave_start
captured_by_jumper e m j =
    let piece_type = (e.store m.piece).piece_type in
    end_game
      (record e {
        store = set_status e.store m.piece captured;
        scoreboard = (add_capture_points e.scoreboard (e.store j).color piece_type).0;
        board = leave_start e.board m;
      })
      piece_type (e.store j).color

-- The second capture: the piece that arrives takes the idle piece `t` of the other colour.
unfoldable pub capture_target : GameEngine → Motion → ℕ → GameEngine
capture_target e m t =
    let piece_type = (e.store t).piece_type in
    end_game
      (record e {
        store = set_status e.store t captured;
        scoreboard = (add_capture_points e.scoreboard (e.store m.piece).color piece_type).0;
        board = set_piece e.board m.end none;
      })
      piece_type (e.store m.piece).color

-- `promotion_row`, and the promotion of a pawn that arrives there.
abbrev pub promotion_row : Board → Color → ℤ
promotion_row b color = if color == white then pos 0 else pos b.num_rows -ℤ pos 1

abbrev pub promoted : Board → Position → Piece → Piece
promoted b end p =
    if p.piece_type == pawn && end.row == promotion_row b p.color
    then record p { piece_type = queen; piece_id = color_text p.color ++ text "Q" }
    else p

-- The end of the loop's body: the piece comes to stand on the target square.
unfoldable pub arrive : GameEngine → Motion → GameEngine
unfolding leave_start
arrive e m =
    let board' = set_piece (leave_start e.board m) m.end (some m.piece) in
    let piece = record (e.store m.piece) { status = idle } in
    record e { store = write e.store m.piece (promoted board' m.end piece); board = board' }

-- Past the jump and the jumper: what stands on the target square decides.
unfoldable pub reach_target : GameEngine → Motion → GameEngine
unfolding arrive capture_target
reach_target e m = elim (get_piece e.board m.end) [
  | none ↦ arrive e m
  | some t ↦
      if (e.store t).status == idle
      then if (e.store t).color == (e.store m.piece).color
        then record e { store = set_status e.store m.piece idle }
        else arrive (capture_target e m t) m
      else arrive e m
]

-- Past the jump: a jumper of the other colour on the target square takes the piece.
unfoldable pub meet_jumper : GameEngine → Motion → GameEngine
unfolding reach_target captured_by_jumper
meet_jumper e m = elim (get_piece e.board m.end) [
  | none ↦ reach_target e m
  | some j ↦
      if (e.store j).status == jumping && not ((e.store j).color == (e.store m.piece).color)
      then captured_by_jumper e m j
      else reach_target e m
]

-- The body of the loop of `update_game_clock`.
unfoldable pub land : GameEngine → Motion → GameEngine
unfolding meet_jumper
land e m =
    if (e.store m.piece).status == captured
    then e
    else if m.is_jump
    then record e { store = set_status e.store m.piece idle }
    else meet_jumper e m

unfoldable pub land_all : GameEngine → List Motion → GameEngine
unfolding land
land_all e [] = e
land_all e (m ∷ motions) = land_all (land e m) motions

-- The key (remaining_time, original_duration, is_jump, -motion_id).
abbrev pub lands_before : Motion → Motion → Bool
lands_before a b =
    if ltb_ℤ a.remaining_time b.remaining_time
    then true
    else if ltb_ℤ b.remaining_time a.remaining_time
    then false
    else if ltb_ℤ a.original_duration b.original_duration
    then true
    else if ltb_ℤ b.original_duration a.original_duration
    then false
    else if not a.is_jump && b.is_jump
    then true
    else if a.is_jump && not b.is_jump
    then false
    else leb b.motion_id a.motion_id

unfoldable pub update_game_clock : GameEngine → ℤ → GameEngine
unfolding land_all advance_time
update_game_clock e ms =
    if e.game_over
    then e
    else (let (arbiter', completed) = advance_time e.arbiter ms in
        land_all (record e { arbiter = arbiter' }) (sort lands_before completed))

abbrev pub wait : GameEngine → ℤ → GameEngine
wait e ms = update_game_clock e ms
