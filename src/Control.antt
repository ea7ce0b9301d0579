-- ===== src/Control.antt =====
-- controller/board_mapper.py (`BoardMapper`) and controller/controller.py (`Controller`). The
-- controller and its mapper share the engine's board, so the engine is part of its state.
pub mod Pixels
pub mod Clicks
use chess_kung_fu.Prelude.{
  ℕ, ◌+◌, ◌-◌, ◌*◌, ◌/◌, ◌≡◌, Bool, true, false, not, ◌&&◌, Option, none, some, if◌then◌else◌, ◌==◌,
  Eq, ℤ, pos, negsuc, ◌-ℤ◌, leb_ℤ, ltb_ℤ, abs, max,
}
use chess_kung_fu.Model.{Position, position_eq, Color, color_eq, Piece, Board, get_piece}
use chess_kung_fu.Engine.{GameEngine, handle_jump_request, handle_move_request}

abbrev pub cell_size : ℕ
cell_size = 100

-- `x // CELL_SIZE`, which rounds down.
unfoldable pub floor_cell : ℤ → ℤ
floor_cell (pos n) = pos (n / cell_size)
floor_cell (negsuc n) = negsuc (n / cell_size)

unfoldable pub to_position : Board → ℤ → ℤ → Option Position
to_position b x y =
    let col = floor_cell x in
    let row = floor_cell y in
    if (leb_ℤ (pos 0) row && ltb_ℤ row (pos b.num_rows))
      && (leb_ℤ (pos 0) col && ltb_ℤ col (pos b.num_cols))
    then some (record { row = row; col = col })
    else none

abbrev pub ms_per_cell : ℕ
ms_per_cell = 1000

-- `_duration`: the Chebyshev distance in cells, in milliseconds.
abbrev pub duration : Position → Position → ℤ
duration start end =
    pos (max (abs (end.row -ℤ start.row)) (abs (end.col -ℤ start.col)) * ms_per_cell)

pub record Controller : Type 0 where
  pub engine : GameEngine
  pub selected : Option Position

-- `selected`, as a pair.
abbrev pub selected_pair : Controller → Option (ℤ × ℤ)
selected_pair c = elim c.selected [ none ↦ none | some p ↦ some (p.row, p.col) ]

-- A first click selects the piece on its square.
unfoldable pub first_click : Controller → Position → Controller
first_click c position = elim (get_piece c.engine.board position) [
  | none ↦ c
  | some _ ↦ record c { selected = some position }
]

-- `clicked_piece is not None and selected_piece is not None and` their colours are the same
abbrev pub same_side : GameEngine → Option ℕ → Option ℕ → Bool
same_side e none s = false
same_side e (some r) none = false
same_side e (some r) (some s) = (e.store r).color == (e.store s).color

-- `if selected_piece is not None:` the move is requested. The selection ends either way.
abbrev pub request_move : Controller → Position → Position → Option ℕ → Controller
request_move c selected position none = record c { selected = none }
request_move c selected position (some r) = record c {
  engine = (handle_move_request c.engine selected position (duration selected position)).0;
  selected = none;
}

-- A second click: a jump on the selected square, another selection, or a move.
unfoldable pub second_click : Controller → Position → Position → Controller
second_click c selected position =
    let clicked_piece = get_piece c.engine.board position in
    let selected_piece = get_piece c.engine.board selected in
    if position == selected
    then record c { engine = (handle_jump_request c.engine selected).0; selected = none }
    else if same_side c.engine clicked_piece selected_piece
    then record c { selected = some position }
    else request_move c selected position selected_piece

unfoldable pub click : Controller → ℤ → ℤ → Controller
click c x y = elim (to_position c.engine.board x y) [
  | none ↦ c
  | some position ↦ (elim c.selected [
    | none ↦ first_click c position
    | some selected ↦ second_click c selected position
  ])
]
