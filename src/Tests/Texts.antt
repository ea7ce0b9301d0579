-- ===== src/Tests/Texts.antt =====
-- The witnesses of the boards as text.
use chess_kung_fu.Prelude.{◌≡◌, refl, false, List, [], ◌∷◌, map, all, insert, lookup}
use chess_kung_fu.Model.{Text, text, text_beq, set_piece, get_piece}
use chess_kung_fu.BoardText.{
  Result, ok, raise, place, Setup, split, join, parse_initial_board, print_board, shown,
}
use chess_kung_fu.BoardText.Boards.{print_board-parse_initial_board}
use chess_kung_fu.BoardText.Accepts.{is_ok, is_line, first_width, parse_initial_board-is_ok}
use chess_kung_fu.Tests.Games.{game}

-- Two rows, with spaces where there need be none.
abbrev lines : List Text
lines = text "w_K  .  b_Q" ∷ text " . wP . " ∷ []

abbrev ragged : List Text
ragged = text "w_K ." ∷ text ". . ." ∷ []

abbrev setup_of : Result Setup → Setup
setup_of (ok s) = s
setup_of (raise e) = record { store = game.store; board = game.board; next = 0 }

abbrev setup : Setup
setup = setup_of (parse_initial_board game.store lines)

print_board-parse_initial_board_example : print_board setup ≡ map (λ line. join (split line)) lines
unfolding parse_initial_board text_beq place
print_board-parse_initial_board_example =
    print_board-parse_initial_board game.store lines setup refl

printed : print_board setup ≡ text "w_K . b_Q" ∷ text ". wP ." ∷ []
unfolding parse_initial_board print_board text_beq place set_piece get_piece insert lookup shown
printed = refl

parse_initial_board-is_ok_example :
    is_ok (parse_initial_board game.store ragged) ≡ all (is_line (first_width ragged)) ragged
parse_initial_board-is_ok_example = parse_initial_board-is_ok game.store ragged

refused_lines : is_ok (parse_initial_board game.store ragged) ≡ false
unfolding parse_initial_board text_beq
refused_lines = refl
