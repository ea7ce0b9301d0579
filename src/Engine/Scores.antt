-- ===== src/Engine/Scores.antt =====
-- engine/scoreboard.py: `Scoreboard`.
use chess_kung_fu.Prelude.{ℕ, ◌+◌, List, [], ◌∷◌, ◌++◌, if◌then◌else◌, ◌==◌, int_eq, nat_eq}
use chess_kung_fu.Model.{
  Text, position_eq, status_eq, Color, white, color_eq, PieceType, king, queen, rook, bishop,
  knight, pawn, type_eq,
}

-- `PIECE_VALUES`
abbrev pub piece_value : PieceType → ℕ
piece_value pawn = 1
piece_value knight = 3
piece_value bishop = 3
piece_value rook = 5
piece_value queen = 9
piece_value king = 0

pub record Scoreboard : Type 0 where
  pub plaier1_score : ℕ
  pub plaier2_score : ℕ
  pub plaier1_moves : List Text
  pub plaier2_moves : List Text

abbrev pub new_scoreboard : Scoreboard
new_scoreboard = record {
  plaier1_score = 0;
  plaier2_score = 0;
  plaier1_moves = [];
  plaier2_moves = [];
}

-- The methods return the list, or the score, that they have changed. PLAYER1 is 'w'.
unfoldable pub add_move : Scoreboard → Color → Text → Scoreboard × List Text
add_move s color move_text =
    if color == white
    then (let moves = s.plaier1_moves ++ move_text ∷ [] in
        (record s { plaier1_moves = moves }, moves))
    else (let moves = s.plaier2_moves ++ move_text ∷ [] in
        (record s { plaier2_moves = moves }, moves))

unfoldable pub add_capture_points : Scoreboard → Color → PieceType → Scoreboard × ℕ
add_capture_points s capturer_color captured_piece_type =
    let value = piece_value captured_piece_type in
    if capturer_color == white
    then (record s { plaier1_score = s.plaier1_score + value }, s.plaier1_score + value)
    else (record s { plaier2_score = s.plaier2_score + value }, s.plaier2_score + value)
