-- ===== src/Tests/Games.antt =====
-- A small game for the tests of the children: a white rook and a black pawn on a board of 8 by 8.
use chess_kung_fu.Prelude.{ℕ, zero, suc, ◌≢◌, [], ◌∷◌, arith, lookup, pos}
use chess_kung_fu.Model.{
  Position, position_eq, position_beq_iff, idle, captured, white, black, rook, pawn, Store, Board,
  get_piece, text,
}
use chess_kung_fu.Engine.{GameEngine, new_engine}
use chess_kung_fu.Engine.Squares.{IsPlaced}
use chess_kung_fu.Engine.Valid.{IsValid}
use chess_kung_fu.Engine.Runs.{new_engine-IsValid}

abbrev pub square : ℕ → ℕ → Position
square r c = record { row = pos r; col = pos c }

abbrev pub pieces : Store
pieces zero = record {
  piece_id = text "r1";
  color = white;
  piece_type = rook;
  status = idle;
  animation_time = 0;
}
pieces (suc _) = record {
  piece_id = text "p1";
  color = black;
  piece_type = pawn;
  status = idle;
  animation_time = 0;
}

abbrev pub board : Board
board = record { num_rows = 8; num_cols = 8; grid = (square 7 0, 0) ∷ (square 3 0, 1) ∷ [] }

pieces_live : (r : ℕ) → (pieces r).status ≢ captured
pieces_live zero h = ground arith
pieces_live (suc r) h = ground arith

pub board-IsPlaced : IsPlaced pieces board
unfolding get_piece lookup
board-IsPlaced = record {
  once = λ p q r h k. ground (
    arith,
    position_beq_iff p (square 7 0),
    position_beq_iff p (square 3 0),
    position_beq_iff q (square 7 0),
    position_beq_iff q (square 3 0),
  );
  alive = λ p r h. pieces_live r;
}

abbrev pub game : GameEngine
game = new_engine pieces board

pub game-IsValid : IsValid game
game-IsValid = new_engine-IsValid pieces board board-IsPlaced

-- Two rooks that face each other on a column.
abbrev pub rooks : Store
rooks zero = record {
  piece_id = text "r1";
  color = white;
  piece_type = rook;
  status = idle;
  animation_time = 0;
}
rooks (suc _) = record {
  piece_id = text "r2";
  color = black;
  piece_type = rook;
  status = idle;
  animation_time = 0;
}

abbrev pub column : Board
column = record { num_rows = 8; num_cols = 8; grid = (square 7 0, 0) ∷ (square 0 0, 1) ∷ [] }

rooks_live : (r : ℕ) → (rooks r).status ≢ captured
rooks_live zero h = ground arith
rooks_live (suc r) h = ground arith

pub column-IsPlaced : IsPlaced rooks column
unfolding get_piece lookup
column-IsPlaced = record {
  once = λ p q r h k. ground (
    arith,
    position_beq_iff p (square 7 0),
    position_beq_iff p (square 0 0),
    position_beq_iff q (square 7 0),
    position_beq_iff q (square 0 0),
  );
  alive = λ p r h. rooks_live r;
}

abbrev pub duel : GameEngine
duel = new_engine rooks column

pub duel-IsValid : IsValid duel
duel-IsValid = new_engine-IsValid rooks column column-IsPlaced
