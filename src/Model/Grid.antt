-- ===== src/Model/Grid.antt =====
-- model/board.py: `Board`. `_grid` maps a position to the identity of the piece that stands there.
use chess_kung_fu.Prelude.{
  ℕ, ◌≡◌, refl, Option, none, some, [], if◌then◌else◌, ◌==◌, Dict, lookup, insert, erase,
  lookup-insert, lookup-erase,
}
use chess_kung_fu.Model.Pieces.{Position, position_eq}

pub record Board : Type 0 where
  pub num_rows : ℕ
  pub num_cols : ℕ
  pub grid : Dict Position ℕ

-- `Board(num_rows, num_cols)`
abbrev pub empty_board : ℕ → ℕ → Board
empty_board num_rows num_cols = record { num_rows = num_rows; num_cols = num_cols; grid = [] }

unfoldable pub get_piece : Board → Position → Option ℕ
unfolding lookup
get_piece b position = lookup position b.grid

unfoldable pub set_piece : Board → Position → Option ℕ → Board
unfolding insert erase
set_piece b position none = record b { grid = erase position b.grid }
set_piece b position (some piece) = record b { grid = insert position piece b.grid }

unfoldable pub move_piece : Board → Position → Position → Board
unfolding get_piece set_piece
move_piece b start end = elim (get_piece b start) [
  | none ↦ b
  | some piece ↦ set_piece (set_piece b start none) end (some piece)
]

unfoldable pub get_all_pieces : Board → Dict Position ℕ
get_all_pieces b = b.grid

-- What one write leaves to be read, everywhere.
pub get_piece-set_piece :
    (b : Board) (p q : Position) (v : Option ℕ)
    → get_piece (set_piece b p v) q ≡ (if q == p then v else get_piece b q)
get_piece-set_piece b p q none = unfold get_piece set_piece in lookup-erase p q b.grid
get_piece-set_piece b p q (some r) = unfold get_piece set_piece in lookup-insert p q r b.grid

-- A write keeps the size of the board.
pub set_piece-size :
    (b : Board) (p : Position) (v : Option ℕ)
    → ((set_piece b p v).num_rows ≡ b.num_rows) × ((set_piece b p v).num_cols ≡ b.num_cols)
unfolding set_piece
set_piece-size b p none = (refl, refl)
set_piece-size b p (some r) = (refl, refl)
