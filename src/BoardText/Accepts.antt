-- ===== src/BoardText/Accepts.antt =====
-- The boards that `parse_initial_board` accepts.
use chess_kung_fu.Prelude.{
  ℕ, suc, ◌≡◌, refl, sym, Bool, true, false, ◌&&◌, ◌||◌, none, some, List, [], ◌∷◌, length, ◌==◌,
  Option-cases, Bool-cases, inl, inr, all, nat_eq,
}
use chess_kung_fu.Model.{Text, text_eq, Store}
use chess_kung_fu.BoardText.{
  piece_named, place, Result, ok, raise, Setup, dot, parse_cells, parse_rows, parse_initial_board,
  blank, split,
}
use chess_kung_fu.BoardText.Cells.{parse_dot, parse_odd, parse_piece}
use chess_kung_fu.BoardText.Boards.{rows_width, rows_odd, rows_next, Result-cases}

-- Whether a result is one.
abbrev pub is_ok : Result Setup → Bool
is_ok (ok s) = true
is_ok (raise e) = false

-- A token that stands for a square, and a line of them that is as wide as the board.
abbrev pub is_token : Text → Bool
is_token token = token == dot || (elim (piece_named token) [ none ↦ false | some p ↦ true ])

abbrev pub is_line : ℕ → Text → Bool
is_line width line = length (split line) == width && all is_token (split line)

-- The width that the first line sets.
abbrev pub first_width : List Text → ℕ
first_width [] = 0
first_width (line ∷ lines) = length (split line)

parse_cells-is_ok :
    (tokens : List Text) (s : Setup) (row col : ℕ)
    → is_ok (parse_cells s row col tokens) ≡ all is_token tokens
unfolding parse_cells
parse_cells-is_ok [] s row col = refl
parse_cells-is_ok (token ∷ tokens) s row col = elim (Bool-cases (token == dot)) [
  | inl is_dot ↦
      rw (parse_dot s row col token tokens is_dot, is_dot)
        (parse_cells-is_ok tokens s row (suc col))
  | inr shows ↦ (elim (Option-cases (piece_named token)) [
    | inl odd ↦ rw (parse_odd s row col token tokens shows odd, shows, odd) refl
    | inr (p, is_piece) ↦
        rw (parse_piece s row col token tokens p shows is_piece, shows, is_piece)
          (parse_cells-is_ok tokens (place s row col p) row (suc col))
  ])
]

parse_rows-is_ok :
    (width : ℕ) (lines : List Text) (s : Setup) (row : ℕ)
    → is_ok (parse_rows s width row lines) ≡ all (is_line width) lines
unfolding parse_rows
parse_rows-is_ok width [] s row = refl
parse_rows-is_ok width (line ∷ lines) s row = elim (Bool-cases (length (split line) == width)) [
  | inr narrow ↦ rw (rows_width width s row line lines narrow, narrow) refl
  | inl fits ↦
      let tokens = parse_cells-is_ok (split line) s row 0 in
      (elim (Result-cases (parse_cells s row 0 (split line))) [
        | inr (e, odd) ↦ rw (rows_odd width s row line lines e fits odd, fits, sym tokens, odd) refl
        | inl (s1, good) ↦
            rw (rows_next width s row line lines s1 fits good, fits, sym tokens, good)
              (parse_rows-is_ok width lines s1 (suc row))
      ])
]

-- `parse_initial_board` accepts a board exactly when each line has as many tokens as the first one,
-- and each token is a dot or names a piece; it does not depend on the objects there were.
pub parse_initial_board-is_ok :
    (store : Store) (lines : List Text)
    → is_ok (parse_initial_board store lines) ≡ all (is_line (first_width lines)) lines
unfolding parse_initial_board
parse_initial_board-is_ok store [] = refl
parse_initial_board-is_ok store (line ∷ lines) =
    parse_rows-is_ok (length (split line)) (line ∷ lines)
      (blank store (length (line ∷ lines)) (length (split line))) 0
