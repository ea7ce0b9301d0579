-- ===== src/BoardText/Boards.antt =====
-- Whole boards of chess_io/: what `print_board` shows of what `parse_initial_board` has read.
use chess_kung_fu.Prelude.{
  ℕ, suc, ◌+◌, ◌<◌, ◌≡◌, refl, ◌∙◌, sym, ap, subst, true, false, List, [], ◌∷◌, map, length, ◌==◌,
  Bool-cases, inl, inr, ◌⊎◌, arith, eq_of_==, nat_eq, lookup,
}
use mathlib.Core.Option.{none-ne-some}
use chess_kung_fu.Model.{Text, text_eq, Store, get_piece}
use chess_kung_fu.BoardText.{
  ChessValidationError, row_width_mismatch, Result, ok, raise, Setup, at, dot, parse_cells,
  parse_rows, parse_initial_board, blank, split, join, shown, row_tokens, print_rows, print_board,
}
use chess_kung_fu.BoardText.Cells.{
  IsFresh, Succeeds, Succeeds-map, cell, Written, parse_cells-Written,
}

-- What parsing the lines from the row `row` on does to a board.
record Filled (s : Setup) (row : ℕ) (lines : List Text) (s' : Setup) : Type 0 where
  rows_kept : s'.board.num_rows ≡ s.board.num_rows
  cols_kept : s'.board.num_cols ≡ s.board.num_cols
  above : (r c : ℕ) → r < row → shown s' (at r c) ≡ shown s (at r c)
  printed : print_rows s' row (length lines) ≡ map (λ line. join (split line)) lines

row_tokens_lem :
    (s : Setup) (row : ℕ) (tokens : List Text) (col : ℕ)
    → ((k : ℕ) → shown s (at row (col + k)) ≡ cell tokens k)
    → row_tokens s row col (length tokens) ≡ tokens
unfolding row_tokens
row_tokens_lem s row [] col h = refl
row_tokens_lem s row (token ∷ tokens) col h =
    let first : shown s (at row col) ≡ token =
      subst (λ (c : ℕ). shown s (at row c) ≡ token) (omega arith) (h 0) in
    rw
      (
        first,
        row_tokens_lem s row tokens (suc col)
            (λ k. subst (λ (c : ℕ). shown s (at row c) ≡ cell tokens k) (omega arith) (h (suc k))),
      )
      refl

-- One line, and then the others.
filled :
    (s s1 s2 : Setup) (row : ℕ) (line : Text) (lines : List Text)
    → length (split line) ≡ s.board.num_cols
    → ((c : ℕ) → shown s (at row c) ≡ dot)
    → Written s row 0 (split line) s1
    → Filled s1 (suc row) lines s2
    → Filled s row (line ∷ lines) s2
unfolding print_rows
filled s s1 s2 row line lines wide empty w f = record {
  rows_kept = f.rows_kept ∙ w.rows_kept;
  cols_kept = f.cols_kept ∙ w.cols_kept;
  above = λ r c lt. f.above r c (omega (arith, lt)) ∙ w.other_rows r c (omega (arith, lt));
  printed = rw (f.printed, tokens) refl;
}
  where
    tokens : row_tokens s2 row 0 s2.board.num_cols ≡ split line
    tokens =
        subst (λ (n : ℕ). row_tokens s2 row 0 n ≡ split line)
          (wide ∙ sym (f.cols_kept ∙ w.cols_kept))
          (row_tokens_lem s2 row (split line) 0
            (λ k. f.above row (0 + k) (omega arith) ∙ w.here k (empty (0 + k))))

-- The three things a line can be.
module _ (expected : ℕ) (s : Setup) (row : ℕ) (line : Text) (lines : List Text) where
  pub rows_width :
      (length (split line) == expected) ≡ false
      → parse_rows s expected row (line ∷ lines) ≡ raise row_width_mismatch
  unfolding parse_rows
  rows_width h = rw (h, parse_rows) refl

  pub rows_odd :
      (e : ChessValidationError)
      → (length (split line) == expected) ≡ true
      → parse_cells s row 0 (split line) ≡ raise e
      → parse_rows s expected row (line ∷ lines) ≡ raise e
  unfolding parse_rows
  rows_odd e h odd = rw (h, odd, parse_rows) refl

  pub rows_next :
      (s1 : Setup)
      → (length (split line) == expected) ≡ true
      → parse_cells s row 0 (split line) ≡ ok s1
      → parse_rows s expected row (line ∷ lines) ≡ parse_rows s1 expected (suc row) lines
  unfolding parse_rows
  rows_next s1 h good = rw (h, good, parse_rows) refl

pub Result-cases :
    (r : Result Setup) → ((s : Setup) × (r ≡ ok s)) ⊎ ((e : ChessValidationError) × (r ≡ raise e))
Result-cases (ok s) = inl (s, refl)
Result-cases (raise e) = inr (e, refl)

parse_rows-Filled :
    (expected : ℕ) (lines : List Text) (s : Setup) (row : ℕ)
    → IsFresh s
    → s.board.num_cols ≡ expected
    → ((k c : ℕ) → shown s (at (row + k) c) ≡ dot)
    → Succeeds (Filled s row lines) (parse_rows s expected row lines)
unfolding parse_rows print_rows
parse_rows-Filled expected [] s row fresh wide empty = record {
  rows_kept = refl;
  cols_kept = refl;
  above = λ r c lt. refl;
  printed = refl;
}
parse_rows-Filled expected (line ∷ lines) s row fresh wide empty =
    let P = Succeeds (Filled s row (line ∷ lines)) in
    elim (Bool-cases (length (split line) == expected)) [
      | inr narrow ↦ subst P (sym (rows_width expected s row line lines narrow)) tt
      | inl fits ↦ (elim (Result-cases (parse_cells s row 0 (split line))) [
        | inr (e, odd) ↦ subst P (sym (rows_odd expected s row line lines e fits odd)) tt
        | inl (s1, good) ↦
            let w : Written s row 0 (split line) s1 =
              subst (Succeeds (Written s row 0 (split line))) good
                (parse_cells-Written (split line) s row 0 fresh) in
            Succeeds-map (Filled s1 (suc row) lines) (Filled s row (line ∷ lines))
              (rows_next expected s row line lines s1 fits good)
              (λ s2.
                filled s s1 s2 row line lines (eq_of_== fits ∙ sym wide)
                  (λ c. subst (λ (r : ℕ). shown s (at r c) ≡ dot) (omega arith) (empty 0 c)) w)
              (parse_rows-Filled expected lines s1 (suc row) w.fresh (w.cols_kept ∙ wide) (λ k c.
                w.other_rows (suc row + k) c (omega arith)
                ∙ subst (λ (r : ℕ). shown s (at r c) ≡ dot) (omega arith) (empty (suc k) c)))
      ])
    ]

empty_blank :
    (store : Store) (rows cols row col : ℕ) → shown (blank store rows cols) (at row col) ≡ dot
empty_blank store rows cols row col = unfold shown get_piece lookup in refl

blank-IsFresh : (store : Store) (rows cols : ℕ) → IsFresh (blank store rows cols)
unfolding get_piece lookup
blank-IsFresh store rows cols q r h = absurd (none-ne-some r h)

print_board-parsed :
    (store : Store) (lines : List Text)
    → Succeeds
        (λ s. print_board s ≡ map (λ line. join (split line)) lines)
        (parse_initial_board store lines)
unfolding parse_initial_board print_board print_rows
print_board-parsed store [] = refl
print_board-parsed store (line ∷ lines) =
    let cols = length (split line) in
    let s0 = blank store (length (line ∷ lines)) cols in
    Succeeds-map (Filled s0 0 (line ∷ lines))
      (λ s. print_board s ≡ map (λ line. join (split line)) (line ∷ lines)) refl
      (λ s f. ap (print_rows s 0) f.rows_kept ∙ f.printed)
      (parse_rows-Filled cols (line ∷ lines) s0 0 (blank-IsFresh store (length (line ∷ lines)) cols)
        refl (λ k c. empty_blank store (length (line ∷ lines)) cols (0 + k) c))

-- What `parse_initial_board` reads, `print_board` writes again, line by line, with one space between
-- two tokens and none around them.
pub print_board-parse_initial_board :
    (store : Store) (lines : List Text) (s : Setup)
    → parse_initial_board store lines ≡ ok s
    → print_board s ≡ map (λ line. join (split line)) lines
print_board-parse_initial_board store lines s h =
    subst (Succeeds (λ s. print_board s ≡ map (λ line. join (split line)) lines)) h
      (print_board-parsed store lines)
