-- ===== src/BoardText/Cells.antt =====
-- One line of a board: what the loop over its tokens puts where.
use chess_kung_fu.Prelude.{
  ℕ, zero, suc, ◌+◌, ◌<◌, ◌≡◌, ◌≢◌, refl, ◌∙◌, sym, ap, subst, true, false, none, some, List, [],
  ◌∷◌, if◌then◌else◌, ◌==◌, Option-cases, Bool-cases, inl, inr, ◌⊎◌, arith, eq_of_==, if_true,
  if_false, ==-refl, nat_eq,
}
use mathlib.Core.Option.{some_inj, none-ne-some}
use chess_kung_fu.Model.{
  Text, text_eq, Position, position_eq, Piece, get_piece, get_piece-set_piece, set_piece-size,
}
use chess_kung_fu.BoardText.{
  token_parts, color_named, type_named, piece_named, Result, ok, raise, unknown_token, Setup, at,
  place, dot, parse_cells, shown,
}

abbrev pub Succeeds : (Setup → Type 0) → Result Setup → Type 0
Succeeds P (ok s) = P s
Succeeds P (raise e) = Unit

pub Succeeds-map :
    (P Q : Setup → Type 0) {r r' : Result Setup}
    → r' ≡ r
    → ((s : Setup) → P s → Q s)
    → Succeeds P r
    → Succeeds Q r'
Succeeds-map P Q {r = ok s} e f h = subst (Succeeds Q) (sym e) (f s h)
Succeeds-map P Q {r = raise x} e f h = subst (Succeeds Q) (sym e) tt

-- The objects on the board are older than the next one.
abbrev pub IsFresh : Setup → Type 0
IsFresh s = (q : Position) (r : ℕ) → get_piece s.board q ≡ some r → r < s.next

-- The token of a line at a place, a dot behind its end.
abbrev pub cell : List Text → ℕ → Text
cell [] k = dot
cell (token ∷ tokens) zero = token
cell (token ∷ tokens) (suc k) = cell tokens k

piece_named_id : (token : Text) (p : Piece) → piece_named token ≡ some p → p.piece_id ≡ token
unfolding piece_named
piece_named_id token p h = elim (Option-cases (token_parts token)) [
  | inl short ↦ absurd (none-ne-some p (rw (short, piece_named) at h))
  | inr ((color, kind), long) ↦ (elim (Option-cases (color_named color)) [
    | inl odd ↦ absurd (none-ne-some p (rw (long, odd, piece_named) at h))
    | inr (c, is_color) ↦ (elim (Option-cases (type_named kind)) [
      | inl odd ↦ absurd (none-ne-some p (rw (long, is_color, odd, piece_named) at h))
      | inr (t, is_type) ↦ sym (
          ap (λ (x : Piece). x.piece_id)
            (some_inj.0 (rw (long, is_color, is_type, piece_named) at h)))
    ])
  ])
]

shown_lem :
    (s : Setup) (q : Position) (r : ℕ)
    → get_piece s.board q ≡ some r
    → shown s q ≡ (s.store r).piece_id
unfolding shown
shown_lem s q r h = rw (h, shown) refl

shown_empty : (s : Setup) (q : Position) → get_piece s.board q ≡ none → shown s q ≡ dot
unfolding shown
shown_empty s q h = rw (h, shown) refl

-- A new piece on a square.
module _ (s : Setup) (row col : ℕ) (p : Piece) (fresh : IsFresh s) where
  placed :
      (q : Position)
      → get_piece (place s row col p).board q
        ≡ (if q == at row col then some s.next else get_piece s.board q)
  unfolding place
  placed q = get_piece-set_piece s.board (at row col) q (some s.next)

  place-IsFresh : IsFresh (place s row col p)
  unfolding place
  place-IsFresh q r h = elim (Bool-cases (q == at row col)) [
    | inl here ↦ let e = some_inj.0 (sym h ∙ placed q ∙ if_true _ _ _ here) in omega (arith, e)
    | inr other ↦ omega (arith, fresh q r (sym (if_false _ _ _ other) ∙ sym (placed q) ∙ h))
  ]

  shown_placed : shown (place s row col p) (at row col) ≡ p.piece_id
  unfolding place
  shown_placed =
      shown_lem (place s row col p) (at row col) s.next
        (placed (at row col) ∙ if_true _ _ _ (==-refl (at row col)))
      ∙ ap (λ (x : Piece). x.piece_id) (if_true _ _ _ (==-refl s.next))

  shown_elsewhere :
      (q : Position) → (q == at row col) ≡ false → shown (place s row col p) q ≡ shown s q
  unfolding place
  shown_elsewhere q other = elim (Option-cases (get_piece s.board q)) [
    | inl empty ↦
        shown_empty (place s row col p) q (placed q ∙ if_false _ _ _ other ∙ empty)
        ∙ sym (shown_empty s q empty)
    | inr (r, here) ↦
        shown_lem (place s row col p) q r (placed q ∙ if_false _ _ _ other ∙ here)
        ∙ ap (λ (x : Piece). x.piece_id)
            (if_false (r == s.next) p (s.store r) (older r (fresh q r here)))
        ∙ sym (shown_lem s q r here)
  ]
    where
      older : (r : ℕ) → r < s.next → (r == s.next) ≡ false
      older r lt = ground (arith, lt)

place_size :
    (s : Setup) (row col : ℕ) (p : Piece)
    → ((place s row col p).board.num_rows ≡ s.board.num_rows)
      × ((place s row col p).board.num_cols ≡ s.board.num_cols)
unfolding place
place_size s row col p = set_piece-size s.board (at row col) (some s.next)

-- Two squares of a board differ.
other_square :
    (row col row' col' : ℕ) → (row ≢ row') ⊎ (col ≢ col') → (at row col == at row' col') ≡ false
other_square row col row' col' h = ground (arith, h)

-- What `parse_cells` does to the squares of the row from the column `col` on; the squares that
-- a line gives were empty.
pub record Written (s : Setup) (row col : ℕ) (tokens : List Text) (s' : Setup) : Type 0 where
  pub fresh : IsFresh s'
  pub rows_kept : s'.board.num_rows ≡ s.board.num_rows
  pub cols_kept : s'.board.num_cols ≡ s.board.num_cols
  pub other_rows : (r c : ℕ) → r ≢ row → shown s' (at r c) ≡ shown s (at r c)
  pub before : (c : ℕ) → c < col → shown s' (at row c) ≡ shown s (at row c)
  pub here :
      (k : ℕ) → shown s (at row (col + k)) ≡ dot → shown s' (at row (col + k)) ≡ cell tokens k

-- A column counted from the first square on, and from the second.
next_col : (col k : ℕ) → suc col + k ≡ col + suc k
next_col col k = omega arith

skipped :
    (s : Setup) (row col : ℕ) (token : Text) (tokens : List Text) (s' : Setup)
    → token ≡ dot
    → Written s row (suc col) tokens s'
    → Written s row col (token ∷ tokens) s'
skipped s row col token tokens s' is_dot w = record {
  fresh = w.fresh;
  rows_kept = w.rows_kept;
  cols_kept = w.cols_kept;
  other_rows = w.other_rows;
  before = λ c lt. w.before c (omega (arith, lt));
  here = here;
}
  where
    here :
        (k : ℕ)
        → shown s (at row (col + k)) ≡ dot
        → shown s' (at row (col + k)) ≡ cell (token ∷ tokens) k
    here zero empty = w.before (col + 0) (omega arith) ∙ empty ∙ sym is_dot
    here (suc k) empty =
        subst (λ (c : ℕ). shown s (at row c) ≡ dot → shown s' (at row c) ≡ cell tokens k)
          (next_col col k) (w.here k) empty

written :
    (s : Setup) (row col : ℕ) (token : Text) (p : Piece) (tokens : List Text) (s' : Setup)
    → IsFresh s
    → p.piece_id ≡ token
    → Written (place s row col p) row (suc col) tokens s'
    → Written s row col (token ∷ tokens) s'
written s row col token p tokens s' fresh named w = record {
  fresh = w.fresh;
  rows_kept = w.rows_kept ∙ (place_size s row col p).0;
  cols_kept = w.cols_kept ∙ (place_size s row col p).1;
  other_rows = λ r c apart.
      w.other_rows r c apart
      ∙ shown_elsewhere s row col p fresh (at r c) (other_square r c row col (inl apart));
  before = λ c lt. w.before c (omega (arith, lt)) ∙ on_the_left c (omega (arith, lt));
  here = here;
}
  where
    on_the_left : (c : ℕ) → c ≢ col → shown (place s row col p) (at row c) ≡ shown s (at row c)
    on_the_left c apart =
        shown_elsewhere s row col p fresh (at row c) (other_square row c row col (inr apart))

    here :
        (k : ℕ)
        → shown s (at row (col + k)) ≡ dot
        → shown s' (at row (col + k)) ≡ cell (token ∷ tokens) k
    here zero empty =
        let first : col + 0 ≡ col = omega arith in
        w.before (col + 0) (omega arith)
        ∙ ap (λ (c : ℕ). shown (place s row col p) (at row c)) first
        ∙ shown_placed s row col p fresh
        ∙ named
    here (suc k) empty =
        subst
          (λ (c : ℕ).
            shown (place s row col p) (at row c) ≡ dot → shown s' (at row c) ≡ cell tokens k)
          (next_col col k) (w.here k) (on_the_left (col + suc k) (omega arith) ∙ empty)

-- The three things a token can be.
module _ (s : Setup) (row col : ℕ) (token : Text) (tokens : List Text) where
  pub parse_dot :
      (token == dot) ≡ true
      → parse_cells s row col (token ∷ tokens) ≡ parse_cells s row (suc col) tokens
  unfolding parse_cells
  parse_dot is_dot = rw (is_dot, parse_cells) refl

  pub parse_odd :
      (token == dot) ≡ false
      → piece_named token ≡ none
      → parse_cells s row col (token ∷ tokens) ≡ raise unknown_token
  unfolding parse_cells
  parse_odd shows odd = rw (shows, odd, parse_cells) refl

  pub parse_piece :
      (p : Piece)
      → (token == dot) ≡ false
      → piece_named token ≡ some p
      → parse_cells s row col (token ∷ tokens)
        ≡ parse_cells (place s row col p) row (suc col) tokens
  unfolding parse_cells
  parse_piece p shows is_piece = rw (shows, is_piece, parse_cells) refl

pub parse_cells-Written :
    (tokens : List Text) (s : Setup) (row col : ℕ)
    → IsFresh s
    → Succeeds (Written s row col tokens) (parse_cells s row col tokens)
unfolding parse_cells
parse_cells-Written [] s row col fresh = record {
  fresh = fresh;
  rows_kept = refl;
  cols_kept = refl;
  other_rows = λ r c apart. refl;
  before = λ c lt. refl;
  here = λ k empty. empty;
}
parse_cells-Written (token ∷ tokens) s row col fresh = elim (Bool-cases (token == dot)) [
  | inl is_dot ↦
      Succeeds-map (Written s row (suc col) tokens) (Written s row col (token ∷ tokens))
        (parse_dot s row col token tokens is_dot)
        (λ s'. skipped s row col token tokens s' (eq_of_== is_dot))
        (parse_cells-Written tokens s row (suc col) fresh)
  | inr shows ↦ (elim (Option-cases (piece_named token)) [
    | inl odd ↦
        subst (Succeeds (Written s row col (token ∷ tokens)))
          (sym (parse_odd s row col token tokens shows odd)) tt
    | inr (p, is_piece) ↦
        Succeeds-map (Written (place s row col p) row (suc col) tokens)
          (Written s row col (token ∷ tokens)) (parse_piece s row col token tokens p shows is_piece)
          (λ s'. written s row col token p tokens s' fresh (piece_named_id token p is_piece))
          (parse_cells-Written tokens (place s row col p) row (suc col)
            (place-IsFresh s row col p fresh))
  ])
]
