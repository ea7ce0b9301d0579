-- ===== src/Rules/Steps.antt =====
-- The moves by an offset of rules/piece_rules.py, `get_knight_moves` and `get_king_moves`,
-- against distances on the board.
use chess_kung_fu.Prelude.{
  ◌≡◌, refl, ◌↔◌, ◌⊎◌, inl, inr, Bool, true, false, ◌&&◌, ◌||◌, Option, none, some, List, [], ◌∷◌,
  arith, if◌then◌else◌, ℤ, ◌+ℤ◌, ◌-ℤ◌, elem, Bool-cases, int_eq, abs, max, and_left, and_right,
  and_intro, +ℤ_parts, -ℤ_parts, int_beq, ◌∙◌, sym,
}
use chess_kung_fu.Model.{
  Position, position_eq, position_beq, position_beq_iff, Color, Piece, Store, Board,
}
use chess_kung_fu.Rules.{
  piece_at, at, in_bounds, free_for, for_piece_of, Offset, offset_moves, knight_offsets,
  king_offsets, get_knight_moves, get_king_moves,
}
use chess_kung_fu.Rules.Bounds.{offset_eq, offset_beq}

-- The way from `start` to `end`.
abbrev pub difference : Position → Position → Offset
difference start end = (end.row -ℤ start.row, end.col -ℤ start.col)

-- On the board, and not held by a piece of `color`.
abbrev pub available : Store → Board → Color → Position → Bool
available store b color end = in_bounds end.row end.col b && free_for color (piece_at store b end)

shift_coordinate : (s e d : ℤ) → int_beq (s +ℤ d) e ≡ int_beq d (e -ℤ s)
shift_coordinate s e d = ground (arith, +ℤ_parts s d, -ℤ_parts e s)

position_beq-difference :
    (start end : Position) (dr dc : ℤ)
    → position_beq (at (start.row +ℤ dr) (start.col +ℤ dc)) end
      ≡ offset_beq (dr, dc) (difference start end)
position_beq-difference start end dr dc =
    ground (arith, shift_coordinate start.row end.row dr, shift_coordinate start.col end.col dc)

elem-if :
    (t : Bool) (p end : Position) (rest : List Position)
    → elem end (if t then p ∷ rest else rest) ≡ (t && position_beq p end || elem end rest)
elem-if true p end rest = refl
elem-if false p end rest = refl

available_at :
    (store : Store) (b : Board) (color : Color) (p end : Position)
    → (available store b color p && position_beq p end)
      ≡ (position_beq p end && available store b color end)
available_at store b color p end = elim (Bool-cases (position_beq p end)) [
  | inl same ↦ rw ((position_beq_iff p end).0 same) (ground arith)
  | inr other ↦ rw other (ground arith)
]

regroup :
    (a p e q v r : Bool)
    → (a && p) ≡ (p && v)
    → p ≡ q
    → r ≡ (e && v)
    → (a && p || r) ≡ ((q || e) && v)
regroup a p e q v r h k l = ground arith

module _ (store : Store) (b : Board) (color : Color) (start end : Position) where
  -- A square is given exactly when it is available and its offset is listed.
  offset_moves_lem :
      (offsets : List Offset)
      → elem end (offset_moves store b color start offsets)
        ≡ (elem (difference start end) offsets && available store b color end)
  unfolding offset_moves
  offset_moves_lem [] = refl
  offset_moves_lem ((dr, dc) ∷ offsets) =
      elem-if (available store b color (at (start.row +ℤ dr) (start.col +ℤ dc))) _ end _
      ∙ regroup _ _ _ _ _ _
          (available_at store b color (at (start.row +ℤ dr) (start.col +ℤ dc)) end)
          (position_beq-difference start end dr dc) (offset_moves_lem offsets)

-- The offsets of a knight are those of length 1 one way and 2 the other.
knight_offsets_iff :
    (d : Offset)
    → (elem d knight_offsets ≡ true)
      ↔ ((abs d.0 ≡ 1) × (abs d.1 ≡ 2) ⊎ (abs d.0 ≡ 2) × (abs d.1 ≡ 1))
knight_offsets_iff (r, c) = ground arith

king_offsets_iff : (d : Offset) → (elem d king_offsets ≡ true) ↔ (max (abs d.0) (abs d.1) ≡ 1)
king_offsets_iff (r, c) = ground arith

-- A move by an offset: a piece stands on `start`, `end` is on the board and not held by its
-- colour, and the way there is of the right kind.
abbrev pub CanStep : Store → Board → (Offset → Type 0) → Position → Position → Type 0
CanStep store b P start end =
    (piece : Piece) × (piece_at store b start ≡ some piece)
    × (available store b piece.color end ≡ true)
    × P (difference start end)

abbrev pub IsKnightJump : Offset → Type 0
IsKnightJump d = (abs d.0 ≡ 1) × (abs d.1 ≡ 2) ⊎ (abs d.0 ≡ 2) × (abs d.1 ≡ 1)

abbrev pub IsKingStep : Offset → Type 0
IsKingStep d = max (abs d.0) (abs d.1) ≡ 1

module _ (store : Store) (b : Board) (start end : Position) (offsets : List Offset)
    (P : Offset → Type 0) (kind : (d : Offset) → (elem d offsets ≡ true) ↔ P d) where
  CanStep-of :
      (o : Option Piece)
      → piece_at store b start ≡ o
      → elem end (for_piece_of o (λ piece. offset_moves store b piece.color start offsets)) ≡ true
      → CanStep store b P start end
  CanStep-of none e h = cc
  CanStep-of (some piece) e h =
      let both = sym (offset_moves_lem store b piece.color start end offsets) ∙ h in
      (piece, e, and_right _ _ both, (kind (difference start end)).0 (and_left _ _ both))

  moves_of_CanStep :
      CanStep store b P start end
      → elem end (
          for_piece_of
            (piece_at store b start)
            (λ piece. offset_moves store b piece.color start offsets))
        ≡ true
  moves_of_CanStep (piece, e, free, p) = rw e (
      offset_moves_lem store b piece.color start end offsets
      ∙ and_intro ((kind (difference start end)).1 p) free)

module _ (store : Store) (b : Board) (start end : Position) where
  -- A knight's moves are exactly the squares of the board that are one row and two columns, or
  -- two rows and one column, away from a piece on `start` and not held by its colour.
  pub get_knight_moves_iff :
      (elem end (get_knight_moves store b start) ≡ true) ↔ CanStep store b IsKnightJump start end
  unfolding get_knight_moves
  get_knight_moves_iff = (
    CanStep-of store b start end knight_offsets IsKnightJump knight_offsets_iff _ refl,
    moves_of_CanStep store b start end knight_offsets IsKnightJump knight_offsets_iff,
  )

  -- A king's moves are exactly the squares of the board at Chebyshev distance one from a piece on
  -- `start` and not held by its colour.
  pub get_king_moves_iff :
      (elem end (get_king_moves store b start) ≡ true) ↔ CanStep store b IsKingStep start end
  unfolding get_king_moves
  get_king_moves_iff = (
    CanStep-of store b start end king_offsets IsKingStep king_offsets_iff _ refl,
    moves_of_CanStep store b start end king_offsets IsKingStep king_offsets_iff,
  )
