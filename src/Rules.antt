-- ===== src/Rules.antt =====
-- rules/piece_rules.py (`PieceRules`) and rules/rule_engine.py (`RuleEngine`). The `set` of moves
-- that a method builds is a list here: the program only asks whether a square is in it.
pub mod Bounds
pub mod Slides
pub mod Rays
pub mod Steps
pub mod Pawn
pub mod Legal
use chess_kung_fu.Prelude.{
  ℕ, zero, suc, ◌+◌, ◌≡◌, Bool, true, false, not, ◌&&◌, ◌||◌, Option, none, some, List, [], ◌∷◌,
  ◌++◌, if◌then◌else◌, ◌==◌, Eq, ℤ, pos, negsuc, ◌+ℤ◌, ◌-ℤ◌, leb_ℤ, ltb_ℤ, int_eq, elem,
}
use chess_kung_fu.Model.{
  Position, position_eq, PieceStatus, moving, status_eq, Color, white, color_eq, PieceType, king,
  queen, rook, bishop, knight, pawn, Piece, Store, Board, get_piece,
}

-- `board.get_piece(position)`, and the fields of what it returns.
unfoldable pub piece_at : Store → Board → Position → Option Piece
piece_at store b p = elim (get_piece b p) [ none ↦ none | some r ↦ some (store r) ]

abbrev pub at : ℤ → ℤ → Position
at r c = record { row = r; col = c }

-- `_in_bounds`
unfoldable pub in_bounds : ℤ → ℤ → Board → Bool
in_bounds r c b =
    (leb_ℤ (pos 0) r && ltb_ℤ r (pos b.num_rows)) && (leb_ℤ (pos 0) c && ltb_ℤ c (pos b.num_cols))

-- `target_piece is None or target_piece.status == PieceStatus.MOVING`
abbrev pub passable : Option Piece → Bool
passable none = true
passable (some t) = t.status == moving

-- `target is not None and target.color != color`
abbrev pub hostile : Color → Option Piece → Bool
hostile color none = false
hostile color (some t) = not (t.color == color)

-- `target is None or target.color != color`
abbrev pub free_for : Color → Option Piece → Bool
free_for color none = true
free_for color (some t) = not (t.color == color)

-- `target_piece and target_piece.color == color`
abbrev pub friendly : Color → Option Piece → Bool
friendly color none = false
friendly color (some t) = t.color == color

abbrev pub Offset : Type 0
Offset = ℤ × ℤ

module _ (store : Store) (b : Board) (color : Color) where
  -- The `while` loop of one direction, from the square (r, c). On the board a ray is shorter than
  -- `num_rows + num_cols`, the fuel that `rays` gives.
  unfoldable pub ray : ℤ → ℤ → ℕ → ℤ → ℤ → List Position
  ray dr dc zero r c = []
  ray dr dc (suc fuel) r c =
      let rest = ray dr dc fuel (r +ℤ dr) (c +ℤ dc) in
      let target = piece_at store b (at r c) in
      if in_bounds r c b
      then if passable target
        then at r c ∷ rest
        else if hostile color target
        then at r c ∷ []
        else []
      else []

  -- The `for` loop over the directions.
  unfoldable pub rays : Position → List Offset → List Position
  rays start [] = []
  rays start ((dr, dc) ∷ directions) =
      ray dr dc (b.num_rows + b.num_cols) (start.row +ℤ dr) (start.col +ℤ dc)
      ++ rays start directions

  -- The `for` loop over the offsets of a knight or a king.
  unfoldable pub offset_moves : Position → List Offset → List Position
  offset_moves start [] = []
  offset_moves start ((dr, dc) ∷ offsets) =
      let r = start.row +ℤ dr in
      let c = start.col +ℤ dc in
      let rest = offset_moves start offsets in
      if in_bounds r c b && free_for color (piece_at store b (at r c)) then at r c ∷ rest else rest

abbrev pub straight_directions : List Offset
straight_directions = (pos 0, pos 1) ∷ (pos 0, negsuc 0) ∷ (pos 1, pos 0) ∷ (negsuc 0, pos 0) ∷ []

abbrev pub diagonal_directions : List Offset
diagonal_directions =
    (pos 1, pos 1) ∷ (pos 1, negsuc 0) ∷ (negsuc 0, pos 1) ∷ (negsuc 0, negsuc 0) ∷ []

abbrev pub knight_offsets : List Offset
knight_offsets =
    (negsuc 1, negsuc 0)
    ∷ (negsuc 1, pos 1)
    ∷ (negsuc 0, negsuc 1)
    ∷ (negsuc 0, pos 2)
    ∷ (pos 1, negsuc 1)
    ∷ (pos 1, pos 2)
    ∷ (pos 2, negsuc 0)
    ∷ (pos 2, pos 1)
    ∷ []

abbrev pub king_offsets : List Offset
king_offsets =
    (negsuc 0, negsuc 0)
    ∷ (negsuc 0, pos 0)
    ∷ (negsuc 0, pos 1)
    ∷ (pos 0, negsuc 0)
    ∷ (pos 0, pos 1)
    ∷ (pos 1, negsuc 0)
    ∷ (pos 1, pos 0)
    ∷ (pos 1, pos 1)
    ∷ []

-- `direction` and `start_row` of `get_pawn_moves`
abbrev pub pawn_direction : Color → ℤ
pawn_direction color = if color == white then negsuc 0 else pos 1

abbrev pub pawn_start_row : Board → Color → ℤ
pawn_start_row b color = if color == white then pos b.num_rows -ℤ pos 2 else pos 1

-- The guard of every method: `if not start_piece: return moves`.
abbrev pub for_piece_of : Option Piece → (Piece → List Position) → List Position
for_piece_of none body = []
for_piece_of (some piece) body = body piece

module _ (store : Store) (b : Board) where
  abbrev for_piece : Position → (Piece → List Position) → List Position
  for_piece start body = for_piece_of (piece_at store b start) body

  unfoldable pub get_straight_moves : Position → List Position
  get_straight_moves start =
      for_piece start (λ piece. rays store b piece.color start straight_directions)

  unfoldable pub get_diagonal_moves : Position → List Position
  get_diagonal_moves start =
      for_piece start (λ piece. rays store b piece.color start diagonal_directions)

  unfoldable pub get_knight_moves : Position → List Position
  get_knight_moves start =
      for_piece start (λ piece. offset_moves store b piece.color start knight_offsets)

  unfoldable pub get_king_moves : Position → List Position
  get_king_moves start =
      for_piece start (λ piece. offset_moves store b piece.color start king_offsets)

  -- On the board, and empty.
  abbrev pub vacant : Position → Bool
  vacant p = in_bounds p.row p.col b && (elim (piece_at store b p) [ none ↦ true | some _ ↦ false ])

  -- The two steps forward.
  unfoldable pub pawn_steps : Color → Position → List Position
  pawn_steps color start =
      let direction = pawn_direction color in
      let one_step = at (start.row +ℤ direction) start.col in
      let two_step = at (start.row +ℤ (direction +ℤ direction)) start.col in
      if vacant one_step
      then one_step
        ∷ (if start.row == pawn_start_row b color && vacant two_step then two_step ∷ [] else [])
      else []

  -- The captures, for each `dc`.
  unfoldable pub pawn_captures : Color → Position → List ℤ → List Position
  pawn_captures color start [] = []
  pawn_captures color start (dc ∷ dcs) =
      let cap = at (start.row +ℤ pawn_direction color) (start.col +ℤ dc) in
      let rest = pawn_captures color start dcs in
      if in_bounds cap.row cap.col b && hostile color (piece_at store b cap)
      then cap ∷ rest
      else rest

  unfoldable pub get_pawn_moves : Position → List Position
  get_pawn_moves start = for_piece start (λ piece.
      pawn_steps piece.color start ++ pawn_captures piece.color start (negsuc 0 ∷ pos 1 ∷ []))

  -- The dispatch of `is_move_legal` on the kind of piece.
  unfoldable pub reaches : PieceType → Position → Position → Bool
  reaches rook start end = elem end (get_straight_moves start)
  reaches bishop start end = elem end (get_diagonal_moves start)
  reaches queen start end =
      elem end (get_straight_moves start) || elem end (get_diagonal_moves start)
  reaches knight start end = elem end (get_knight_moves start)
  reaches king start end = elem end (get_king_moves start)
  reaches pawn start end = elem end (get_pawn_moves start)

  unfoldable pub is_move_legal : Position → Position → Bool
  is_move_legal start end = if start == end then false else (elim (piece_at store b start) [
    | none ↦ false
    | some piece ↦
        if friendly piece.color (piece_at store b end)
        then false
        else reaches piece.piece_type start end
  ])
