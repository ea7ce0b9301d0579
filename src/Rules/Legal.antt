-- ===== src/Rules/Legal.antt =====
-- `RuleEngine.is_move_legal` of rules/rule_engine.py: what a legal move is.
use chess_kung_fu.Prelude.{
  ◌≡◌, ◌≢◌, ◌↔◌, ◌⊎◌, inl, inr, Bool, true, false, ◌||◌, Option, none, some, refl, arith,
}
use chess_kung_fu.Model.{
  Position, position_eq, position_beq_iff, Piece, PieceType, king, queen, rook, bishop, knight,
  pawn, Store, Board,
}
use chess_kung_fu.Rules.{
  piece_at, friendly, reaches, is_move_legal, straight_directions, diagonal_directions,
}
use chess_kung_fu.Rules.Rays.{CanSlide, get_straight_moves_iff, get_diagonal_moves_iff}
use chess_kung_fu.Rules.Steps.{
  CanStep, IsKnightJump, IsKingStep, get_knight_moves_iff, get_king_moves_iff,
}
use chess_kung_fu.Rules.Pawn.{CanPawnMove, get_pawn_moves_iff}

module _ (store : Store) (b : Board) (start end : Position) where
  -- What each kind of piece can do, by the geometry of its moves.
  abbrev pub CanReach : PieceType → Type 0
  CanReach rook = CanSlide store b straight_directions start end
  CanReach bishop = CanSlide store b diagonal_directions start end
  CanReach queen =
      CanSlide store b straight_directions start end
      ⊎ CanSlide store b diagonal_directions start end
  CanReach knight = CanStep store b IsKnightJump start end
  CanReach king = CanStep store b IsKingStep start end
  CanReach pawn = CanPawnMove store b start end

  or_cases : (p q : Bool) → (p || q) ≡ true → (p ≡ true) ⊎ (q ≡ true)
  or_cases p q h = ground arith

  reaches_sound : (t : PieceType) → reaches store b t start end ≡ true → CanReach t
  unfolding reaches
  reaches_sound rook h = (get_straight_moves_iff store b start end).0 h
  reaches_sound bishop h = (get_diagonal_moves_iff store b start end).0 h
  reaches_sound queen h = elim (or_cases _ _ h) [
    | inl s ↦ inl ((get_straight_moves_iff store b start end).0 s)
    | inr d ↦ inr ((get_diagonal_moves_iff store b start end).0 d)
  ]
  reaches_sound knight h = (get_knight_moves_iff store b start end).0 h
  reaches_sound king h = (get_king_moves_iff store b start end).0 h
  reaches_sound pawn h = (get_pawn_moves_iff store b start end).0 h

  reaches_complete : (t : PieceType) → CanReach t → reaches store b t start end ≡ true
  unfolding reaches
  reaches_complete rook h = (get_straight_moves_iff store b start end).1 h
  reaches_complete bishop h = (get_diagonal_moves_iff store b start end).1 h
  reaches_complete queen (inl s) =
      rw ((get_straight_moves_iff store b start end).1 s) (ground arith)
  reaches_complete queen (inr d) =
      rw ((get_diagonal_moves_iff store b start end).1 d) (ground arith)
  reaches_complete knight h = (get_knight_moves_iff store b start end).1 h
  reaches_complete king h = (get_king_moves_iff store b start end).1 h
  reaches_complete pawn h = (get_pawn_moves_iff store b start end).1 h

  -- What the move of a legal request is.
  abbrev pub IsLegal : Type 0
  IsLegal =
      (piece : Piece) × (piece_at store b start ≡ some piece)
      × (start ≢ end)
      × (friendly piece.color (piece_at store b end) ≡ false)
      × CanReach piece.piece_type

  legal_of :
      (o : Option Piece)
      → piece_at store b start ≡ o
      → is_move_legal store b start end ≡ true
      → IsLegal
  unfolding is_move_legal
  legal_of none e h = ground arith
  legal_of (some piece) e h = (
    piece,
    e,
    λ same. ground (arith, (position_beq_iff start end).1 same),
    ground arith,
    reaches_sound piece.piece_type (ground arith),
  )

  is_legal : IsLegal → is_move_legal store b start end ≡ true
  unfolding is_move_legal
  is_legal (piece, e, apart, free, can) =
      rw e (ground (arith, (position_beq_iff start end).0, reaches_complete piece.piece_type can))

  -- `is_move_legal` says yes exactly when a piece stands on `start`, `end` is another square that
  -- no piece of its colour holds, and the geometry of that kind of piece leads from `start` to
  -- `end`: a free slide for rook, bishop and queen, a jump for the knight, one step for the king,
  -- a step or a capture for the pawn.
  pub is_move_legal_iff : (is_move_legal store b start end ≡ true) ↔ IsLegal
  is_move_legal_iff = (legal_of _ refl, is_legal)
