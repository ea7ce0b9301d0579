-- ===== src/Model/Pieces.antt =====
-- model/position.py and model/piece.py. `color` and `piece_type` are strings in the source, of
-- which chess_io/board_parser.py, the one place of the program where pieces are made, lets 'w'
-- and 'b', and 'k', 'q', 'r', 'b', 'n' and 'p' through; `animation_time` is never written.
use chess_kung_fu.Prelude.{
  ℕ, ◌≡◌, ◌↔◌, Bool, true, false, ◌&&◌, arith, if◌then◌else◌, ◌==◌, Eq, nat_eq, ℤ, int_eq,
  int_beq_iff,
}
use chess_kung_fu.Model.Texts.{Text, text, text_eq}

pub record Position : Type 0 where
  pub row : ℤ
  pub col : ℤ

abbrev pub position_beq : Position → Position → Bool
position_beq p q = p.row == q.row && p.col == q.col

pub position_beq_iff : (p q : Position) → (position_beq p q ≡ true) ↔ (p ≡ q)
position_beq_iff p q = ground (arith, int_beq_iff p.row q.row, int_beq_iff p.col q.col)

instance abbrev pub position_eq : Eq Position
position_eq = record { beq = position_beq; beq_iff = position_beq_iff }

pub data PieceStatus : Type 0 where
  idle moving jumping captured : PieceStatus

abbrev pub status_beq : PieceStatus → PieceStatus → Bool
status_beq idle idle = true
status_beq moving moving = true
status_beq jumping jumping = true
status_beq captured captured = true
status_beq _ _ = false

pub status_beq_iff : (a b : PieceStatus) → (status_beq a b ≡ true) ↔ (a ≡ b)
status_beq_iff a b = ground arith

instance abbrev pub status_eq : Eq PieceStatus
status_eq = record { beq = status_beq; beq_iff = status_beq_iff }

-- 'w' and 'b'
pub data Color : Type 0 where
  white black : Color

abbrev pub color_beq : Color → Color → Bool
color_beq white white = true
color_beq black black = true
color_beq _ _ = false

pub color_beq_iff : (a b : Color) → (color_beq a b ≡ true) ↔ (a ≡ b)
color_beq_iff a b = ground arith

instance abbrev pub color_eq : Eq Color
color_eq = record { beq = color_beq; beq_iff = color_beq_iff }

-- 'k', 'q', 'r', 'b', 'n', 'p'
pub data PieceType : Type 0 where
  king queen rook bishop knight pawn : PieceType

abbrev pub type_beq : PieceType → PieceType → Bool
type_beq king king = true
type_beq queen queen = true
type_beq rook rook = true
type_beq bishop bishop = true
type_beq knight knight = true
type_beq pawn pawn = true
type_beq _ _ = false

pub type_beq_iff : (a b : PieceType) → (type_beq a b ≡ true) ↔ (a ≡ b)
type_beq_iff a b = ground arith

instance abbrev pub type_eq : Eq PieceType
type_eq = record { beq = type_beq; beq_iff = type_beq_iff }

-- The strings that the constructors stand for.
abbrev pub color_text : Color → Text
color_text white = text "w"
color_text black = text "b"

abbrev pub type_text : PieceType → Text
type_text king = text "k"
type_text queen = text "q"
type_text rook = text "r"
type_text bishop = text "b"
type_text knight = text "n"
type_text pawn = text "p"

pub record Piece : Type 0 where
  pub piece_id : Text
  pub color : Color
  pub piece_type : PieceType
  pub status : PieceStatus
  pub animation_time : ℕ

-- Field by field, as a dataclass compares.
unfoldable pub piece_beq : Piece → Piece → Bool
piece_beq p q =
    p.piece_id == q.piece_id
    && (p.color == q.color
        && (p.piece_type == q.piece_type
            && (p.status == q.status && p.animation_time == q.animation_time)))

-- The objects: identity `r` has the fields `store r`.
abbrev pub Store : Type 0
Store = ℕ → Piece

abbrev pub write : Store → ℕ → Piece → Store
write store r p q = if q == r then p else store q

-- `piece.status = s`
abbrev pub set_status : Store → ℕ → PieceStatus → Store
set_status store r s = write store r (record (store r) { status = s })

pub piece_beq_refl : (p : Piece) → piece_beq p p ≡ true
unfolding piece_beq
piece_beq_refl p = ground (
  arith,
  (text_eq.beq_iff p.piece_id p.piece_id).1,
  (color_beq_iff p.color p.color).1,
  (type_beq_iff p.piece_type p.piece_type).1,
  (status_beq_iff p.status p.status).1,
)
