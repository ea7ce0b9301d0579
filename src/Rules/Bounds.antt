-- ===== src/Rules/Bounds.antt =====
-- `PieceRules._in_bounds` in the form that arithmetic reads.
use chess_kung_fu.Prelude.{
  ◌<◌, ◌≡◌, true, arith, ℤ, int_eq, int_beq_iff, pos_part, neg_part, Eq, ◌==◌, Bool, ◌&&◌, ◌↔◌,
}
use chess_kung_fu.Model.{Board}
use chess_kung_fu.Rules.{in_bounds, Offset}

-- What `_in_bounds` tests, in the parts of the coordinates.
pub in_bounds-parts :
    (b : Board) (r c : ℤ)
    → in_bounds r c b ≡ true
    → (neg_part r ≡ 0) × (pos_part r < b.num_rows) × (neg_part c ≡ 0) × (pos_part c < b.num_cols)
unfolding in_bounds
in_bounds-parts b r c h = ground arith

abbrev pub offset_beq : Offset → Offset → Bool
offset_beq (r, c) (r', c') = r == r' && c == c'

pub offset_beq_iff : (a b : Offset) → (offset_beq a b ≡ true) ↔ (a ≡ b)
offset_beq_iff (r, c) (r', c') = ground (arith, int_beq_iff r r', int_beq_iff c c')

instance abbrev pub offset_eq : Eq Offset
offset_eq = record { beq = offset_beq; beq_iff = offset_beq_iff }
