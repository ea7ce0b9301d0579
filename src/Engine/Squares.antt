-- ===== src/Engine/Squares.antt =====
-- The invariant of the engine's store, board and active motions, and the small changes that keep
-- it: a status written, a square emptied, a piece placed.
use chess_kung_fu.Prelude.{
  ℕ, ◌≡◌, ◌≢◌, sym, ◌∙◌, ap, none, some, arith, if◌then◌else◌, ◌==◌, nat_eq, nat_beq_iff,
  Bool-cases, ◌⊎◌, inl, inr,
}
use chess_kung_fu.Model.{
  Position, position_eq, position_beq, position_beq_iff, PieceStatus, moving, jumping, captured,
  Piece, Store, write, Board, get_piece, set_piece, get_piece-set_piece,
}
use chess_kung_fu.Realtime.{Motion}

-- No piece stands on two squares, and no captured piece stands on the board.
pub record IsPlaced (store : Store) (b : Board) : Type 0 where
  pub once : (p q : Position) (r : ℕ) → get_piece b p ≡ some r → get_piece b q ≡ some r → p ≡ q
  pub alive : (p : Position) (r : ℕ) → get_piece b p ≡ some r → (store r).status ≢ captured

-- The status of a piece in the air.
abbrev pub flight_status : Motion → PieceStatus
flight_status m = if m.is_jump then jumping else moving

-- The piece of an active motion has the motion's status, and stands nowhere but on its start.
pub record IsFlying (store : Store) (b : Board) (m : Motion) : Type 0 where
  pub airborne : (store m.piece).status ≡ flight_status m
  pub at_start : (p : Position) → get_piece b p ≡ some m.piece → p ≡ m.start

-- A write to the piece `r`, with a status other than CAPTURED.
module _ (store : Store) (b : Board) (r : ℕ) (p : Piece) where
  pub write-IsPlaced : p.status ≢ captured → IsPlaced store b → IsPlaced (write store r p) b
  write-IsPlaced live s = record {
    once = s.once;
    alive = λ q i at_q. elim (Bool-cases (i == r)) [
      | inl same ↦ rw same live
      | inr other ↦ rw other (s.alive q i at_q)
    ];
  }

  -- Any status may be written to a piece that is off the board.
  pub write_off_board-IsPlaced :
      ((q : Position) → get_piece b q ≢ some r) → IsPlaced store b → IsPlaced (write store r p) b
  write_off_board-IsPlaced off s = record {
    once = s.once;
    alive = λ q i at_q. elim (Bool-cases (i == r)) [
      | inl same ↦ absurd (off q (at_q ∙ ap some ((nat_beq_iff i r).0 same)))
      | inr other ↦ rw other (s.alive q i at_q)
    ];
  }

  pub write-IsFlying :
      (m : Motion) → m.piece ≢ r → IsFlying store b m → IsFlying (write store r p) b m
  write-IsFlying m ne f = record {
    airborne = elim (Bool-cases (m.piece == r)) [
      | inl same ↦ absurd (ne ((nat_beq_iff m.piece r).0 same))
      | inr other ↦ rw other f.airborne
    ];
    at_start = f.at_start;
  }

module _ (b : Board) (p : Position) where
  -- What stands on a square after it was emptied stood there before.
  pub emptied :
      (q : Position) (r : ℕ) → get_piece (set_piece b p none) q ≡ some r → get_piece b q ≡ some r
  emptied q r h = ground (arith, get_piece-set_piece b p q none)

  -- A piece that was on the square alone is then off the board.
  pub emptied_off :
      (r : ℕ)
      → ((q : Position) → get_piece b q ≡ some r → q ≡ p)
      → (q : Position) → get_piece (set_piece b p none) q ≢ some r
  emptied_off r only q h =
      ground (arith, get_piece-set_piece b p q none, position_beq_iff q p, only q)

module _ (store : Store) (b : Board) (p : Position) where
  pub empty-IsPlaced : IsPlaced store b → IsPlaced store (set_piece b p none)
  empty-IsPlaced s = record {
    once = λ q q' r h h'. s.once q q' r (emptied b p q r h) (emptied b p q' r h');
    alive = λ q r h. s.alive q r (emptied b p q r h);
  }

  pub empty-IsFlying : (m : Motion) → IsFlying store b m → IsFlying store (set_piece b p none) m
  empty-IsFlying m f = record {
    airborne = f.airborne;
    at_start = λ q h. f.at_start q (emptied b p q m.piece h);
  }

  module _ (r : ℕ) (off : (q : Position) → get_piece b q ≢ some r) where
    -- What stands on a square after `r` was placed on `p`: `r` on `p`, or what stood there.
    placed :
        (q : Position) (i : ℕ)
        → get_piece (set_piece b p (some r)) q ≡ some i
        → ((q ≡ p) × (i ≡ r)) ⊎ ((get_piece b q ≡ some i) × (i ≢ r))
    placed q i h = elim (Bool-cases (position_beq q p)) [
      | inl here ↦
          inl ((position_beq_iff q p).0 here, ground (arith, get_piece-set_piece b p q (some r)))
      | inr other ↦
          let old : get_piece b q ≡ some i = ground (arith, get_piece-set_piece b p q (some r)) in
          inr (old, λ same. off q (old ∙ ap some same))
    ]

    pub place-IsPlaced :
        (store r).status ≢ captured → IsPlaced store b → IsPlaced store (set_piece b p (some r))
    place-IsPlaced live s = record {
      once = λ q q' i h h'. elim (placed q i h) [
        | inl (e, same) ↦ elim (placed q' i h') [
          | inl (e', _) ↦ e ∙ sym e'
          | inr (_, ne) ↦ absurd (ne same)
        ]
        | inr (old, ne) ↦ elim (placed q' i h') [
          | inl (_, same) ↦ absurd (ne same)
          | inr (old', _) ↦ s.once q q' i old old'
        ]
      ];
      alive = λ q i h. elim (placed q i h) [
        | inl (_, same) ↦ rw same live
        | inr (old, _) ↦ s.alive q i old
      ];
    }

    pub place-IsFlying :
        (m : Motion) → m.piece ≢ r → IsFlying store b m → IsFlying store (set_piece b p (some r)) m
    place-IsFlying m ne f = record {
      airborne = f.airborne;
      at_start = λ q h. elim (placed q m.piece h) [
        | inl (_, same) ↦ absurd (ne same)
        | inr (old, _) ↦ f.at_start q old
      ];
    }
