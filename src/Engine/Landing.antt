-- ===== src/Engine/Landing.antt =====
-- One round of the loop of `update_game_clock` keeps the invariant: what the landing of a motion
-- does to the store and the board, branch by branch.
use chess_kung_fu.Prelude.{
  ℕ, ◌≡◌, ◌≢◌, sym, ap, subst, none, some, arith, ◌==◌, nat_eq, Bool-cases, Option-cases, inl, inr,
  ◌⊎◌, ==-refl,
}
use chess_kung_fu.Model.{
  Position, position_eq, idle, captured, status_eq, color_eq, Piece, Store, write, set_status,
  Board, get_piece, set_piece,
}
use chess_kung_fu.Realtime.{Motion}
use chess_kung_fu.Engine.{leave_start}
use chess_kung_fu.Engine.Squares.{
  IsPlaced, IsFlying, write-IsPlaced, write_off_board-IsPlaced, write-IsFlying, empty-IsPlaced,
  empty-IsFlying, emptied_off, place-IsPlaced, place-IsFlying,
}

-- The landing of `m` keeps the invariant, and leaves every other motion in the air.
abbrev pub Lands : Motion → Store → Board → Store → Board → Type 0
Lands m store b store' b' =
    IsPlaced store' b'
    × ((n : Motion) → n.piece ≢ m.piece → IsFlying store b n → IsFlying store' b' n)

-- `leave_start` empties the start square, or the piece does not stand there.
leave_start-cases :
    (b : Board) (m : Motion)
    → ((leave_start b m ≡ b) × (get_piece b m.start ≢ some m.piece))
      ⊎ (leave_start b m ≡ set_piece b m.start none)
unfolding leave_start
leave_start-cases b m = elim (Option-cases (get_piece b m.start)) [
  | inl e ↦ inl (rw (e, leave_start), λ h. ground arith)
  | inr (r, e) ↦ elim (Bool-cases (r == m.piece)) [
    | inl same ↦ inr (rw (e, leave_start, same))
    | inr other ↦ inl (rw (e, leave_start, other), λ h. ground arith)
  ]
]

pub written : (store : Store) (r : ℕ) (p : Piece) → write store r p r ≡ p
written store r p = rw (==-refl r)

module _ (b : Board) (m : Motion) where
  left-IsPlaced : (store : Store) → IsPlaced store b → IsPlaced store (leave_start b m)
  left-IsPlaced store s = elim (leave_start-cases b m) [
    | inl (e, _) ↦ rw e s
    | inr e ↦ rw e (empty-IsPlaced store b m.start s)
  ]

  left-IsFlying :
      (store : Store) (n : Motion) → IsFlying store b n → IsFlying store (leave_start b m) n
  left-IsFlying store n f = elim (leave_start-cases b m) [
    | inl (e, _) ↦ rw e f
    | inr e ↦ rw e (empty-IsFlying store b m.start n f)
  ]

  -- After `leave_start` a piece that stood nowhere but on its start is off the board.
  left_off :
      ((q : Position) → get_piece b q ≡ some m.piece → q ≡ m.start)
      → (q : Position) → get_piece (leave_start b m) q ≢ some m.piece
  left_off only q = elim (leave_start-cases b m) [
    | inl (e, gone) ↦
        rw e (λ h. gone (subst (λ (p : Position). get_piece b p ≡ some m.piece) (only q h) h))
    | inr e ↦ rw e (emptied_off b m.start m.piece only q)
  ]

module _ (store : Store) (b : Board) (m : Motion) (s : IsPlaced store b)
    (f : IsFlying store b m) where
  -- The piece settles where it is.
  pub settle-Lands : Lands m store b (set_status store m.piece idle) b
  settle-Lands = (
    write-IsPlaced store b m.piece _ (λ e. cc) s,
    λ n ne fn. write-IsFlying store b m.piece _ n ne fn,
  )

  -- The piece is captured and leaves the board.
  pub captured-Lands : Lands m store b (set_status store m.piece captured) (leave_start b m)
  captured-Lands = (
    write_off_board-IsPlaced store (leave_start b m) m.piece _ (left_off b m f.at_start)
        (left-IsPlaced b m store s),
    λ n ne fn. write-IsFlying store (leave_start b m) m.piece _ n ne (left-IsFlying b m store n fn),
  )

  -- The piece comes to stand on the target square.
  pub arrive-Lands :
      (p : Piece)
      → p.status ≢ captured
      → Lands m store b (write store m.piece p) (set_piece (leave_start b m) m.end (some m.piece))
  arrive-Lands p live = (
    place-IsPlaced (write store m.piece p) (leave_start b m) m.end m.piece (left_off b m f.at_start)
        (subst (λ (x : Piece). x.status ≢ captured) (sym (written store m.piece p)) live)
        (write-IsPlaced store (leave_start b m) m.piece p live (left-IsPlaced b m store s)),
    λ n ne fn.
        place-IsFlying (write store m.piece p) (leave_start b m) m.end m.piece
          (left_off b m f.at_start) n ne
          (write-IsFlying store (leave_start b m) m.piece p n ne (left-IsFlying b m store n fn)),
  )

-- The idle piece on the target square is captured and leaves the board: no motion is of it.
module _ (store : Store) (b : Board) (p : Position) (t : ℕ) (s : IsPlaced store b)
    (here : get_piece b p ≡ some t) (rests : (store t).status ≡ idle) where
  target_off : (q : Position) → get_piece (set_piece b p none) q ≢ some t
  target_off = emptied_off b p t (λ q h. s.once q p t h here)

  pub target-IsPlaced : IsPlaced (set_status store t captured) (set_piece b p none)
  target-IsPlaced =
      write_off_board-IsPlaced store (set_piece b p none) t _ target_off
        (empty-IsPlaced store b p s)

  pub not_flying : (n : Motion) → IsFlying store b n → n.piece ≢ t
  not_flying n f e = ground (arith, f.airborne, ap (λ (r : ℕ). (store r).status) e)

  pub target-IsFlying :
      (n : Motion)
      → IsFlying store b n
      → IsFlying (set_status store t captured) (set_piece b p none) n
  target-IsFlying n f =
      write-IsFlying store (set_piece b p none) t _ n (not_flying n f)
        (empty-IsFlying store b p n f)
