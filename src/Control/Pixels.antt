-- ===== src/Control/Pixels.antt =====
-- `BoardMapper.to_position`: which pixels belong to which square.
use chess_kung_fu.Prelude.{
  ℕ, ◌+◌, ◌*◌, ◌/◌, ◌<◌, ◌≡◌, ◌↔◌, ap, some, ℤ, pos, negsuc, arith, ◌≤ℤ◌, ◌<ℤ◌,
}
use chess_kung_fu.Model.{Board}
use chess_kung_fu.Control.{cell_size, floor_cell, to_position}

-- The pixels of one row or column of cells.
abbrev pub InCell : ℕ → ℤ → Type 0
InCell k x = (pos (cell_size * k) ≤ℤ x) × (x <ℤ pos (cell_size * (k + 1)))

floor_cell-InCell : (k : ℕ) (x : ℤ) → InCell k x → floor_cell x ≡ pos k
unfolding floor_cell
floor_cell-InCell k (pos n) h = ap pos (omega arith)
floor_cell-InCell k (negsuc n) h = absurd (omega arith)

InCell-of : (k : ℕ) (x : ℤ) → floor_cell x ≡ pos k → InCell k x
unfolding floor_cell
InCell-of k (pos n) h = let e : n / cell_size ≡ k = ground arith in omega arith
InCell-of k (negsuc n) h = absurd (ground arith)

-- The test of `to_position`, on the cell that a pixel is in.
cell_of :
    (b : Board) (x y : ℤ) (r c : ℕ)
    → to_position b x y ≡ some (record { row = pos r; col = pos c })
    → (floor_cell y ≡ pos r) × (floor_cell x ≡ pos c) × (r < b.num_rows) × (c < b.num_cols)
unfolding to_position
cell_of b x y r c h =
    let row : floor_cell y ≡ pos r = ground arith in
    let col : floor_cell x ≡ pos c = ground arith in (row, col, ground arith, ground arith)

position_of :
    (b : Board) (x y : ℤ) (r c : ℕ)
    → floor_cell y ≡ pos r
    → floor_cell x ≡ pos c
    → r < b.num_rows
    → c < b.num_cols
    → to_position b x y ≡ some (record { row = pos r; col = pos c })
unfolding to_position
position_of b x y r c row col hr hc = rw (row, col) (ground arith)

-- A click is on the square (r, c) exactly when the board has that square and the pixel lies in
-- its cell of 100 by 100; left of and above the board there is none.
pub to_position_iff :
    (b : Board) (x y : ℤ) (r c : ℕ)
    → (to_position b x y ≡ some (record { row = pos r; col = pos c }))
      ↔ ((r < b.num_rows) × (c < b.num_cols) × InCell r y × InCell c x)
to_position_iff b x y r c = (
  λ h.
      let (row, col, hr, hc) = cell_of b x y r c h in
      (hr, hc, InCell-of r y row, InCell-of c x col),
  λ h. position_of b x y r c (floor_cell-InCell r y h.2) (floor_cell-InCell c x h.3) h.0 h.1,
)
