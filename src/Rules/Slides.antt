-- ===== src/Rules/Slides.antt =====
-- The sliding moves of rules/piece_rules.py, `get_straight_moves` and `get_diagonal_moves`,
-- against the geometry of a ray.
use chess_kung_fu.Prelude.{
  ℕ, zero, suc, ◌+◌, ◌≤◌, ◌<◌, ◌≡◌, ◌⊎◌, inl, inr, Bool, true, ◌&&◌, ◌||◌, arith, ◌==◌, eq_of_==, ℤ,
  pos, negsuc, ◌+ℤ◌, elem, Bool-cases, int_laws, int_eq, sym, ◌∙◌, parts_eq,
}
use chess_kung_fu.Model.{Position, position_eq, position_beq_iff, Color, Store, Board}
use chess_kung_fu.Rules.Bounds.{in_bounds-parts}
use chess_kung_fu.Rules.{piece_at, at, in_bounds, passable, hostile, ray}

-- The square `k` steps of (dr, dc) after (r, c).
abbrev pub along : ℤ → ℤ → ℕ → ℤ → ℤ → Position
along dr dc zero r c = at r c
along dr dc (suc k) r c = along dr dc k (r +ℤ dr) (c +ℤ dc)

abbrev pub on_board : Board → Position → Bool
on_board b p = in_bounds p.row p.col b

-- A piece of `color` may end its move here: passable, or held by an opponent.
abbrev pub landable : Store → Board → Color → Position → Bool
landable store b color p = passable (piece_at store b p) || hostile color (piece_at store b p)

module _ (store : Store) (b : Board) (color : Color) (dr dc : ℤ) where
  -- `clear k r c`: the squares from (r, c) to the `k`-th after it are on the board, those before
  -- the last can be passed, and the last can be landed on.
  pub clear : ℕ → ℤ → ℤ → Bool
  clear zero r c = in_bounds r c b && landable store b color (at r c)
  clear (suc k) r c =
      in_bounds r c b && (passable (piece_at store b (at r c)) && clear k (r +ℤ dr) (c +ℤ dc))

  pub ray_sound :
      (fuel : ℕ) (r c : ℤ) (end : Position)
      → elem end (ray store b color dr dc fuel r c) ≡ true
      → (k : ℕ) × (k < fuel) × (clear k r c ≡ true) × (end ≡ along dr dc k r c)
  unfolding ray clear
  ray_sound zero r c end h = cc
  ray_sound (suc fuel) r c end h = elim (Bool-cases (at r c == end)) [
    | inl here ↦ (0, omega arith, ground arith, sym (eq_of_== {a = at r c} here))
    | inr other ↦
        let (k, l, cl, e) = ray_sound fuel (r +ℤ dr) (c +ℤ dc) end (ground arith) in
        (suc k, omega arith, ground arith, e)
  ]

  pub ray_complete :
      (fuel k : ℕ) (r c : ℤ)
      → k < fuel
      → clear k r c ≡ true
      → elem (along dr dc k r c) (ray store b color dr dc fuel r c) ≡ true
  unfolding ray clear
  ray_complete zero k r c l h = absurd (omega arith)
  ray_complete (suc fuel) zero r c l h = ground (arith, position_beq_iff (at r c) (at r c))
  ray_complete (suc fuel) (suc k) r c l h = ground (arith, ray_complete fuel k (r +ℤ dr) (c +ℤ dc))

  -- What `clear` says, square by square.
  pub clear-on_board :
      (k : ℕ) (r c : ℤ)
      → clear k r c ≡ true
      → (j : ℕ) → j ≤ k
      → on_board b (along dr dc j r c) ≡ true
  unfolding clear
  clear-on_board zero r c h zero l = ground arith
  clear-on_board zero r c h (suc j) l = absurd (omega arith)
  clear-on_board (suc k) r c h zero l = ground arith
  clear-on_board (suc k) r c h (suc j) l =
      clear-on_board k (r +ℤ dr) (c +ℤ dc) (ground arith) j (omega arith)

  pub clear-passable :
      (k : ℕ) (r c : ℤ)
      → clear k r c ≡ true
      → (j : ℕ) → j < k
      → passable (piece_at store b (along dr dc j r c)) ≡ true
  unfolding clear
  clear-passable zero r c h j l = absurd (omega arith)
  clear-passable (suc k) r c h zero l = ground arith
  clear-passable (suc k) r c h (suc j) l =
      clear-passable k (r +ℤ dr) (c +ℤ dc) (ground arith) j (omega arith)

  pub clear-landable :
      (k : ℕ) (r c : ℤ) → clear k r c ≡ true → landable store b color (along dr dc k r c) ≡ true
  unfolding clear
  clear-landable zero r c h = ground arith
  clear-landable (suc k) r c h = clear-landable k (r +ℤ dr) (c +ℤ dc) (ground arith)

  pub clear_of_squares :
      (k : ℕ) (r c : ℤ)
      → ((j : ℕ) → j ≤ k → on_board b (along dr dc j r c) ≡ true)
      → ((j : ℕ) → j < k → passable (piece_at store b (along dr dc j r c)) ≡ true)
      → landable store b color (along dr dc k r c) ≡ true
      → clear k r c ≡ true
  unfolding clear
  clear_of_squares zero r c on pass land = ground (arith, on 0 (omega arith))
  clear_of_squares (suc k) r c on pass land = ground (
    arith,
    on 0 (omega arith),
    pass 0 (omega arith),
    clear_of_squares k (r +ℤ dr) (c +ℤ dc) (λ j l. on (suc j) (omega arith))
        (λ j l. pass (suc j) (omega arith)) land,
  )

-- Where a ray leads, in closed form.
along-row_down : (dr dc : ℤ) (k : ℕ) (r c : ℤ) → dr ≡ pos 1 → (along dr dc k r c).row ≡ r +ℤ pos k
along-row_down dr dc zero r c e = omega int_laws
along-row_down dr dc (suc k) r c e =
    along-row_down dr dc k (r +ℤ dr) (c +ℤ dc) e ∙ rw e (omega int_laws)

step_back : (r d : ℤ) → d ≡ negsuc 0 → r +ℤ d +ℤ pos 1 ≡ r
step_back r d e = rw e (omega int_laws)

along-row_up : (dr dc : ℤ) (k : ℕ) (r c : ℤ) → dr ≡ negsuc 0 → (along dr dc k r c).row +ℤ pos k ≡ r
along-row_up dr dc zero r c e = omega int_laws
along-row_up dr dc (suc k) r c e =
    omega
      (int_laws, parts_eq (along-row_up dr dc k (r +ℤ dr) (c +ℤ dc) e), parts_eq (step_back r dr e))

along-col_right : (dr dc : ℤ) (k : ℕ) (r c : ℤ) → dc ≡ pos 1 → (along dr dc k r c).col ≡ c +ℤ pos k
along-col_right dr dc zero r c e = omega int_laws
along-col_right dr dc (suc k) r c e =
    along-col_right dr dc k (r +ℤ dr) (c +ℤ dc) e ∙ rw e (omega int_laws)

along-col_left :
    (dr dc : ℤ) (k : ℕ) (r c : ℤ) → dc ≡ negsuc 0 → (along dr dc k r c).col +ℤ pos k ≡ c
along-col_left dr dc zero r c e = omega int_laws
along-col_left dr dc (suc k) r c e =
    omega (
      int_laws,
      parts_eq (along-col_left dr dc k (r +ℤ dr) (c +ℤ dc) e),
      parts_eq (step_back c dc e),
    )

abbrev pub IsUnit : ℤ → ℤ → Type 0
IsUnit dr dc = (dr ≡ pos 1) ⊎ (dr ≡ negsuc 0) ⊎ (dc ≡ pos 1) ⊎ (dc ≡ negsuc 0)

-- A ray between two squares of the board is shorter than the fuel of `rays`.
pub along-short :
    (b : Board) (dr dc : ℤ) (k : ℕ) (r c : ℤ)
    → IsUnit dr dc
    → in_bounds r c b ≡ true
    → on_board b (along dr dc k r c) ≡ true
    → k < b.num_rows + b.num_cols
along-short b dr dc k r c (inl e) h h' = omega (
  int_laws,
  parts_eq (along-row_down dr dc k r c e),
  in_bounds-parts b r c h,
  in_bounds-parts b (along dr dc k r c).row (along dr dc k r c).col h',
)
along-short b dr dc k r c (inr (inl e)) h h' = omega (
  int_laws,
  parts_eq (along-row_up dr dc k r c e),
  in_bounds-parts b r c h,
  in_bounds-parts b (along dr dc k r c).row (along dr dc k r c).col h',
)
along-short b dr dc k r c (inr (inr (inl e))) h h' = omega (
  int_laws,
  parts_eq (along-col_right dr dc k r c e),
  in_bounds-parts b r c h,
  in_bounds-parts b (along dr dc k r c).row (along dr dc k r c).col h',
)
along-short b dr dc k r c (inr (inr (inr e))) h h' = omega (
  int_laws,
  parts_eq (along-col_left dr dc k r c e),
  in_bounds-parts b r c h,
  in_bounds-parts b (along dr dc k r c).row (along dr dc k r c).col h',
)
