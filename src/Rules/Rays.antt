-- ===== src/Rules/Rays.antt =====
-- `get_straight_moves` and `get_diagonal_moves`: which squares they give.
use chess_kung_fu.Prelude.{
  ℕ, suc, ◌+◌, ◌≤◌, ◌<◌, ◌≡◌, refl, ◌↔◌, inl, inr, true, ◌||◌, Option, none, some, List, [], ◌∷◌,
  arith, ◌+ℤ◌, elem, elem-append, Bool-cases, sym, ◌∙◌, All, All-elem, subst,
}
use chess_kung_fu.Model.{Position, position_eq, Color, Piece, Store, Board}
use chess_kung_fu.Rules.{
  for_piece_of, piece_at, passable, ray, rays, Offset, straight_directions, diagonal_directions,
  get_straight_moves, get_diagonal_moves,
}
use chess_kung_fu.Rules.Bounds.{offset_eq, offset_beq, offset_beq_iff}
use chess_kung_fu.Rules.Slides.{
  along, on_board, landable, clear, ray_sound, ray_complete, clear-on_board, clear-passable,
  clear-landable, clear_of_squares, IsUnit, along-short,
}

-- A slide of `k + 1` steps from `start` to `end` in one of the directions: every square on the
-- way and the last one are on the board, every square before the last can be passed, and the
-- last can be landed on.
pub record Slide (store : Store) (b : Board) (color : Color) (directions : List Offset)
    (start end : Position) : Type 0 where
  pub direction : Offset
  pub k : ℕ
  pub listed : elem direction directions ≡ true
  pub arrives : end ≡ along direction.0 direction.1 (suc k) start.row start.col
  pub stays :
      (j : ℕ)
      → j ≤ k
      → on_board b (along direction.0 direction.1 (suc j) start.row start.col) ≡ true
  pub passes :
      (j : ℕ)
      → j < k
      → passable (piece_at store b (along direction.0 direction.1 (suc j) start.row start.col))
        ≡ true
  pub lands : landable store b color end ≡ true

module _ (store : Store) (b : Board) (color : Color) (start end : Position) where
  rays_sound :
      (directions : List Offset)
      → elem end (rays store b color start directions) ≡ true
      → Slide store b color directions start end
  unfolding rays
  rays_sound [] h = cc
  rays_sound ((dr, dc) ∷ ds) h =
      elim (Bool-cases (
        elem end (
          ray store b color dr dc (b.num_rows + b.num_cols) (start.row +ℤ dr) (start.col +ℤ dc)))) [
            | inl here ↦
                let (k, l, cl, e) = ray_sound store b color dr dc _ _ _ end here in
                record {
                  direction = (dr, dc);
                  k = k;
                  listed = ground (arith, offset_beq_iff (dr, dc) (dr, dc));
                  arrives = e;
                  stays = clear-on_board store b color dr dc k _ _ cl;
                  passes = clear-passable store b color dr dc k _ _ cl;
                  lands = rw e (clear-landable store b color dr dc k _ _ cl);
                }
            | inr other ↦
                let s = rays_sound ds (
                  ground (
                    arith,
                    elem-append end
                        (ray store b color dr dc (b.num_rows + b.num_cols) (start.row +ℤ dr)
                          (start.col +ℤ dc))
                        (rays store b color start ds),
                  )) in
                record {
                  direction = s.direction;
                  k = s.k;
                  listed = ground (arith, s.listed);
                  arrives = s.arrives;
                  stays = s.stays;
                  passes = s.passes;
                  lands = s.lands;
                }
          ]

  rays_complete :
      (d : Offset) (k : ℕ) (directions : List Offset)
      → elem d directions ≡ true
      → k < b.num_rows + b.num_cols
      → clear store b color d.0 d.1 k (start.row +ℤ d.0) (start.col +ℤ d.1) ≡ true
      → elem (along d.0 d.1 (suc k) start.row start.col) (rays store b color start directions)
        ≡ true
  unfolding rays
  rays_complete d k [] m l cl = cc
  rays_complete d k ((dr, dc) ∷ ds) m l cl =
      let fuel = b.num_rows + b.num_cols in
      let target = along d.0 d.1 (suc k) start.row start.col in
      let first =
        λ (o : Offset). ray store b color o.0 o.1 fuel (start.row +ℤ o.0) (start.col +ℤ o.1) in
      let rest = rays store b color start ds in
      elem-append target (first (dr, dc)) rest ∙ elim (Bool-cases (offset_beq (dr, dc) d)) [
        | inl here ↦
            subst (λ (o : Offset). (elem target (first o) || elem target rest) ≡ true)
              (sym ((offset_beq_iff (dr, dc) d).0 here))
              (ground (
                arith,
                ray_complete store b color d.0 d.1 fuel k (start.row +ℤ d.0) (start.col +ℤ d.1) l
                    cl,
              ))
        | inr other ↦ ground (arith, rays_complete d k ds (ground arith) l cl)
      ]

  -- With unit directions the fuel is enough for every slide.
  Slide-found :
      (directions : List Offset)
      → All (λ d. IsUnit d.0 d.1) directions
      → Slide store b color directions start end
      → elem end (rays store b color start directions) ≡ true
  Slide-found directions units s =
      let d = s.direction in
      let r = start.row +ℤ d.0 in
      let c = start.col +ℤ d.1 in
      subst (λ (p : Position). elem p (rays store b color start directions) ≡ true) (sym s.arrives)
        (rays_complete d s.k directions s.listed
          (along-short b d.0 d.1 s.k r c
            (All-elem (λ o. IsUnit o.0 o.1) d directions units s.listed) (s.stays 0 (omega arith))
            (s.stays s.k (omega arith)))
          (clear_of_squares store b color d.0 d.1 s.k r c s.stays s.passes
            (subst (λ (p : Position). landable store b color p ≡ true) s.arrives s.lands)))

  rays_iff :
      (directions : List Offset)
      → All (λ d. IsUnit d.0 d.1) directions
      → (elem end (rays store b color start directions) ≡ true)
        ↔ Slide store b color directions start end
  rays_iff directions units = (rays_sound directions, Slide-found directions units)

-- What a sliding piece on `start` can do: there is a piece, and a slide for its colour.
abbrev pub CanSlide : Store → Board → List Offset → Position → Position → Type 0
CanSlide store b directions start end =
    (piece : Piece) × (piece_at store b start ≡ some piece)
    × Slide store b piece.color directions start end

module _ (store : Store) (b : Board) (start end : Position) (directions : List Offset)
    (units : All (λ d. IsUnit d.0 d.1) directions) where
  CanSlide-of :
      (o : Option Piece)
      → piece_at store b start ≡ o
      → elem end (for_piece_of o (λ piece. rays store b piece.color start directions)) ≡ true
      → CanSlide store b directions start end
  CanSlide-of none e h = cc
  CanSlide-of (some piece) e h = (piece, e, rays_sound store b piece.color start end directions h)

  moves_of_CanSlide :
      CanSlide store b directions start end
      → elem end (
          for_piece_of
            (piece_at store b start)
            (λ piece. rays store b piece.color start directions))
        ≡ true
  moves_of_CanSlide (piece, e, s) =
      rw e (Slide-found store b piece.color start end directions units s)

abbrev straight_units : All (λ (d : Offset). IsUnit d.0 d.1) straight_directions
straight_units = (inr (inr (inl refl)), (inr (inr (inr refl)), (inl refl, (inr (inl refl), tt))))

abbrev diagonal_units : All (λ (d : Offset). IsUnit d.0 d.1) diagonal_directions
diagonal_units = (inl refl, (inl refl, (inr (inl refl), (inr (inl refl), tt))))

module _ (store : Store) (b : Board) (start end : Position) where
  -- A rook's (or queen's) straight moves are exactly the slides along a row or a column: the
  -- computed set has `end` exactly when a piece stands on `start` and, in one of the four
  -- directions, `end` is some number of steps away, all squares up to it are on the board, those
  -- before it are empty or hold a moving piece, and `end` itself is so or holds an opponent.
  pub get_straight_moves_iff :
      (elem end (get_straight_moves store b start) ≡ true)
      ↔ CanSlide store b straight_directions start end
  unfolding get_straight_moves
  get_straight_moves_iff = (
    CanSlide-of store b start end straight_directions straight_units (piece_at store b start) refl,
    moves_of_CanSlide store b start end straight_directions straight_units,
  )

  -- A bishop's (or queen's) diagonal moves are exactly the slides along a diagonal, in the same
  -- sense.
  pub get_diagonal_moves_iff :
      (elem end (get_diagonal_moves store b start) ≡ true)
      ↔ CanSlide store b diagonal_directions start end
  unfolding get_diagonal_moves
  get_diagonal_moves_iff = (
    CanSlide-of store b start end diagonal_directions diagonal_units (piece_at store b start) refl,
    moves_of_CanSlide store b start end diagonal_directions diagonal_units,
  )
