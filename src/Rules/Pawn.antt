-- ===== src/Rules/Pawn.antt =====
-- `get_pawn_moves` of rules/piece_rules.py: steps, double steps and captures.
use chess_kung_fu.Prelude.{
  ◌≡◌, refl, ◌↔◌, ◌⊎◌, inl, inr, Bool, true, false, ◌&&◌, Option, none, some, List, [], ◌∷◌, ◌++◌,
  arith, if◌then◌else◌, ◌==◌, ℤ, pos, negsuc, ◌+ℤ◌, elem, elem-append, Bool-cases, int_eq,
  int_beq_iff, eq_of_==, and_left, and_right, and_intro, elem-append_left, elem-append_right, subst,
}
use chess_kung_fu.Model.{Position, position_eq, position_beq_iff, Color, Piece, Store, Board}
use chess_kung_fu.Rules.{
  piece_at, at, in_bounds, hostile, for_piece_of, get_pawn_moves, pawn_direction, pawn_start_row,
  vacant, pawn_steps, pawn_captures,
}

-- What a list of at most two squares, each behind its tests, holds.
steps_cases :
    (v t w : Bool) (x y end : Position)
    → elem end (if v then x ∷ (if t && w then y ∷ [] else []) else []) ≡ true
    → ((end ≡ x) × (v ≡ true)) ⊎ ((v ≡ true) × (t ≡ true) × (end ≡ y) × (w ≡ true))
steps_cases false t w x y end h = cc
steps_cases true false w x y end h = ground (arith, position_beq_iff x end)
steps_cases true true false x y end h = ground (arith, position_beq_iff x end)
steps_cases true true true x y end h =
    ground (arith, position_beq_iff x end, position_beq_iff y end)

found_second :
    (v t w : Bool) (x y end : Position)
    → v ≡ true
    → (t && w) ≡ true
    → end ≡ y
    → elem end (if v then x ∷ (if t && w then y ∷ [] else []) else []) ≡ true
found_second v t w x y end h k e = rw (h, k) (ground (arith, position_beq_iff y end))

found_at :
    (t : Bool) (p end : Position) (rest other : List Position)
    → t ≡ true
    → end ≡ p
    → elem end (if t then p ∷ rest else other) ≡ true
found_at t p end rest other h e = rw h (ground (arith, position_beq_iff p end))

sides_listed : (dc : ℤ) → (dc ≡ negsuc 0) ⊎ (dc ≡ pos 1) → elem dc (negsuc 0 ∷ pos 1 ∷ []) ≡ true
sides_listed dc (inl e) = rw e refl
sides_listed dc (inr e) = rw e refl

found_after :
    (t : Bool) (p end : Position) (rest : List Position)
    → elem end rest ≡ true
    → elem end (if t then p ∷ rest else rest) ≡ true
found_after true p end rest h = ground arith
found_after false p end rest h = h

not_found :
    (t : Bool) (p end : Position) (rest : List Position)
    → elem end (if t then p ∷ rest else rest) ≡ true
    → ((end ≡ p) × (t ≡ true)) ⊎ (elem end rest ≡ true)
not_found true p end rest h = ground (arith, position_beq_iff p end)
not_found false p end rest h = inr h

abbrev pawn_moves : Store → Board → Color → Position → List Position
pawn_moves store b color start =
    pawn_steps store b color start ++ pawn_captures store b color start (negsuc 0 ∷ pos 1 ∷ [])

module _ (store : Store) (b : Board) (color : Color) (start end : Position) where
  abbrev forward : ℤ → Position
  forward d = at (start.row +ℤ d) start.col

  -- One step forward, two steps forward from the start row, or a capture one step forward and to
  -- a side.
  pub data PawnMove : Type 0 where
    step : end ≡ forward (pawn_direction color) → vacant store b end ≡ true → PawnMove
    double_step :
        start.row ≡ pawn_start_row b color
        → vacant store b (forward (pawn_direction color)) ≡ true
        → end ≡ forward (pawn_direction color +ℤ pawn_direction color)
        → vacant store b end ≡ true
        → PawnMove
    capture :
        (dc : ℤ)
        → (dc ≡ negsuc 0) ⊎ (dc ≡ pos 1)
        → end ≡ at (start.row +ℤ pawn_direction color) (start.col +ℤ dc)
        → in_bounds end.row end.col b ≡ true
        → hostile color (piece_at store b end) ≡ true
        → PawnMove

  steps_sound : elem end (pawn_steps store b color start) ≡ true → PawnMove
  unfolding pawn_steps
  steps_sound h =
      let x = forward (pawn_direction color) in
      let y = forward (pawn_direction color +ℤ pawn_direction color) in
      elim (steps_cases (vacant store b x) (start.row == pawn_start_row b color) (vacant store b y)
        x y end h) [
          | inl (e, v) ↦ step e (rw e v)
          | inr (v, t, e, w) ↦ double_step (eq_of_== t) v e (rw e w)
        ]

  captures_sound :
      (dcs : List ℤ)
      → ((dc : ℤ) → elem dc dcs ≡ true → (dc ≡ negsuc 0) ⊎ (dc ≡ pos 1))
      → elem end (pawn_captures store b color start dcs) ≡ true
      → PawnMove
  unfolding pawn_captures
  captures_sound [] side h = cc
  captures_sound (dc ∷ dcs) side h =
      let cap = at (start.row +ℤ pawn_direction color) (start.col +ℤ dc) in
      elim (not_found (in_bounds cap.row cap.col b && hostile color (piece_at store b cap)) cap end
        _ h) [
          | inl (e, t) ↦
              capture dc (side dc (ground (arith, int_beq_iff dc dc))) e (rw e (and_left _ _ t))
                (rw e (and_right _ _ t))
          | inr rest ↦ captures_sound dcs (λ d m. side d (ground arith)) rest
        ]

  moves_sound : elem end (pawn_moves store b color start) ≡ true → PawnMove
  moves_sound h = elim (Bool-cases (elem end (pawn_steps store b color start))) [
    | inl s ↦ steps_sound s
    | inr n ↦
        captures_sound (negsuc 0 ∷ pos 1 ∷ [])
          (λ dc m. ground (arith, int_beq_iff (negsuc 0) dc, int_beq_iff (pos 1) dc))
          (ground (
            arith,
            elem-append end (pawn_steps store b color start)
                (pawn_captures store b color start (negsuc 0 ∷ pos 1 ∷ [])),
          ))
  ]

  captures_found :
      (dcs : List ℤ) (dc : ℤ)
      → elem dc dcs ≡ true
      → (in_bounds end.row end.col b && hostile color (piece_at store b end)) ≡ true
      → end ≡ at (start.row +ℤ pawn_direction color) (start.col +ℤ dc)
      → elem end (pawn_captures store b color start dcs) ≡ true
  unfolding pawn_captures
  captures_found [] dc m t e = cc
  captures_found (d ∷ dcs) dc m t e = elim (Bool-cases (d == dc)) [
    | inl here ↦
        let same : end ≡ at (start.row +ℤ pawn_direction color) (start.col +ℤ d) =
          rw (eq_of_== {a = d} here) e in
        found_at _ _ end _ _
          (subst
            (λ (p : Position).
              (in_bounds p.row p.col b && hostile color (piece_at store b p)) ≡ true)
            same t)
          same
    | inr other ↦ found_after _ _ end _ (captures_found dcs dc (ground arith) t e)
  ]

  moves_complete : PawnMove → elem end (pawn_moves store b color start) ≡ true
  unfolding pawn_steps
  moves_complete (step e v) =
      elem-append_left end (pawn_steps store b color start)
        (pawn_captures store b color start (negsuc 0 ∷ pos 1 ∷ []))
        (found_at _ _ end _ _ (subst (λ (p : Position). vacant store b p ≡ true) e v) e)
  moves_complete (double_step t v e w) =
      elem-append_left end (pawn_steps store b color start)
        (pawn_captures store b color start (negsuc 0 ∷ pos 1 ∷ []))
        (found_second _ (start.row == pawn_start_row b color)
          (vacant store b (forward (pawn_direction color +ℤ pawn_direction color))) _ _ end v
          (and_intro ((int_beq_iff _ _).1 t)
            (subst (λ (p : Position). vacant store b p ≡ true) e w))
          e)
  moves_complete (capture dc side e i h) =
      elem-append_right end (pawn_steps store b color start)
        (pawn_captures store b color start (negsuc 0 ∷ pos 1 ∷ []))
        (captures_found (negsuc 0 ∷ pos 1 ∷ []) dc (sides_listed dc side) (and_intro i h) e)

-- What a pawn can do from `start`.
abbrev pub CanPawnMove : Store → Board → Position → Position → Type 0
CanPawnMove store b start end =
    (piece : Piece) × (piece_at store b start ≡ some piece) × PawnMove store b piece.color start end

pawn_of :
    (store : Store) (b : Board) (start end : Position) (o : Option Piece)
    → piece_at store b start ≡ o
    → elem end (for_piece_of o (λ piece. pawn_moves store b piece.color start)) ≡ true
    → CanPawnMove store b start end
pawn_of store b start end none e h = cc
pawn_of store b start end (some piece) e h = (piece, e, moves_sound store b piece.color start end h)

-- A pawn's moves are exactly: one step forward (up for white, down for black) to an empty square;
-- two steps from the start row, if both squares are empty; a step forward and to a side onto an
-- opponent. All of them end on the board.
pub get_pawn_moves_iff :
    (store : Store) (b : Board) (start end : Position)
    → (elem end (get_pawn_moves store b start) ≡ true) ↔ CanPawnMove store b start end
unfolding get_pawn_moves
get_pawn_moves_iff store b start end = (
  pawn_of store b start end (piece_at store b start) refl,
  λ m. rw (m.1) (moves_complete store b m.0.color start end m.2),
)
