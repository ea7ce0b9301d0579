-- ===== src/Control/Clicks.antt =====
-- `Controller.click`: the selection, and what a pair of clicks requests.
use chess_kung_fu.Prelude.{
  ℕ, ◌≡◌, ◌≢◌, refl, ap, ◌∙◌, false, Option, none, some, ℤ, arith, Bool-cases, Option-cases, inl,
  inr, ◌⊎◌,
}
use chess_kung_fu.Model.{Position, position_eq, position_beq, position_beq_iff, get_piece}
use chess_kung_fu.Engine.{GameEngine, handle_jump_request, handle_move_request}
use chess_kung_fu.Engine.Valid.{IsValid, handle_jump_request-IsValid, handle_move_request-IsValid}
use chess_kung_fu.Control.{
  Controller, to_position, first_click, second_click, same_side, request_move, duration, click,
}

-- What a click does to the engine: nothing, a jump request, or a move request.
pub data Effect (e : GameEngine) : GameEngine → Type 0 where
  nothing : Effect e e
  requests_jump : (p : Position) → Effect e (handle_jump_request e p).0
  requests_move :
      (start end : Position)
      → start ≢ end
      → Effect e (handle_move_request e start end (duration start end)).0

request_move-Effect :
    (c : Controller) (selected position : Position) (o : Option ℕ)
    → selected ≢ position
    → Effect c.engine (request_move c selected position o).engine
request_move-Effect c selected position none ne = nothing
request_move-Effect c selected position (some r) ne = requests_move selected position ne

second_click-Effect :
    (c : Controller) (selected position : Position)
    → Effect c.engine (second_click c selected position).engine
unfolding second_click
second_click-Effect c selected position = elim (Bool-cases (position_beq position selected)) [
  | inl same ↦ rw same (requests_jump selected)
  | inr apart ↦
      rw apart
        (elim (Bool-cases (
          same_side c.engine (get_piece c.engine.board position)
            (get_piece c.engine.board selected))) [
              | inl friend ↦ rw friend nothing
              | inr other ↦ rw other (
                  request_move-Effect c selected position (get_piece c.engine.board selected)
                    (λ e. ground (arith, (position_beq_iff position selected).1)))
            ])
]

first_click-engine : (c : Controller) (p : Position) → (first_click c p).engine ≡ c.engine
unfolding first_click
first_click-engine c p = elim (Option-cases (get_piece c.engine.board p)) [
  | inl e ↦ rw (e, first_click)
  | inr (r, e) ↦ rw (e, first_click)
]

module _ {A : Type 0} (a : A) (f : Position → A) where
  option_none : (o : Option Position) → o ≡ none → elim o [ none ↦ a | some q ↦ f q ] ≡ a
  option_none none e = refl
  option_none (some q) e = cc

  option_some :
      (o : Option Position) (q : Position) → o ≡ some q → elim o [ none ↦ a | some r ↦ f r ] ≡ f q
  option_some none q e = cc
  option_some (some r) q e = let same : r ≡ q = ground arith in ap f same

-- The three ways of a click.
click-cases :
    (c : Controller) (x y : ℤ)
    → (click c x y ≡ c)
      ⊎ ((p : Position) × (to_position c.engine.board x y ≡ some p)
          × (c.selected ≡ none)
          × (click c x y ≡ first_click c p))
      ⊎ ((p q : Position) × (to_position c.engine.board x y ≡ some p)
          × (c.selected ≡ some q)
          × (click c x y ≡ second_click c q p))
unfolding click
click-cases c x y = elim (Option-cases (to_position c.engine.board x y)) [
  | inl e ↦ inl (rw (e, click))
  | inr (p, e) ↦ elim (Option-cases c.selected) [
    | inl s ↦ inr (
        inl (
          p,
          e,
          s,
          rw (e, click) (option_none (first_click c p) (λ q. second_click c q p) c.selected s),
        ))
    | inr (q, s) ↦ inr (
        inr (
          p,
          q,
          e,
          s,
          rw (e, click) (option_some (first_click c p) (λ r. second_click c r p) c.selected q s),
        ))
  ]
]

pub click-Effect : (c : Controller) (x y : ℤ) → Effect c.engine (click c x y).engine
click-Effect c x y = elim (click-cases c x y) [
  | inl same ↦ rw same nothing
  | inr (inl (p, e, s, first)) ↦ rw (first, first_click-engine c p) nothing
  | inr (inr (p, q, e, s, second)) ↦ rw second (second_click-Effect c q p)
]

Effect-IsValid : {e e' : GameEngine} → Effect e e' → IsValid e → IsValid e'
Effect-IsValid {e} nothing v = v
Effect-IsValid {e} (requests_jump p) v = handle_jump_request-IsValid e p v
Effect-IsValid {e} (requests_move start end ne) v =
    handle_move_request-IsValid e start end (duration start end) v

-- Clicks keep the engine valid.
pub click-IsValid : (c : Controller) (x y : ℤ) → IsValid c.engine → IsValid (click c x y).engine
click-IsValid c x y v = Effect-IsValid (click-Effect c x y) v

click_selects :
    (c : Controller) (x y : ℤ) (start : Position) (r : ℕ)
    → c.selected ≡ none
    → to_position c.engine.board x y ≡ some start
    → get_piece c.engine.board start ≡ some r
    → click c x y ≡ record c { selected = some start }
unfolding click first_click
click_selects c x y start r none_yet at_start piece =
    rw (at_start, click)
      (option_none (first_click c start) (λ q. second_click c q start) c.selected none_yet
        ∙ rw (piece, first_click))

click_requests :
    (e : GameEngine) (x y : ℤ) (start end : Position) (r : ℕ)
    → get_piece e.board start ≡ some r
    → to_position e.board x y ≡ some end
    → end ≢ start
    → same_side e (get_piece e.board end) (some r) ≡ false
    → click (record { engine = e; selected = some start }) x y ≡ record {
      engine = (handle_move_request e start end (duration start end)).0;
      selected = none;
    }
unfolding click second_click
click_requests e x y start end r piece at_end apart foe =
    rw (at_end, click, piece)
      (elim (Bool-cases (position_beq end start)) [
        | inl same ↦ absurd (apart ((position_beq_iff end start).0 same))
        | inr other ↦ rw (other, foe)
      ])

-- Where a square with a piece is clicked and then another square that is not of the same
-- side, the engine gets the move request for the two squares, and nothing stays selected.
pub click_pair :
    (c : Controller) (x y x' y' : ℤ) (start end : Position) (r : ℕ)
    → c.selected ≡ none
    → to_position c.engine.board x y ≡ some start
    → get_piece c.engine.board start ≡ some r
    → to_position c.engine.board x' y' ≡ some end
    → end ≢ start
    → same_side c.engine (get_piece c.engine.board end) (some r) ≡ false
    → click (click c x y) x' y' ≡ record {
      engine = (handle_move_request c.engine start end (duration start end)).0;
      selected = none;
    }
click_pair c x y x' y' start end r none_yet at_start piece at_end apart foe =
    rw (click_selects c x y start r none_yet at_start piece)
      (click_requests c.engine x' y' start end r piece at_end apart foe)
