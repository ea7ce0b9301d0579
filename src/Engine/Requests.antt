-- ===== src/Engine/Requests.antt =====
-- `handle_jump_request` and `handle_move_request`: when a request is accepted, and that a refused
-- one changes nothing.
use chess_kung_fu.Prelude.{
  ℕ, ◌≡◌, ◌∙◌, ap, sym, true, false, some, arith, Bool-cases, Option-cases, inl, inr, ◌⊎◌, ℤ,
  if_true, if_false,
}
use chess_kung_fu.Model.{Position, idle, status_eq, status_beq, status_beq_iff, get_piece}
use chess_kung_fu.Rules.{is_move_legal}
use chess_kung_fu.Engine.{
  GameEngine, idle_piece, accept_jump, handle_jump_request, accept_move, handle_move_request,
}

-- The idle piece on a square.
idle_piece-some :
    (e : GameEngine) (p : Position) (r : ℕ)
    → idle_piece e p ≡ some r
    → (get_piece e.board p ≡ some r) × ((e.store r).status ≡ idle)
unfolding idle_piece
idle_piece-some e p r h = elim (Option-cases (get_piece e.board p)) [
  | inl nothing ↦ absurd (ground arith)
  | inr (i, here) ↦ elim (Bool-cases (status_beq (e.store i).status idle)) [
    | inl rests ↦
        let same : i ≡ r = ground arith in
        (
          here ∙ ap some same,
          ap (λ (k : ℕ). (e.store k).status) (sym same) ∙ (status_beq_iff _ _).0 rests,
        )
    | inr busy ↦ absurd (ground arith)
  ]
]

-- A request is accepted for a game that goes on and an idle piece on the square.
pub record Accepted (e : GameEngine) (p : Position) (r : ℕ) : Type 0 where
  pub running : e.game_over ≡ false
  pub here : get_piece e.board p ≡ some r
  pub rests : (e.store r).status ≡ idle

pub handle_jump_request-cases :
    (e : GameEngine) (p : Position)
    → (handle_jump_request e p ≡ (e, false))
      ⊎ ((r : ℕ) × Accepted e p r × (handle_jump_request e p ≡ (accept_jump e r p, true)))
unfolding handle_jump_request
handle_jump_request-cases e p = elim (Bool-cases e.game_over) [
  | inl over ↦ inl (if_true _ _ _ over)
  | inr running ↦ elim (Option-cases (idle_piece e p)) [
    | inl nothing ↦ inl (if_false _ _ _ running ∙ rw nothing)
    | inr (r, found) ↦ inr (
      r,
      record {
        running = running;
        here = (idle_piece-some e p r found).0;
        rests = (idle_piece-some e p r found).1;
      },
      if_false _ _ _ running ∙ rw found,
    )
  ]
]

pub handle_move_request-cases :
    (e : GameEngine) (start end : Position) (duration_ms : ℤ)
    → (handle_move_request e start end duration_ms ≡ (e, false))
      ⊎ ((r : ℕ) × Accepted e start r
          × (is_move_legal e.store e.board start end ≡ true)
          × (handle_move_request e start end duration_ms
              ≡ (accept_move e r start end duration_ms, true)))
unfolding handle_move_request
handle_move_request-cases e start end duration_ms = elim (Bool-cases e.game_over) [
  | inl over ↦ inl (if_true _ _ _ over)
  | inr running ↦ elim (Option-cases (idle_piece e start)) [
    | inl nothing ↦ inl (if_false _ _ _ running ∙ rw nothing)
    | inr (r, found) ↦ elim (Bool-cases (is_move_legal e.store e.board start end)) [
      | inl legal ↦ inr (
        r,
        record {
          running = running;
          here = (idle_piece-some e start r found).0;
          rests = (idle_piece-some e start r found).1;
        },
        legal,
        if_false _ _ _ running ∙ rw (found, legal),
      )
      | inr illegal ↦ inl (if_false _ _ _ running ∙ rw (found, illegal))
    ]
  ]
]

-- A request that meets the conditions is accepted.
idle_piece_of : (e : GameEngine) (p : Position) (r : ℕ) → Accepted e p r → idle_piece e p ≡ some r
unfolding idle_piece
idle_piece_of e p r ok = rw (ok.here, idle_piece) (if_true _ _ _ ((status_beq_iff _ _).1 ok.rests))

pub handle_move_request_accepts :
    (e : GameEngine) (start end : Position) (duration_ms : ℤ) (r : ℕ)
    → Accepted e start r
    → is_move_legal e.store e.board start end ≡ true
    → handle_move_request e start end duration_ms ≡ (accept_move e r start end duration_ms, true)
unfolding handle_move_request
handle_move_request_accepts e start end duration_ms r ok legal =
    if_false _ _ _ ok.running ∙ rw (idle_piece_of e start r ok, legal)

pub handle_jump_request_accepts :
    (e : GameEngine) (p : Position) (r : ℕ)
    → Accepted e p r
    → handle_jump_request e p ≡ (accept_jump e r p, true)
unfolding handle_jump_request
handle_jump_request_accepts e p r ok = if_false _ _ _ ok.running ∙ rw (idle_piece_of e p r ok)
