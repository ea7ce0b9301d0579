-- ===== src/Engine/Round.antt =====
-- `land`, the body of the loop of `update_game_clock`, keeps the invariant on every branch.
use chess_kung_fu.Prelude.{
  ℕ, ◌≡◌, ◌≢◌, refl, ◌&&◌, not, none, some, arith, ◌==◌, Bool-cases, Option-cases, inl, inr,
}
use chess_kung_fu.Model.{
  Position, idle, jumping, captured, status_eq, status_beq, status_beq_iff, Color, color_eq, Piece,
  PieceType, king, type_eq, Store, set_status, Board, get_piece, set_piece,
}
use chess_kung_fu.Realtime.{Motion}
use chess_kung_fu.Engine.{
  GameEngine, end_game, leave_start, captured_by_jumper, capture_target, promoted, arrive,
  reach_target, meet_jumper, land,
}
use chess_kung_fu.Engine.Squares.{IsPlaced, IsFlying}
use chess_kung_fu.Engine.Landing.{
  Lands, settle-Lands, captured-Lands, arrive-Lands, target-IsPlaced, target-IsFlying,
}

end_game-state :
    (e : GameEngine) (t : PieceType) (c : Color)
    → ((end_game e t c).store ≡ e.store) × ((end_game e t c).board ≡ e.board)
end_game-state e t c = elim (Bool-cases (t == king)) [
  | inl k ↦ rw k (refl, refl)
  | inr n ↦ rw n (refl, refl)
]

promoted_live :
    (b : Board) (end : Position) (p : Piece)
    → p.status ≡ idle
    → (promoted b end p).status ≢ captured
promoted_live b end p h = ground arith

Lands-of :
    (m : Motion) (store : Store) (b : Board) {store' store'' : Store} {b' b'' : Board}
    → store'' ≡ store'
    → b'' ≡ b'
    → Lands m store b store' b'
    → Lands m store b store'' b''
Lands-of m store b p q h = rw (p, q) h

-- The invariant, as a property of the engine.
abbrev pub EngineLands : Motion → GameEngine → GameEngine → Type 0
EngineLands m e e' = Lands m e.store e.board e'.store e'.board

module _ (e : GameEngine) (m : Motion) (s : IsPlaced e.store e.board)
    (f : IsFlying e.store e.board m) where
  arrive-EngineLands : EngineLands m e (arrive e m)
  unfolding arrive
  arrive-EngineLands = arrive-Lands e.store e.board m s f _ (
      promoted_live (set_piece (leave_start e.board m) m.end (some m.piece)) m.end
        (record (e.store m.piece) { status = idle }) refl)

  captured_by_jumper-EngineLands : (j : ℕ) → EngineLands m e (captured_by_jumper e m j)
  unfolding captured_by_jumper
  captured_by_jumper-EngineLands j =
      let (same_store, same_board) = end_game-state _ _ _ in
      Lands-of m e.store e.board same_store same_board (captured-Lands e.store e.board m s f)

  module _ (t : ℕ) (here : get_piece e.board m.end ≡ some t)
      (rests : (e.store t).status ≡ idle) where
    capture_target-state :
        ((capture_target e m t).store ≡ set_status e.store t captured)
        × ((capture_target e m t).board ≡ set_piece e.board m.end none)
    unfolding capture_target
    capture_target-state = end_game-state _ _ _

    capture_target-IsPlaced : IsPlaced (capture_target e m t).store (capture_target e m t).board
    capture_target-IsPlaced =
        rw (capture_target-state.0, capture_target-state.1)
          (target-IsPlaced e.store e.board m.end t s here rests)

    capture_target-IsFlying :
        (n : Motion)
        → IsFlying e.store e.board n
        → IsFlying (capture_target e m t).store (capture_target e m t).board n
    capture_target-IsFlying n fn =
        rw (capture_target-state.0, capture_target-state.1)
          (target-IsFlying e.store e.board m.end t s here rests n fn)

module _ (e : GameEngine) (m : Motion) (s : IsPlaced e.store e.board)
    (f : IsFlying e.store e.board m) where
  take-EngineLands :
      (t : ℕ)
      → get_piece e.board m.end ≡ some t
      → (e.store t).status ≡ idle
      → EngineLands m e (arrive (capture_target e m t) m)
  take-EngineLands t here rests =
      let (placed, others) =
        arrive-EngineLands (capture_target e m t) m (capture_target-IsPlaced e m s f t here rests)
          (capture_target-IsFlying e m s f t here rests m f) in
      (placed, λ n ne fn. others n ne (capture_target-IsFlying e m s f t here rests n fn))

  reach_target-EngineLands : EngineLands m e (reach_target e m)
  unfolding reach_target
  reach_target-EngineLands = elim (Option-cases (get_piece e.board m.end)) [
    | inl none_there ↦ rw (none_there, reach_target) (arrive-EngineLands e m s f)
    | inr (t, here) ↦
        rw (here, reach_target)
          (elim (Bool-cases (status_beq (e.store t).status idle)) [
            | inl rests ↦
                rw rests (elim (Bool-cases ((e.store t).color == (e.store m.piece).color)) [
                  | inl friend ↦ rw friend (settle-Lands e.store e.board m s f)
                  | inr foe ↦ rw foe (take-EngineLands t here ((status_beq_iff _ _).0 rests))
                ])
            | inr busy ↦ rw busy (arrive-EngineLands e m s f)
          ])
  ]

  meet_jumper-EngineLands : EngineLands m e (meet_jumper e m)
  unfolding meet_jumper
  meet_jumper-EngineLands = elim (Option-cases (get_piece e.board m.end)) [
    | inl none_there ↦ rw (none_there, meet_jumper) reach_target-EngineLands
    | inr (j, here) ↦
        rw (here, meet_jumper)
          (elim (Bool-cases
            ((e.store j).status == jumping && not ((e.store j).color == (e.store m.piece).color))) [
              | inl foe ↦ rw foe (captured_by_jumper-EngineLands e m s f j)
              | inr other ↦ rw other reach_target-EngineLands
            ])
  ]

  -- Landing one motion keeps the invariant and leaves every other motion in the air.
  pub land-EngineLands : EngineLands m e (land e m)
  unfolding land
  land-EngineLands = elim (Bool-cases (status_beq (e.store m.piece).status captured)) [
    | inl dead ↦ rw dead (s, λ n ne fn. fn)
    | inr live ↦ rw live (elim (Bool-cases m.is_jump) [
      | inl jump ↦ rw jump (settle-Lands e.store e.board m s f)
      | inr walk ↦ rw walk meet_jumper-EngineLands
    ])
  ]
