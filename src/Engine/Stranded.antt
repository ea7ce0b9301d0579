-- ===== src/Engine/Stranded.antt =====
-- A move that is dropped for a head-on collision: the piece is left MOVING with no motion, and
-- nothing ever sets it down (engine/game_engine.py, realtime/real_time_arbiter.py).
use chess_kung_fu.Prelude.{
  ℕ, ◌≡◌, ◌≢◌, ap, ◌∙◌, Bool, true, false, List, [], ◌∷◌, arith, nat_eq, inl, inr, if-elim, All,
  All-append, ℤ, pos,
}
use chess_kung_fu.Prelude.Sort.{sort, All-sort}
use chess_kung_fu.Model.{
  Position, idle, moving, status_eq, color_eq, Piece, Store, write, set_status,
}
use chess_kung_fu.Rules.{is_move_legal}
use chess_kung_fu.Realtime.{
  Motion, new_motion, collides, split_completed, arrives_before, start_jump,
}
use chess_kung_fu.Realtime.Split.{split-All}
use chess_kung_fu.Realtime.Ids
use chess_kung_fu.Engine.{
  GameEngine, land, land_all, lands_before, update_game_clock, accept_jump, accept_move,
  handle_move_request,
}
use chess_kung_fu.Engine.Requests.{
  Accepted, handle_jump_request-cases, handle_move_request-cases, handle_move_request_accepts,
}
use chess_kung_fu.Engine.Landing.{written}
use chess_kung_fu.Engine.Valid.{IsValid, land_all-arbiter, fresh_pilot, handle_move_request-IsValid}
use chess_kung_fu.Engine.Runs.{Call, Reaches, jump, move, clock, here, next, Call-IsValid}

-- The piece `r` is marked MOVING, and no motion is of it.
pub record IsStranded (r : ℕ) (e : GameEngine) : Type 0 where
  pub marked : (e.store r).status ≡ moving
  pub grounded : All (λ m. m.piece ≢ r) e.arbiter.active_motions

land-status :
    (r : ℕ) (e : GameEngine) (m : Motion)
    → m.piece ≢ r
    → (e.store r).status ≡ moving
    → ((land e m).store r).status ≡ moving
unfolding land
land-status r e m ne h = ground arith

land_all-status :
    (r : ℕ) (e : GameEngine) (motions : List Motion)
    → All (λ m. m.piece ≢ r) motions
    → (e.store r).status ≡ moving
    → ((land_all e motions).store r).status ≡ moving
unfolding land_all
land_all-status r e [] g h = h
land_all-status r e (m ∷ motions) g h =
    land_all-status r (land e m) motions g.1 (land-status r e m g.0 h)

clock-IsStranded :
    (r : ℕ) (e : GameEngine) (ms : ℤ) → IsStranded r e → IsStranded r (update_game_clock e ms)
unfolding update_game_clock
clock-IsStranded r e ms s =
    let split = split_completed ms e.arbiter.active_motions in
    let e₁ = record e { arbiter = record e.arbiter { active_motions = split.1 } } in
    let completed = sort lands_before (sort arrives_before split.0) in
    let others = split-All ms (λ m. m.piece ≢ r) (λ m ne. ne) e.arbiter.active_motions s.grounded in
    if-elim (IsStranded r) e.game_over s (record {
      marked =
          land_all-status r e₁ completed
            (All-sort lands_before (λ m. m.piece ≢ r) (sort arrives_before split.0)
              (All-sort arrives_before (λ m. m.piece ≢ r) split.0 others.0))
            s.marked;
      grounded = rw (land_all-arbiter e₁ completed) others.1;
    })

-- An idle piece is another one.
other_piece :
    (r i : ℕ) (store : Store) → (store r).status ≡ moving → (store i).status ≡ idle → i ≢ r
other_piece r i store h k same = ground (arith, ap (λ (j : ℕ). (store j).status) same)

written_elsewhere : (r i : ℕ) (store : Store) (x : Piece) → i ≢ r → write store i x r ≡ store r
written_elsewhere r i store x ne = ground arith

module _ (r : ℕ) (e : GameEngine) (p : Position) (i : ℕ) (ok : Accepted e p i)
    (s : IsStranded r e) where
  apart : i ≢ r
  apart = other_piece r i e.store s.marked ok.rests

  jump-IsStranded : IsStranded r (accept_jump e i p)
  unfolding accept_jump start_jump
  jump-IsStranded = record {
    marked = ap (λ (x : Piece). x.status) (written_elsewhere r i e.store _ apart) ∙ s.marked;
    grounded =
        All-append (λ m. m.piece ≢ r) e.arbiter.active_motions
          (new_motion e.arbiter i p p (pos 1000) true ∷ []) s.grounded (apart, tt);
  }

  move-IsStranded :
      (end : Position) (duration_ms : ℤ)
      → IsValid e
      → IsStranded r (accept_move e i p end duration_ms)
  unfolding accept_move
  move-IsStranded end duration_ms v =
      let store = set_status e.store i moving in
      let m = new_motion e.arbiter i p end duration_ms false in
      rw (Ids.start_motion_lem store e.arbiter i p end duration_ms v.ids) (record {
        marked =
            ap (λ (x : Piece). x.status)
              (written_elsewhere r i store _ apart ∙ written_elsewhere r i e.store _ apart)
            ∙ s.marked;
        grounded =
            if-elim (All (λ n. n.piece ≢ r)) (collides m e.arbiter.active_motions) s.grounded (
              All-append (λ n. n.piece ≢ r) e.arbiter.active_motions (m ∷ []) s.grounded
                (apart, tt));
      })

Call-IsStranded :
    (r : ℕ) {e e' : GameEngine} → Call e e' → IsValid e → IsStranded r e → IsStranded r e'
Call-IsStranded r (jump e p) v s = elim (handle_jump_request-cases e p) [
  | inl refused ↦ rw refused s
  | inr (i, ok, accepted) ↦ rw accepted (jump-IsStranded r e p i ok s)
]
Call-IsStranded r (move e start end duration_ms) v s =
    elim (handle_move_request-cases e start end duration_ms) [
      | inl refused ↦ rw refused s
      | inr (i, ok, legal, accepted) ↦
          rw accepted (move-IsStranded r e start i ok s end duration_ms v)
    ]
Call-IsStranded r (clock e ms) v s = clock-IsStranded r e ms s

Reaches-IsStranded :
    (r : ℕ) {e e' : GameEngine}
    → Reaches e e'
    → IsValid e
    → IsStranded r e
    → IsValid e' × IsStranded r e'
Reaches-IsStranded r here v s = (v, s)
Reaches-IsStranded r (next path c) v s =
    let (v', s') = Reaches-IsStranded r path v s in (Call-IsValid c v', Call-IsStranded r c v' s')

dropped-IsStranded :
    (e : GameEngine) (start end : Position) (duration_ms : ℤ) (r : ℕ)
    → IsValid e
    → Accepted e start r
    → collides (new_motion e.arbiter r start end duration_ms false) e.arbiter.active_motions ≡ true
    → IsStranded r (accept_move e r start end duration_ms)
unfolding accept_move
dropped-IsStranded e start end duration_ms r v ok meets =
    let store = set_status e.store r moving in
    rw (Ids.start_motion_lem store e.arbiter r start end duration_ms v.ids) (record {
      marked =
          ap (λ (x : Piece). x.status) (written store r (record (store r) { status = moving }));
      grounded = rw meets (fresh_pilot e start r ok v);
    })

-- A move request of an idle piece that is legal, and whose motion meets an older one head-on, is
-- answered with `True`, but no motion is started and the piece is left MOVING. In every state
-- that can be reached from there it is still MOVING and in no motion: it can never be moved again.
pub dropped_move_strands :
    (e : GameEngine) (start end : Position) (duration_ms : ℤ) (r : ℕ) {e' : GameEngine}
    → IsValid e
    → Accepted e start r
    → is_move_legal e.store e.board start end ≡ true
    → collides (new_motion e.arbiter r start end duration_ms false) e.arbiter.active_motions ≡ true
    → Reaches (handle_move_request e start end duration_ms).0 e'
    → ((handle_move_request e start end duration_ms).1 ≡ true) × IsStranded r e'
dropped_move_strands e start end duration_ms r v ok legal meets path =
    let accepted = handle_move_request_accepts e start end duration_ms r ok legal in
    (
      ap (λ (x : GameEngine × Bool). x.1) accepted,
      (Reaches-IsStranded r path (handle_move_request-IsValid e start end duration_ms v)
          (rw accepted (dropped-IsStranded e start end duration_ms r v ok meets))).1,
    )
