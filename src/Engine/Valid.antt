-- ===== src/Engine/Valid.antt =====
-- The invariant of `GameEngine`, and that every operation keeps it.
use chess_kung_fu.Prelude.{
  ℕ, ◌≡◌, ◌≢◌, refl, sym, ◌∙◌, ap, true, false, none, some, List, [], ◌∷◌, arith, nat_eq, inl, inr,
  ◌⊎◌, All, All_imp, All-append, if-elim, All-both, DistinctBy, DistinctBy-snoc, ℤ, pos,
}
use chess_kung_fu.Prelude.Sort.{sort, All-sort, DistinctBy-sort}
use chess_kung_fu.Model.{
  Position, moving, jumping, status_eq, Piece, type_eq, Store, write, set_status, Board,
}
use chess_kung_fu.Realtime.{
  Motion, new_motion, split_completed, arrives_before, collides, age, start_jump,
}
use chess_kung_fu.Realtime.Split.{split-All, split-DistinctBy}
use chess_kung_fu.Realtime.Ids
use chess_kung_fu.Engine.{
  GameEngine, land, land_all, lands_before, update_game_clock, accept_jump, handle_jump_request,
  accept_move, handle_move_request,
}
use chess_kung_fu.Engine.Squares.{IsPlaced, IsFlying, flight_status, write-IsPlaced, write-IsFlying}
use chess_kung_fu.Engine.Round.{land-EngineLands}
use chess_kung_fu.Engine.Requests.{Accepted, handle_jump_request-cases, handle_move_request-cases}
use chess_kung_fu.Engine.Landing.{not_flying, written}

-- `game_over` and `winner` are set together.
abbrev pub IsDecided : GameEngine → Type 0
IsDecided e =
    ((e.game_over ≡ true) × (e.winner ≢ none)) ⊎ ((e.game_over ≡ false) × (e.winner ≡ none))

pub record IsValid (e : GameEngine) : Type 0 where
  -- No piece on two squares, no captured piece on the board.
  pub placed : IsPlaced e.store e.board
  -- The pieces in the air have the status of their motion, and stand nowhere but on its start.
  pub flying : All (IsFlying e.store e.board) e.arbiter.active_motions
  -- No piece is in two motions.
  pub pilots : DistinctBy (λ m. m.piece) e.arbiter.active_motions
  pub ids : Ids.IsValid e.arbiter
  pub decided : IsDecided e

land-arbiter : (e : GameEngine) (m : Motion) → (land e m).arbiter ≡ e.arbiter
unfolding land
land-arbiter e m = ground arith

land-IsDecided : (e : GameEngine) (m : Motion) → IsDecided e → IsDecided (land e m)
unfolding land
land-IsDecided e m d = ground arith

-- Landing a list of motions keeps the pieces placed, and the motions that go on in the air.
land_all-keeps :
    (e : GameEngine) (motions still : List Motion)
    → IsPlaced e.store e.board
    → All (IsFlying e.store e.board) motions
    → DistinctBy (λ m. m.piece) motions
    → All (IsFlying e.store e.board) still
    → All (λ m. All (λ n. n.piece ≢ m.piece) still) motions
    → let e' = land_all e motions in
      IsPlaced e'.store e'.board × All (IsFlying e'.store e'.board) still
unfolding land_all
land_all-keeps e [] still s f d g cross = (s, g)
land_all-keeps e (m ∷ motions) still s f d g cross =
    let (s', others) = land-EngineLands e m s f.0 in
    land_all-keeps (land e m) motions still s' (All-both others motions d.0 f.1) d.1
      (All-both others still cross.0 g) cross.1

pub land_all-arbiter :
    (e : GameEngine) (motions : List Motion) → (land_all e motions).arbiter ≡ e.arbiter
unfolding land_all
land_all-arbiter e [] = refl
land_all-arbiter e (m ∷ motions) = land_all-arbiter (land e m) motions ∙ land-arbiter e m

land_all-IsDecided :
    (e : GameEngine) (motions : List Motion) → IsDecided e → IsDecided (land_all e motions)
unfolding land_all
land_all-IsDecided e [] d = d
land_all-IsDecided e (m ∷ motions) d = land_all-IsDecided (land e m) motions (land-IsDecided e m d)

IsFlying-age :
    (store : Store) (b : Board) (ms : ℤ) (m : Motion)
    → IsFlying store b m
    → IsFlying store b (age ms m)
IsFlying-age store b ms m f = record { airborne = f.airborne; at_start = f.at_start }

-- Advancing the clock keeps the invariant, in whatever order the motions land.
pub update_game_clock-IsValid :
    (e : GameEngine) (ms : ℤ) → IsValid e → IsValid (update_game_clock e ms)
unfolding update_game_clock
update_game_clock-IsValid e ms v =
    let motions = e.arbiter.active_motions in
    let split = split_completed ms motions in
    let e₁ = record e { arbiter = record e.arbiter { active_motions = split.1 } } in
    let completed = sort lands_before (sort arrives_before split.0) in
    let flying =
      split-All ms (IsFlying e.store e.board) (IsFlying-age e.store e.board ms) motions v.flying in
    let (dc, ds, cross) = split-DistinctBy ms (λ m. m.piece) (λ m. refl) motions v.pilots in
    let twice = λ (P : Motion → Type 0) (h : All P split.0).
      All-sort lands_before P (sort arrives_before split.0) (All-sort arrives_before P split.0 h) in
    let (placed, still) =
      land_all-keeps e₁ completed split.1 v.placed (twice (IsFlying e.store e.board) flying.0)
        (DistinctBy-sort lands_before (λ m. m.piece) (sort arrives_before split.0)
          (DistinctBy-sort arrives_before (λ m. m.piece) split.0 dc))
        flying.1 (twice (λ m. All (λ n. n.piece ≢ m.piece) split.1) cross) in
    if-elim IsValid e.game_over v (record {
      placed = placed;
      flying = rw (land_all-arbiter e₁ completed) still;
      pilots = rw (land_all-arbiter e₁ completed) ds;
      ids = rw (land_all-arbiter e₁ completed) (Ids.advance_time-IsValid e.arbiter ms v.ids);
      decided = land_all-IsDecided e₁ completed v.decided;
    })

-- The launch of an idle piece: what stays in the air, and what the new motion brings.
module _ (e : GameEngine) (p : Position) (r : ℕ) (ok : Accepted e p r) (v : IsValid e) where
  others_IsFlying :
      (x : Piece) (n : Motion) → IsFlying e.store e.board n → IsFlying (write e.store r x) e.board n
  others_IsFlying x n f =
      write-IsFlying e.store e.board r x n
        (not_flying e.store e.board p r v.placed ok.here ok.rests n f) f

  pub fresh_pilot : All (λ n. n.piece ≢ r) e.arbiter.active_motions
  fresh_pilot =
      All_imp (not_flying e.store e.board p r v.placed ok.here ok.rests) e.arbiter.active_motions
        v.flying

  new_IsFlying :
      (store : Store) (m : Motion) (x : Piece)
      → m.piece ≡ r
      → m.start ≡ p
      → x.status ≡ flight_status m
      → IsFlying (write store r x) e.board m
  new_IsFlying store m x same from flies = record {
    airborne =
        ap (λ (k : ℕ). (write store r x k).status) same
        ∙ ap (λ (y : Piece). y.status) (written store r x)
        ∙ flies;
    at_start = λ q h. v.placed.once q p r (h ∙ ap some same) ok.here ∙ sym from;
  }

  accept_jump-IsValid : IsValid (accept_jump e r p)
  unfolding accept_jump start_jump
  accept_jump-IsValid =
      let x = record (e.store r) { status = jumping } in
      let m = new_motion e.arbiter r p p (pos 1000) true in
      record {
        placed = write-IsPlaced e.store e.board r x (λ h. cc) v.placed;
        flying =
            All-append (IsFlying (write e.store r x) e.board) e.arbiter.active_motions (m ∷ [])
              (All_imp (others_IsFlying x) e.arbiter.active_motions v.flying)
              (new_IsFlying e.store m x refl refl refl, tt);
        pilots = DistinctBy-snoc (λ n. n.piece) e.arbiter.active_motions m v.pilots fresh_pilot;
        ids = Ids.start_jump-IsValid e.store e.arbiter r p (pos 1000) v.ids;
        decided = v.decided;
      }

  others_twice :
      (x y : Piece) (n : Motion)
      → IsFlying e.store e.board n
      → IsFlying (write (write e.store r x) r y) e.board n
  others_twice x y n f =
      write-IsFlying (write e.store r x) e.board r y n
        (not_flying e.store e.board p r v.placed ok.here ok.rests n f) (others_IsFlying x n f)

  accept_move-IsValid :
      (end : Position) (duration_ms : ℤ) → IsValid (accept_move e r p end duration_ms)
  unfolding accept_move
  accept_move-IsValid end duration_ms =
      let store = set_status e.store r moving in
      let m = new_motion e.arbiter r p end duration_ms false in
      let x = record (e.store r) { status = moving } in
      let y = record (store r) { status = moving } in
      let motions = e.arbiter.active_motions in
      let launch = Ids.start_motion_lem store e.arbiter r p end duration_ms v.ids in
      let others = All_imp (others_twice x y) motions v.flying in
      rw launch (record {
        placed =
            write-IsPlaced store e.board r y (λ h. cc)
              (write-IsPlaced e.store e.board r x (λ h. cc) v.placed);
        flying = if-elim (All (IsFlying (write store r y) e.board)) (collides m motions) others (
            All-append (IsFlying (write store r y) e.board) motions (m ∷ []) others
              (new_IsFlying store m y refl refl refl, tt));
        pilots =
            if-elim (DistinctBy (λ n. n.piece)) (collides m motions) v.pilots
              (DistinctBy-snoc (λ n. n.piece) motions m v.pilots fresh_pilot);
        ids = rw launch at (Ids.start_motion-IsValid store e.arbiter r p end duration_ms v.ids);
        decided = v.decided;
      })

-- A request for a jump keeps the invariant, accepted or not.
pub handle_jump_request-IsValid :
    (e : GameEngine) (p : Position) → IsValid e → IsValid (handle_jump_request e p).0
handle_jump_request-IsValid e p v = elim (handle_jump_request-cases e p) [
  | inl refused ↦ rw refused v
  | inr (r, ok, accepted) ↦ rw accepted (accept_jump-IsValid e p r ok v)
]

-- A request for a move keeps the invariant, refused, accepted, or accepted and dropped for a
-- collision.
pub handle_move_request-IsValid :
    (e : GameEngine) (start end : Position) (duration_ms : ℤ)
    → IsValid e
    → IsValid (handle_move_request e start end duration_ms).0
handle_move_request-IsValid e start end duration_ms v =
    elim (handle_move_request-cases e start end duration_ms) [
      | inl refused ↦ rw refused v
      | inr (r, ok, legal, accepted) ↦
          rw accepted (accept_move-IsValid e start r ok v end duration_ms)
    ]
