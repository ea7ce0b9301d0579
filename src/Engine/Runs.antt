-- ===== src/Engine/Runs.antt =====
-- What holds in every state that the engine can reach, whatever is requested and whenever the
-- clock advances.
use chess_kung_fu.Prelude.{◌≡◌, refl, ap, ◌∙◌, if_true, Bool, true, ℤ, inr}
use chess_kung_fu.Model.{Position, Store, Board}
use chess_kung_fu.Engine.{
  GameEngine, new_engine, update_game_clock, handle_jump_request, handle_move_request,
}
use chess_kung_fu.Engine.Squares.{IsPlaced}
use chess_kung_fu.Engine.Valid.{
  IsValid, update_game_clock-IsValid, handle_jump_request-IsValid, handle_move_request-IsValid,
}
use chess_kung_fu.Realtime.Ids

-- A call of the engine from outside.
pub data Call : GameEngine → GameEngine → Type 0 where
  jump : (e : GameEngine) (p : Position) → Call e (handle_jump_request e p).0
  move :
      (e : GameEngine) (start end : Position) (duration_ms : ℤ)
      → Call e (handle_move_request e start end duration_ms).0
  clock : (e : GameEngine) (ms : ℤ) → Call e (update_game_clock e ms)

pub data Reaches (e : GameEngine) : GameEngine → Type 0 where
  here : Reaches e e
  next : {e' e'' : GameEngine} → Reaches e e' → Call e' e'' → Reaches e e''

-- A new engine over a board on which no piece stands twice and no piece is captured is valid.
pub new_engine-IsValid :
    (store : Store) (b : Board) → IsPlaced store b → IsValid (new_engine store b)
new_engine-IsValid store b s = record {
  placed = s;
  flying = tt;
  pilots = tt;
  ids = Ids.new_arbiter-IsValid;
  decided = inr (refl, refl);
}

pub Call-IsValid : {e e' : GameEngine} → Call e e' → IsValid e → IsValid e'
Call-IsValid (jump e p) v = handle_jump_request-IsValid e p v
Call-IsValid (move e start end duration_ms) v =
    handle_move_request-IsValid e start end duration_ms v
Call-IsValid (clock e ms) v = update_game_clock-IsValid e ms v

-- From a valid engine every sequence of jump requests, move requests and clock advances leads to
-- a valid one: no piece ever stands on two squares, no captured piece stands on the board, the
-- pieces in the air have the status of their one motion and stand nowhere but on its start, ids
-- are told apart, and the winner is set exactly when the game is over.
pub Reaches-IsValid : {e e' : GameEngine} → Reaches e e' → IsValid e → IsValid e'
Reaches-IsValid here v = v
Reaches-IsValid (next r c) v = Call-IsValid c (Reaches-IsValid r v)

Call-frozen : {e e' : GameEngine} → Call e e' → e.game_over ≡ true → e' ≡ e
Call-frozen (jump e p) h =
    unfold handle_jump_request in ap (λ (x : GameEngine × Bool). x.0) (if_true _ _ _ h)
Call-frozen (move e start end duration_ms) h =
    unfold handle_move_request in ap (λ (x : GameEngine × Bool). x.0) (if_true _ _ _ h)
Call-frozen (clock e ms) h = unfold update_game_clock in if_true _ _ _ h

-- Once the game is over nothing changes any more: every reachable state is the final one, with
-- its board, its scores and its winner.
pub Reaches_frozen : {e e' : GameEngine} → Reaches e e' → e.game_over ≡ true → e' ≡ e
Reaches_frozen here h = refl
Reaches_frozen (next r c) h =
    let same = Reaches_frozen r h in
    Call-frozen c (ap (λ (x : GameEngine). x.game_over) same ∙ h) ∙ same
