-- ===== src/Server/Runtime/Blocked.antt =====
-- An exception of the matchmaking stops the games of the whole server.
use chess_kung_fu.Prelude.{
  ℕ, ◌≡◌, refl, ap, ◌∙◌, true, false, none, some, List, [], ◌∷◌, All, String, string_eq, lookup,
  contains-some, if_true, Option,
}
use chess_kung_fu.Server.Rooms.{create_matched_room, room_id_for_user}
use chess_kung_fu.Server.Matchmaking.{
  QueueEntry, is_overdue, is_close, expire_timeouts, find_match, Progress, match_from, try_match,
}
use chess_kung_fu.Server.Runtime.{
  Runtime, Surroundings, World, Letter, create_matched, matchmaking_tick, run_round,
}

-- `run_round` at the times of a list, one after the other.
unfoldable pub run_rounds : Surroundings → Runtime → List ℕ → Runtime
run_rounds o s [] = s
run_rounds o s (now ∷ times) = run_rounds o (run_round o s now).0 times

still_waiting :
    (now : ℕ) (a : QueueEntry) (queue : List QueueEntry)
    → is_overdue now a ≡ false
    → (expire_timeouts now (a ∷ queue)).0 ≡ a ∷ (expire_timeouts now queue).0
unfolding expire_timeouts
still_waiting now a queue early = rw early refl

module _ {W : Type 0} (create : W → String → String → Option (W × String)) where
  try_match_raises :
      (w : W) (a b : QueueEntry) (rest : List QueueEntry)
      → is_close a b ≡ true
      → create w a.user_id b.user_id ≡ none
      → try_match create w (a ∷ b ∷ rest) ≡ (
        record { world = w; used = a.user_id ∷ b.user_id ∷ []; matches = []; raised = true },
        a ∷ b ∷ rest,
      )
  unfolding try_match match_from find_match
  try_match_raises w a b rest close fails = rw (close, fails, match_from) refl

create_matched_fails :
    (o : Surroundings) (w : World) (a b r : String)
    → lookup a w.0.rooms.user_room ≡ some r
    → create_matched o w a b ≡ none
unfolding create_matched create_matched_room
create_matched_fails o (arena, drawn) a b r home =
    rw (contains-some a arena.rooms.user_room home) refl

-- Two users wait longest, and could be matched, but the first is in a room already.
module _ (o : Surroundings) (s : Runtime) (a b : QueueEntry) (r : String)
    (close : is_close a b ≡ true) (home : room_id_for_user s.arena.rooms a.user_id ≡ some r) where
  tick_raises :
      (rest : List QueueEntry) (now : ℕ)
      → is_overdue now a ≡ false
      → is_overdue now b ≡ false
      → let t = matchmaking_tick o (record s { queue = a ∷ b ∷ rest }) now in
        (t.0 ≡ record s { queue = a ∷ b ∷ (expire_timeouts now rest).0 }) × (t.2 ≡ true)
  unfolding matchmaking_tick
  tick_raises rest now early_a early_b =
      let rest' = (expire_timeouts now rest).0 in
      let kept : (expire_timeouts now (a ∷ b ∷ rest)).0 ≡ a ∷ b ∷ rest' =
        still_waiting now a (b ∷ rest) early_a
        ∙ ap (λ q. a ∷ q) (still_waiting now b rest early_b) in
      let w : World = (s.arena, s.drawn) in
      let raises =
        ap (λ q. try_match (create_matched o) w q) kept
        ∙ try_match_raises (create_matched o) w a b rest' close
            (create_matched_fails o w a.user_id b.user_id r home) in
      (
        ap
            (λ (t : Progress World × List QueueEntry). record s {
              arena = t.0.world.0;
              queue = t.1;
              drawn = t.0.world.1;
            })
            raises,
        ap (λ (t : Progress World × List QueueEntry). t.0.raised) raises,
      )

  blocked_round :
      (rest : List QueueEntry) (now : ℕ)
      → is_overdue now a ≡ false
      → is_overdue now b ≡ false
      → (run_round o (record s { queue = a ∷ b ∷ rest }) now).0
        ≡ record s { queue = a ∷ b ∷ (expire_timeouts now rest).0 }
  unfolding run_round
  blocked_round rest now early_a early_b =
      let (same, raised) = tick_raises rest now early_a early_b in
      ap (λ (r : Runtime × List Letter). r.0) (if_true _ _ _ raised) ∙ same

  -- Then no round does anything until one of the two has waited for its time: no clock advances in
  -- any room, no game ends, no player forfeits, and no one else is matched.
  pub blocked_rounds :
      (rest : List QueueEntry) (times : List ℕ)
      → All (λ now. (is_overdue now a ≡ false) × (is_overdue now b ≡ false)) times
      → (rest' : List QueueEntry) × (run_rounds o (record s { queue = a ∷ b ∷ rest }) times
          ≡ record s { queue = a ∷ b ∷ rest' })
  unfolding run_rounds
  blocked_rounds rest [] early = (rest, refl)
  blocked_rounds rest (now ∷ times) early =
      let first = blocked_round rest now early.0.0 early.0.1 in
      let rest₁ = (expire_timeouts now rest).0 in
      let (rest₂, others) = blocked_rounds rest₁ times early.1 in
      (rest₂, ap (λ x. run_rounds o x times) first ∙ others)
