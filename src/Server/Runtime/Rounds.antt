-- ===== src/Server/Runtime/Rounds.antt =====
-- What the rounds of the server's loop and lost connections keep.
use chess_kung_fu.Prelude.{
  ℕ, ◌≡◌, ◌≢◌, refl, ap, subst, ◌∙◌, Option, none, some, List, [], ◌∷◌, String, string_eq, lookup,
  inl, inr, if-elim,
}
use chess_kung_fu.Engine.Valid.{IsValid}
use chess_kung_fu.Server.Rooms.{
  RoomService, Result, ok, raise, create_matched_room, clear_disconnect_deadline,
  disconnect_countdowns, expired_disconnects,
}
use chess_kung_fu.Server.Rooms.Service.{IsHoused}
use chess_kung_fu.Server.Rooms.Arrivals.{Succeeds, create_matched_room-IsHoused}
use chess_kung_fu.Server.Rooms.Departures.{
  clear_disconnect_deadline-IsHoused, mark_disconnected-IsHoused,
}
use chess_kung_fu.Server.Rooms.Marks.{
  SameGames, clear_disconnect_deadline-SameGames, Keeps, mark_disconnected-Keeps, OneMore,
  create_matched_room-OneMore,
}
use chess_kung_fu.Server.Matchmaking.{cancel, expire_timeouts}
use chess_kung_fu.Server.Matchmaking.Rounds.{IsUnique}
use chess_kung_fu.Server.Matchmaking.Queue.{cancel-IsUnique}
use chess_kung_fu.Server.Matchmaking.Worlds.{try_match-keeps, expire_timeouts-IsUnique}
use chess_kung_fu.Server.Games.Endings.{Arena, force_forfeit}
use chess_kung_fu.Server.Games.Arenas.{IsPlaying, tick_all-IsPlaying, force_forfeit-IsPlaying}
use chess_kung_fu.Server.Router.{on_room_created}
use chess_kung_fu.Server.Router.Openings.{
  on_room_created_keeps, on_room_created_makes, on_room_created-IsValid,
}
use chess_kung_fu.Server.Runtime.{
  Runtime, Surroundings, World, Letter, with_matched_room, create_matched, first_countdown,
  matchmaking_tick, games_tick, send_countdowns, forfeit_expired, forfeit_all,
  process_disconnect_grace, on_client_disconnected, run_round,
}

-- The games are sound, and no user is queued twice.
pub record IsRunning (s : Runtime) : Type 0 where
  pub playing : IsPlaying s.arena
  pub queue : IsUnique s.queue

-- What is expected from outside: names that are not empty, and a valid engine.
pub record Furnishes (o : Surroundings) : Type 0 where
  pub named : (k : ℕ) → "" ≢ o.token_hex k
  pub engine : IsValid o.fresh_engine

-- Rooms with the same games, under the same engines and history.
pub same_games-IsPlaying :
    (a : Arena) (t : RoomService)
    → IsPlaying a
    → IsHoused t.rooms t.user_room
    → SameGames a.rooms t
    → IsPlaying (record a { rooms = t })
same_games-IsPlaying a t v housed same = record {
  housed = housed;
  valid = v.valid;
  manned = λ x room h. let (was, there) = same.known x room h in v.manned x was there;
  settled = λ x. rw (same.marks x) (v.settled x);
}

module _ (o : Surroundings) (f : Furnishes o) where
  matched-IsPlaying :
      (a : Arena) (token : String) (t : RoomService)
      → IsPlaying a
      → IsHoused t.rooms t.user_room
      → OneMore a.rooms token t
      → IsPlaying (record a { rooms = t; engines = on_room_created o.fresh_engine a.engines token })
  matched-IsPlaying a token t v housed more = record {
    housed = housed;
    valid = on_room_created-IsValid o.fresh_engine a.engines token f.engine v.valid;
    manned = λ x room h. elim (more.known x room h) [
      | inl same ↦
          let (e, here) = on_room_created_makes o.fresh_engine a.engines token in
          (e, ap (λ z. lookup z (on_room_created o.fresh_engine a.engines token)) same ∙ here)
      | inr there ↦
          let (e, here) = v.manned x room there in
          (e, on_room_created_keeps o.fresh_engine a.engines token x e here)
    ];
    settled = λ x. rw (more.marks x) (v.settled x);
  }

  -- `create_matched` as a property of what it gives.
  Matched : Option (World × String) → Type 0
  Matched none = Unit
  Matched (some (w, r)) = IsPlaying w.0

  made-Matched :
      (a : Arena) (drawn : ℕ) (r : Result RoomService)
      → IsPlaying a
      → Succeeds (λ t. IsHoused t.rooms t.user_room) r
      → Succeeds (OneMore a.rooms (o.token_hex drawn)) r
      → Matched (with_matched_room o a drawn r)
  unfolding Matched
  made-Matched a drawn (raise e) v h m = tt
  made-Matched a drawn (ok t) v h m = matched-IsPlaying a (o.token_hex drawn) t v h m

  create_matched-IsPlaying :
      (w w' : World) (x y r : String)
      → x ≢ y
      → create_matched o w x y ≡ some (w', r)
      → IsPlaying w.0
      → IsPlaying w'.0
  unfolding create_matched Matched
  create_matched-IsPlaying (a, drawn) w' x y r apart h v =
      let token = o.token_hex drawn in
      subst Matched h (
        made-Matched a drawn (create_matched_room a.rooms token x y none) v
          (create_matched_room-IsHoused a.rooms token x y none v.housed (f.named drawn) apart)
          (create_matched_room-OneMore a.rooms token x y))

  matchmaking_tick-IsRunning :
      (s : Runtime) (now : ℕ) → IsRunning s → IsRunning (matchmaking_tick o s now).0
  unfolding matchmaking_tick
  matchmaking_tick-IsRunning s now v =
      let (playing, queue) =
        try_match-keeps (create_matched o) (λ w. IsPlaying w.0) create_matched-IsPlaying
          (s.arena, s.drawn) (expire_timeouts now s.queue).0
          (expire_timeouts-IsUnique now s.queue v.queue) v.playing in
      record { playing = playing; queue = queue }

  games_tick-IsRunning : (s : Runtime) → IsRunning s → IsRunning (games_tick o s).0
  unfolding games_tick
  games_tick-IsRunning s v = record {
    playing = tick_all-IsPlaying o.calc_elo s.arena v.playing;
    queue = v.queue;
  }

  forfeit_all-IsRunning :
      (s : Runtime) (expired : List (String × String))
      → IsRunning s
      → IsRunning (forfeit_all o s expired).0
  unfolding forfeit_all forfeit_expired
  forfeit_all-IsRunning s [] v = v
  forfeit_all-IsRunning s ((r, u) ∷ expired) v =
      let b = (force_forfeit o.calc_elo s.arena r u).0 in
      let playing = force_forfeit-IsPlaying o.calc_elo s.arena r u v.playing in
      forfeit_all-IsRunning (forfeit_expired o s r u).0 expired (record {
        playing =
            same_games-IsPlaying b (clear_disconnect_deadline b.rooms r u) playing
              (clear_disconnect_deadline-IsHoused b.rooms r u playing.housed)
              (clear_disconnect_deadline-SameGames b.rooms r u);
        queue = v.queue;
      })

  grace-IsRunning :
      (s : Runtime) (now : ℕ) → IsRunning s → IsRunning (process_disconnect_grace o s now).0
  unfolding process_disconnect_grace
  grace-IsRunning s now v =
      let rooms = s.arena.rooms in
      let sent =
        (send_countdowns rooms s.last_countdown_sent (disconnect_countdowns rooms now)).0 in
      forfeit_all-IsRunning (record s { last_countdown_sent = sent })
        (expired_disconnects rooms now) (record { playing = v.playing; queue = v.queue })

  pub run_round-IsRunning : (s : Runtime) (now : ℕ) → IsRunning s → IsRunning (run_round o s now).0
  unfolding run_round
  run_round-IsRunning s now v =
      let (s₁, matched, raised) = matchmaking_tick o s now in
      let v₁ = matchmaking_tick-IsRunning s now v in
      let s₂ = (games_tick o s₁).0 in
      if-elim (λ (r : Runtime × List Letter). IsRunning r.0) raised v₁
        (grace-IsRunning s₂ now (games_tick-IsRunning s₁ v₁))

-- A connection that is lost raises no `KeyError`, and keeps the games sound.
pub on_client_disconnected-IsRunning :
    (s : Runtime) (now : ℕ) (u : String)
    → IsRunning s
    → (s' : Runtime) × (letters : List Letter) × (on_client_disconnected s now u
        ≡ some (s', letters))
      × IsRunning s'
unfolding on_client_disconnected
on_client_disconnected-IsRunning s now u v =
    let (t, r, marked, housed) = mark_disconnected-IsHoused s.arena.rooms now u v.playing.housed in
    let same = subst (Keeps s.arena.rooms) marked (mark_disconnected-Keeps s.arena.rooms now u) in
    (
      record s { arena = record s.arena { rooms = t }; queue = (cancel s.queue u).0 },
      first_countdown t u r,
      rw (marked, on_client_disconnected) refl,
      record {
        playing = same_games-IsPlaying s.arena t v.playing housed same;
        queue = (cancel-IsUnique s.queue u v.queue).0;
      },
    )
