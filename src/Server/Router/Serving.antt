-- ===== src/Server/Router/Serving.antt =====
-- What holds of the server whatever its clients send, over any number of connections.
use chess_kung_fu.Prelude.{
  ℕ, ◌≡◌, ◌≢◌, refl, ◌∙◌, sym, Option, none, some, String, string_eq, lookup, Each, Each-insert,
  Each-lookup, ℤ, inl, inr, ◌⊎◌, if-elim, insert-cases,
}
use chess_kung_fu.Engine.{GameEngine}
use chess_kung_fu.Engine.Valid.{IsValid}
use chess_kung_fu.Server.Protocol.{Json}
use chess_kung_fu.Server.Rooms.{
  RoomService, Result, ok, raise, truthy, PlayerRole, room_id_for_user, create_room, join_room,
  reconnect,
}
use chess_kung_fu.Server.Rooms.Arrivals.{Succeeds}
use chess_kung_fu.Server.Rooms.Marks.{reconnect-SameGames}
use chess_kung_fu.Server.Rooms.Departures.{reconnect-IsHoused}
use chess_kung_fu.Server.Games.Submits.{Granted, played, played-IsValid}
use chess_kung_fu.Server.Games.Arenas.{IsManned, insert-IsManned}
use chess_kung_fu.Server.Lobby
use chess_kung_fu.Server.Lobby.{Lobby, CommandOutcome, created, joined}
use chess_kung_fu.Server.Lobby.Commands
use chess_kung_fu.Server.Lobby.Commands.{Command, IsSound, Command-IsSound}
use chess_kung_fu.Server.Router.{App, Outside, with_rooms, games_of, current_user, handle_raw}
use chess_kung_fu.Server.Router.Changes.{
  CommandOf, plays, cancels, creates, joins, Change, nothing, session, unbound, command, moved,
  handle_raw-Change,
}
use chess_kung_fu.Server.Router.Openings.{
  Opens, Opens-refl, create_room-Opens, join_room-Opens, callbacks_keep, callbacks-IsManned,
  callbacks-IsValid,
}

-- The rooms and the queue are sound, every engine is valid, and every room has an engine.
pub record IsServing (s : App) : Type 0 where
  pub sound : IsSound s.lobby
  pub valid : Each IsValid s.engines
  pub manned : IsManned s.lobby.rooms.rooms s.engines

-- What is expected from outside: a name for a new room that is not empty and that no room has,
-- and a valid engine.
pub record Provides (o : Outside) (s : App) : Type 0 where
  pub fresh : lookup o.token_hex s.lobby.rooms.rooms ≡ none
  pub named : "" ≢ o.token_hex
  pub engine : IsValid o.fresh_engine

created-Opens :
    (l : Lobby) (token : String) (r : Result RoomService)
    → Succeeds (Opens l.rooms) r
    → Opens l.rooms (created l token r).0.rooms
created-Opens l token (ok rooms) h = h
created-Opens l token (raise e) h = Opens-refl l.rooms

joined-Opens :
    (l : Lobby) (u rid : String) (r : Result (RoomService × PlayerRole))
    → Succeeds (λ p. Opens l.rooms p.0) r
    → Opens l.rooms (joined l u rid r).0.rooms
joined-Opens l u rid (ok (rooms, role)) h = h
joined-Opens l u rid (raise e) h = Opens-refl l.rooms

CommandOf-Opens :
    {o : Outside} {u : String} {l l' : Lobby} → CommandOf o u l l' → Opens l.rooms l'.rooms
CommandOf-Opens {o} {u} {l} plays =
    unfold Lobby.play in
    if-elim (λ (r : Lobby × CommandOutcome). Opens l.rooms r.0.rooms)
      (truthy (room_id_for_user l.rooms u)) (Opens-refl l.rooms) (Opens-refl l.rooms)
CommandOf-Opens {o} {u} {l} cancels = unfold Lobby.cancel_play in Opens-refl l.rooms
CommandOf-Opens {o} {u} {l} creates =
    unfold Lobby.create in
    created-Opens l o.token_hex (create_room l.rooms o.token_hex u)
      (create_room-Opens l.rooms o.token_hex u)
CommandOf-Opens {o} {u} {l} (joins rid) =
    unfold Lobby.join in
    joined-Opens l u rid (join_room l.rooms rid u) (join_room-Opens l.rooms rid u)

CommandOf-Command :
    {o : Outside} {u : String} {l l' : Lobby}
    → CommandOf o u l l'
    → lookup o.token_hex l.rooms.rooms ≡ none
    → "" ≢ o.token_hex
    → Command l l'
CommandOf-Command {o} {u} {l} plays fresh named = Commands.plays l o.now (o.elo u) u
CommandOf-Command {o} {u} {l} cancels fresh named = Commands.cancels l u
CommandOf-Command {o} {u} {l} creates fresh named = Commands.creates l o.token_hex u fresh named
CommandOf-Command {o} {u} {l} (joins rid) fresh named = Commands.joins l u rid

session-IsServing :
    (s : App) (u : String) → IsServing s → IsServing (with_rooms s (reconnect s.lobby.rooms u).0)
session-IsServing s u v = record {
  sound = record {
    rooms = (reconnect-IsHoused s.lobby.rooms u v.sound.rooms).0;
    queue = v.sound.queue;
  };
  valid = v.valid;
  manned = λ rid room h.
      let (was, here) = (reconnect-SameGames s.lobby.rooms u).known rid room h in
      v.manned rid was here;
}

pub Change-IsServing :
    {o : Outside} {s : App} {c : ℕ} {s' : App}
    → Change o s c s'
    → Provides o s
    → IsServing s
    → IsServing s'
Change-IsServing nothing p v = v
Change-IsServing {s = s} (session user token vouched) p v =
    let w = session-IsServing s user.user_id v in
    record { sound = w.sound; valid = w.valid; manned = w.manned }
Change-IsServing {s = s} (unbound user vouched) p v = session-IsServing s user.user_id v
Change-IsServing {o} {s} (command u lobby who step) p v =
    let opens = CommandOf-Opens step in
    record {
      sound = Command-IsSound (CommandOf-Command step p.fresh p.named) v.sound;
      valid =
          callbacks-IsValid o.fresh_engine s.lobby.rooms lobby.rooms s.engines opens p.engine
            v.valid;
      manned = callbacks-IsManned o.fresh_engine s.lobby.rooms lobby.rooms s.engines opens v.manned;
    }
Change-IsServing {s = s} (moved u start end g who) p v = record {
  sound = v.sound;
  valid =
      Each-insert IsValid g.room_id (played g.engine g.piece start end) s.engines
        (played-IsValid g.engine g.color start end g.piece g.playable
          (Each-lookup IsValid g.room_id s.engines v.valid g.active))
        v.valid;
  manned =
      insert-IsManned s.lobby.rooms.rooms s.engines g.room_id (played g.engine g.piece start end)
        v.manned;
}

-- A move by the user of the connection that is granted, in the room `rid`, and the engine then.
pub record Moved (s : App) (c : ℕ) (rid : String) (e' : GameEngine) : Type 0 where
  pub user_id : String
  pub start : ℤ × ℤ
  pub end : ℤ × ℤ
  pub who : current_user s c ≡ some user_id
  pub granted : Granted (games_of s) user_id start end
  pub room : granted.room_id ≡ rid
  pub after : e' ≡ played granted.engine granted.piece start end

Change-engine :
    {o : Outside} {s : App} {c : ℕ} {s' : App}
    → Change o s c s'
    → (rid : String) (e : GameEngine) → lookup rid s.engines ≡ some e
    → (e' : GameEngine) × (lookup rid s'.engines ≡ some e') × ((e' ≡ e) ⊎ Moved s c rid e')
Change-engine nothing rid e h = (e, h, inl refl)
Change-engine (session user token vouched) rid e h = (e, h, inl refl)
Change-engine (unbound user vouched) rid e h = (e, h, inl refl)
Change-engine {o} {s} (command u lobby who step) rid e h = (
  e,
  callbacks_keep o.fresh_engine s.lobby.rooms lobby.rooms s.engines (CommandOf-Opens step) rid e h,
  inl refl,
)
Change-engine {o} {s} {c} (moved u start end g who) rid e h =
    let e' = played g.engine g.piece start end in
    elim (insert-cases g.room_id rid e' s.engines) [
      | inl (here, now) ↦ (
        e',
        now,
        inr (record {
          user_id = u;
          start = start;
          end = end;
          who = who;
          granted = g;
          room = sym here;
          after = refl;
        }),
      )
      | inr (_, stays) ↦ (e, stays ∙ h, inl refl)
    ]

-- A message ends no game and starts none anew: every engine that is there stays, and is as it was
-- unless the user of the connection plays in its room and makes a move that is granted.
pub handle_raw_engines :
    (o : Outside) (s : App) (c : ℕ) (raw : Option Json) (rid : String) (e : GameEngine)
    → lookup rid s.engines ≡ some e
    → (e' : GameEngine) × (lookup rid (handle_raw o s c raw).0.engines ≡ some e')
      × ((e' ≡ e) ⊎ Moved s c rid e')
handle_raw_engines o s c raw rid e h = Change-engine (handle_raw-Change o s c raw) rid e h
