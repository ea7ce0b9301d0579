-- ===== src/Server/Runtime/Grace.antt =====
-- A player who loses the connection, and the grace period.
use chess_kung_fu.Prelude.{
  ℕ, ◌+◌, ◌≤◌, ◌≡◌, refl, ◌∙◌, sym, ap, subst, true, Option, some, List, String, string_eq, lookup,
  insert, insert_here,
}
use mathlib.Core.Option.{some_inj}
use chess_kung_fu.Server.Rooms.{
  Room, RoomMember, RoomService, disconnected, put_member, expired_disconnects, mark_disconnected,
  disconnect_grace_ms,
}
use chess_kung_fu.Server.Rooms.Service.{IsHoused}
use chess_kung_fu.Server.Rooms.Departures.{mark_disconnected-IsHoused}
use chess_kung_fu.Server.Rooms.Grace.{is_listed, grace_expires}
use chess_kung_fu.Server.Matchmaking.{cancel}
use chess_kung_fu.Server.Runtime.{
  Runtime, Surroundings, process_disconnect_grace, on_client_disconnected, Letter, first_countdown,
}
use chess_kung_fu.Server.Runtime.Players.{Player, rewrite-Player}
use chess_kung_fu.Server.Runtime.Losses.{IsOver, Waits, process_disconnect_grace_ends}

-- What `mark_disconnected` makes of the rooms for a player of the room.
marked_rooms : RoomService → ℕ → String → Room → String → RoomMember → RoomService
marked_rooms s now rid room u m =
    put_member s rid room u
      (record m { status = disconnected; disconnect_deadline = some (now + disconnect_grace_ms) })

mark_disconnected-Player :
    (s : RoomService) (now : ℕ) (rid u : String) (p : Player s.rooms rid u)
    → lookup u s.user_room ≡ some rid
    → mark_disconnected s now u ≡ some (marked_rooms s now rid p.room u p.member, some rid)
unfolding mark_disconnected marked_rooms
mark_disconnected-Player s now rid u p home =
    rw (home, p.there, p.here, p.player, mark_disconnected) refl

marked-Player :
    (s : RoomService) (now : ℕ) (rid u : String) (p : Player s.rooms rid u)
    → Player (marked_rooms s now rid p.room u p.member).rooms rid u
unfolding marked_rooms
marked-Player s now rid u p =
    let m' : RoomMember = record p.member {
      status = disconnected;
      disconnect_deadline = some (now + disconnect_grace_ms);
    } in
    rewrite-Player s.rooms rid rid u p.room (record p.room { members = insert u m' p.room.members })
      p.there
      (λ m h. (
        m',
        insert_here u m' p.room.members,
        ap (λ (x : RoomMember). x.role) (some_inj.0 (sym p.here ∙ h)),
      ))
      p

-- A player who loses the connection and stays away for the grace period has the game of the room
-- ended: it is over after the next round of `_process_disconnect_grace`, if nothing else happens
-- in between.
pub abandoned_game_ends :
    (o : Surroundings) (s : Runtime) (now later : ℕ) (rid u : String)
    → Waits s.arena rid u
    → now + disconnect_grace_ms ≤ later
    → (s' : Runtime) × (letters : List Letter) × (on_client_disconnected s now u
        ≡ some (s', letters))
      × IsOver (process_disconnect_grace o s' later).0.arena rid
unfolding on_client_disconnected
abandoned_game_ends o s now later rid u w wait =
    let p = w.player in
    let rooms = s.arena.rooms in
    let home = w.housed.listed rid u p.room p.member p.there p.here in
    let rooms' = marked_rooms rooms now rid p.room u p.member in
    let marked = mark_disconnected-Player rooms now rid u p home in
    let s' : Runtime = record s {
      arena = record s.arena { rooms = rooms' };
      queue = (cancel s.queue u).0;
    } in
    let (t, to_t, listed) =
      grace_expires rooms now later u rid p.room p.member home p.there p.here p.player wait in
    let (k, r, to_k, housed) = mark_disconnected-IsHoused rooms now u w.housed in
    let t_is : t ≡ rooms' =
      ap (λ (x : RoomService × Option String). x.0) (some_inj.0 (sym to_t ∙ marked)) in
    let k_is : k ≡ rooms' =
      ap (λ (x : RoomService × Option String). x.0) (some_inj.0 (sym to_k ∙ marked)) in
    (
      s',
      first_countdown rooms' u (some rid),
      rw (marked, on_client_disconnected) refl,
      process_disconnect_grace_ends o s' later rid u
          (record {
            housed = subst (λ (x : RoomService). IsHoused x.rooms x.user_room) k_is housed;
            player = marked-Player rooms now rid u p;
            game = w.game;
          })
          (subst (λ x. is_listed rid u (expired_disconnects x later) ≡ true) t_is listed),
    )
