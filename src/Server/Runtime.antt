-- ===== src/Server/Runtime.antt =====
-- Server/application/server_runtime.py (`ServerRuntime`), with the services wired as in
-- Server/bootstrap/wiring.py (`on_room_created`, `broadcast_room`, `notify_user`). `run_round` is
-- the body of the loop of `run`. Time is in milliseconds; the names that `secrets.token_hex` gives
-- are a sequence; what is sent is listed with the users that it goes to.
pub mod Players
pub mod Losses
pub mod Grace
pub mod Rounds
pub mod Blocked
use chess_kung_fu.Prelude.{
  ℕ, ◌+◌, ◌*◌, ◌/◌, ◌≡◌, Bool, true, false, not, ◌&&◌, Option, none, some, List, [], ◌∷◌, ◌++◌, map,
  if◌then◌else◌, ◌==◌, String, string_eq, Dict, lookup, insert, erase, ℤ, pos, nat_eq,
}
use Prim.Native.String
use chess_kung_fu.Model.{Text, text, text_eq, string_of}
use chess_kung_fu.Engine.{GameEngine}
use chess_kung_fu.Server.Protocol.{
  Fields, get, str, is_text, value, match_found, Parsed, parsed, refused,
}
use chess_kung_fu.Server.Protocol.Make.{make_disconnect_countdown}
use chess_kung_fu.Server.Rooms.{
  RoomService, Room, Result, ok, raise, get_room, create_matched_room, mark_disconnected,
  expired_disconnects, disconnect_countdowns, clear_disconnect_deadline, disconnect_grace_ms,
  chosen_id,
}
use chess_kung_fu.Server.Matchmaking.{
  QueueEntry, Notice, Progress, Match, cancel, expire_timeouts, match_notices, try_match,
}
use chess_kung_fu.Server.Games.{snapshot_state, member_ids_of}
use chess_kung_fu.Server.Games.Endings.{Arena, Broadcasts, tick_all, force_forfeit}
use chess_kung_fu.Server.Router.{on_room_created}

-- A message and the users that it goes to.
abbrev pub Letter : Type 0
Letter = List String × Fields

pub record Runtime : Type 0 where
  pub arena : Arena
  pub queue : List QueueEntry
  pub last_countdown_sent : Dict String ℕ
  -- How many names `secrets.token_hex` has given.
  pub drawn : ℕ

-- `broadcast_room` of the wiring, for what the games say.
abbrev pub to_members : RoomService → String × Fields → List Letter
to_members rooms (room_id, message) = elim (lookup room_id rooms.rooms) [
  | none ↦ []
  | some room ↦ (member_ids_of (some room), message) ∷ []
]

unfoldable pub deliver : RoomService → Broadcasts → List Letter
deliver rooms [] = []
deliver rooms (b ∷ broadcasts) = to_members rooms b ++ deliver rooms broadcasts

-- `_make_disconnect_countdown`, encoded, to the members of the room
abbrev pub countdown_letter : Room → String → String → ℕ → Letter
countdown_letter room room_id user_id seconds_left = (
  member_ids_of (some room),
  make_disconnect_countdown (text room_id) (text user_id) (pos seconds_left),
)

-- What follows in `on_client_disconnected` when the user played in a room.
abbrev pub first_countdown : RoomService → String → Option String → List Letter
first_countdown rooms user_id none = []
first_countdown rooms user_id (some room_id) =
    if room_id == "" then [] else (elim (lookup room_id rooms.rooms) [
      | none ↦ []
      | some room ↦ countdown_letter room room_id user_id (disconnect_grace_ms / 1000) ∷ []
    ])

-- `on_client_disconnected`; `none` is the `KeyError` of `mark_disconnected`.
unfoldable pub on_client_disconnected : Runtime → ℕ → String → Option (Runtime × List Letter)
on_client_disconnected s now user_id = elim (mark_disconnected s.arena.rooms now user_id) [
  | none ↦ none
  | some (rooms, room_id) ↦ some (
    record s { arena = record s.arena { rooms = rooms }; queue = (cancel s.queue user_id).0 },
    first_countdown rooms user_id room_id,
  )
]

-- `f"{room_id}:{user_id}"`
abbrev pub countdown_key : String → String → String
countdown_key room_id user_id = String.◌++◌ room_id (String.◌++◌ ":" user_id)

abbrev pub was_sent : Option ℕ → ℕ → Bool
was_sent none n = false
was_sent (some m) n = m == n

abbrev pub countdown_letters : RoomService → String → String → ℕ → List Letter
countdown_letters rooms room_id user_id seconds_left = elim (lookup room_id rooms.rooms) [
  | none ↦ []
  | some room ↦ countdown_letter room room_id user_id seconds_left ∷ []
]

-- The first loop of `_process_disconnect_grace`.
unfoldable pub send_countdowns :
    RoomService → Dict String ℕ → List (String × String × ℕ) → Dict String ℕ × List Letter
send_countdowns rooms sent [] = (sent, [])
send_countdowns rooms sent ((room_id, user_id, seconds_left) ∷ countdowns) =
    let key = countdown_key room_id user_id in
    let known = was_sent (lookup key sent) seconds_left in
    let (sent', letters) =
      send_countdowns rooms (if known then sent else insert key seconds_left sent) countdowns in
    (sent', (if known then [] else countdown_letters rooms room_id user_id seconds_left) ++ letters)

-- What `run` needs from outside, with `calc_elo`.
pub record Surroundings : Type 0 where
  pub calc_elo : ℤ → ℤ → ℤ × ℤ
  pub token_hex : ℕ → String
  pub fresh_engine : GameEngine

-- The body of the second loop of `_process_disconnect_grace`.
unfoldable pub forfeit_expired : Surroundings → Runtime → String → String → Runtime × List Letter
forfeit_expired o s room_id user_id =
    let (arena, broadcasts) = force_forfeit o.calc_elo s.arena room_id user_id in
    (
      record s {
        arena = record arena { rooms = clear_disconnect_deadline arena.rooms room_id user_id };
        last_countdown_sent = erase (countdown_key room_id user_id) s.last_countdown_sent;
      },
      deliver arena.rooms broadcasts,
    )

unfoldable pub forfeit_all : Surroundings → Runtime → List (String × String) → Runtime × List Letter
unfolding forfeit_expired
forfeit_all o s [] = (s, [])
forfeit_all o s ((room_id, user_id) ∷ expired) =
    let (s', first) = forfeit_expired o s room_id user_id in
    let (s'', rest) = forfeit_all o s' expired in (s'', first ++ rest)

-- `_process_disconnect_grace`
unfoldable pub process_disconnect_grace : Surroundings → Runtime → ℕ → Runtime × List Letter
unfolding send_countdowns forfeit_all
process_disconnect_grace o s now =
    let rooms = s.arena.rooms in
    let (sent, letters) =
      send_countdowns rooms s.last_countdown_sent (disconnect_countdowns rooms now) in
    let (s', forfeits) =
      forfeit_all o (record s { last_countdown_sent = sent }) (expired_disconnects rooms now) in
    (s', letters ++ forfeits)

-- The rooms, engines and names, as the matchmaking works on them.
abbrev pub World : Type 0
World = Arena × ℕ

-- The room's engine, by the callback, once the room is made; `none` is a `ValueError`.
abbrev pub with_matched_room :
    Surroundings → Arena → ℕ → Result RoomService → Option (World × String)
with_matched_room o arena drawn (raise _) = none
with_matched_room o arena drawn (ok rooms) = some (
  (
    record arena {
      rooms = rooms;
      engines = on_room_created o.fresh_engine arena.engines (o.token_hex drawn);
    },
    drawn + 1,
  ),
  o.token_hex drawn,
)

-- `create_matched_room(a, b)`
unfoldable pub create_matched : Surroundings → World → String → String → Option (World × String)
create_matched o (arena, drawn) a b =
    with_matched_room o arena drawn (create_matched_room arena.rooms (o.token_hex drawn) a b none)

-- `notify_user` of the wiring: the message, and the board for a match.
abbrev pub board_letter : Arena → String → Text → List Letter
board_letter arena user_id room_id = elim (lookup (string_of room_id) arena.engines) [
  | none ↦ []
  | some e ↦ (elim (snapshot_state e room_id) [
    | refused _ ↦ []
    | parsed state ↦ (user_id ∷ [], state) ∷ []
  ])
]

unfoldable pub notify_user : Arena → Notice → List Letter
notify_user arena (user_id, payload) =
    (user_id ∷ [], payload)
    ∷ (if is_text (get "type" payload) (text (value match_found))
        then (elim (get "room_id" payload) [
          | str (c ∷ cs) ↦ board_letter arena user_id (c ∷ cs)
          | _ ↦ []
        ])
        else [])

unfoldable pub notify_all : Arena → List Notice → List Letter
unfolding notify_user
notify_all arena [] = []
notify_all arena (n ∷ notices) = notify_user arena n ++ notify_all arena notices

unfoldable pub notices_of : List Match → List Notice
notices_of [] = []
notices_of (m ∷ matches) = match_notices m ++ notices_of matches

-- `tick` of the matchmaking over this server; the last part says whether it raised. The boards are
-- those of new games, which nothing changes before the games' clock.
unfoldable pub matchmaking_tick : Surroundings → Runtime → ℕ → Runtime × List Letter × Bool
unfolding notify_all notices_of
matchmaking_tick o s now =
    let (still, expired) = expire_timeouts now s.queue in
    let (p, queue) = try_match (create_matched o) (s.arena, s.drawn) still in
    (
      record s { arena = p.world.0; queue = queue; drawn = p.world.1 },
      notify_all s.arena expired ++ notify_all p.world.0 (notices_of p.matches),
      p.raised,
    )

-- `tick_all` over this server
unfoldable pub games_tick : Surroundings → Runtime → Runtime × List Letter
games_tick o s =
    let (arena, broadcasts) = tick_all o.calc_elo s.arena in
    (record s { arena = arena }, deliver arena.rooms broadcasts)

-- The body of the loop of `run`: an exception of the matchmaking skips the rest.
unfoldable pub run_round : Surroundings → Runtime → ℕ → Runtime × List Letter
unfolding matchmaking_tick games_tick process_disconnect_grace
run_round o s now =
    let (s₁, matched, raised) = matchmaking_tick o s now in
    if raised
    then (s₁, matched)
    else (let (s₂, played) = games_tick o s₁ in
        let (s₃, graced) = process_disconnect_grace o s₂ now in (s₃, matched ++ (played ++ graced)))
