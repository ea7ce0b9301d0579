-- ===== src/Server/Shard.antt =====
-- Server/game_main.py: the process of a shard, over the services of one game server: the commands
-- of its queue (`_handle_command` with the rest that `_cmd_loop` does for `move`) and the matches
-- that it is sent (`_handle_create_match`). Redis is an argument. A reply is what the gateway reads
-- of it; a board that does not encode is left out.
pub mod Hosting
use chess_kung_fu.Prelude.{
  Bool, true, false, not, ◌&&◌, ◌||◌, Option, none, some, List, [], ◌∷◌, ◌++◌, map, length,
  if◌then◌else◌, ◌==◌, String, string_eq, Dict, lookup, ℤ,
}
use chess_kung_fu.Model.{Text, text, text_eq, string_of}
use chess_kung_fu.Engine.{GameEngine}
use chess_kung_fu.Server.Protocol.{Fields, field, no_fields, str, get, Parsed, parsed, refused}
use chess_kung_fu.Server.Protocol.Games.{match_found_to_dict}
use chess_kung_fu.Server.Rooms.{
  RoomService, PlayerRole, Result, ok, raise, truthy, create_matched_room, reconnect,
  room_id_for_user, member_role,
}
use chess_kung_fu.Server.Lobby.{Lobby, CommandOutcome, role_text, create, join}
use chess_kung_fu.Server.Games.{GameService, MoveEvent, MoveOutcome, snapshot_state, submit_move}
use chess_kung_fu.Server.Router.{on_room_created, open_games, reason_text}
use chess_kung_fu.Server.Redis.{Keys}
use chess_kung_fu.Server.Allocator.{bind_player, bind_match}
use chess_kung_fu.Server.Gateway.{
  Command, room_create, room_join, player_reconnect, move, get_state, Reply,
}

-- The services of a shard, and the keys of its allocator.
pub record Shard (K : Type 0) : Type 0 where
  pub lobby : Lobby
  pub engines : Dict String GameEngine
  pub published : List MoveEvent
  pub keys : K

abbrev pub games_of : {K : Type 0} → Shard K → GameService
games_of s = record { rooms = s.lobby.rooms; engines = s.engines; published = s.published }

abbrev pub bare_reply : Reply
bare_reply = record {
  accepted = true;
  error = none;
  room_id = none;
  color = none;
  payload = no_fields;
  broadcast_user_ids = [];
  broadcast_payload = none;
  extra_payloads = [];
  start = none;
  end = none;
  member_ids = [];
}

abbrev pub error_reply : Text → Reply
error_reply e = record bare_reply { accepted = false; error = some e }

-- `games.build_state_dict(room_id)`, for the engine of the room.
abbrev pub state_of : GameEngine → Text → List Fields
state_of e room_id = elim (snapshot_state e room_id) [ refused _ ↦ [] | parsed state ↦ state ∷ [] ]

abbrev pub extra_state : Option GameEngine → Text → List Fields
extra_state none room_id = []
extra_state (some e) room_id = state_of e room_id

-- `payload.get("room_id")`, empty if there is none.
abbrev pub payload_room : Fields → Text
payload_room payload = elim (get "room_id" payload) [ str t ↦ t | _ ↦ [] ]

-- `_outcome_to_reply`
unfoldable pub outcome_to_reply : Dict String GameEngine → CommandOutcome → Reply
outcome_to_reply engines outcome =
    if outcome.succeeded
    then (record bare_reply {
      payload = outcome.payload;
      broadcast_user_ids = map text outcome.broadcast_user_ids;
      broadcast_payload = outcome.broadcast_payload;
      extra_payloads = elim (payload_room outcome.payload) [
        | [] ↦ []
        | c ∷ cs ↦ extra_state (lookup (string_of (c ∷ cs)) engines) (c ∷ cs)
      ];
    })
    else error_reply outcome.reason

-- The reply to a move, as `_cmd_loop` makes it.
unfoldable pub move_reply : MoveOutcome → Reply
move_reply outcome =
    if outcome.ok
    then (record bare_reply {
      room_id = elim outcome.room_id [ none ↦ none | some r ↦ some (text r) ];
      start = outcome.start;
      end = outcome.end;
      member_ids = map text outcome.member_ids;
    })
    else error_reply (reason_text outcome.reason)

-- `player_reconnect`, once the room is known.
unfoldable pub reconnected : RoomService → Dict String GameEngine → String → Option String → Reply
reconnected rooms engines user_id none = error_reply (text "not in a room")
reconnected rooms engines user_id (some room_id) = elim (lookup room_id engines) [
  | none ↦ error_reply (text "game not active")
  | some _ ↦ record bare_reply {
    room_id = some (text room_id);
    color = elim (member_role rooms room_id user_id) [
      | none ↦ none
      | some role ↦ some (role_text role)
    ];
  }
]

-- The room of a user that `player_reconnect` finds: where the user was, or else where the user is.
unfoldable pub find_room : RoomService → String → RoomService × Option String
find_room rooms user_id =
    let (rooms', back) = reconnect rooms user_id in
    (elim back [
      | some room_id ↦ (rooms', some room_id)
      | none ↦
          let room_id = room_id_for_user rooms' user_id in
          (if truthy room_id then (reconnect rooms' user_id).0 else rooms', room_id)
    ])

-- The two messages of a match, with their users.
abbrev pub match_messages : String → String → String → List (List String × Fields)
match_messages room_id white_id black_id =
    let players = field "w" (str (text white_id)) (field "b" (str (text black_id)) no_fields) in
    let message = λ (color : Text).
      match_found_to_dict
        (record { room_id = text room_id; players = players; color = str color }) in
    (white_id ∷ [], message (text "w")) ∷ (black_id ∷ [], message (text "b")) ∷ []

module _ {K : Type 0} (rk : Keys K) (shard_id : Text) (fresh : GameEngine) where
  -- The shard after a command of the lobby, with the callbacks of the rooms.
  abbrev pub with_lobby : Shard K → Lobby → Shard K
  with_lobby s lobby = record s {
    lobby = lobby;
    engines = open_games fresh (length s.lobby.rooms.started) lobby.rooms.started s.engines;
  }

  unfoldable pub create_for : Shard K → String → Text → Shard K × Reply
  unfolding outcome_to_reply
  create_for s token user_id =
      let (lobby, outcome) = create s.lobby token (string_of user_id) in
      let s' = with_lobby s lobby in
      let room_id = payload_room outcome.payload in
      (
        if outcome.succeeded && not (room_id == [])
            then record s' { keys = bind_match rk s'.keys room_id shard_id (user_id ∷ []) }
            else s',
        outcome_to_reply s'.engines outcome,
      )

  unfoldable pub join_for : Shard K → Text → Text → Shard K × Reply
  unfolding outcome_to_reply
  join_for s user_id room_id =
      let (lobby, outcome) = join s.lobby (string_of user_id) (string_of room_id) in
      let s' = with_lobby s lobby in
      (
        if outcome.succeeded && not (room_id == [])
            then record s' { keys = bind_player rk s'.keys user_id room_id }
            else s',
        outcome_to_reply s'.engines outcome,
      )

  -- `_handle_command`; `token` is what `secrets.token_hex` gives.
  unfoldable pub handle_command : Shard K → String → Command → Shard K × Reply
  unfolding create_for join_for move_reply reconnected find_room
  handle_command s token (room_create user_id) = create_for s token user_id
  handle_command s token (room_join user_id room_id) = join_for s user_id room_id
  handle_command s token (move user_id start end) =
      let (games, outcome) = submit_move (games_of s) (string_of user_id) start end in
      (record s { engines = games.engines; published = games.published }, move_reply outcome)
  handle_command s token (get_state room_id) = (
    s,
    elim (lookup (string_of room_id) s.engines) [
      | none ↦ error_reply (text "room not found")
      | some e ↦ record bare_reply {
        payload = elim (snapshot_state e room_id) [ refused _ ↦ no_fields | parsed state ↦ state ];
      }
    ],
  )
  handle_command s token (player_reconnect user_id) =
      let (rooms, room_id) = find_room s.lobby.rooms (string_of user_id) in
      (
        record s { lobby = record s.lobby { rooms = rooms } },
        reconnected rooms s.engines (string_of user_id) room_id,
      )

  -- What `_handle_create_match` does when the rooms have answered; what is sent is listed with the
  -- users that it goes to.
  unfoldable pub host_match :
      Shard K
      → String
      → String
      → String
      → Result RoomService
      → Shard K × List (List String × Fields)
  host_match s room_id white_id black_id (raise _) = (s, [])
  host_match s room_id white_id black_id (ok rooms) =
      let engines = on_room_created fresh s.engines room_id in
      (
        record s {
          lobby = record s.lobby { rooms = rooms };
          engines = engines;
          keys = bind_match rk s.keys (text room_id) shard_id (text white_id ∷ text black_id ∷ []);
        },
        match_messages room_id white_id black_id
            ++ map (λ state. (white_id ∷ black_id ∷ [], state))
                (extra_state (lookup room_id engines) (text room_id)),
      )

  -- `_handle_create_match`, of an event with the three ids in it.
  unfoldable pub handle_create_match :
      Shard K → String → String → String → Shard K × List (List String × Fields)
  unfolding host_match
  handle_create_match s room_id white_id black_id =
      if (room_id == "") || ((white_id == "") || (black_id == ""))
      then (s, [])
      else host_match s room_id white_id black_id
          (create_matched_room s.lobby.rooms room_id white_id black_id (some room_id))
