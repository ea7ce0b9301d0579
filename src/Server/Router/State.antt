-- ===== src/Server/Router/State.antt =====
-- Server/transport/message_router.py: the state behind a message, what comes from outside, errors,
-- and the answer to a command. A raw message comes as what `json.loads` makes of it, and a message
-- goes out as the dictionary that `encode` writes; a send to a websocket succeeds.
use chess_kung_fu.Prelude.{
  ℕ, Bool, true, false, not, ◌||◌, Option, none, some, List, [], ◌∷◌, ◌++◌, if◌then◌else◌, zero,
  suc, String, string_eq, Dict, lookup, insert, contains, ℤ, length,
}
use chess_kung_fu.Model.{Text, text, text_eq, string_of}
use chess_kung_fu.Engine.{GameEngine}
use chess_kung_fu.Server.Protocol.{
  str, Fields, value, MessageError, invalid_json, not_an_object, missing_type, value_error,
  type_error, attribute_error, unexpected_type, not_a_position, not_a_text, key_error, parsed,
  refused, get, truth, Builtins, str_of, is_text, room_created, room_joined,
}
use chess_kung_fu.Server.Protocol.Make.{make_error}
use chess_kung_fu.Server.Games.{GameService, MoveEvent, snapshot_state}
use chess_kung_fu.Server.Lobby.{Lobby, CommandOutcome, Identity, LoginResult}
use chess_kung_fu.Server.Connections.{ConnectionRegistry, broadcast_users}

-- The state that the services of the router share.
pub record App : Type 0 where
  pub registry : ConnectionRegistry
  pub lobby : Lobby
  pub engines : Dict String GameEngine
  pub published : List MoveEvent

-- What comes from outside while a message is handled: the time, the Elo of the user, the name
-- from `secrets.token_hex`, the engine from the factory, the answers of the authentication, and
-- the text of a `JSONDecodeError`.
pub record Outside : Type 0 where
  pub py : Builtins
  pub now : ℕ
  pub elo : String → ℤ
  pub token_hex : String
  pub fresh_engine : GameEngine
  pub login : Text → Text → LoginResult
  pub authenticate : Text → Option Identity
  pub json_msg : Text

-- A message on its way to a websocket.
abbrev pub Sent : Type 0
Sent = List (ℕ × Fields)

pub record Handled : Type 0 where
  pub app : App
  pub sent : Sent
  pub raised : Bool

abbrev pub handled : App → Sent → Handled
handled s sent = record { app = s; sent = sent; raised = false }

-- `await ctx.websocket.send(encode(message))`
abbrev pub send : App → ℕ → Fields → Sent
send s c message = ((s.registry.contexts c).websocket, message) ∷ []

abbrev pub answer_error : App → ℕ → Text → Handled
answer_error s c reason = handled s (send s c (make_error reason))

-- `str(exc)` of a `ProtocolError`; the other exceptions are none.
unfoldable pub protocol_error : Outside → MessageError → Option Text
protocol_error o invalid_json = some (text "invalid JSON: " ++ o.json_msg)
protocol_error o not_an_object = some (text "message must be a JSON object")
protocol_error o missing_type = some (text "missing or invalid 'type'")
protocol_error o (unexpected_type t got) = some (
    text "expected type '"
    ++ (text (value t) ++ (text "', got '" ++ (str_of o.py got ++ text "'"))))
protocol_error o (not_a_position name) =
    some (text "'" ++ (text name ++ text "' must be [row, col] integers"))
protocol_error o (not_a_text name) =
    some (text "'" ++ (text name ++ text "' must be a non-empty string"))
protocol_error o value_error = none
protocol_error o type_error = none
protocol_error o attribute_error = none
protocol_error o (key_error key) = none

-- `except ProtocolError as exc`; any other exception goes on.
unfoldable pub answer_refusal : Outside → App → ℕ → MessageError → Handled
unfolding protocol_error
answer_refusal o s c e = elim (protocol_error o e) [
  | none ↦ record { app = s; sent = []; raised = true }
  | some reason ↦ answer_error s c reason
]

-- The service of the games, over the rooms of the lobby.
abbrev pub games_of : App → GameService
games_of s = record { rooms = s.lobby.rooms; engines = s.engines; published = s.published }

-- `on_room_created` of the wiring.
unfoldable pub on_room_created :
    GameEngine → Dict String GameEngine → String → Dict String GameEngine
on_room_created fresh engines room_id =
    if contains room_id engines then engines else insert room_id fresh engines

-- The callbacks that the rooms have made, past the first `n`.
unfoldable pub open_games :
    GameEngine → ℕ → List String → Dict String GameEngine → Dict String GameEngine
unfolding on_room_created
open_games fresh n [] engines = engines
open_games fresh zero (room_id ∷ ids) engines =
    open_games fresh zero ids (on_room_created fresh engines room_id)
open_games fresh (suc n) (room_id ∷ ids) engines = open_games fresh n ids engines

-- The state after a command of the lobby.
abbrev pub with_lobby : Outside → App → Lobby → App
with_lobby o s lobby = record s {
  lobby = lobby;
  engines = open_games o.fresh_engine (length s.lobby.rooms.started) lobby.rooms.started s.engines;
}

-- `build_state_dict` of a room with an engine, as far as it is sent.
unfoldable pub board_state : App → ℕ → Option GameEngine → Text → Sent
board_state s c none room_id = []
board_state s c (some e) room_id = elim (snapshot_state e room_id) [
  | refused _ ↦ []
  | parsed state ↦ if truth (get "type" state) then send s c state else []
]

-- Whether `payload` lets its user into a room: its name, then.
abbrev pub entered_room : Fields → Option Text
entered_room payload =
    if is_text (get "type" payload) (text (value room_created))
      || is_text (get "type" payload) (text (value room_joined))
    then (elim (get "room_id" payload) [ str (c ∷ cs) ↦ some (c ∷ cs) | _ ↦ none ])
    else none

abbrev pub entered_state : App → ℕ → Option Text → Sent
entered_state s c none = []
entered_state s c (some room_id) = board_state s c (lookup (string_of room_id) s.engines) room_id

-- `if outcome.broadcast_payload and outcome.broadcast_user_ids`
abbrev pub broadcast_of : App → CommandOutcome → Sent
broadcast_of s outcome = elim outcome.broadcast_payload [
  | none ↦ []
  | some payload ↦ broadcast_users s.registry outcome.broadcast_user_ids payload
]

-- `_send_command_outcome`
unfoldable pub send_command_outcome : App → ℕ → CommandOutcome → Handled
unfolding board_state
send_command_outcome s c outcome =
    if not outcome.succeeded
    then answer_error s c outcome.reason
    else handled s (
        send s c outcome.payload
        ++ (broadcast_of s outcome ++ entered_state s c (entered_room outcome.payload)))
