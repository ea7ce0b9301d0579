-- ===== src/Server/Router/Sessions.antt =====
-- Server/transport/message_router.py: logging in, and a token shown again.
use chess_kung_fu.Prelude.{
  ℕ, Bool, true, false, not, ◌||◌, Option, none, some, [], ◌++◌, if◌then◌else◌, ◌==◌, String,
  string_eq, lookup,
}
use chess_kung_fu.Model.{Text, text, text_eq}
use chess_kung_fu.Server.Protocol.{Json, str, Fields, parsed, refused, is_empty}
use chess_kung_fu.Server.Protocol.Games.{rejoined_room_to_dict}
use chess_kung_fu.Server.Protocol.Make.{make_login_ok, make_auth_ok, parse_login, parse_auth}
use chess_kung_fu.Server.Rooms.{RoomService}
use chess_kung_fu.Server.Lobby
use chess_kung_fu.Server.Lobby.{
  Lobby, CommandOutcome, Identity, LoginResult, SessionOutcome, cancel_play,
}
use chess_kung_fu.Server.Connections.{authenticated, bind_user}
use chess_kung_fu.Server.Router.State.{
  App, Outside, Sent, Handled, handled, send, answer_error, answer_refusal, board_state,
}

-- The message of a session, and then the room that the user is back in.
abbrev pub session_message : Bool → Identity → Text → Fields
session_message is_login user token =
    if is_login
    then make_login_ok user.username user.elo (text user.user_id) token
    else make_auth_ok (text user.user_id) user.username user.elo

abbrev pub rejoin_color_json : Option Text → Json
rejoin_color_json none = Json.null
rejoin_color_json (some color) = str color

unfoldable pub rejoin_messages : App → ℕ → Option String → Option Text → Sent
unfolding board_state
rejoin_messages s c none color = []
rejoin_messages s c (some room_id) color =
    if room_id == ""
    then []
    else send s c
        (rejoined_room_to_dict (record { room_id = text room_id; color = rejoin_color_json color }))
      ++ board_state s c (lookup room_id s.engines) (text room_id)

-- The rest of `_apply_session`, for an outcome with a user and a token; an empty id or token
-- fails the `assert`.
unfoldable pub bind_session :
    App → ℕ → Bool → Identity → Text → Option String → Option Text → Handled
unfolding rejoin_messages
bind_session s c is_login user token room_id color =
    if user.user_id == "" || is_empty token
    then record { app = s; sent = []; raised = true }
    else let s' : App = record s {
      registry = bind_user s.registry c user.user_id user.username user.elo token;
    } in
      handled s'
        (send s' c (session_message is_login user token) ++ rejoin_messages s' c room_id color)

-- `_apply_session`
unfoldable pub apply_session : App → ℕ → Bool → SessionOutcome → Handled
unfolding bind_session
apply_session s c is_login outcome =
    if not outcome.succeeded then answer_error s c outcome.reason else (elim outcome.identity [
      | none ↦ record { app = s; sent = []; raised = true }
      | some user ↦ (elim outcome.token [
        | none ↦ record { app = s; sent = []; raised = true }
        | some token ↦
            bind_session s c is_login user token outcome.rejoin_room_id outcome.rejoin_color
      ])
    ])

abbrev pub with_rooms : App → RoomService → App
with_rooms s rooms = record s { lobby = record s.lobby { rooms = rooms } }

abbrev pub session_of : App → ℕ → Bool → RoomService × SessionOutcome → Handled
session_of s c is_login (rooms, outcome) = apply_session (with_rooms s rooms) c is_login outcome

-- `_on_login`
unfoldable pub on_login : Outside → App → ℕ → Fields → Handled
unfolding apply_session answer_refusal
on_login o s c d =
    if authenticated (s.registry.contexts c)
    then answer_error s c (text "already logged in")
    else (elim (parse_login d) [
      | refused e ↦ answer_refusal o s c e
      | parsed (username, password) ↦
          session_of s c true (Lobby.login s.lobby.rooms (o.login username password))
    ])

-- `_on_auth`
unfoldable pub on_auth : Outside → App → ℕ → Fields → Handled
unfolding apply_session answer_refusal
on_auth o s c d = elim (parse_auth d) [
  | refused e ↦ answer_refusal o s c e
  | parsed token ↦
      session_of s c false (Lobby.authenticate s.lobby.rooms (o.authenticate token) token)
]
