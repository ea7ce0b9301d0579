-- ===== src/Server/Router/Dispatch.antt =====
-- Server/transport/message_router.py: the commands and moves of a user, `_dispatch`, `handle_raw`.
use chess_kung_fu.Prelude.{
  ℕ, true, not, Option, none, some, [], ◌∷◌, ◌++◌, if◌then◌else◌, ◌==◌, String, string_eq, Dict,
  lookup,
}
use chess_kung_fu.Model.{Text, text, text_eq, string_of}
use chess_kung_fu.Server.Protocol.{
  Json, str, Fields, value, parsed, refused, get, play, cancel_play as cancel_type, room_create,
  room_join, move, login as login_type, auth as auth_type, decode,
}
use chess_kung_fu.Server.Protocol.Play.{ack_to_dict}
use chess_kung_fu.Server.Protocol.Make.{make_error, parse_move, parse_room_join}
use chess_kung_fu.Server.Games.{
  GameService, MoveOutcome, Reason, fine, game_already_over, not_your_piece, illegal_move,
  no_active_game, not_in_a_room, viewers_cannot_move, submit_move,
}
use chess_kung_fu.Server.Lobby
use chess_kung_fu.Server.Lobby.{
  Lobby, CommandOutcome, Identity, LoginResult, SessionOutcome, cancel_play,
}
use chess_kung_fu.Server.Connections.{broadcast_users}
use chess_kung_fu.Server.Router.State.{
  App, Outside, Sent, Handled, handled, send, answer_error, answer_refusal, games_of, with_lobby,
  send_command_outcome,
}
use chess_kung_fu.Server.Router.Sessions.{on_login, on_auth}

-- A command of the lobby, its callbacks, and its answer.
unfoldable pub on_command : Outside → App → ℕ → Lobby × CommandOutcome → Handled
unfolding send_command_outcome
on_command o s c (lobby, outcome) = send_command_outcome (with_lobby o s lobby) c outcome

-- `_on_room_join`
unfoldable pub on_room_join : Outside → App → ℕ → String → Fields → Handled
unfolding on_command answer_refusal
on_room_join o s c user_id d = elim (parse_room_join d) [
  | refused e ↦ answer_refusal o s c e
  | parsed room_id ↦ on_command o s c (Lobby.join s.lobby user_id (string_of room_id))
]

-- `outcome.reason`
abbrev pub reason_text : Reason → Text
reason_text fine = []
reason_text game_already_over = text "game already over"
reason_text not_your_piece = text "not your piece"
reason_text illegal_move = text "illegal move"
reason_text no_active_game = text "no active game"
reason_text not_in_a_room = text "not in a room"
reason_text viewers_cannot_move = text "viewers cannot move"

-- The acknowledgement of a move to all members; an empty name of the room fails the `assert`.
abbrev pub acknowledge : App → MoveOutcome → Handled
acknowledge s outcome = elim outcome.room_id [
  | none ↦ record { app = s; sent = []; raised = true }
  | some room_id ↦ (elim outcome.start [
    | none ↦ record { app = s; sent = []; raised = true }
    | some start ↦ (elim outcome.end [
      | none ↦ record { app = s; sent = []; raised = true }
      | some end ↦
          if room_id == ""
          then record { app = s; sent = []; raised = true }
          else handled s (
              broadcast_users s.registry outcome.member_ids (
                ack_to_dict (record {
                  start = start;
                  end = end;
                  accepted = true;
                  room_id = str (text room_id);
                })))
    ])
  ])
]

abbrev pub with_games : App → GameService → App
with_games s games = record s { engines = games.engines; published = games.published }

abbrev pub move_answer : App → ℕ → GameService × MoveOutcome → Handled
move_answer s c (games, outcome) =
    if not outcome.ok
    then answer_error (with_games s games) c (reason_text outcome.reason)
    else acknowledge (with_games s games) outcome

-- `_on_move`
unfoldable pub on_move : Outside → App → ℕ → String → Fields → Handled
unfolding answer_refusal
on_move o s c user_id d = elim (parse_move d) [
  | refused e ↦ answer_refusal o s c e
  | parsed (start, end) ↦ move_answer s c (submit_move (games_of s) user_id start end)
]

-- The handlers of a user who is logged in.
pub data Handler : Type 0 where
  handle_play handle_cancel_play handle_room_create handle_room_join handle_move : Handler

-- `_authed_handlers`
abbrev pub authed_handlers : Dict Text Handler
authed_handlers =
    (text (value play), handle_play)
    ∷ (text (value cancel_type), handle_cancel_play)
    ∷ (text (value room_create), handle_room_create)
    ∷ (text (value room_join), handle_room_join)
    ∷ (text (value move), handle_move)
    ∷ []

unfoldable pub run_handler : Handler → Outside → App → ℕ → String → Fields → Handled
unfolding on_command on_room_join on_move
run_handler handle_play o s c user_id d =
    on_command o s c (Lobby.play s.lobby o.now (o.elo user_id) user_id)
run_handler handle_cancel_play o s c user_id d =
    on_command o s c (Lobby.cancel_play s.lobby user_id)
run_handler handle_room_create o s c user_id d =
    on_command o s c (Lobby.create s.lobby o.token_hex user_id)
run_handler handle_room_join o s c user_id d = on_room_join o s c user_id d
run_handler handle_move o s c user_id d = on_move o s c user_id d

-- `ctx.authenticated and ctx.user_id`
abbrev pub current_user : App → ℕ → Option String
current_user s c = elim (s.registry.contexts c).user_id [
  | none ↦ none
  | some user_id ↦ if user_id == "" then none else some user_id
]

-- `_dispatch` past the public handlers
unfoldable pub dispatch_authed : Outside → App → ℕ → Text → Fields → Handled
unfolding run_handler
dispatch_authed o s c msg_type d = elim (current_user s c) [
  | none ↦ answer_error s c (text "please login first")
  | some user_id ↦ (elim (lookup msg_type authed_handlers) [
    | none ↦ answer_error s c (text "unknown message type: " ++ msg_type)
    | some handler ↦ run_handler handler o s c user_id d
  ])
]

-- `_dispatch`, with the two entries of `_public_handlers`
unfoldable pub dispatch : Outside → App → ℕ → Text → Fields → Handled
unfolding dispatch_authed on_login on_auth
dispatch o s c msg_type d =
    if msg_type == text (value login_type)
    then on_login o s c d
    else if msg_type == text (value auth_type)
    then on_auth o s c d
    else dispatch_authed o s c msg_type d

-- `except Exception`: the error is answered, what has changed stays.
abbrev pub after_dispatch : ℕ → Handled → App × Sent
after_dispatch c h = (
  h.app,
  h.sent ++ (if h.raised then send h.app c (make_error (text "internal server error")) else []),
)

-- The text of `data["type"]`, which `decode` has checked.
abbrev pub type_text_of : Fields → Text
type_text_of d = elim (get "type" d) [ str t ↦ t | _ ↦ [] ]

-- `handle_raw`
unfoldable pub handle_raw : Outside → App → ℕ → Option Json → App × Sent
unfolding dispatch answer_refusal
handle_raw o s c raw = elim (decode raw) [
  | refused e ↦ (s, (answer_refusal o s c e).sent)
  | parsed d ↦ after_dispatch c (dispatch o s c (type_text_of d) d)
]
