-- ===== src/Server/Protocol/Messages.antt =====
-- A message of any class of Server/protocol.py, and `encode` before `json.dumps`.
use chess_kung_fu.Prelude.{◌≡◌, false, List, string_eq, int_eq, map}
use chess_kung_fu.Model.{text_eq}
use chess_kung_fu.Server.Protocol.{
  Fields, MessageType, move, ack, error, state, welcome, login, login_ok, game_over, auth, auth_ok,
  play, cancel_play, room_create, room_join, match_found, match_timeout, disconnect_countdown,
  rejoined_room, play_queued, play_cancelled, room_created, room_joined, room_update, Parsed,
  parsed, bind, Builtins, strip, is_empty,
}
use chess_kung_fu.Server.Protocol.Play.{
  MoveMessage, move_to_dict, move_from_dict, AckMessage, ack_to_dict, ack_from_dict, ErrorMessage,
  error_to_dict, error_from_dict, WelcomeMessage, welcome_to_dict, welcome_from_dict, StateMessage,
  state_to_dict, state_from_dict, PieceSnapshot, snapshot,
}
use chess_kung_fu.Server.Protocol.Accounts.{
  LoginMessage, login_to_dict, login_from_dict, LoginOkMessage, login_ok_to_dict,
  login_ok_from_dict, AuthMessage, auth_to_dict, auth_from_dict, AuthOkMessage, auth_ok_to_dict,
  auth_ok_from_dict,
}
use chess_kung_fu.Server.Protocol.Rooms.{
  PlayMessage, play_to_dict, play_from_dict, CancelPlayMessage, cancel_play_to_dict,
  cancel_play_from_dict, RoomCreateMessage, room_create_to_dict, room_create_from_dict,
  RoomJoinMessage, room_join_to_dict, room_join_from_dict, PlayQueuedMessage, play_queued_to_dict,
  play_queued_from_dict, PlayCancelledMessage, play_cancelled_to_dict, play_cancelled_from_dict,
  RoomCreatedMessage, room_created_to_dict, room_created_from_dict, RoomJoinedMessage,
  room_joined_to_dict, room_joined_from_dict, RoomUpdateMessage, room_update_to_dict,
  room_update_from_dict,
}
use chess_kung_fu.Server.Protocol.Games.{
  GameOverMessage, game_over_to_dict, game_over_from_dict, DisconnectCountdownMessage,
  disconnect_countdown_to_dict, disconnect_countdown_from_dict, RejoinedRoomMessage,
  rejoined_room_to_dict, rejoined_room_from_dict, MatchFoundMessage, match_found_to_dict,
  match_found_from_dict, MatchTimeoutMessage, match_timeout_to_dict, match_timeout_from_dict,
}

-- An object of one of the message classes.
pub data Message : Type 0 where
  move_message : MoveMessage → Message
  ack_message : AckMessage → Message
  error_message : ErrorMessage → Message
  state_message : StateMessage → Message
  welcome_message : WelcomeMessage → Message
  login_message : LoginMessage → Message
  login_ok_message : LoginOkMessage → Message
  auth_message : AuthMessage → Message
  auth_ok_message : AuthOkMessage → Message
  play_message : PlayMessage → Message
  cancel_play_message : CancelPlayMessage → Message
  room_create_message : RoomCreateMessage → Message
  room_join_message : RoomJoinMessage → Message
  game_over_message : GameOverMessage → Message
  disconnect_countdown_message : DisconnectCountdownMessage → Message
  rejoined_room_message : RejoinedRoomMessage → Message
  play_queued_message : PlayQueuedMessage → Message
  play_cancelled_message : PlayCancelledMessage → Message
  room_created_message : RoomCreatedMessage → Message
  room_joined_message : RoomJoinedMessage → Message
  room_update_message : RoomUpdateMessage → Message
  match_found_message : MatchFoundMessage → Message
  match_timeout_message : MatchTimeoutMessage → Message

-- `m.type`
abbrev pub kind : Message → MessageType
kind (move_message m) = move
kind (ack_message m) = ack
kind (error_message m) = error
kind (state_message m) = state
kind (welcome_message m) = welcome
kind (login_message m) = login
kind (login_ok_message m) = login_ok
kind (auth_message m) = auth
kind (auth_ok_message m) = auth_ok
kind (play_message m) = play
kind (cancel_play_message m) = cancel_play
kind (room_create_message m) = room_create
kind (room_join_message m) = room_join
kind (game_over_message m) = game_over
kind (disconnect_countdown_message m) = disconnect_countdown
kind (rejoined_room_message m) = rejoined_room
kind (play_queued_message m) = play_queued
kind (play_cancelled_message m) = play_cancelled
kind (room_created_message m) = room_created
kind (room_joined_message m) = room_joined
kind (room_update_message m) = room_update
kind (match_found_message m) = match_found
kind (match_timeout_message m) = match_timeout

-- `message.to_dict()` in `encode`
unfoldable pub message_to_dict : Message → Parsed Fields
message_to_dict (move_message m) = parsed (move_to_dict m)
message_to_dict (ack_message m) = parsed (ack_to_dict m)
message_to_dict (error_message m) = parsed (error_to_dict m)
message_to_dict (state_message m) = state_to_dict m
message_to_dict (welcome_message m) = parsed (welcome_to_dict m)
message_to_dict (login_message m) = parsed (login_to_dict m)
message_to_dict (login_ok_message m) = parsed (login_ok_to_dict m)
message_to_dict (auth_message m) = parsed (auth_to_dict m)
message_to_dict (auth_ok_message m) = parsed (auth_ok_to_dict m)
message_to_dict (play_message m) = parsed (play_to_dict m)
message_to_dict (cancel_play_message m) = parsed (cancel_play_to_dict m)
message_to_dict (room_create_message m) = parsed (room_create_to_dict m)
message_to_dict (room_join_message m) = parsed (room_join_to_dict m)
message_to_dict (game_over_message m) = parsed (game_over_to_dict m)
message_to_dict (disconnect_countdown_message m) = parsed (disconnect_countdown_to_dict m)
message_to_dict (rejoined_room_message m) = parsed (rejoined_room_to_dict m)
message_to_dict (play_queued_message m) = parsed (play_queued_to_dict m)
message_to_dict (play_cancelled_message m) = parsed (play_cancelled_to_dict m)
message_to_dict (room_created_message m) = parsed (room_created_to_dict m)
message_to_dict (room_joined_message m) = parsed (room_joined_to_dict m)
message_to_dict (room_update_message m) = parsed (room_update_to_dict m)
message_to_dict (match_found_message m) = parsed (match_found_to_dict m)
message_to_dict (match_timeout_message m) = parsed (match_timeout_to_dict m)

-- `from_dict` of the class with the type `t`.
unfoldable pub message_from_dict : Builtins → MessageType → Fields → Parsed Message
message_from_dict py move d = bind (move_from_dict d) (λ m. parsed (move_message m))
message_from_dict py ack d = bind (ack_from_dict d) (λ m. parsed (ack_message m))
message_from_dict py error d = bind (error_from_dict py d) (λ m. parsed (error_message m))
message_from_dict py state d = bind (state_from_dict py d) (λ m. parsed (state_message m))
message_from_dict py welcome d = bind (welcome_from_dict py d) (λ m. parsed (welcome_message m))
message_from_dict py login d = bind (login_from_dict d) (λ m. parsed (login_message m))
message_from_dict py login_ok d = bind (login_ok_from_dict py d) (λ m. parsed (login_ok_message m))
message_from_dict py auth d = bind (auth_from_dict d) (λ m. parsed (auth_message m))
message_from_dict py auth_ok d = bind (auth_ok_from_dict py d) (λ m. parsed (auth_ok_message m))
message_from_dict py play d = bind (play_from_dict d) (λ m. parsed (play_message m))
message_from_dict py cancel_play d =
    bind (cancel_play_from_dict d) (λ m. parsed (cancel_play_message m))
message_from_dict py room_create d =
    bind (room_create_from_dict d) (λ m. parsed (room_create_message m))
message_from_dict py room_join d = bind (room_join_from_dict d) (λ m. parsed (room_join_message m))
message_from_dict py game_over d =
    bind (game_over_from_dict py d) (λ m. parsed (game_over_message m))
message_from_dict py disconnect_countdown d =
    bind (disconnect_countdown_from_dict py d) (λ m. parsed (disconnect_countdown_message m))
message_from_dict py rejoined_room d =
    bind (rejoined_room_from_dict py d) (λ m. parsed (rejoined_room_message m))
message_from_dict py play_queued d =
    bind (play_queued_from_dict py d) (λ m. parsed (play_queued_message m))
message_from_dict py play_cancelled d =
    bind (play_cancelled_from_dict d) (λ m. parsed (play_cancelled_message m))
message_from_dict py room_created d =
    bind (room_created_from_dict py d) (λ m. parsed (room_created_message m))
message_from_dict py room_joined d =
    bind (room_joined_from_dict py d) (λ m. parsed (room_joined_message m))
message_from_dict py room_update d =
    bind (room_update_from_dict py d) (λ m. parsed (room_update_message m))
message_from_dict py match_found d =
    bind (match_found_from_dict py d) (λ m. parsed (match_found_message m))
message_from_dict py match_timeout d =
    bind (match_timeout_from_dict py d) (λ m. parsed (match_timeout_message m))

-- What a class wants of its fields: a trimmed name, texts that are not empty, pieces that are
-- snapshots.
abbrev pub IsClean : Message → Type 0
IsClean (login_message m) =
    (strip m.username ≡ m.username) × (is_empty m.username ≡ false) × (is_empty m.password ≡ false)
IsClean (auth_message m) = is_empty m.token ≡ false
IsClean (room_join_message m) = (strip m.room_id ≡ m.room_id) × (is_empty m.room_id ≡ false)
IsClean (state_message m) = (ps : List PieceSnapshot) × (m.pieces ≡ map snapshot ps)
IsClean _ = Unit
