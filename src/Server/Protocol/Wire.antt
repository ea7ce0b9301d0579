-- ===== src/Server/Protocol/Wire.antt =====
-- What is sent as a message of one class is read as that message.
use chess_kung_fu.Prelude.{◌≡◌, refl, some, string_eq, int_eq}
use chess_kung_fu.Model.{text, text_eq}
use chess_kung_fu.Server.Protocol.{
  str, object, Items, Fields, MessageType, value, move, ack, error, state, welcome, login, login_ok,
  game_over, auth, auth_ok, play, cancel_play, room_create, room_join, match_found, match_timeout,
  disconnect_countdown, rejoined_room, play_queued, play_cancelled, room_created, room_joined,
  room_update, Parsed, parsed, refused, bind, decode, get_or, get, typed,
}
use chess_kung_fu.Server.Protocol.Play.{
  move_to_dict, ack_to_dict, error_to_dict, welcome_to_dict, StateMessage, state_to_dict,
  entries_to_dict,
}
use chess_kung_fu.Server.Protocol.Accounts.{
  login_to_dict, login_ok_to_dict, auth_to_dict, auth_ok_to_dict,
}
use chess_kung_fu.Server.Protocol.Rooms.{
  play_to_dict, cancel_play_to_dict, room_create_to_dict, room_join_to_dict, play_queued_to_dict,
  play_cancelled_to_dict, room_created_to_dict, room_joined_to_dict, room_update_to_dict,
}
use chess_kung_fu.Server.Protocol.Games.{
  game_over_to_dict, disconnect_countdown_to_dict, rejoined_room_to_dict, match_found_to_dict,
  match_timeout_to_dict,
}
use chess_kung_fu.Server.Protocol.Messages.{
  Message, kind, message_to_dict, move_message, ack_message, error_message, state_message,
  welcome_message, login_message, login_ok_message, auth_message, auth_ok_message, play_message,
  cancel_play_message, room_create_message, room_join_message, game_over_message,
  disconnect_countdown_message, rejoined_room_message, play_queued_message, play_cancelled_message,
  room_created_message, room_joined_message, room_update_message, match_found_message,
  match_timeout_message,
}

decode-typed :
    (t : MessageType) (d : Fields) → decode (some (object (typed t d))) ≡ parsed (typed t d)
unfolding decode get_or
decode-typed move d = refl
decode-typed ack d = refl
decode-typed error d = refl
decode-typed state d = refl
decode-typed welcome d = refl
decode-typed login d = refl
decode-typed login_ok d = refl
decode-typed auth d = refl
decode-typed auth_ok d = refl
decode-typed play d = refl
decode-typed cancel_play d = refl
decode-typed room_create d = refl
decode-typed room_join d = refl
decode-typed game_over d = refl
decode-typed disconnect_countdown d = refl
decode-typed rejoined_room d = refl
decode-typed play_queued d = refl
decode-typed play_cancelled d = refl
decode-typed room_created d = refl
decode-typed room_joined d = refl
decode-typed room_update d = refl
decode-typed match_found d = refl
decode-typed match_timeout d = refl

abbrev pub Decodes : Message → Parsed Fields → Type 0
Decodes m (parsed d) =
    (get "type" d ≡ str (text (value (kind m)))) × (decode (some (object d)) ≡ parsed d)
Decodes m (refused e) = Unit

bind-Decodes :
    (m : Message) (r : Parsed Items) (f : Items → Fields)
    → ((vs : Items) → Decodes m (parsed (f vs)))
    → Decodes m (bind r (λ vs. parsed (f vs)))
bind-Decodes m (parsed vs) f h = h vs
bind-Decodes m (refused e) f h = tt

state-Decodes : (m : StateMessage) → Decodes (state_message m) (state_to_dict m)
unfolding state_to_dict get_or
state-Decodes m =
    bind-Decodes (state_message m) (entries_to_dict m.pieces) _ (λ vs. (refl, decode-typed state _))

-- `decode` lets every message through that was made of one of the classes, and finds its type.
pub message-Decodes : (m : Message) → Decodes m (message_to_dict m)
unfolding message_to_dict get_or move_to_dict ack_to_dict error_to_dict welcome_to_dict
    login_to_dict login_ok_to_dict auth_to_dict auth_ok_to_dict play_to_dict cancel_play_to_dict
    room_create_to_dict room_join_to_dict game_over_to_dict disconnect_countdown_to_dict
    rejoined_room_to_dict play_queued_to_dict play_cancelled_to_dict room_created_to_dict
    room_joined_to_dict room_update_to_dict match_found_to_dict match_timeout_to_dict
message-Decodes (move_message m) = (refl, decode-typed move _)
message-Decodes (ack_message m) = (refl, decode-typed ack _)
message-Decodes (error_message m) = (refl, decode-typed error _)
message-Decodes (state_message m) = state-Decodes m
message-Decodes (welcome_message m) = (refl, decode-typed welcome _)
message-Decodes (login_message m) = (refl, decode-typed login _)
message-Decodes (login_ok_message m) = (refl, decode-typed login_ok _)
message-Decodes (auth_message m) = (refl, decode-typed auth _)
message-Decodes (auth_ok_message m) = (refl, decode-typed auth_ok _)
message-Decodes (play_message m) = (refl, decode-typed play _)
message-Decodes (cancel_play_message m) = (refl, decode-typed cancel_play _)
message-Decodes (room_create_message m) = (refl, decode-typed room_create _)
message-Decodes (room_join_message m) = (refl, decode-typed room_join _)
message-Decodes (game_over_message m) = (refl, decode-typed game_over _)
message-Decodes (disconnect_countdown_message m) = (refl, decode-typed disconnect_countdown _)
message-Decodes (rejoined_room_message m) = (refl, decode-typed rejoined_room _)
message-Decodes (play_queued_message m) = (refl, decode-typed play_queued _)
message-Decodes (play_cancelled_message m) = (refl, decode-typed play_cancelled _)
message-Decodes (room_created_message m) = (refl, decode-typed room_created _)
message-Decodes (room_joined_message m) = (refl, decode-typed room_joined _)
message-Decodes (room_update_message m) = (refl, decode-typed room_update _)
message-Decodes (match_found_message m) = (refl, decode-typed match_found _)
message-Decodes (match_timeout_message m) = (refl, decode-typed match_timeout _)
