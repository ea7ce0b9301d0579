-- ===== src/Server/Protocol/Games.antt =====
-- The messages of a match as a whole, of Server/protocol.py: the classes `GameOverMessage`,
-- `DisconnectCountdownMessage`, `RejoinedRoomMessage`, `MatchFoundMessage` and `MatchTimeoutMessage`.
use chess_kung_fu.Prelude.{[], string_eq, ℤ, pos, int_eq}
use chess_kung_fu.Model.{Text, text_eq}
use chess_kung_fu.Server.Protocol.{
  Json, number, str, object, Fields, no_fields, field, game_over, match_found, match_timeout,
  disconnect_countdown, rejoined_room, Parsed, parsed, bind, get_or, get, Builtins, str_of, int_of,
  dict_or_empty, typed, if_given,
}

-- `GameOverMessage`
pub record GameOverMessage : Type 0 where
  pub winner : Text
  pub ratings : Fields
  pub room_id : Json

unfoldable pub game_over_to_dict : GameOverMessage → Fields
game_over_to_dict m = typed game_over (
    field "winner" (str m.winner)
      (field "ratings" (object m.ratings) (if_given "room_id" m.room_id)))

unfoldable pub game_over_from_dict : Builtins → Fields → Parsed GameOverMessage
game_over_from_dict py d = bind (dict_or_empty py (get "ratings" d)) (λ ratings. parsed (record {
  winner = str_of py (get_or "winner" (str []) d);
  ratings = ratings;
  room_id = get "room_id" d;
}))

-- `DisconnectCountdownMessage`
pub record DisconnectCountdownMessage : Type 0 where
  pub room_id : Text
  pub user_id : Text
  pub seconds_left : ℤ

unfoldable pub disconnect_countdown_to_dict : DisconnectCountdownMessage → Fields
disconnect_countdown_to_dict m = typed disconnect_countdown (
    field "room_id" (str m.room_id)
      (field "user_id" (str m.user_id) (field "seconds_left" (number m.seconds_left) no_fields)))

unfoldable pub disconnect_countdown_from_dict :
    Builtins → Fields → Parsed DisconnectCountdownMessage
disconnect_countdown_from_dict py d =
    bind (int_of py (get_or "seconds_left" (number (pos 0)) d)) (λ seconds_left. parsed (record {
      room_id = str_of py (get_or "room_id" (str []) d);
      user_id = str_of py (get_or "user_id" (str []) d);
      seconds_left = seconds_left;
    }))

-- `RejoinedRoomMessage`
pub record RejoinedRoomMessage : Type 0 where
  pub room_id : Text
  pub color : Json

unfoldable pub rejoined_room_to_dict : RejoinedRoomMessage → Fields
rejoined_room_to_dict m =
    typed rejoined_room (field "room_id" (str m.room_id) (field "color" m.color no_fields))

unfoldable pub rejoined_room_from_dict : Builtins → Fields → Parsed RejoinedRoomMessage
rejoined_room_from_dict py d =
    parsed (record { room_id = str_of py (get_or "room_id" (str []) d); color = get "color" d })

-- `MatchFoundMessage`
pub record MatchFoundMessage : Type 0 where
  pub room_id : Text
  pub players : Fields
  pub color : Json

unfoldable pub match_found_to_dict : MatchFoundMessage → Fields
match_found_to_dict m = typed match_found (
    field "room_id" (str m.room_id) (field "players" (object m.players) (if_given "color" m.color)))

unfoldable pub match_found_from_dict : Builtins → Fields → Parsed MatchFoundMessage
match_found_from_dict py d = bind (dict_or_empty py (get "players" d)) (λ players. parsed (record {
  room_id = str_of py (get_or "room_id" (str []) d);
  players = players;
  color = get "color" d;
}))

-- `MatchTimeoutMessage`
pub record MatchTimeoutMessage : Type 0 where
  pub reason : Text

unfoldable pub match_timeout_to_dict : MatchTimeoutMessage → Fields
match_timeout_to_dict m = typed match_timeout (field "reason" (str m.reason) no_fields)

unfoldable pub match_timeout_from_dict : Builtins → Fields → Parsed MatchTimeoutMessage
match_timeout_from_dict py d = parsed (record { reason = str_of py (get_or "reason" (str []) d) })
