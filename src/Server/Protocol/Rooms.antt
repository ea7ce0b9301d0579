-- ===== src/Server/Protocol/Rooms.antt =====
-- The messages of the lobby, of Server/protocol.py: the classes `PlayMessage`, `CancelPlayMessage`,
-- `RoomCreateMessage`, `RoomJoinMessage`, `PlayQueuedMessage`, `PlayCancelledMessage`,
-- `RoomCreatedMessage`, `RoomJoinedMessage` and `RoomUpdateMessage`.
use chess_kung_fu.Prelude.{Bool, false, not, [], if◌then◌else◌, string_eq, ℤ, pos, int_eq}
use chess_kung_fu.Model.{Text, text, text_eq}
use chess_kung_fu.Server.Protocol.{
  Json, bool, number, str, Fields, no_fields, field, value, play, cancel_play, room_create,
  room_join, play_queued, play_cancelled, room_created, room_joined, room_update, unexpected_type,
  not_a_text, Parsed, parsed, refused, bind, get_or, get, Builtins, truth, str_of, int_of, strip,
  is_empty, typed, is_text,
}

-- `PlayMessage`, which has no fields.
pub record PlayMessage : Type 0 where

unfoldable pub play_to_dict : PlayMessage → Fields
play_to_dict m = typed play no_fields

unfoldable pub play_from_dict : Fields → Parsed PlayMessage
play_from_dict d = parsed (record {})

-- `CancelPlayMessage`, which has no fields.
pub record CancelPlayMessage : Type 0 where

unfoldable pub cancel_play_to_dict : CancelPlayMessage → Fields
cancel_play_to_dict m = typed cancel_play no_fields

unfoldable pub cancel_play_from_dict : Fields → Parsed CancelPlayMessage
cancel_play_from_dict d = parsed (record {})

-- `RoomCreateMessage`, which has no fields.
pub record RoomCreateMessage : Type 0 where

unfoldable pub room_create_to_dict : RoomCreateMessage → Fields
room_create_to_dict m = typed room_create no_fields

unfoldable pub room_create_from_dict : Fields → Parsed RoomCreateMessage
room_create_from_dict d = parsed (record {})

-- `RoomJoinMessage`
pub record RoomJoinMessage : Type 0 where
  pub room_id : Text

unfoldable pub room_join_to_dict : RoomJoinMessage → Fields
room_join_to_dict m = typed room_join (field "room_id" (str m.room_id) no_fields)

unfoldable pub room_join_of_text : Json → Parsed RoomJoinMessage
room_join_of_text (str t) =
    if is_empty (strip t)
    then refused (not_a_text "room_id")
    else parsed (record { room_id = strip t })
room_join_of_text _ = refused (not_a_text "room_id")

unfoldable pub room_join_from_dict : Fields → Parsed RoomJoinMessage
unfolding room_join_of_text
room_join_from_dict d =
    if not (is_text (get "type" d) (text (value room_join)))
    then refused (unexpected_type room_join (get "type" d))
    else room_join_of_text (get "room_id" d)

-- `PlayQueuedMessage`
pub record PlayQueuedMessage : Type 0 where
  pub status : Text

unfoldable pub play_queued_to_dict : PlayQueuedMessage → Fields
play_queued_to_dict m = typed play_queued (field "status" (str m.status) no_fields)

unfoldable pub play_queued_from_dict : Builtins → Fields → Parsed PlayQueuedMessage
play_queued_from_dict py d = parsed (record { status = str_of py (get_or "status" (str []) d) })

-- `PlayCancelledMessage`
pub record PlayCancelledMessage : Type 0 where
  pub cancelled : Bool

unfoldable pub play_cancelled_to_dict : PlayCancelledMessage → Fields
play_cancelled_to_dict m = typed play_cancelled (field "cancelled" (bool m.cancelled) no_fields)

unfoldable pub play_cancelled_from_dict : Fields → Parsed PlayCancelledMessage
play_cancelled_from_dict d =
    parsed (record { cancelled = truth (get_or "cancelled" (bool false) d) })

-- `RoomCreatedMessage`
pub record RoomCreatedMessage : Type 0 where
  pub room_id : Text
  pub color : Text
  pub player_count : ℤ

unfoldable pub room_created_to_dict : RoomCreatedMessage → Fields
room_created_to_dict m = typed room_created (
    field "room_id" (str m.room_id)
      (field "color" (str m.color) (field "player_count" (number m.player_count) no_fields)))

unfoldable pub room_created_from_dict : Builtins → Fields → Parsed RoomCreatedMessage
room_created_from_dict py d =
    bind (int_of py (get_or "player_count" (number (pos 0)) d)) (λ player_count. parsed (record {
      room_id = str_of py (get_or "room_id" (str []) d);
      color = str_of py (get_or "color" (str []) d);
      player_count = player_count;
    }))

-- `RoomJoinedMessage`
pub record RoomJoinedMessage : Type 0 where
  pub room_id : Text
  pub role : Text
  pub color : Text
  pub player_count : ℤ

unfoldable pub room_joined_to_dict : RoomJoinedMessage → Fields
room_joined_to_dict m = typed room_joined (
    field "room_id" (str m.room_id) (
      field "role" (str m.role)
        (field "color" (str m.color) (field "player_count" (number m.player_count) no_fields))))

unfoldable pub room_joined_from_dict : Builtins → Fields → Parsed RoomJoinedMessage
room_joined_from_dict py d =
    bind (int_of py (get_or "player_count" (number (pos 0)) d)) (λ player_count. parsed (record {
      room_id = str_of py (get_or "room_id" (str []) d);
      role = str_of py (get_or "role" (str []) d);
      color = str_of py (get_or "color" (str []) d);
      player_count = player_count;
    }))

-- `RoomUpdateMessage`
pub record RoomUpdateMessage : Type 0 where
  pub room_id : Text
  pub player_count : ℤ
  pub joined : Text
  pub role : Text

unfoldable pub room_update_to_dict : RoomUpdateMessage → Fields
room_update_to_dict m = typed room_update (
    field "room_id" (str m.room_id) (
      field "player_count" (number m.player_count)
        (field "joined" (str m.joined) (field "role" (str m.role) no_fields))))

unfoldable pub room_update_from_dict : Builtins → Fields → Parsed RoomUpdateMessage
room_update_from_dict py d =
    bind (int_of py (get_or "player_count" (number (pos 0)) d)) (λ player_count. parsed (record {
      room_id = str_of py (get_or "room_id" (str []) d);
      player_count = player_count;
      joined = str_of py (get_or "joined" (str []) d);
      role = str_of py (get_or "role" (str []) d);
    }))
