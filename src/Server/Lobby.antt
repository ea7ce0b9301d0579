-- ===== src/Server/Lobby.antt =====
-- Server/application/lobby_service.py (`LobbyService`, over the rooms and the queue of this
-- process) and Server/application/session_service.py (`SessionService`). The time, the Elo of a
-- user, the name from `secrets.token_hex` and the answers of the authentication are arguments.
pub mod Commands
use chess_kung_fu.Prelude.{
  ℕ, ◌≡◌, Bool, true, false, not, ◌&&◌, Option, none, some, List, [], ◌∷◌, map, if◌then◌else◌,
  String, string_eq, Dict, lookup, insert, ℤ, pos,
}
use chess_kung_fu.Model.{Text, text}
use chess_kung_fu.Server.Protocol.{Fields, no_fields, Json, null, str}
use chess_kung_fu.Server.Protocol.Rooms.{
  PlayQueuedMessage, play_queued_to_dict, PlayCancelledMessage, play_cancelled_to_dict,
  RoomCreatedMessage, room_created_to_dict, RoomJoinedMessage, room_joined_to_dict,
  RoomUpdateMessage, room_update_to_dict,
}
use chess_kung_fu.Server.Rooms.{
  PlayerRole, as_white, as_black, viewer, Room, RoomMember, RoomError, already_in_a_room,
  room_not_found, user_already_in_room, room_already_exists, Result, ok, raise, RoomService,
  room_id_for_user, truthy, create_room, join_room, player_count, reconnect, member_role,
}
use chess_kung_fu.Server.Matchmaking.{
  QueueEntry, QueueStatus, queued, already_queued, enqueue, cancel,
}

-- The rooms and the queue that the lobby works on.
pub record Lobby : Type 0 where
  pub rooms : RoomService
  pub queue : List QueueEntry

-- `CommandOutcome`; `extra_payloads` stays empty.
pub record CommandOutcome : Type 0 where
  pub succeeded : Bool
  pub reason : Text
  pub payload : Fields
  pub broadcast_user_ids : List String
  pub broadcast_payload : Option Fields

abbrev pub failure : Text → CommandOutcome
failure reason = record {
  succeeded = false;
  reason = reason;
  payload = no_fields;
  broadcast_user_ids = [];
  broadcast_payload = none;
}

abbrev pub success : Fields → CommandOutcome
success payload = record {
  succeeded = true;
  reason = [];
  payload = payload;
  broadcast_user_ids = [];
  broadcast_payload = none;
}

-- `str(exc)`, for the two errors of `create_room` and `join_room`.
abbrev pub error_text : RoomError → Text
error_text room_not_found = text "room not found"
error_text _ = text "already in a room"

abbrev pub status_text : QueueStatus → Text
status_text queued = text "queued"
status_text already_queued = text "already_queued"

-- `role.value`
abbrev pub role_text : PlayerRole → Text
role_text as_white = text "w"
role_text as_black = text "b"
role_text viewer = text "viewer"

-- `role.value if role != PlayerRole.VIEWER else PlayerRole.WHITE.value`
abbrev pub color_shown : PlayerRole → Text
color_shown as_black = text "b"
color_shown _ = text "w"

unfoldable pub play : Lobby → ℕ → ℤ → String → Lobby × CommandOutcome
play s now elo user_id =
    if truthy (room_id_for_user s.rooms user_id)
    then (s, failure (text "already in a room"))
    else let (queue, status) = enqueue s.queue now elo user_id in
      (
        record s { queue = queue },
        success (play_queued_to_dict (record { status = status_text status })),
      )

unfoldable pub cancel_play : Lobby → String → Lobby × CommandOutcome
cancel_play s user_id =
    let (queue, cancelled) = cancel s.queue user_id in
    (
      record s { queue = queue },
      success (play_cancelled_to_dict (record { cancelled = cancelled })),
    )

-- What `create_room` answers when the rooms have made the room.
abbrev pub created : Lobby → String → Result RoomService → Lobby × CommandOutcome
created s token (raise e) = (s, failure (error_text e))
created s token (ok rooms) = (
  record s { rooms = rooms },
  success (
      room_created_to_dict
        (record { room_id = text token; color = text "w"; player_count = pos 1 })),
)

unfoldable pub create : Lobby → String → String → Lobby × CommandOutcome
create s token user_id = created s token (create_room s.rooms token user_id)

abbrev pub joined_outcome : String → String → PlayerRole → Dict String RoomMember → CommandOutcome
joined_outcome room_id user_id role members =
    let players = pos (player_count members) in
    record {
      succeeded = true;
      reason = [];
      payload = room_joined_to_dict (record {
        room_id = text room_id;
        role = role_text role;
        color = color_shown role;
        player_count = players;
      });
      broadcast_user_ids = map (λ e. e.0) members;
      broadcast_payload = some (
          room_update_to_dict (record {
            room_id = text room_id;
            player_count = players;
            joined = text user_id;
            role = role_text role;
          }));
    }

-- The members of a room, none if there is no such room.
abbrev pub members_of : RoomService → String → Dict String RoomMember
members_of rooms room_id = elim (lookup room_id rooms.rooms) [
  | none ↦ []
  | some room ↦ room.members
]

-- What `join_room` answers when the rooms have let the user in.
abbrev pub joined :
    Lobby → String → String → Result (RoomService × PlayerRole) → Lobby × CommandOutcome
joined s user_id room_id (raise e) = (s, failure (error_text e))
joined s user_id room_id (ok (rooms, role)) =
    (record s { rooms = rooms }, joined_outcome room_id user_id role (members_of rooms room_id))

unfoldable pub join : Lobby → String → String → Lobby × CommandOutcome
join s user_id room_id = joined s user_id room_id (join_room s.rooms room_id user_id)

-- `User`, as far as it goes into a session, and the answer of `AuthService.login`.
pub record Identity : Type 0 where
  pub user_id : String
  pub username : Text
  pub elo : ℤ

pub record LoginResult : Type 0 where
  pub granted : Bool
  pub user : Option Identity
  pub token : Option Text
  pub reason : Text

-- `SessionOutcome`
pub record SessionOutcome : Type 0 where
  pub succeeded : Bool
  pub reason : Text
  pub identity : Option Identity
  pub token : Option Text
  pub rejoin_room_id : Option String
  pub rejoin_color : Option Text

abbrev pub no_session : Text → SessionOutcome
no_session reason = record {
  succeeded = false;
  reason = reason;
  identity = none;
  token = none;
  rejoin_room_id = none;
  rejoin_color = none;
}

-- `role.value if role and role != PlayerRole.VIEWER else PlayerRole.VIEWER.value`
abbrev pub rejoin_text : Option PlayerRole → Text
rejoin_text none = text "viewer"
rejoin_text (some role) = role_text role

-- `if room_id:`
abbrev pub rejoin_color_of : RoomService → String → Option String → Option Text
rejoin_color_of rooms user_id none = none
rejoin_color_of rooms user_id (some room_id) =
    if truthy (some room_id) then some (rejoin_text (member_role rooms room_id user_id)) else none

-- `_finalize`
unfoldable pub finalize : RoomService → Identity → Text → RoomService × SessionOutcome
finalize rooms user token =
    let (rooms', room_id) = reconnect rooms user.user_id in
    (
      rooms',
      record {
        succeeded = true;
        reason = [];
        identity = some user;
        token = some token;
        rejoin_room_id = room_id;
        rejoin_color = rejoin_color_of rooms' user.user_id room_id;
      },
    )

-- `login`, with the answer of `self._auth.login`
unfoldable pub login : RoomService → LoginResult → RoomService × SessionOutcome
unfolding finalize
login rooms result = elim result.user [
  | none ↦ (rooms, no_session result.reason)
  | some user ↦ (elim result.token [
    | none ↦ (rooms, no_session result.reason)
    | some token ↦
        if not result.granted then (rooms, no_session result.reason) else finalize rooms user token
  ])
]

-- `authenticate`, with the answer of `self._auth.authenticate`
unfoldable pub authenticate : RoomService → Option Identity → Text → RoomService × SessionOutcome
unfolding finalize
authenticate rooms none token = (rooms, no_session (text "invalid or expired token"))
authenticate rooms (some user) token = finalize rooms user token
