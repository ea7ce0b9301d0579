-- ===== src/Server/Gateway.antt =====
-- The gateway's side of the shards, Server/infrastructure/: messaging/remote_proxies.py
-- (`RemoteLobbyProxy`, `RemoteGameProxy`), messaging/redis_room_rejoin.py (`RedisRoomRejoinProxy`)
-- and matchmaking/gateway_client.py (`RedisMatchmakingGateway`). Redis is an argument; `call` is
-- `GameCommandBus.call`: the reply that a shard, or a timeout, gives to a command.
pub mod Rejoins
use chess_kung_fu.Prelude.{
  ℕ, Bool, true, false, Option, none, some, List, [], ◌∷◌, if◌then◌else◌, ◌==◌, String, ℤ, Dict,
  lookup, insert,
}
use chess_kung_fu.Model.{Text, text, text_eq}
use chess_kung_fu.Server.Protocol.{Fields, no_fields}
use chess_kung_fu.Server.Protocol.Rooms.{play_queued_to_dict, play_cancelled_to_dict}
use chess_kung_fu.Server.Rooms.{PlayerRole, as_white, as_black, viewer}
use chess_kung_fu.Server.Lobby.{status_text}
use chess_kung_fu.Server.Matchmaking.{QueueStatus}
use chess_kung_fu.Server.Matchmaking.Workers.{enqueue_user, cancel_user}
use chess_kung_fu.Server.Redis.{Keys, Waiting}
use chess_kung_fu.Server.Allocator.{
  shard_for, shard_for_user, room_for_user, unbind_player, pick_shard,
}

pub data Command : Type 0 where
  room_create player_reconnect : Text → Command
  room_join : Text → Text → Command
  move : Text → ℤ × ℤ → ℤ × ℤ → Command
  get_state : Text → Command

-- What the proxies read of a reply; what it has not is `none`, or empty.
pub record Reply : Type 0 where
  pub accepted : Bool
  pub error : Option Text
  pub room_id : Option Text
  pub color : Option Text
  pub payload : Fields
  pub broadcast_user_ids : List Text
  pub broadcast_payload : Option Fields
  pub extra_payloads : List Fields
  pub start : Option (ℤ × ℤ)
  pub end : Option (ℤ × ℤ)
  pub member_ids : List Text

-- `x or default`, of a text that may be missing.
abbrev pub text_or : Option Text → Text → Text
text_or none default = default
text_or (some []) default = default
text_or (some (c ∷ cs)) default = c ∷ cs

-- `reply.get("error", default)`
abbrev pub error_of : Reply → Text → Text
error_of reply default = elim reply.error [ none ↦ default | some e ↦ e ]

-- `CommandOutcome`, of a reply.
pub record RemoteOutcome : Type 0 where
  pub succeeded : Bool
  pub reason : Text
  pub payload : Fields
  pub broadcast_user_ids : List Text
  pub broadcast_payload : Option Fields
  pub extra_payloads : List Fields

abbrev pub remote_answer : Fields → RemoteOutcome
remote_answer payload = record {
  succeeded = true;
  reason = [];
  payload = payload;
  broadcast_user_ids = [];
  broadcast_payload = none;
  extra_payloads = [];
}

abbrev pub remote_failure : Text → RemoteOutcome
remote_failure reason = record {
  succeeded = false;
  reason = reason;
  payload = no_fields;
  broadcast_user_ids = [];
  broadcast_payload = none;
  extra_payloads = [];
}

abbrev pub to_command_outcome : Reply → RemoteOutcome
to_command_outcome reply =
    if reply.accepted
    then (record {
      succeeded = true;
      reason = [];
      payload = reply.payload;
      broadcast_user_ids = reply.broadcast_user_ids;
      broadcast_payload = reply.broadcast_payload;
      extra_payloads = reply.extra_payloads;
    })
    else remote_failure (error_of reply (text "game error"))

-- `MoveOutcome`, of a reply.
pub record RemoteMove : Type 0 where
  pub succeeded : Bool
  pub reason : Text
  pub room_id : Option Text
  pub start : Option (ℤ × ℤ)
  pub end : Option (ℤ × ℤ)
  pub member_ids : List Text

abbrev pub no_move : Text → RemoteMove
no_move reason = record {
  succeeded = false;
  reason = reason;
  room_id = none;
  start = none;
  end = none;
  member_ids = [];
}

abbrev pub to_move_outcome : Reply → RemoteMove
to_move_outcome reply =
    if reply.accepted
    then (record {
      succeeded = true;
      reason = [];
      room_id = reply.room_id;
      start = reply.start;
      end = reply.end;
      member_ids = reply.member_ids;
    })
    else no_move (error_of reply (text "move failed"))

-- A shard that is found: neither missing nor empty.
abbrev pub found_shard : Option Text → Option Text
found_shard none = none
found_shard (some []) = none
found_shard (some (c ∷ cs)) = some (c ∷ cs)

-- `RemoteLobbyProxy.play` and `cancel_play`, over `RedisMatchmakingGateway`.
module _ {Q : Type 0} (rq : Waiting Q) (get_elo : String → ℤ) where
  unfoldable pub play : Q → ℕ → String → Q × RemoteOutcome
  unfolding enqueue_user
  play q now user_id =
      let (q', status) = enqueue_user rq q now user_id (get_elo user_id) in
      (q', remote_answer (play_queued_to_dict (record { status = status_text status })))

  unfoldable pub cancel_play : Q → String → Q × RemoteOutcome
  unfolding cancel_user
  cancel_play q user_id =
      let (q', cancelled) = cancel_user rq q user_id in
      (q', remote_answer (play_cancelled_to_dict (record { cancelled = cancelled })))

-- `_color_to_role`
abbrev pub color_to_role : Text → PlayerRole
color_to_role color =
    if color == text "w" then as_white else if color == text "b" then as_black else viewer

-- `RedisRoomRejoinProxy`, with the keys of its allocator.
pub record Rejoin (K : Type 0) : Type 0 where
  pub keys : K
  pub role_by_user : Dict Text (Text × PlayerRole)

module _ {K : Type 0} (rk : Keys K) (call : Text → Command → Reply) where
  -- `create_room`; `none` is an exception.
  unfoldable pub create_room : List Text → K → Text → Option (K × RemoteOutcome)
  unfolding pick_shard
  create_room shards k user_id =
      let (k', picked) = pick_shard rk shards k in
      (elim picked [
        | none ↦ none
        | some shard ↦ some (k', to_command_outcome (call shard (room_create user_id)))
      ])

  unfoldable pub join_room : K → Text → Text → RemoteOutcome
  join_room k user_id room_id = elim (found_shard (shard_for rk k room_id)) [
    | none ↦ remote_failure (text "room not found on any shard")
    | some shard ↦ to_command_outcome (call shard (room_join user_id room_id))
  ]

  unfoldable pub submit_move : K → Text → ℤ × ℤ → ℤ × ℤ → RemoteMove
  unfolding shard_for_user
  submit_move k user_id start end = elim (found_shard (shard_for_user rk k user_id)) [
    | none ↦ no_move (text "not in a game on any shard")
    | some shard ↦ to_move_outcome (call shard (move user_id start end))
  ]

  unfoldable pub build_state_dict : K → Text → Fields
  build_state_dict k room_id = elim (found_shard (shard_for rk k room_id)) [
    | none ↦ no_fields
    | some shard ↦
        let reply = call shard (get_state room_id) in
        if reply.accepted then reply.payload else no_fields
  ]

  -- What `reconnect` does with the reply of the shard.
  unfoldable pub rejoined : Rejoin K → Text → Text → Reply → Rejoin K × Option Text
  rejoined s user_id room_id reply =
      let joined_room = text_or reply.room_id room_id in
      let role = color_to_role (text_or reply.color []) in
      if reply.accepted
      then (
        record s { role_by_user = insert user_id (joined_room, role) s.role_by_user },
        some joined_room,
      )
      else (record s { keys = unbind_player rk s.keys user_id }, none)

  unfoldable pub reconnect : Rejoin K → Text → Rejoin K × Option Text
  unfolding rejoined
  reconnect s user_id = elim (found_shard (room_for_user rk s.keys user_id)) [
    | none ↦ (s, none)
    | some room_id ↦ (elim (found_shard (shard_for rk s.keys room_id)) [
      | none ↦ (record s { keys = unbind_player rk s.keys user_id }, none)
      | some shard ↦ rejoined s user_id room_id (call shard (player_reconnect user_id))
    ])
  ]

unfoldable pub member_role : {K : Type 0} → Rejoin K → Text → Text → Option PlayerRole
member_role s room_id user_id = elim (lookup user_id s.role_by_user) [
  | none ↦ none
  | some (known, role) ↦ if known == room_id then some role else none
]
