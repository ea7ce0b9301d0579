-- ===== src/Server/Protocol/RoundTrip.antt =====
-- What one side sends with `to_dict`, the other reads with `from_dict`: the classes one by one.
use chess_kung_fu.Prelude.{
  ◌≡◌, ==-refl, refl, Bool, false, List, [], ◌∷◌, String, string_eq, int_eq, ap, map,
}
use chess_kung_fu.Model.{Text, text_eq, text_beq}
use chess_kung_fu.Server.Protocol.{
  Json, null, bool, number, str, array, object, Items, nil, item, Fields, parsed, bind, get_or,
  Builtins, str_of, int_of, dict_or_empty, strip, is_empty, parse_position, if_given,
}
use chess_kung_fu.Server.Protocol.Play.{
  MoveMessage, move_to_dict, move_from_dict, AckMessage, ack_to_dict, ack_from_dict, ErrorMessage,
  error_to_dict, error_from_dict, WelcomeMessage, welcome_to_dict, welcome_from_dict, StateMessage,
  state_to_dict, state_from_dict, PieceSnapshot, snapshot_to_dict, snapshot_from_dict, get_item,
  snapshot, entries_to_dict, entries_of_items, entries_of,
}
use chess_kung_fu.Server.Protocol.Accounts.{
  LoginMessage, login_to_dict, login_from_dict, LoginOkMessage, login_ok_to_dict,
  login_ok_from_dict, AuthMessage, auth_to_dict, auth_from_dict, AuthOkMessage, auth_ok_to_dict,
  auth_ok_from_dict, login_of_texts, auth_of_text,
}
use chess_kung_fu.Server.Protocol.Rooms.{
  RoomJoinMessage, room_join_to_dict, room_join_from_dict, PlayQueuedMessage, play_queued_to_dict,
  play_queued_from_dict, PlayCancelledMessage, play_cancelled_to_dict, play_cancelled_from_dict,
  RoomCreatedMessage, room_created_to_dict, room_created_from_dict, RoomJoinedMessage,
  room_joined_to_dict, room_joined_from_dict, RoomUpdateMessage, room_update_to_dict,
  room_update_from_dict, room_join_of_text,
}
use chess_kung_fu.Server.Protocol.Games.{
  GameOverMessage, game_over_to_dict, game_over_from_dict, DisconnectCountdownMessage,
  disconnect_countdown_to_dict, disconnect_countdown_from_dict, RejoinedRoomMessage,
  rejoined_room_to_dict, rejoined_room_from_dict, MatchFoundMessage, match_found_to_dict,
  match_found_from_dict, MatchTimeoutMessage, match_timeout_to_dict, match_timeout_from_dict,
}

given : (key : String) (v : Json) → get_or key null (if_given key v) ≡ v
unfolding get_or
given key null = refl
given key (bool b) = rw (==-refl key) refl
given key (number n) = rw (==-refl key) refl
given key (str t) = rw (==-refl key) refl
given key (array vs) = rw (==-refl key) refl
given key (object d) = rw (==-refl key) refl

pub move_round_trip : (m : MoveMessage) → move_from_dict (move_to_dict m) ≡ parsed m
unfolding move_to_dict move_from_dict get_or parse_position str_of int_of dict_or_empty text_beq
move_round_trip m = refl

pub ack_round_trip : (m : AckMessage) → ack_from_dict (ack_to_dict m) ≡ parsed m
unfolding ack_to_dict ack_from_dict get_or parse_position str_of int_of dict_or_empty
ack_round_trip m = ap (λ v. parsed (record m { room_id = v })) (given "room_id" m.room_id)

pub error_round_trip :
    (py : Builtins) (m : ErrorMessage) → error_from_dict py (error_to_dict m) ≡ parsed m
unfolding error_to_dict error_from_dict get_or parse_position str_of int_of dict_or_empty
error_round_trip py m = refl

pub welcome_round_trip :
    (py : Builtins) (m : WelcomeMessage) → welcome_from_dict py (welcome_to_dict m) ≡ parsed m
unfolding welcome_to_dict welcome_from_dict get_or parse_position str_of int_of dict_or_empty
welcome_round_trip py m = refl

pub login_ok_round_trip :
    (py : Builtins) (m : LoginOkMessage) → login_ok_from_dict py (login_ok_to_dict m) ≡ parsed m
unfolding login_ok_to_dict login_ok_from_dict get_or parse_position str_of int_of dict_or_empty
login_ok_round_trip py m = refl

pub auth_ok_round_trip :
    (py : Builtins) (m : AuthOkMessage) → auth_ok_from_dict py (auth_ok_to_dict m) ≡ parsed m
unfolding auth_ok_to_dict auth_ok_from_dict get_or parse_position str_of int_of dict_or_empty
auth_ok_round_trip py m = refl

pub game_over_round_trip :
    (py : Builtins) (m : GameOverMessage) → game_over_from_dict py (game_over_to_dict m) ≡ parsed m
unfolding game_over_to_dict game_over_from_dict get_or parse_position str_of int_of dict_or_empty
game_over_round_trip py m = ap (λ v. parsed (record m { room_id = v })) (given "room_id" m.room_id)

pub disconnect_countdown_round_trip :
    (py : Builtins) (m : DisconnectCountdownMessage)
    → disconnect_countdown_from_dict py (disconnect_countdown_to_dict m) ≡ parsed m
unfolding disconnect_countdown_to_dict disconnect_countdown_from_dict get_or parse_position str_of
    int_of dict_or_empty
disconnect_countdown_round_trip py m = refl

pub rejoined_room_round_trip :
    (py : Builtins) (m : RejoinedRoomMessage)
    → rejoined_room_from_dict py (rejoined_room_to_dict m) ≡ parsed m
unfolding rejoined_room_to_dict rejoined_room_from_dict get_or parse_position str_of int_of
    dict_or_empty
rejoined_room_round_trip py m = refl

pub play_queued_round_trip :
    (py : Builtins) (m : PlayQueuedMessage)
    → play_queued_from_dict py (play_queued_to_dict m) ≡ parsed m
unfolding play_queued_to_dict play_queued_from_dict get_or parse_position str_of int_of
    dict_or_empty
play_queued_round_trip py m = refl

pub play_cancelled_round_trip :
    (m : PlayCancelledMessage) → play_cancelled_from_dict (play_cancelled_to_dict m) ≡ parsed m
unfolding play_cancelled_to_dict play_cancelled_from_dict get_or parse_position str_of int_of
    dict_or_empty
play_cancelled_round_trip m = refl

pub room_created_round_trip :
    (py : Builtins) (m : RoomCreatedMessage)
    → room_created_from_dict py (room_created_to_dict m) ≡ parsed m
unfolding room_created_to_dict room_created_from_dict get_or parse_position str_of int_of
    dict_or_empty
room_created_round_trip py m = refl

pub room_joined_round_trip :
    (py : Builtins) (m : RoomJoinedMessage)
    → room_joined_from_dict py (room_joined_to_dict m) ≡ parsed m
unfolding room_joined_to_dict room_joined_from_dict get_or parse_position str_of int_of
    dict_or_empty
room_joined_round_trip py m = refl

pub room_update_round_trip :
    (py : Builtins) (m : RoomUpdateMessage)
    → room_update_from_dict py (room_update_to_dict m) ≡ parsed m
unfolding room_update_to_dict room_update_from_dict get_or parse_position str_of int_of
    dict_or_empty
room_update_round_trip py m = refl

pub match_found_round_trip :
    (py : Builtins) (m : MatchFoundMessage)
    → match_found_from_dict py (match_found_to_dict m) ≡ parsed m
unfolding match_found_to_dict match_found_from_dict get_or parse_position str_of int_of
    dict_or_empty
match_found_round_trip py m = ap (λ v. parsed (record m { color = v })) (given "color" m.color)

pub match_timeout_round_trip :
    (py : Builtins) (m : MatchTimeoutMessage)
    → match_timeout_from_dict py (match_timeout_to_dict m) ≡ parsed m
unfolding match_timeout_to_dict match_timeout_from_dict get_or parse_position str_of int_of
    dict_or_empty
match_timeout_round_trip py m = refl

pub login_round_trip :
    (u p : Text)
    → strip u ≡ u
    → is_empty u ≡ false
    → is_empty p ≡ false
    → let m : LoginMessage = record { username = u; password = p } in
      login_from_dict (login_to_dict m) ≡ parsed m
unfolding login_to_dict login_from_dict login_of_texts get_or text_beq
login_round_trip u p s hu hp = rw (s, hu, hp) refl

pub auth_round_trip :
    (t : Text)
    → is_empty t ≡ false
    → let m : AuthMessage = record { token = t } in auth_from_dict (auth_to_dict m) ≡ parsed m
unfolding auth_to_dict auth_from_dict auth_of_text get_or text_beq
auth_round_trip t h = rw h refl

pub room_join_round_trip :
    (r : Text)
    → strip r ≡ r
    → is_empty r ≡ false
    → let m : RoomJoinMessage = record { room_id = r } in
      room_join_from_dict (room_join_to_dict m) ≡ parsed m
unfolding room_join_to_dict room_join_from_dict room_join_of_text get_or text_beq
room_join_round_trip r s h = rw (s, h) refl

snapshot_round_trip :
    (py : Builtins) (p : PieceSnapshot) → snapshot_from_dict py (snapshot_to_dict p) ≡ parsed p
unfolding snapshot_from_dict snapshot_to_dict get_item int_of str_of
snapshot_round_trip py p = refl

-- The pieces of a state.
entries_json : List PieceSnapshot → Items
entries_json [] = nil
entries_json (p ∷ ps) = item (object (snapshot_to_dict p)) (entries_json ps)

entries_sent :
    (ps : List PieceSnapshot) → entries_to_dict (map snapshot ps) ≡ parsed (entries_json ps)
unfolding entries_to_dict entries_json
entries_sent [] = refl
entries_sent (p ∷ ps) = rw (entries_sent ps) refl

entries_received :
    (py : Builtins) (ps : List PieceSnapshot)
    → entries_of_items py (entries_json ps) ≡ parsed (map snapshot ps)
unfolding entries_of_items entries_json
entries_received py [] = refl
entries_received py (p ∷ ps) = rw (snapshot_round_trip py p, entries_received py ps) refl

pub state_round_trip :
    (py : Builtins) (ps : List PieceSnapshot) (score : Fields) (is_over : Bool)
    (winner room_id : Json)
    → let m : StateMessage = record {
      pieces = map snapshot ps;
      score = score;
      game_over = is_over;
      winner = winner;
      room_id = room_id;
    } in
      bind (state_to_dict m) (state_from_dict py) ≡ parsed m
unfolding state_to_dict state_from_dict entries_of get_or dict_or_empty
state_round_trip py ps score is_over winner room_id =
    rw (entries_sent ps, entries_received py ps)
      (ap
        (λ v. parsed (record {
          pieces = map snapshot ps;
          score = score;
          game_over = is_over;
          winner = winner;
          room_id = v;
        }))
        (given "room_id" room_id))
