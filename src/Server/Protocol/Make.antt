-- ===== src/Server/Protocol/Make.antt =====
-- The helpers at the end of Server/protocol.py, `parse_move` to `make_disconnect_countdown`.
use chess_kung_fu.Prelude.{
  ◌≡◌, refl, Bool, List, [], ◌∷◌, if◌then◌else◌, string_eq, ℤ, int_eq, arith, ◌⊎◌, inl, inr,
}
use chess_kung_fu.Model.{Text, text_eq, text_beq}
use chess_kung_fu.Server.Protocol.{
  Json, null, Fields, not_a_text, Parsed, parsed, refused, bind, get_or, Builtins, strip, is_empty,
  parse_position,
}
use chess_kung_fu.Server.Protocol.Play.{
  move_to_dict, move_from_dict, ack_to_dict, error_to_dict, welcome_to_dict, state_to_dict,
  snapshot_from_dict, Entry, snapshot,
}
use chess_kung_fu.Server.Protocol.Accounts.{
  login_to_dict, login_from_dict, login_ok_to_dict, auth_to_dict, auth_from_dict, auth_ok_to_dict,
  login_of_texts,
}
use chess_kung_fu.Server.Protocol.Rooms.{
  play_to_dict, cancel_play_to_dict, room_create_to_dict, room_join_to_dict, room_join_from_dict,
  room_join_of_text,
}
use chess_kung_fu.Server.Protocol.Games.{game_over_to_dict, disconnect_countdown_to_dict}

unfoldable pub parse_move : Fields → Parsed ((ℤ × ℤ) × (ℤ × ℤ))
parse_move d = bind (move_from_dict d) (λ m. parsed (m.start, m.end))

unfoldable pub make_move : (ℤ × ℤ) → (ℤ × ℤ) → Fields
make_move start end = move_to_dict (record { start = start; end = end })

-- The acknowledgement, without a room.
unfoldable pub make_ack : (ℤ × ℤ) → (ℤ × ℤ) → Bool → Fields
make_ack start end accepted =
    ack_to_dict (record { start = start; end = end; accepted = accepted; room_id = null })

unfoldable pub make_error : Text → Fields
make_error reason = error_to_dict (record { reason = reason })

-- `PieceSnapshot.from_dict(p) if isinstance(p, dict) else p` of each of `pieces`
unfoldable pub snapshots : Builtins → List (Fields ⊎ Entry) → Parsed (List Entry)
snapshots py [] = parsed []
snapshots py (inl d ∷ pieces) =
    bind (snapshot_from_dict py d)
      (λ p. bind (snapshots py pieces) (λ es. parsed (snapshot p ∷ es)))
snapshots py (inr entry ∷ pieces) = bind (snapshots py pieces) (λ es. parsed (entry ∷ es))

unfoldable pub make_state :
    Builtins → List (Fields ⊎ Entry) → Fields → Bool → Json → Json → Parsed Fields
unfolding snapshots
make_state py pieces score is_over winner room_id = bind (snapshots py pieces) (λ snap.
    state_to_dict (record {
      pieces = snap;
      score = score;
      game_over = is_over;
      winner = winner;
      room_id = room_id;
    }))

unfoldable pub make_welcome : Text → ℤ → Fields
make_welcome color player_count =
    welcome_to_dict (record { color = color; player_count = player_count })

unfoldable pub make_login : Text → Text → Fields
make_login username password = login_to_dict (record { username = username; password = password })

unfoldable pub make_login_ok : Text → ℤ → Text → Text → Fields
make_login_ok username elo user_id token =
    login_ok_to_dict (record { username = username; elo = elo; user_id = user_id; token = token })

unfoldable pub parse_login : Fields → Parsed (Text × Text)
parse_login d = bind (login_from_dict d) (λ m. parsed (m.username, m.password))

unfoldable pub make_auth : Text → Fields
make_auth token = auth_to_dict (record { token = token })

unfoldable pub parse_auth : Fields → Parsed Text
parse_auth d = bind (auth_from_dict d) (λ m. parsed m.token)

unfoldable pub make_auth_ok : Text → Text → ℤ → Fields
make_auth_ok user_id username elo =
    auth_ok_to_dict (record { user_id = user_id; username = username; elo = elo })

unfoldable pub make_play : Fields
make_play = play_to_dict (record {})

unfoldable pub make_cancel_play : Fields
make_cancel_play = cancel_play_to_dict (record {})

unfoldable pub make_room_create : Fields
make_room_create = room_create_to_dict (record {})

unfoldable pub make_room_join : Text → Fields
make_room_join room_id = room_join_to_dict (record { room_id = room_id })

unfoldable pub parse_room_join : Fields → Parsed Text
parse_room_join d = bind (room_join_from_dict d) (λ m. parsed m.room_id)

unfoldable pub make_game_over : Text → Fields → Json → Fields
make_game_over winner ratings room_id =
    game_over_to_dict (record { winner = winner; ratings = ratings; room_id = room_id })

unfoldable pub make_disconnect_countdown : Text → Text → ℤ → Fields
make_disconnect_countdown room_id user_id seconds_left =
    disconnect_countdown_to_dict
      (record { room_id = room_id; user_id = user_id; seconds_left = seconds_left })

pub parse_move-make_move :
    (start end : ℤ × ℤ) → parse_move (make_move start end) ≡ parsed (start, end)
unfolding parse_move make_move move_from_dict move_to_dict get_or parse_position text_beq
parse_move-make_move start end = refl

-- From what `make_login` writes, `parse_login` gives the name without the space around it and the
-- password as it is, or refuses the one that is empty, the name first.
pub parse_login-make_login :
    (u p : Text)
    → parse_login (make_login u p) ≡ (
        if is_empty (strip u)
        then refused (not_a_text "username")
        else if is_empty p
        then refused (not_a_text "password")
        else parsed (strip u, p))
unfolding parse_login make_login login_from_dict login_to_dict login_of_texts get_or text_beq
parse_login-make_login u p = ground arith

-- From what `make_room_join` writes, `parse_room_join` gives the name without the space around it,
-- or refuses it if nothing is left.
pub parse_room_join-make_room_join :
    (r : Text)
    → parse_room_join (make_room_join r)
      ≡ (if is_empty (strip r) then refused (not_a_text "room_id") else parsed (strip r))
unfolding parse_room_join make_room_join room_join_from_dict room_join_to_dict room_join_of_text
    get_or text_beq
parse_room_join-make_room_join r = ground arith
