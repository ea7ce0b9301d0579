-- ===== src/Server/Protocol/Play.antt =====
-- The messages of a game under way, of Server/protocol.py: the classes `MoveMessage`,
-- `AckMessage`, `ErrorMessage`, `PieceSnapshot`, `StateMessage` and `WelcomeMessage`. A field with the
-- annotation `Optional[str]` or `Any` holds what came.
use chess_kung_fu.Prelude.{
  Bool, true, false, not, List, [], ◌∷◌, if◌then◌else◌, ◌==◌, String, string_eq, ℤ, pos, int_eq,
  map,
}
use chess_kung_fu.Model.{Text, text, text_eq}
use chess_kung_fu.Server.Protocol.{
  Json, bool, number, str, array, object, Items, nil, item, Fields, no_fields, field, value, move,
  ack, error, state, welcome, type_error, attribute_error, unexpected_type, key_error, Parsed,
  parsed, refused, bind, get_or, get, Builtins, truth, str_of, int_of, dict_or_empty,
  parse_position, position_json, typed, if_given, is_text,
}

-- `MoveMessage`
pub record MoveMessage : Type 0 where
  pub start : ℤ × ℤ
  pub end : ℤ × ℤ

unfoldable pub move_to_dict : MoveMessage → Fields
move_to_dict m =
    typed move (field "start" (position_json m.start) (field "end" (position_json m.end) no_fields))

unfoldable pub move_from_dict : Fields → Parsed MoveMessage
move_from_dict d =
    if not (is_text (get "type" d) (text (value move)))
    then refused (unexpected_type move (get "type" d))
    else bind (parse_position (get "start" d) "start") (λ start.
      bind (parse_position (get "end" d) "end")
        (λ end. parsed (record { start = start; end = end })))

-- `AckMessage`
pub record AckMessage : Type 0 where
  pub start : ℤ × ℤ
  pub end : ℤ × ℤ
  pub accepted : Bool
  pub room_id : Json

unfoldable pub ack_to_dict : AckMessage → Fields
ack_to_dict m = typed ack (
    field "accepted" (bool m.accepted) (
      field "start" (position_json m.start)
        (field "end" (position_json m.end) (if_given "room_id" m.room_id))))

unfoldable pub ack_from_dict : Fields → Parsed AckMessage
ack_from_dict d = bind (parse_position (get "start" d) "start") (λ start.
    bind (parse_position (get "end" d) "end") (λ end. parsed (record {
      start = start;
      end = end;
      accepted = truth (get_or "accepted" (bool true) d);
      room_id = get "room_id" d;
    })))

-- `ErrorMessage`
pub record ErrorMessage : Type 0 where
  pub reason : Text

unfoldable pub error_to_dict : ErrorMessage → Fields
error_to_dict m = typed error (field "reason" (str m.reason) no_fields)

unfoldable pub error_from_dict : Builtins → Fields → Parsed ErrorMessage
error_from_dict py d = parsed (record { reason = str_of py (get_or "reason" (str []) d) })

-- `WelcomeMessage`
pub record WelcomeMessage : Type 0 where
  pub color : Text
  pub player_count : ℤ

unfoldable pub welcome_to_dict : WelcomeMessage → Fields
welcome_to_dict m =
    typed welcome
      (field "color" (str m.color) (field "player_count" (number m.player_count) no_fields))

unfoldable pub welcome_from_dict : Builtins → Fields → Parsed WelcomeMessage
welcome_from_dict py d =
    bind (int_of py (get_or "player_count" (number (pos 0)) d)) (λ player_count.
      parsed
        (record { color = str_of py (get_or "color" (str []) d); player_count = player_count }))

-- `PieceSnapshot`
pub record PieceSnapshot : Type 0 where
  pub row : ℤ
  pub col : ℤ
  pub color : Text
  pub type : Text
  pub status : Text

-- `asdict(self)`
unfoldable pub snapshot_to_dict : PieceSnapshot → Fields
snapshot_to_dict p = field "row" (number p.row) (
    field "col" (number p.col) (
      field "color" (str p.color)
        (field "type" (str p.type) (field "status" (str p.status) no_fields))))

-- `data[key]`
unfoldable pub get_item : String → Fields → Parsed Json
get_item key no_fields = refused (key_error key)
get_item key (field k v d) = if key == k then parsed v else get_item key d

unfoldable pub snapshot_from_dict : Builtins → Fields → Parsed PieceSnapshot
unfolding get_item
snapshot_from_dict py d = bind (bind (get_item "row" d) (int_of py)) (λ row.
    bind (bind (get_item "col" d) (int_of py)) (λ col. bind (get_item "color" d) (λ color.
      bind (get_item "type" d) (λ type. bind (get_item "status" d) (λ status. parsed (record {
        row = row;
        col = col;
        color = str_of py color;
        type = str_of py type;
        status = str_of py status;
      }))))))

-- An element of `pieces`: a snapshot, or what `from_dict` found that is no object.
pub data Entry : Type 0 where
  snapshot : PieceSnapshot → Entry
  other : Json → Entry

-- `StateMessage`
pub record StateMessage : Type 0 where
  pub pieces : List Entry
  pub score : Fields
  pub game_over : Bool
  pub winner : Json
  pub room_id : Json

-- `[p.to_dict() for p in self.pieces]`
unfoldable pub entries_to_dict : List Entry → Parsed Items
entries_to_dict [] = parsed nil
entries_to_dict (other v ∷ entries) = refused attribute_error
entries_to_dict (snapshot p ∷ entries) =
    bind (entries_to_dict entries) (λ vs. parsed (item (object (snapshot_to_dict p)) vs))

unfoldable pub state_to_dict : StateMessage → Parsed Fields
unfolding entries_to_dict
state_to_dict m = bind (entries_to_dict m.pieces) (λ vs. parsed (
    typed state (
      field "pieces" (array vs) (
        field "score" (object m.score) (
          field "game_over" (bool m.game_over)
            (field "winner" m.winner (if_given "room_id" m.room_id)))))))

-- `PieceSnapshot.from_dict(p) if isinstance(p, dict) else p`
abbrev pub entry_of : Builtins → Json → Parsed Entry
entry_of py (object d) = bind (snapshot_from_dict py d) (λ p. parsed (snapshot p))
entry_of py v = parsed (other v)

unfoldable pub entries_of_items : Builtins → Items → Parsed (List Entry)
entries_of_items py nil = parsed []
entries_of_items py (item v vs) =
    bind (entry_of py v)
      (λ entry. bind (entries_of_items py vs) (λ entries. parsed (entry ∷ entries)))

-- The keys of an object, over which a `for` loop goes.
unfoldable pub entries_of_keys : Fields → List Entry
entries_of_keys no_fields = []
entries_of_keys (field k v d) = other (str (text k)) ∷ entries_of_keys d

-- `data.get("pieces") or []`, and the loop over it
unfoldable pub entries_of : Builtins → Json → Parsed (List Entry)
unfolding entries_of_items entries_of_keys
entries_of py (array vs) = entries_of_items py vs
entries_of py (object d) = parsed (entries_of_keys d)
entries_of py (str t) = parsed (map (λ c. other (str (c ∷ []))) t)
entries_of py v = if truth v then refused type_error else parsed []

unfoldable pub state_from_dict : Builtins → Fields → Parsed StateMessage
unfolding entries_of
state_from_dict py d = bind (entries_of py (get "pieces" d)) (λ pieces.
    bind (dict_or_empty py (get "score" d)) (λ score. parsed (record {
      pieces = pieces;
      score = score;
      game_over = truth (get_or "game_over" (bool false) d);
      winner = get "winner" d;
      room_id = get "room_id" d;
    })))
