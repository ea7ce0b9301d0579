-- ===== src/Server/Protocol.antt =====
-- Server/protocol.py: the JSON values of a message, `decode` and `parse_position`, and what the
-- messages use of Python's `dict.get`, `str`, `int`, `bool`, `dict` and `str.strip`. The children
-- have the message classes. A number is an integer, as every number of the protocol is. What
-- `str`, `int` and `dict` make of a value that the two-sided use of the classes never brings
-- there (an array, an object, a text for a number) is an argument, `Builtins`.
pub mod Play
pub mod Accounts
pub mod Rooms
pub mod Games
pub mod Make
pub mod RoundTrip
pub mod Messages
pub mod Wire
use chess_kung_fu.Prelude.{
  ℕ, ◌+◌, ◌≡◌, Bool, true, false, not, ◌&&◌, ◌||◌, Option, none, some, List, [], ◌∷◌, if◌then◌else◌,
  ◌==◌, Eq, String, string_eq, leb, ℤ, pos, int_eq, nat_eq,
}
use chess_kung_fu.Model.{Text, text, text_eq, show_int}

mutual
  -- A JSON value; `null` is Python's `None`.
  pub data Json : Type 0 where
    null : Json
    bool : Bool → Json
    number : ℤ → Json
    str : Text → Json
    array : Items → Json
    object : Fields → Json

  pub data Items : Type 0 where
    nil : Items
    item : Json → Items → Items

  pub data Fields : Type 0 where
    no_fields : Fields
    field : String → Json → Fields → Fields

-- `MessageType`
pub data MessageType : Type 0 where
  move ack error state welcome login login_ok game_over auth auth_ok play cancel_play room_create
        room_join match_found match_timeout disconnect_countdown rejoined_room play_queued
        play_cancelled room_created room_joined room_update :
      MessageType

abbrev pub value : MessageType → String
value move = "move"
value ack = "ack"
value error = "error"
value state = "state"
value welcome = "welcome"
value login = "login"
value login_ok = "login_ok"
value game_over = "game_over"
value auth = "auth"
value auth_ok = "auth_ok"
value play = "play"
value cancel_play = "cancel_play"
value room_create = "room_create"
value room_join = "room_join"
value match_found = "match_found"
value match_timeout = "match_timeout"
value disconnect_countdown = "disconnect_countdown"
value rejoined_room = "rejoined_room"
value play_queued = "play_queued"
value play_cancelled = "play_cancelled"
value room_created = "room_created"
value room_joined = "room_joined"
value room_update = "room_update"

-- The exceptions: `ProtocolError` by its texts, then Python's own.
pub data MessageError : Type 0 where
  invalid_json not_an_object missing_type value_error type_error attribute_error : MessageError
  unexpected_type : MessageType → Json → MessageError
  not_a_position not_a_text key_error : String → MessageError

pub data Parsed (A : Type 0) : Type 0 where
  parsed : A → Parsed A
  refused : MessageError → Parsed A

abbrev pub bind : {A B : Type 0} → Parsed A → (A → Parsed B) → Parsed B
bind (parsed a) f = f a
bind (refused e) f = refused e

-- `d.get(key, default)`, and `d.get(key)`
unfoldable pub get_or : String → Json → Fields → Json
get_or key default no_fields = default
get_or key default (field k v d) = if key == k then v else get_or key default d

abbrev pub get : String → Fields → Json
get key d = get_or key null d

pub record Builtins : Type 0 where
  -- `str(v)` of an array or an object
  pub repr : Json → Text
  -- `int(v)` of a text
  pub read_int : Text → Option ℤ
  -- `dict(v)` of an array with items, and of a text that is not empty
  pub dict_of_items : Json → Parsed Fields

-- `bool(v)`
abbrev pub truth : Json → Bool
truth null = false
truth (bool b) = b
truth (number n) = not (n == pos 0)
truth (str []) = false
truth (str (c ∷ cs)) = true
truth (array nil) = false
truth (array (item v vs)) = true
truth (object no_fields) = false
truth (object (field k v d)) = true

-- `str(v)`
unfoldable pub str_of : Builtins → Json → Text
str_of py null = text "None"
str_of py (bool true) = text "True"
str_of py (bool false) = text "False"
str_of py (number n) = show_int n
str_of py (str t) = t
str_of py (array vs) = py.repr (array vs)
str_of py (object d) = py.repr (object d)

-- `int(v)`
unfoldable pub int_of : Builtins → Json → Parsed ℤ
int_of py (bool b) = parsed (if b then pos 1 else pos 0)
int_of py (number n) = parsed n
int_of py (str t) = elim (py.read_int t) [ none ↦ refused value_error | some n ↦ parsed n ]
int_of py _ = refused type_error

-- `dict(v or {})`
unfoldable pub dict_or_empty : Builtins → Json → Parsed Fields
dict_or_empty py (object d) = parsed d
dict_or_empty py v = if not (truth v) then parsed no_fields else (elim v [
  | bool _ ↦ refused type_error
  | number _ ↦ refused type_error
  | v' ↦ py.dict_of_items v'
])

-- `str.isspace` of a character
abbrev pub is_space : ℕ → Bool
is_space c =
    (leb 9 c && leb c 13)
    || ((leb 28 c && leb c 32)
        || (c == 133
            || (c == 160
                || (c == 5760
                    || ((leb 8192 c && leb c 8202)
                        || (c == 8232
                            || (c == 8233 || (c == 8239 || (c == 8287 || c == 12288)))))))))

unfoldable pub strip_left : Text → Text
strip_left [] = []
strip_left (c ∷ cs) = if is_space c then strip_left cs else c ∷ cs

abbrev pub keep : ℕ → Text → Text
keep c [] = if is_space c then [] else c ∷ []
keep c (d ∷ ds) = c ∷ d ∷ ds

unfoldable pub strip_right : Text → Text
strip_right [] = []
strip_right (c ∷ cs) = keep c (strip_right cs)

-- `t.strip()`
unfoldable pub strip : Text → Text
strip t = strip_right (strip_left t)

abbrev pub is_empty : Text → Bool
is_empty [] = true
is_empty (c ∷ cs) = false

-- `decode`, of what `json.loads` gives: `none` for its `JSONDecodeError`.
unfoldable pub decode : Option Json → Parsed Fields
unfolding get_or
decode none = refused invalid_json
decode (some (object d)) = elim (get "type" d) [
  | str t ↦ if is_empty t then refused missing_type else parsed d
  | _ ↦ refused missing_type
]
decode (some _) = refused not_an_object

unfoldable pub parse_position : Json → String → Parsed (ℤ × ℤ)
parse_position (array (item (number r) (item (number c) nil))) field_name = parsed (r, c)
parse_position _ field_name = refused (not_a_position field_name)

-- `[p[0], p[1]]`
abbrev pub position_json : ℤ × ℤ → Json
position_json p = array (item (number p.0) (item (number p.1) nil))

-- `"type": self.type` in front of the other entries.
abbrev pub typed : MessageType → Fields → Fields
typed t d = field "type" (str (text (value t))) d

-- `if v is not None: msg[key] = v`, for a key that is not there yet.
abbrev pub if_given : String → Json → Fields
if_given key null = no_fields
if_given key v = field key v no_fields

-- `if data.get("type") != t: raise ProtocolError`
abbrev pub is_text : Json → Text → Bool
is_text (str s) t = s == t
is_text _ t = false
