-- ===== src/Server/Protocol/Accounts.antt =====
-- The messages of logging in, of Server/protocol.py: the classes `LoginMessage`, `LoginOkMessage`,
-- `AuthMessage` and `AuthOkMessage`.
use chess_kung_fu.Prelude.{not, [], if◌then◌else◌, string_eq, ℤ, pos, int_eq}
use chess_kung_fu.Model.{Text, text, text_eq}
use chess_kung_fu.Server.Protocol.{
  Json, number, str, Fields, no_fields, field, value, login, login_ok, auth, auth_ok,
  unexpected_type, not_a_text, Parsed, parsed, refused, bind, get_or, get, Builtins, str_of, int_of,
  strip, is_empty, typed, is_text,
}

-- `LoginMessage`
pub record LoginMessage : Type 0 where
  pub username : Text
  pub password : Text

unfoldable pub login_to_dict : LoginMessage → Fields
login_to_dict m =
    typed login (field "username" (str m.username) (field "password" (str m.password) no_fields))

-- `username` and `password` with their checks: not a string, or empty.
unfoldable pub login_of_texts : Json → Json → Parsed LoginMessage
login_of_texts (str u) (str p) =
    if is_empty (strip u)
    then refused (not_a_text "username")
    else if is_empty p
    then refused (not_a_text "password")
    else parsed (record { username = strip u; password = p })
login_of_texts (str u) _ =
    if is_empty (strip u) then refused (not_a_text "username") else refused (not_a_text "password")
login_of_texts _ _ = refused (not_a_text "username")

unfoldable pub login_from_dict : Fields → Parsed LoginMessage
unfolding login_of_texts
login_from_dict d =
    if not (is_text (get "type" d) (text (value login)))
    then refused (unexpected_type login (get "type" d))
    else login_of_texts (get "username" d) (get "password" d)

-- `LoginOkMessage`
pub record LoginOkMessage : Type 0 where
  pub username : Text
  pub elo : ℤ
  pub user_id : Text
  pub token : Text

unfoldable pub login_ok_to_dict : LoginOkMessage → Fields
login_ok_to_dict m = typed login_ok (
    field "username" (str m.username) (
      field "elo" (number m.elo)
        (field "user_id" (str m.user_id) (field "token" (str m.token) no_fields))))

unfoldable pub login_ok_from_dict : Builtins → Fields → Parsed LoginOkMessage
login_ok_from_dict py d = bind (int_of py (get_or "elo" (number (pos 0)) d)) (λ elo.
    parsed (record {
      username = str_of py (get_or "username" (str []) d);
      elo = elo;
      user_id = str_of py (get_or "user_id" (str []) d);
      token = str_of py (get_or "token" (str []) d);
    }))

-- `AuthMessage`
pub record AuthMessage : Type 0 where
  pub token : Text

unfoldable pub auth_to_dict : AuthMessage → Fields
auth_to_dict m = typed auth (field "token" (str m.token) no_fields)

unfoldable pub auth_of_text : Json → Parsed AuthMessage
auth_of_text (str t) =
    if is_empty t then refused (not_a_text "token") else parsed (record { token = t })
auth_of_text _ = refused (not_a_text "token")

unfoldable pub auth_from_dict : Fields → Parsed AuthMessage
unfolding auth_of_text
auth_from_dict d =
    if not (is_text (get "type" d) (text (value auth)))
    then refused (unexpected_type auth (get "type" d))
    else auth_of_text (get "token" d)

-- `AuthOkMessage`
pub record AuthOkMessage : Type 0 where
  pub user_id : Text
  pub username : Text
  pub elo : ℤ

unfoldable pub auth_ok_to_dict : AuthOkMessage → Fields
auth_ok_to_dict m = typed auth_ok (
    field "user_id" (str m.user_id)
      (field "username" (str m.username) (field "elo" (number m.elo) no_fields)))

unfoldable pub auth_ok_from_dict : Builtins → Fields → Parsed AuthOkMessage
auth_ok_from_dict py d = bind (int_of py (get_or "elo" (number (pos 0)) d)) (λ elo. parsed (record {
  user_id = str_of py (get_or "user_id" (str []) d);
  username = str_of py (get_or "username" (str []) d);
  elo = elo;
}))
