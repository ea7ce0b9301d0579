-- ===== src/Server/Connections.antt =====
-- Server/transport/connection_registry.py (`ConnectionContext`, `ConnectionRegistry`). A websocket
-- is a number; a context is an object, with an identity that `add` gives, and its fields in
-- `contexts`. What is sent is listed as websocket and message; a failure to send is only logged.
pub mod Bindings
use chess_kung_fu.Prelude.{
  ℕ, ◌+◌, ◌≡◌, Bool, true, false, not, ◌&&◌, Option, none, some, List, [], ◌∷◌, ◌++◌, length,
  if◌then◌else◌, ◌==◌, Eq, nat_eq, String, string_eq, Dict, lookup, insert, erase, ℤ,
}
use chess_kung_fu.Model.{Text}

pub record ConnectionContext : Type 0 where
  pub websocket : ℕ
  pub user_id : Option String
  pub username : Option Text
  pub elo : Option ℤ
  pub token : Option Text

abbrev pub new_context : ℕ → ConnectionContext
new_context websocket = record {
  websocket = websocket;
  user_id = none;
  username = none;
  elo = none;
  token = none;
}

abbrev pub authenticated : ConnectionContext → Bool
authenticated c = elim c.user_id [ none ↦ false | some _ ↦ true ]

pub record ConnectionRegistry : Type 0 where
  pub contexts : ℕ → ConnectionContext
  pub next_context : ℕ
  pub by_ws : Dict ℕ ℕ
  pub by_user : Dict String ℕ

abbrev pub put_context : (ℕ → ConnectionContext) → ℕ → ConnectionContext → ℕ → ConnectionContext
put_context contexts c x d = if d == c then x else contexts d

unfoldable pub add : ConnectionRegistry → ℕ → ConnectionRegistry × ℕ
add s websocket =
    let c = s.next_context in
    (
      record s {
        contexts = put_context s.contexts c (new_context websocket);
        next_context = c + 1;
        by_ws = insert websocket c s.by_ws;
      },
      c,
    )

abbrev pub get : ConnectionRegistry → ℕ → Option ℕ
get s websocket = lookup websocket s.by_ws

-- `if old is not None and old.websocket is not ctx.websocket: old.user_id = None`
abbrev pub drop_old : (ℕ → ConnectionContext) → Option ℕ → ℕ → ℕ → ConnectionContext
drop_old contexts none c = contexts
drop_old contexts (some old) c =
    if (contexts old).websocket == (contexts c).websocket
    then contexts
    else put_context contexts old (record (contexts old) { user_id = none })

unfoldable pub bind_user : ConnectionRegistry → ℕ → String → Text → ℤ → Text → ConnectionRegistry
bind_user s c user_id username elo token =
    let contexts = drop_old s.contexts (lookup user_id s.by_user) c in
    record s {
      contexts = put_context contexts c (record (contexts c) {
        user_id = some user_id;
        username = some username;
        elo = some elo;
        token = some token;
      });
      by_user = insert user_id c s.by_user;
    }

-- `self._by_user.get(ctx.user_id) is ctx`
abbrev pub is_context : Option ℕ → ℕ → Bool
is_context none c = false
is_context (some d) c = d == c

-- The entry of the user of a context that goes.
abbrev pub forget_user : Dict String ℕ → Option String → ℕ → Dict String ℕ
forget_user by_user none c = by_user
forget_user by_user (some u) c =
    if not (u == "") && is_context (lookup u by_user) c then erase u by_user else by_user

unfoldable pub remove : ConnectionRegistry → ℕ → ConnectionRegistry × Option ℕ
remove s websocket = elim (lookup websocket s.by_ws) [
  | none ↦ (record s { by_ws = erase websocket s.by_ws }, none)
  | some c ↦ (
    record s {
      by_ws = erase websocket s.by_ws;
      by_user = forget_user s.by_user (s.contexts c).user_id c;
    },
    some c,
  )
]

abbrev pub get_by_user : ConnectionRegistry → String → Option ℕ
get_by_user s user_id = lookup user_id s.by_user

abbrev pub connection_count : ConnectionRegistry → ℕ
connection_count s = length s.by_ws

abbrev pub authenticated_count : ConnectionRegistry → ℕ
authenticated_count s = length s.by_user

-- A message is whatever is sent.
unfoldable pub send_to_user {ℓ} : {A : Type ℓ} → ConnectionRegistry → String → A → List (ℕ × A)
send_to_user s user_id message = elim (lookup user_id s.by_user) [
  | none ↦ []
  | some c ↦ ((s.contexts c).websocket, message) ∷ []
]

unfoldable pub broadcast_users {ℓ} :
    {A : Type ℓ} → ConnectionRegistry → List String → A → List (ℕ × A)
unfolding send_to_user
broadcast_users s [] message = []
broadcast_users s (uid ∷ uids) message =
    send_to_user s uid message ++ broadcast_users s uids message
