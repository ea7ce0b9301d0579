-- ===== src/Server/Router/Changes.antt =====
-- What a message may change: `handle_raw` against a specification by the steps of the services.
use chess_kung_fu.Prelude.{
  ℕ, ◌≡◌, refl, Bool, true, false, Option, some, String, string_eq, ℤ, ◌⊎◌, inl, inr, if-cases,
  if-elim, Option-cases, lookup, not, sym, subst, arith, ◌==◌,
}
use chess_kung_fu.Model.{Text, text, text_eq, string_of}
use chess_kung_fu.Server.Protocol.{
  Json, Fields, Parsed, parsed, refused, MessageError, decode, value, login, auth,
}
use chess_kung_fu.Server.Protocol.Make.{parse_login, parse_auth, parse_move, parse_room_join}
use chess_kung_fu.Server.Rooms.{RoomService, reconnect}
use chess_kung_fu.Server.Games.{submit_move}
use chess_kung_fu.Server.Games.Submits.{Granted, granted_result, submit_move-cases}
use chess_kung_fu.Server.Lobby
use chess_kung_fu.Server.Lobby.{
  Lobby, CommandOutcome, Identity, LoginResult, SessionOutcome, finalize, no_session,
}
use chess_kung_fu.Server.Connections.{bind_user, authenticated}
use chess_kung_fu.Server.Router.{
  App, Outside, Handled, protocol_error, answer_refusal, games_of, with_lobby, send_command_outcome,
  bind_session, apply_session, with_rooms, session_of, on_login, on_auth, on_command, on_room_join,
  with_games, move_answer, on_move, Handler, handle_play, handle_cancel_play, handle_room_create,
  handle_room_join, handle_move, authed_handlers, run_handler, current_user, dispatch_authed,
  dispatch, type_text_of, handle_raw,
}

-- A command that the user `u` may give the lobby.
pub data CommandOf (o : Outside) (u : String) (l : Lobby) : Lobby → Type 0 where
  plays : CommandOf o u l (Lobby.play l o.now (o.elo u) u).0
  cancels : CommandOf o u l (Lobby.cancel_play l u).0
  creates : CommandOf o u l (Lobby.create l o.token_hex u).0
  joins : (room_id : String) → CommandOf o u l (Lobby.join l u room_id).0

-- The authentication vouches for the user.
abbrev pub Vouched : Outside → Identity → Type 0
Vouched o user =
    ((username : Text) × (password : Text) × ((o.login username password).user ≡ some user)
      × ((o.login username password).granted ≡ true))
    ⊎ ((token : Text) × (o.authenticate token ≡ some user))

-- The steps: nothing changes; a user that the authentication vouches for comes back, and is bound
-- to the connection or, when an `assert` fails, is not; the user of the connection gives the
-- lobby a command, and a room that it opens gets an engine; the user makes a move that is granted.
pub data Change (o : Outside) (s : App) (c : ℕ) : App → Type 0 where
  nothing : Change o s c s
  session :
      (user : Identity) (token : Text)
      → Vouched o user
      → Change o s c (record (with_rooms s (reconnect s.lobby.rooms user.user_id).0) {
        registry = bind_user s.registry c user.user_id user.username user.elo token;
      })
  unbound :
      (user : Identity)
      → Vouched o user
      → Change o s c (with_rooms s (reconnect s.lobby.rooms user.user_id).0)
  command :
      (u : String) (lobby : Lobby)
      → current_user s c ≡ some u
      → CommandOf o u s.lobby lobby
      → Change o s c (with_lobby o s lobby)
  moved :
      (u : String) (start end : ℤ × ℤ) (g : Granted (games_of s) u start end)
      → current_user s c ≡ some u
      → Change o s c (with_games s (granted_result (games_of s) u start end g).0)

answer_refusal-app :
    (o : Outside) (s : App) (c : ℕ) (e : MessageError) → (answer_refusal o s c e).app ≡ s
unfolding answer_refusal
answer_refusal-app o s c e = elim (Option-cases (protocol_error o e)) [
  | inl other ↦ rw (other, answer_refusal) refl
  | inr (reason, told) ↦ rw (told, answer_refusal) refl
]

-- A refusal of the parser changes nothing.
refusal-Change :
    (o : Outside) (s : App) (c : ℕ) (e : MessageError) → Change o s c (answer_refusal o s c e).app
refusal-Change o s c e = subst (Change o s c) (sym (answer_refusal-app o s c e)) nothing

pub Parsed-cases :
    {A : Type 0} (p : Parsed A)
    → ((e : MessageError) × (p ≡ refused e)) ⊎ ((a : A) × (p ≡ parsed a))
Parsed-cases (refused e) = inl (e, refl)
Parsed-cases (parsed a) = inr (a, refl)

send_command_outcome-app :
    (s : App) (c : ℕ) (outcome : CommandOutcome) → (send_command_outcome s c outcome).app ≡ s
unfolding send_command_outcome
send_command_outcome-app s c outcome =
    if-elim (λ (h : Handled). h.app ≡ s) (not outcome.succeeded) refl refl

command-Change :
    (o : Outside) (s : App) (c : ℕ) (u : String) (r : Lobby × CommandOutcome)
    → current_user s c ≡ some u
    → CommandOf o u s.lobby r.0
    → Change o s c (on_command o s c r).app
unfolding on_command
command-Change o s c u r who step =
    subst (Change o s c) (sym (send_command_outcome-app (with_lobby o s r.0) c r.1))
      (command u r.0 who step)

bind_session-Change :
    (o : Outside) (s : App) (c : ℕ) (is_login : Bool) (user : Identity) (token : Text)
    (room_id : Option String) (color : Option Text)
    → Vouched o user
    → Change o s c
        (bind_session
          (with_rooms s (reconnect s.lobby.rooms user.user_id).0)
          c
          is_login
          user
          token
          room_id
          color).app
unfolding bind_session
bind_session-Change o s c is_login user token room_id color vouched =
    if-elim (λ (h : Handled). Change o s c h.app) _ (unbound user vouched)
      (session user token vouched)

finalize-Change :
    (o : Outside) (s : App) (c : ℕ) (is_login : Bool) (user : Identity) (token : Text)
    → Vouched o user
    → Change o s c (session_of s c is_login (finalize s.lobby.rooms user token)).app
unfolding finalize apply_session
finalize-Change o s c is_login user token vouched =
    let outcome = (finalize s.lobby.rooms user token).1 in
    bind_session-Change o s c is_login user token outcome.rejoin_room_id outcome.rejoin_color
      vouched

no_session-Change :
    (o : Outside) (s : App) (c : ℕ) (is_login : Bool) (reason : Text)
    → Change o s c (session_of s c is_login (s.lobby.rooms, no_session reason)).app
unfolding apply_session
no_session-Change o s c is_login reason = nothing

login-Change :
    (o : Outside) (s : App) (c : ℕ) (username password : Text)
    → Change o s c (session_of s c true (Lobby.login s.lobby.rooms (o.login username password))).app
unfolding Lobby.login
login-Change o s c username password =
    let result = o.login username password in
    elim (Option-cases result.user) [
      | inl nobody ↦ rw (nobody, Lobby.login) (no_session-Change o s c true result.reason)
      | inr (user, known) ↦ (elim (Option-cases result.token) [
        | inl tokenless ↦
            rw (known, tokenless, Lobby.login) (no_session-Change o s c true result.reason)
        | inr (token, given) ↦
            rw (known, given, Lobby.login)
              (if-cases
                (λ (r : RoomService × SessionOutcome). Change o s c (session_of s c true r).app)
                (not result.granted) (λ denied. no_session-Change o s c true result.reason)
                (λ granted.
                  finalize-Change o s c true user token
                    (inl (username, password, known, ground arith))))
      ])
    ]

authenticate-Change :
    (o : Outside) (s : App) (c : ℕ) (token : Text)
    → Change o s c
        (session_of s c false (Lobby.authenticate s.lobby.rooms (o.authenticate token) token)).app
unfolding Lobby.authenticate
authenticate-Change o s c token = elim (Option-cases (o.authenticate token)) [
  | inl nobody ↦
      rw (nobody, Lobby.authenticate)
        (no_session-Change o s c false (text "invalid or expired token"))
  | inr (user, known) ↦
      rw (known, Lobby.authenticate) (finalize-Change o s c false user token (inr (token, known)))
]

on_login-Change : (o : Outside) (s : App) (c : ℕ) (d : Fields) → Change o s c (on_login o s c d).app
unfolding on_login
on_login-Change o s c d =
    if-elim (λ (h : Handled). Change o s c h.app) (authenticated (s.registry.contexts c)) nothing
      (elim (Parsed-cases (parse_login d)) [
        | inl (e, bad) ↦ rw (bad, on_login) (refusal-Change o s c e)
        | inr ((username, password), fine) ↦
            rw (fine, on_login) (login-Change o s c username password)
      ])

on_auth-Change : (o : Outside) (s : App) (c : ℕ) (d : Fields) → Change o s c (on_auth o s c d).app
unfolding on_auth
on_auth-Change o s c d = elim (Parsed-cases (parse_auth d)) [
  | inl (e, bad) ↦ rw (bad, on_auth) (refusal-Change o s c e)
  | inr (token, fine) ↦ rw (fine, on_auth) (authenticate-Change o s c token)
]

-- What a user who is logged in may do.
module _ (o : Outside) (s : App) (c : ℕ) (u : String) (who : current_user s c ≡ some u) where
  on_room_join-Change : (d : Fields) → Change o s c (on_room_join o s c u d).app
  unfolding on_room_join
  on_room_join-Change d = elim (Parsed-cases (parse_room_join d)) [
    | inl (e, bad) ↦ rw (bad, on_room_join) (refusal-Change o s c e)
    | inr (room_id, fine) ↦
        rw (fine, on_room_join)
          (command-Change o s c u (Lobby.join s.lobby u (string_of room_id)) who
            (joins (string_of room_id)))
  ]

  submit-Change :
      (start end : ℤ × ℤ)
      → Change o s c (move_answer s c (submit_move (games_of s) u start end)).app
  submit-Change start end = elim (submit_move-cases (games_of s) u start end) [
    | inl (reason, denied) ↦ rw denied nothing
    | inr (g, made) ↦
        let step = moved u start end g who in
        rw made (if-elim (λ (h : Handled). Change o s c h.app) (g.room_id == "") step step)
  ]

  on_move-Change : (d : Fields) → Change o s c (on_move o s c u d).app
  unfolding on_move
  on_move-Change d = elim (Parsed-cases (parse_move d)) [
    | inl (e, bad) ↦ rw (bad, on_move) (refusal-Change o s c e)
    | inr ((start, end), fine) ↦ rw (fine, on_move) (submit-Change start end)
  ]

  run_handler-Change : (h : Handler) (d : Fields) → Change o s c (run_handler h o s c u d).app
  unfolding run_handler
  run_handler-Change handle_play d =
      command-Change o s c u (Lobby.play s.lobby o.now (o.elo u) u) who plays
  run_handler-Change handle_cancel_play d =
      command-Change o s c u (Lobby.cancel_play s.lobby u) who cancels
  run_handler-Change handle_room_create d =
      command-Change o s c u (Lobby.create s.lobby o.token_hex u) who creates
  run_handler-Change handle_room_join d = on_room_join-Change d
  run_handler-Change handle_move d = on_move-Change d

dispatch_authed-Change :
    (o : Outside) (s : App) (c : ℕ) (t : Text) (d : Fields)
    → Change o s c (dispatch_authed o s c t d).app
unfolding dispatch_authed
dispatch_authed-Change o s c t d = elim (Option-cases (current_user s c)) [
  | inl stranger ↦ rw (stranger, dispatch_authed) nothing
  | inr (u, who) ↦ (elim (Option-cases (lookup t authed_handlers)) [
    | inl unknown ↦ rw (who, unknown, dispatch_authed) nothing
    | inr (h, known) ↦ rw (who, known, dispatch_authed) (run_handler-Change o s c u who h d)
  ])
]

dispatch-Change :
    (o : Outside) (s : App) (c : ℕ) (t : Text) (d : Fields) → Change o s c (dispatch o s c t d).app
unfolding dispatch
dispatch-Change o s c t d =
    if-elim (λ (h : Handled). Change o s c h.app) (t == text (value login))
      (on_login-Change o s c d)
      (if-elim (λ (h : Handled). Change o s c h.app) (t == text (value auth))
        (on_auth-Change o s c d) (dispatch_authed-Change o s c t d))

-- Whatever comes over a connection, all that changes is one of the steps.
pub handle_raw-Change :
    (o : Outside) (s : App) (c : ℕ) (raw : Option Json) → Change o s c (handle_raw o s c raw).0
unfolding handle_raw
handle_raw-Change o s c raw = elim (Parsed-cases (decode raw)) [
  | inl (e, bad) ↦ rw (bad, handle_raw) nothing
  | inr (d, fine) ↦ rw (fine, handle_raw) (dispatch-Change o s c (type_text_of d) d)
]
