-- ===== src/Server/Games/Endings.antt =====
-- Server/application/game_service.py: `tick_all`, `force_forfeit` and `_apply_elo`, with
-- `get_room_players_for_elo` of Server/bootstrap/wiring.py. The users' table is a dictionary by id,
-- `calc_elo` (floating point) is an argument, and a broadcast to a room is listed with the room. A
-- history or a callback that fails is only logged, and is left out.
use chess_kung_fu.Prelude.{
  Bool, false, not, ◌&&◌, Option, none, some, List, [], ◌∷◌, ◌++◌, if◌then◌else◌, ◌==◌, String,
  string_eq, Dict, lookup, insert, ℤ, pos,
}
use chess_kung_fu.Model.{Text, text, string_of, Color, white, black, color_eq, color_text}
use chess_kung_fu.Realtime.{has_active_motion}
use chess_kung_fu.Engine.{GameEngine, update_game_clock}
use chess_kung_fu.Server.Protocol.{str, number, Fields, field, no_fields, is_empty, parsed, refused}
use chess_kung_fu.Server.Protocol.Make.{make_game_over}
use chess_kung_fu.Server.Rooms.{RoomService, get_room_players, is_elo_updated, mark_elo_updated}
use chess_kung_fu.Server.Games.{forfeit, snapshot_state}

-- `User`
pub record User : Type 0 where
  pub user_id : String
  pub username : Text
  pub elo : ℤ

-- `GameResult`, without the time that the history adds.
pub record GameResult : Type 0 where
  pub room_id : String
  pub white_id : String
  pub black_id : String
  pub winner : Color
  pub white_elo_before : ℤ
  pub black_elo_before : ℤ
  pub white_elo_after : ℤ
  pub black_elo_after : ℤ

-- The state that a game's end touches, with the results that the history holds, the rooms of
-- the events `GAME_OVER`, and the calls of `on_game_finished`.
pub record Arena : Type 0 where
  pub rooms : RoomService
  pub engines : Dict String GameEngine
  pub users : Dict String User
  pub history : List GameResult
  pub over_events : List (String × Color × Fields)
  pub finished : List (String × List String)

-- `_broadcast_room(room_id, message)`, one by one.
abbrev pub Broadcasts : Type 0
Broadcasts = List (String × Fields)

-- `set_elo`: an update of the row, if there is one.
unfoldable pub set_elo : Dict String User → String → ℤ → Dict String User
set_elo users user_id elo = elim (lookup user_id users) [
  | none ↦ users
  | some user ↦ insert user_id (record user { elo = elo }) users
]

-- A player with an id, a row and a name, of `get_room_players_for_elo` and `get_by_id`.
unfoldable pub rated_user : Dict String User → Option String → Option (String × User)
rated_user users none = none
rated_user users (some user_id) = if user_id == "" then none else (elim (lookup user_id users) [
  | none ↦ none
  | some user ↦ if is_empty user.username then none else some (user_id, user)
])

-- `{white_name: new_white, black_name: new_black}`
abbrev pub ratings_of : Text → Text → ℤ → ℤ → Fields
ratings_of white_name black_name new_white new_black =
    if string_of white_name == string_of black_name
    then field (string_of white_name) (number new_black) no_fields
    else field (string_of white_name) (number new_white)
        (field (string_of black_name) (number new_black) no_fields)

abbrev pub tick_ms : ℤ
tick_ms = pos 50

-- `encode_fn(self.build_state_dict(room_id))`, to the room
unfoldable pub state_broadcast : GameEngine → String → Broadcasts
state_broadcast e room_id = elim (snapshot_state e (text room_id)) [
  | refused _ ↦ []
  | parsed state ↦ (room_id, state) ∷ []
]

-- The winner when the player goes: the other one; a user who does not play loses nothing.
abbrev pub is_user : Option String → String → Bool
is_user none user_id = false
is_user (some u) user_id = user_id == u

unfoldable pub winner_without : Option String × Option String → String → Option Color
winner_without (white_id, black_id) loser =
    if is_user white_id loser
    then some black
    else if is_user black_id loser
    then some white
    else none

module _ (calc_elo : ℤ → ℤ → ℤ × ℤ) where
  -- The new ratings, White's first.
  unfoldable pub new_ratings : Color → ℤ → ℤ → ℤ × ℤ
  new_ratings white white_elo black_elo = calc_elo white_elo black_elo
  new_ratings black white_elo black_elo =
      let (winner, loser) = calc_elo black_elo white_elo in (loser, winner)

  -- `_apply_elo`, past its guards.
  unfoldable pub settle :
      Arena → String → Color → String × User → String × User → Arena × Broadcasts
  unfolding new_ratings set_elo
  settle s room_id winner (white_id, white_user) (black_id, black_user) =
      let (new_white, new_black) = new_ratings winner white_user.elo black_user.elo in
      let ratings = ratings_of white_user.username black_user.username new_white new_black in
      (
        record {
          rooms = mark_elo_updated s.rooms room_id;
          engines = s.engines;
          users = set_elo (set_elo s.users white_id new_white) black_id new_black;
          history =
              s.history
              ++ record {
                room_id = room_id;
                white_id = white_id;
                black_id = black_id;
                winner = winner;
                white_elo_before = white_user.elo;
                black_elo_before = black_user.elo;
                white_elo_after = new_white;
                black_elo_after = new_black;
              }
                ∷ [];
          over_events = s.over_events ++ (room_id, winner, ratings) ∷ [];
          finished = s.finished ++ (room_id, white_id ∷ black_id ∷ []) ∷ [];
        },
        (room_id, make_game_over (color_text winner) ratings (str (text room_id))) ∷ [],
      )

  -- `_apply_elo`
  unfoldable pub apply_elo : Arena → String → GameEngine → Arena × Broadcasts
  unfolding settle rated_user
  apply_elo s room_id e = if is_elo_updated s.rooms room_id then (s, []) else (elim e.winner [
    | none ↦ (s, [])
    | some winner ↦
        let (white_id, black_id) = get_room_players s.rooms room_id in
        (elim (rated_user s.users white_id) [
          | none ↦ (s, [])
          | some white_player ↦ (elim (rated_user s.users black_id) [
            | none ↦ (s, [])
            | some black_player ↦ settle s room_id winner white_player black_player
          ])
        ])
  ])

  -- The body of the loop of `tick_all`.
  unfoldable pub tick_room : Arena → String → GameEngine → Arena × Broadcasts
  unfolding apply_elo
  tick_room s room_id e =
      let e' = update_game_clock e tick_ms in
      let s' : Arena = record s { engines = insert room_id e' s.engines } in
      let finished_now = has_active_motion e.arbiter && not (has_active_motion e'.arbiter) in
      let state = if finished_now then state_broadcast e' room_id else [] in
      let (s'', over) =
        if e'.game_over && not (is_elo_updated s'.rooms room_id)
        then apply_elo s' room_id e'
        else (s', []) in
      (s'', state ++ over)

  unfoldable pub tick_rooms : Arena → Dict String GameEngine → Arena × Broadcasts
  unfolding tick_room
  tick_rooms s [] = (s, [])
  tick_rooms s ((room_id, e) ∷ engines) =
      let (s', first) = tick_room s room_id e in
      let (s'', rest) = tick_rooms s' engines in (s'', first ++ rest)

  -- `tick_all`, over the engines as they stand.
  unfoldable pub tick_all : Arena → Arena × Broadcasts
  unfolding tick_rooms
  tick_all s = tick_rooms s s.engines

  -- `force_forfeit`
  unfoldable pub force_forfeit : Arena → String → String → Arena × Broadcasts
  unfolding apply_elo
  force_forfeit s room_id loser = elim (lookup room_id s.engines) [
    | none ↦ (s, [])
    | some e ↦
        if e.game_over
        then (s, [])
        else (elim (winner_without (get_room_players s.rooms room_id) loser) [
          | none ↦ (s, [])
          | some winner ↦
              let e' = forfeit e winner in
              apply_elo (record s { engines = insert room_id e' s.engines }) room_id e'
        ])
  ]
