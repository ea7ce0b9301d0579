-- ===== src/Server/Games/Ratings.antt =====
-- The Elo after a game: who is rated, and that no game is rated twice.
use chess_kung_fu.Prelude.{
  ℕ, ◌+◌, ◌≤◌, ◌≡◌, ◌≢◌, refl, ◌∙◌, ap, Bool, true, false, not, ◌&&◌, some, List, [], ◌∷◌, ◌++◌,
  length, filter, if◌then◌else◌, ◌==◌, String, string_eq, Dict, lookup, insert, insert-cases, ℤ,
  Bool-cases, Option-cases, inl, inr, ◌⊎◌, if_true, if_false, if-elim, arith,
}
use mathlib.Core.Option.{none-ne-some}
use package.text.Mathlib.TextEquality.{eq_iff}
use chess_kung_fu.Model.{Color}
use chess_kung_fu.Engine.{GameEngine, update_game_clock}
use chess_kung_fu.Server.Rooms.{
  Room, RoomService, get_room_players, is_elo_updated, mark_elo_updated,
}
use chess_kung_fu.Server.Games.{forfeit}
use chess_kung_fu.Server.Games.Endings.{
  User, GameResult, Arena, Broadcasts, rated_user, settle, apply_elo, tick_ms, tick_room,
  tick_rooms, tick_all, winner_without, force_forfeit,
}

-- What it takes for a game to be rated: it is won, has not been rated, and both players have an
-- id, a row and a name.
pub record Rated (s : Arena) (room_id : String) (e : GameEngine) : Type 0 where
  pub winner : Color
  pub white_player : String × User
  pub black_player : String × User
  pub room : Room
  pub unrated : is_elo_updated s.rooms room_id ≡ false
  pub won : e.winner ≡ some winner
  pub there : lookup room_id s.rooms.rooms ≡ some room
  pub white : rated_user s.users (get_room_players s.rooms room_id).0 ≡ some white_player
  pub black : rated_user s.users (get_room_players s.rooms room_id).1 ≡ some black_player

has_room :
    (s : Arena) (room_id : String) {p : String × User}
    → rated_user s.users (get_room_players s.rooms room_id).0 ≡ some p
    → (room : Room) × (lookup room_id s.rooms.rooms ≡ some room)
unfolding get_room_players rated_user
has_room s room_id {p} h = elim (Option-cases (lookup room_id s.rooms.rooms)) [
  | inl nowhere ↦ absurd (none-ne-some p (rw (nowhere, get_room_players) at h))
  | inr found ↦ found
]

module _ (calc_elo : ℤ → ℤ → ℤ × ℤ) where
  pub apply_elo-cases :
      (s : Arena) (room_id : String) (e : GameEngine)
      → (apply_elo calc_elo s room_id e ≡ (s, []))
        ⊎ ((r : Rated s room_id e) × (apply_elo calc_elo s room_id e
              ≡ settle calc_elo s room_id r.winner r.white_player r.black_player))
  unfolding apply_elo
  apply_elo-cases s room_id e = elim (Bool-cases (is_elo_updated s.rooms room_id)) [
    | inl done ↦ inl (if_true _ _ _ done)
    | inr unrated ↦ (elim (Option-cases e.winner) [
      | inl open_game ↦ inl (if_false _ _ _ unrated ∙ rw open_game refl)
      | inr (winner, won) ↦
          (elim (Option-cases (rated_user s.users (get_room_players s.rooms room_id).0)) [
            | inl no_white ↦ inl (if_false _ _ _ unrated ∙ rw (won, no_white) refl)
            | inr (white_player, white) ↦
                (elim (Option-cases (rated_user s.users (get_room_players s.rooms room_id).1)) [
                  | inl no_black ↦ inl (if_false _ _ _ unrated ∙ rw (won, white, no_black) refl)
                  | inr (black_player, black) ↦ inr (
                    record {
                      winner = winner;
                      white_player = white_player;
                      black_player = black_player;
                      room = (has_room s room_id white).0;
                      unrated = unrated;
                      won = won;
                      there = (has_room s room_id white).1;
                      white = white;
                      black = black;
                    },
                    if_false _ _ _ unrated ∙ rw (won, white, black) refl,
                  )
                ])
          ])
    ])
  ]

-- The results of a room in the history.
abbrev pub results_of : String → List GameResult → ℕ
results_of room_id history = length (filter (λ r. r.room_id == room_id) history)

-- A room has a result at most if its game is marked as rated, and then one.
abbrev pub IsSettled : Arena → Type 0
IsSettled s =
    (room_id : String)
    → results_of room_id s.history ≤ (if is_elo_updated s.rooms room_id then 1 else 0)

mark_elo_updated-marks :
    (s : RoomService) (room_id x : String) (room : Room)
    → lookup room_id s.rooms ≡ some room
    → ((x ≡ room_id) × (is_elo_updated (mark_elo_updated s room_id) x ≡ true))
      ⊎ ((x ≢ room_id) × (is_elo_updated (mark_elo_updated s room_id) x ≡ is_elo_updated s x))
unfolding mark_elo_updated is_elo_updated
mark_elo_updated-marks s room_id x room there =
    elim (insert-cases room_id x (record room { elo_updated = true }) s.rooms) [
      | inl (same, here) ↦ inl (same, rw (there, mark_elo_updated) (rw (here, is_elo_updated) refl))
      | inr (other, stays) ↦
          inr (other, rw (there, mark_elo_updated) (rw (stays, is_elo_updated) refl))
    ]

results_of-snoc :
    (x : String) (xs : List GameResult) (r : GameResult)
    → results_of x (xs ++ r ∷ []) ≡ results_of x xs + (if r.room_id == x then 1 else 0)
results_of-snoc x [] r = ground arith
results_of-snoc x (y ∷ xs) r = ground (arith, results_of-snoc x xs r)

-- One more result, for a game that becomes marked.
bounded_snoc :
    (x room_id : String) (history : List GameResult) (r : GameResult) (before after : Bool)
    → r.room_id ≡ room_id
    → results_of x history ≤ (if before then 1 else 0)
    → ((x ≡ room_id) × (after ≡ true) × (before ≡ false)) ⊎ ((x ≢ room_id) × (after ≡ before))
    → results_of x (history ++ r ∷ []) ≤ (if after then 1 else 0)
bounded_snoc x room_id history r before after at h (inl (same, marked, unmarked)) =
    ground (arith, results_of-snoc x history r)
bounded_snoc x room_id history r before after at h (inr (other, stays)) =
    ground (arith, results_of-snoc x history r, eq_iff r.room_id x)

module _ (calc_elo : ℤ → ℤ → ℤ × ℤ) where
  settle-IsSettled :
      (s : Arena) (room_id : String) (e : GameEngine) (r : Rated s room_id e)
      → IsSettled s
      → IsSettled (settle calc_elo s room_id r.winner r.white_player r.black_player).0
  unfolding settle
  settle-IsSettled s room_id e r v x =
      bounded_snoc x room_id s.history _ (is_elo_updated s.rooms x)
        (is_elo_updated (mark_elo_updated s.rooms room_id) x) refl (v x)
        (elim (mark_elo_updated-marks s.rooms room_id x r.room r.there) [
          | inl (same, marked) ↦ inl (same, marked, ap (is_elo_updated s.rooms) same ∙ r.unrated)
          | inr stays ↦ inr stays
        ])

  pub apply_elo-IsSettled :
      (s : Arena) (room_id : String) (e : GameEngine)
      → IsSettled s
      → IsSettled (apply_elo calc_elo s room_id e).0
  apply_elo-IsSettled s room_id e v = elim (apply_elo-cases calc_elo s room_id e) [
    | inl idle ↦ rw idle v
    | inr (r, rated) ↦ rw rated (settle-IsSettled s room_id e r v)
  ]

  pub tick_room-IsSettled :
      (s : Arena) (room_id : String) (e : GameEngine)
      → IsSettled s
      → IsSettled (tick_room calc_elo s room_id e).0
  unfolding tick_room
  tick_room-IsSettled s room_id e v =
      let e' = update_game_clock e tick_ms in
      let s' : Arena = record s { engines = insert room_id e' s.engines } in
      if-elim (λ (r : Arena × Broadcasts). IsSettled r.0)
        (e'.game_over && not (is_elo_updated s'.rooms room_id))
        (apply_elo-IsSettled s' room_id e' v) v

  tick_rooms-IsSettled :
      (s : Arena) (engines : Dict String GameEngine)
      → IsSettled s
      → IsSettled (tick_rooms calc_elo s engines).0
  unfolding tick_rooms
  tick_rooms-IsSettled s [] v = v
  tick_rooms-IsSettled s ((room_id, e) ∷ engines) v =
      tick_rooms-IsSettled (tick_room calc_elo s room_id e).0 engines
        (tick_room-IsSettled s room_id e v)

  pub tick_all-IsSettled : (s : Arena) → IsSettled s → IsSettled (tick_all calc_elo s).0
  unfolding tick_all
  tick_all-IsSettled s v = tick_rooms-IsSettled s s.engines v

  pub force_forfeit-IsSettled :
      (s : Arena) (room_id loser : String)
      → IsSettled s
      → IsSettled (force_forfeit calc_elo s room_id loser).0
  unfolding force_forfeit
  force_forfeit-IsSettled s room_id loser v = elim (Option-cases (lookup room_id s.engines)) [
    | inl nothing ↦ rw (nothing, force_forfeit) v
    | inr (e, there) ↦
        rw (there, force_forfeit)
          (if-elim (λ (r : Arena × Broadcasts). IsSettled r.0) e.game_over v
            (elim (Option-cases (winner_without (get_room_players s.rooms room_id) loser)) [
              | inl nobody ↦ rw nobody v
              | inr (winner, found) ↦
                  let e' = forfeit e winner in
                  rw found (
                    apply_elo-IsSettled (record s { engines = insert room_id e' s.engines }) room_id
                      e' v)
            ]))
  ]
