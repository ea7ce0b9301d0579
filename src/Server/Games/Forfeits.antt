-- ===== src/Server/Games/Forfeits.antt =====
-- `force_forfeit`: who wins when a player goes.
use chess_kung_fu.Prelude.{
  ◌≡◌, refl, ◌∙◌, sym, ap, subst, true, false, Option, none, some, [], String, string_eq, Dict,
  lookup, insert, ℤ, Bool-cases, Option-cases, inl, inr, ◌⊎◌, if_true, if_false, if-cases, arith,
  ==-refl,
}
use mathlib.Core.Option.{some_inj}
use chess_kung_fu.Model.{Color, white, black}
use chess_kung_fu.Engine.{GameEngine}
use chess_kung_fu.Server.Rooms.{
  PlayerRole, as_white, as_black, Room, RoomMember, is_white, is_black, last_players, is_player,
  get_room_players, mark_elo_updated, RoomService, viewer,
}
use chess_kung_fu.Server.Rooms.Members.{IsSeated}
use chess_kung_fu.Server.Games.{forfeit}
use chess_kung_fu.Server.Games.Endings.{
  Arena, Broadcasts, settle, apply_elo, is_user, winner_without, force_forfeit,
}
use chess_kung_fu.Server.Games.Players.{white_found, black_found, not_found}
use chess_kung_fu.Server.Games.Ratings.{apply_elo-cases}

-- The colour that wins when a player goes.
abbrev pub winner_over : PlayerRole → Color
winner_over as_white = black
winner_over _ = white

-- A player of a room, with its seats in order.
pub record Plays (rooms : Dict String Room) (room_id u : String) (m : RoomMember) : Type 0 where
  pub room : Room
  pub there : lookup room_id rooms ≡ some room
  pub seats : IsSeated room.members
  pub here : lookup u room.members ≡ some m
  pub player : is_player m.role ≡ true

Role-cases : (r : PlayerRole) → is_player r ≡ true → (r ≡ as_white) ⊎ (r ≡ as_black)
Role-cases as_white h = inl refl
Role-cases as_black h = inr refl
Role-cases viewer h = cc

first_goes :
    (players : Option String × Option String) (u : String)
    → players.0 ≡ some u
    → winner_without players u ≡ some black
unfolding winner_without
first_goes (a, b) u h = if_true _ _ _ (ap (λ o. is_user o u) h ∙ ==-refl u)

second_goes :
    (players : Option String × Option String) (u : String)
    → is_user players.0 u ≡ false
    → players.1 ≡ some u
    → winner_without players u ≡ some white
unfolding winner_without
second_goes (a, b) u other h =
    if_false _ _ _ other ∙ if_true _ _ _ (ap (λ o. is_user o u) h ∙ ==-refl u)

winner_without_player :
    (s : RoomService) (room_id u : String) (m : RoomMember)
    → Plays s.rooms room_id u m
    → winner_without (get_room_players s room_id) u ≡ some (winner_over m.role)
unfolding get_room_players
winner_without_player s room_id u m p =
    let members = p.room.members in
    rw (p.there, get_room_players)
      (elim (Role-cases m.role p.player) [
        | inl w ↦
            first_goes (last_players members (none, none)) u
              (white_found members none none u m p.here (ap is_white w) (ground arith))
            ∙ ap (λ r. some (winner_over r)) (sym w)
        | inr b ↦
            second_goes (last_players members (none, none)) u
              (not_found members none none u p.seats.unique
                (λ n h.
                  ap (λ (x : RoomMember). is_white x.role) (some_inj.0 (sym h ∙ p.here))
                  ∙ ap is_white b)
                refl)
              (black_found members none none u m p.here (ap is_black b) p.seats.one_black)
            ∙ ap (λ r. some (winner_over r)) (sym b)
      ])

-- The Elo leaves the engines alone.
pub apply_elo-engines :
    (calc_elo : ℤ → ℤ → ℤ × ℤ) (s : Arena) (room_id : String) (e : GameEngine)
    → (apply_elo calc_elo s room_id e).0.engines ≡ s.engines
unfolding settle
apply_elo-engines calc_elo s room_id e = elim (apply_elo-cases calc_elo s room_id e) [
  | inl idle ↦ ap (λ (r : Arena × Broadcasts). r.0.engines) idle
  | inr (r, rated) ↦ ap (λ (r : Arena × Broadcasts). r.0.engines) rated
]

forfeit_running :
    (e : GameEngine) (winner : Color)
    → e.game_over ≡ false
    → forfeit e winner ≡ record e { game_over = true; winner = some winner }
unfolding forfeit
forfeit_running e winner running = if_false _ _ _ running

-- The forfeit of a player of a room with a game ends it: a game that was over stays as it was,
-- with all else, and one that went on is won by the other colour.
pub force_forfeit_lem :
    (calc_elo : ℤ → ℤ → ℤ × ℤ) (s : Arena) (room_id u : String) (m : RoomMember) (e : GameEngine)
    → Plays s.rooms.rooms room_id u m
    → lookup room_id s.engines ≡ some e
    → let s' = (force_forfeit calc_elo s room_id u).0 in
      ((e.game_over ≡ true) × (s' ≡ s))
      ⊎ ((e.game_over ≡ false)
          × (s'.engines
              ≡ insert room_id
                  (record e { game_over = true; winner = some (winner_over m.role) })
                  s.engines))
unfolding force_forfeit
force_forfeit_lem calc_elo s room_id u m e p there = elim (Bool-cases e.game_over) [
  | inl over ↦
      inl (
        over,
        rw (there, force_forfeit) (ap (λ (r : Arena × Broadcasts). r.0) (if_true _ _ _ over)),
      )
  | inr running ↦
      let winner = winner_over m.role in
      inr (
        running,
        rw (there, force_forfeit)
            (ap (λ (r : Arena × Broadcasts). r.0.engines) (if_false _ _ _ running)
              ∙ rw (winner_without_player s.rooms room_id u m p) (
                  apply_elo-engines calc_elo
                    (record s { engines = insert room_id (forfeit e winner) s.engines }) room_id
                    (forfeit e winner)
                  ∙ ap (λ x. insert room_id x s.engines) (forfeit_running e winner running))),
      )
]

-- What a forfeit may do to the engines and to the rooms, whoever goes.
module _ (calc_elo : ℤ → ℤ → ℤ × ℤ) (s : Arena) where
  pub apply_elo-rooms :
      (room_id : String) (e : GameEngine)
      → ((apply_elo calc_elo s room_id e).0.rooms ≡ s.rooms)
        ⊎ ((apply_elo calc_elo s room_id e).0.rooms ≡ mark_elo_updated s.rooms room_id)
  unfolding settle
  apply_elo-rooms room_id e = elim (apply_elo-cases calc_elo s room_id e) [
    | inl idle ↦ inl (ap (λ (r : Arena × Broadcasts). r.0.rooms) idle)
    | inr (r, rated) ↦ inr (ap (λ (r : Arena × Broadcasts). r.0.rooms) rated)
  ]

-- A forfeit changes nothing, or ends the game of its room and at most marks the room as rated.
pub force_forfeit-cases :
    (calc_elo : ℤ → ℤ → ℤ × ℤ) (s : Arena) (room_id loser : String)
    → let s' = (force_forfeit calc_elo s room_id loser).0 in
      (s' ≡ s)
      ⊎ ((e : GameEngine) × (winner : Color) × (lookup room_id s.engines ≡ some e)
          × (s'.engines ≡ insert room_id (forfeit e winner) s.engines)
          × ((s'.rooms ≡ s.rooms) ⊎ (s'.rooms ≡ mark_elo_updated s.rooms room_id)))
unfolding force_forfeit
force_forfeit-cases calc_elo s room_id loser = elim (Option-cases (lookup room_id s.engines)) [
  | inl nothing ↦ inl (rw (nothing, force_forfeit) refl)
  | inr (e, there) ↦ (elim (Bool-cases e.game_over) [
    | inl over ↦
        inl (rw (there, force_forfeit) (ap (λ (r : Arena × Broadcasts). r.0) (if_true _ _ _ over)))
    | inr running ↦ (elim (Option-cases (winner_without (get_room_players s.rooms room_id) loser)) [
      | inl nobody ↦
          let nothing : force_forfeit calc_elo s room_id loser ≡ (s, []) =
            rw (there, force_forfeit) (if_false _ _ _ running ∙ rw nobody refl) in
          inl (ap (λ (r : Arena × Broadcasts). r.0) nothing)
      | inr (winner, found) ↦
          let s₁ : Arena = record s { engines = insert room_id (forfeit e winner) s.engines } in
          let ended : force_forfeit calc_elo s room_id loser
              ≡ apply_elo calc_elo s₁ room_id (forfeit e winner) =
            rw (there, force_forfeit) (if_false _ _ _ running ∙ rw found refl) in
          inr (
            e,
            winner,
            there,
            ap (λ (r : Arena × Broadcasts). r.0.engines) ended
                ∙ apply_elo-engines calc_elo s₁ room_id (forfeit e winner),
            subst
                (λ (r : Arena × Broadcasts).
                  (r.0.rooms ≡ s.rooms) ⊎ (r.0.rooms ≡ mark_elo_updated s.rooms room_id))
                (sym ended) (apply_elo-rooms calc_elo s₁ room_id (forfeit e winner)),
          )
    ])
  ])
]

pub forfeit_over : (e : GameEngine) (winner : Color) → (forfeit e winner).game_over ≡ true
unfolding forfeit
forfeit_over e winner =
    if-cases (λ (x : GameEngine). x.game_over ≡ true) e.game_over (λ over. over) (λ running. refl)
