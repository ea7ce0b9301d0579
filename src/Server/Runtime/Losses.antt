-- ===== src/Server/Runtime/Losses.antt =====
-- `_process_disconnect_grace`: the players that it lists lose their games.
use chess_kung_fu.Prelude.{
  ℕ, ◌≡◌, refl, ◌∙◌, sym, ap, subst, true, ◌&&◌, some, List, [], ◌∷◌, ◌==◌, String, string_eq,
  lookup, insert, insert-cases, insert_here, ℤ, Bool-cases, inl, inr, arith, eq_of_==, and_left,
  and_right,
}
use chess_kung_fu.Model.{Color}
use chess_kung_fu.Engine.{GameEngine}
use chess_kung_fu.Server.Rooms.{
  RoomService, expired_disconnects, disconnect_countdowns, clear_disconnect_deadline,
}
use chess_kung_fu.Server.Rooms.Service.{IsHoused}
use chess_kung_fu.Server.Rooms.Departures.{
  clear_disconnect_deadline-IsHoused, mark_elo_updated-IsHoused,
}
use chess_kung_fu.Server.Rooms.Grace.{is_listed}
use chess_kung_fu.Server.Games.{forfeit}
use chess_kung_fu.Server.Games.Endings.{Arena, force_forfeit}
use chess_kung_fu.Server.Games.Forfeits.{
  Plays, force_forfeit_lem, force_forfeit-cases, forfeit_over,
}
use chess_kung_fu.Server.Runtime.{
  Runtime, Surroundings, forfeit_expired, forfeit_all, process_disconnect_grace, send_countdowns,
}
use chess_kung_fu.Server.Runtime.Players.{Player, mark-Player, clear-Player}

-- The room has a game, and it is over.
abbrev pub IsOver : Arena → String → Type 0
IsOver a rid = (e : GameEngine) × (lookup rid a.engines ≡ some e) × (e.game_over ≡ true)

-- The room has a game.
abbrev pub HasGame : Arena → String → Type 0
HasGame a rid = (e : GameEngine) × (lookup rid a.engines ≡ some e)

-- What the loop over the expired players keeps: the rooms' invariant, the player, the game.
pub record Waits (a : Arena) (rid u : String) : Type 0 where
  pub housed : IsHoused a.rooms.rooms a.rooms.user_room
  pub player : Player a.rooms.rooms rid u
  pub game : HasGame a rid

module _ (calc_elo : ℤ → ℤ → ℤ × ℤ) (a : Arena) (r v rid : String) where
  game_kept :
      (e : GameEngine) (winner : Color)
      → HasGame a rid
      → (f : GameEngine) × (lookup rid (insert r (forfeit e winner) a.engines) ≡ some f)
  game_kept e winner (f, there) = elim (insert-cases r rid (forfeit e winner) a.engines) [
    | inl (_, now) ↦ (forfeit e winner, now)
    | inr (_, stays) ↦ (f, stays ∙ there)
  ]

  over_kept :
      (e : GameEngine) (winner : Color)
      → IsOver a rid
      → (f : GameEngine) × (lookup rid (insert r (forfeit e winner) a.engines) ≡ some f)
        × (f.game_over ≡ true)
  over_kept e winner (f, there, over) = elim (insert-cases r rid (forfeit e winner) a.engines) [
    | inl (_, now) ↦ (forfeit e winner, now, forfeit_over e winner)
    | inr (_, stays) ↦ (f, stays ∙ there, over)
  ]

  forfeit-IsOver : IsOver a rid → IsOver (force_forfeit calc_elo a r v).0 rid
  forfeit-IsOver over = elim (force_forfeit-cases calc_elo a r v) [
    | inl nothing ↦ subst (λ b. IsOver b rid) (sym nothing) over
    | inr (e, winner, _, ended, _) ↦
        let (f, there, over') = over_kept e winner over in (f, ap (lookup rid) ended ∙ there, over')
  ]

  forfeit-Waits : (u : String) → Waits a rid u → Waits (force_forfeit calc_elo a r v).0 rid u
  forfeit-Waits u w = elim (force_forfeit-cases calc_elo a r v) [
    | inl nothing ↦ subst (λ b. Waits b rid u) (sym nothing) w
    | inr (e, winner, _, ended, marked) ↦
        let (f, there) = game_kept e winner w.game in
        let game : HasGame (force_forfeit calc_elo a r v).0 rid =
          (f, ap (lookup rid) ended ∙ there) in
        (elim marked [
          | inl rooms ↦ record {
            housed = subst (λ (s : RoomService). IsHoused s.rooms s.user_room) (sym rooms) w.housed;
            player = subst (λ (s : RoomService). Player s.rooms rid u) (sym rooms) w.player;
            game = game;
          }
          | inr rooms ↦ record {
            housed =
                subst (λ (s : RoomService). IsHoused s.rooms s.user_room) (sym rooms)
                  (mark_elo_updated-IsHoused a.rooms r w.housed);
            player =
                subst (λ (s : RoomService). Player s.rooms rid u) (sym rooms)
                  (mark-Player a.rooms r rid u w.player);
            game = game;
          }
        ])
  ]

-- The arena after one round of the loop.
abbrev after_forfeit : Surroundings → Arena → String → String → Arena
after_forfeit o a r v =
    let b = (force_forfeit o.calc_elo a r v).0 in
    record b { rooms = clear_disconnect_deadline b.rooms r v }

after_forfeit-Waits :
    (o : Surroundings) (a : Arena) (r v rid u : String)
    → Waits a rid u
    → Waits (after_forfeit o a r v) rid u
after_forfeit-Waits o a r v rid u w =
    let b = (force_forfeit o.calc_elo a r v).0 in
    let w' = forfeit-Waits o.calc_elo a r v rid u w in
    record {
      housed = clear_disconnect_deadline-IsHoused b.rooms r v w'.housed;
      player = clear-Player b.rooms r v rid u w'.player;
      game = w'.game;
    }

-- The player's own turn.
own_forfeit :
    (calc_elo : ℤ → ℤ → ℤ × ℤ) (a : Arena) (rid u : String)
    → Waits a rid u
    → IsOver (force_forfeit calc_elo a rid u).0 rid
own_forfeit calc_elo a rid u w =
    let (e, there) = w.game in
    let p = w.player in
    let plays : Plays a.rooms.rooms rid u p.member = record {
      room = p.room;
      there = p.there;
      seats = w.housed.seated rid p.room p.there;
      here = p.here;
      player = p.player;
    } in
    elim (force_forfeit_lem calc_elo a rid u p.member e plays there) [
      | inl (over, same) ↦ subst (λ b. IsOver b rid) (sym same) (e, there, over)
      | inr (_, ended) ↦ (_, ap (lookup rid) ended ∙ insert_here rid _ a.engines, refl)
    ]

forfeit_all-IsOver :
    (o : Surroundings) (s : Runtime) (expired : List (String × String)) (rid : String)
    → IsOver s.arena rid
    → IsOver (forfeit_all o s expired).0.arena rid
unfolding forfeit_all forfeit_expired
forfeit_all-IsOver o s [] rid over = over
forfeit_all-IsOver o s ((r, v) ∷ expired) rid over =
    forfeit_all-IsOver o (forfeit_expired o s r v).0 expired rid
      (forfeit-IsOver o.calc_elo s.arena r v rid over)

forfeit_all_ends :
    (o : Surroundings) (s : Runtime) (expired : List (String × String)) (rid u : String)
    → Waits s.arena rid u
    → is_listed rid u expired ≡ true
    → IsOver (forfeit_all o s expired).0.arena rid
unfolding forfeit_all forfeit_expired
forfeit_all_ends o s [] rid u w h = cc
forfeit_all_ends o s ((r, v) ∷ expired) rid u w h = elim (Bool-cases (r == rid && v == u)) [
  | inl own ↦
      let at : r ≡ rid = eq_of_== {a = r} {b = rid} (and_left (r == rid) (v == u) own) in
      let who : v ≡ u = eq_of_== {a = v} {b = u} (and_right (r == rid) (v == u) own) in
      forfeit_all-IsOver o (forfeit_expired o s r v).0 expired rid (
        subst (λ x. IsOver (force_forfeit o.calc_elo s.arena x v).0 rid) (sym at)
          (subst (λ x. IsOver (force_forfeit o.calc_elo s.arena rid x).0 rid) (sym who)
            (own_forfeit o.calc_elo s.arena rid u w)))
  | inr other ↦
      forfeit_all_ends o (forfeit_expired o s r v).0 expired rid u
        (after_forfeit-Waits o s.arena r v rid u w) (ground arith)
]

-- A listed player's game is over after the round.
pub process_disconnect_grace_ends :
    (o : Surroundings) (s : Runtime) (now : ℕ) (rid u : String)
    → Waits s.arena rid u
    → is_listed rid u (expired_disconnects s.arena.rooms now) ≡ true
    → IsOver (process_disconnect_grace o s now).0.arena rid
unfolding process_disconnect_grace
process_disconnect_grace_ends o s now rid u w h =
    let sent =
      (send_countdowns s.arena.rooms s.last_countdown_sent
        (disconnect_countdowns s.arena.rooms now)).0 in
    forfeit_all_ends o (record s { last_countdown_sent = sent })
      (expired_disconnects s.arena.rooms now) rid u w h
