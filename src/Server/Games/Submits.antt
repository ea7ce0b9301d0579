-- ===== src/Server/Games/Submits.antt =====
-- `submit_move`: who may move what, and what a move changes.
use chess_kung_fu.Prelude.{
  ℕ, ◌≡◌, refl, ◌∙◌, sym, ap, subst, true, false, some, String, string_eq, lookup, insert,
  insert_same, insert-cases, ℤ, Bool-cases, Option-cases, if_true, if_false, inl, inr, ◌⊎◌,
}
use chess_kung_fu.Model.{Position, Color, color_eq, color_beq_iff, get_piece}
use mathlib.Core.Option.{some_inj}
use chess_kung_fu.Rules.{is_move_legal}
use chess_kung_fu.Engine.{GameEngine, accept_move}
use chess_kung_fu.Engine.Valid.{IsValid, handle_move_request-IsValid}
use chess_kung_fu.Engine.Requests.{Accepted, handle_move_request-cases, handle_move_request_accepts}
use chess_kung_fu.Server.Rooms.{room_id_for_user, member_role}
use chess_kung_fu.Server.Games.{
  GameService, MoveOutcome, Reason, fine, game_already_over, not_your_piece, illegal_move,
  no_active_game, not_in_a_room, viewers_cannot_move, is_own, chebyshev_duration_ms,
  try_player_move, handle_move, player_color, accepted_move, refusal, submit_as, submit_move,
}

abbrev pub cell : ℤ × ℤ → Position
cell p = record { row = p.0; col = p.1 }

-- What it takes for a player's move to be made: the piece `r` on the start is idle and of the
-- player's colour, the game goes on, and the move is legal.
pub record Playable (e : GameEngine) (color : Color) (start end : ℤ × ℤ) (r : ℕ) : Type 0 where
  pub accepted : Accepted e (cell start) r
  pub own : (e.store r).color ≡ color
  pub legal : is_move_legal e.store e.board (cell start) (cell end) ≡ true

-- The engine after a move is made.
abbrev pub played : GameEngine → ℕ → ℤ × ℤ → ℤ × ℤ → GameEngine
played e r start end =
    accept_move e r (cell start) (cell end) (chebyshev_duration_ms (cell start) (cell end))

own_color :
    (e : GameEngine) (p : Position) (color : Color) (r : ℕ)
    → is_own e (get_piece e.board p) color ≡ true
    → get_piece e.board p ≡ some r
    → (e.store r).color ≡ color
own_color e p color r h here =
    (color_beq_iff (e.store r).color color).0 (ap (λ o. is_own e o color) (sym here) ∙ h)

pub try_player_move-cases :
    (e : GameEngine) (color : Color) (start end : ℤ × ℤ)
    → ((reason : Reason) × (try_player_move e color start end ≡ (e, false, reason)))
      ⊎ ((r : ℕ) × Playable e color start end r
          × (try_player_move e color start end ≡ (played e r start end, true, fine)))
unfolding try_player_move
try_player_move-cases e color start end = elim (Bool-cases e.game_over) [
  | inl over ↦ inl (game_already_over, if_true _ _ _ over)
  | inr running ↦ (elim (Bool-cases (is_own e (get_piece e.board (cell start)) color)) [
    | inr foreign ↦ inl (not_your_piece, if_false _ _ _ running ∙ rw foreign refl)
    | inl own ↦
        (elim (handle_move_request-cases e (cell start) (cell end)
          (chebyshev_duration_ms (cell start) (cell end))) [
            | inl refused ↦ inl (illegal_move, if_false _ _ _ running ∙ rw (own, refused) refl)
            | inr (r, ok, legal, accepted) ↦ inr (
              r,
              record {
                accepted = ok;
                own = own_color e (cell start) color r own ok.here;
                legal = legal;
              },
              if_false _ _ _ running ∙ rw (own, accepted) refl,
            )
          ])
  ])
]

-- The service after the move is made in the room.
abbrev pub with_engine : GameService → String → GameEngine → GameService
with_engine s room_id e = record s { engines = insert room_id e s.engines }

same_engine :
    (s : GameService) (room_id : String) (e : GameEngine)
    → lookup room_id s.engines ≡ some e
    → with_engine s room_id e ≡ s
same_engine s room_id e h = ap (λ d. record s { engines = d }) (insert_same room_id e s.engines h)

-- What it takes for a user's request to be granted.
pub record Granted (s : GameService) (user_id : String) (start end : ℤ × ℤ) : Type 0 where
  pub room_id : String
  pub color : Color
  pub engine : GameEngine
  pub piece : ℕ
  pub at_home : room_id_for_user s.rooms user_id ≡ some room_id
  pub plays : player_color (member_role s.rooms room_id user_id) ≡ some color
  pub active : lookup room_id s.engines ≡ some engine
  pub playable : Playable engine color start end piece

-- The result of a request that is granted.
abbrev pub granted_result :
    (s : GameService) (user_id : String) (start end : ℤ × ℤ)
    → Granted s user_id start end
    → GameService × MoveOutcome
granted_result s user_id start end g =
    accepted_move (with_engine s g.room_id (played g.engine g.piece start end)) g.room_id user_id
      start end

submit_as-cases :
    (s : GameService) (room_id user_id : String) (color : Color) (start end : ℤ × ℤ)
    → room_id_for_user s.rooms user_id ≡ some room_id
    → player_color (member_role s.rooms room_id user_id) ≡ some color
    → ((reason : Reason) × (submit_as s room_id user_id color start end ≡ (s, refusal reason)))
      ⊎ ((g : Granted s user_id start end) × (submit_as s room_id user_id color start end
            ≡ granted_result s user_id start end g))
unfolding submit_as handle_move
submit_as-cases s room_id user_id color start end home plays =
    elim (Option-cases (lookup room_id s.engines)) [
      | inl nothing ↦ inl (no_active_game, rw (nothing, handle_move) refl)
      | inr (e, active) ↦ (elim (try_player_move-cases e color start end) [
        | inl (reason, refused) ↦ inl (
          reason,
          rw (active, refused, handle_move)
              (ap (λ z. (z, refusal reason)) (same_engine s room_id e active)),
        )
        | inr (r, playable, made) ↦ inr (
          record {
            room_id = room_id;
            color = color;
            engine = e;
            piece = r;
            at_home = home;
            plays = plays;
            active = active;
            playable = playable;
          },
          rw (active, made, handle_move) refl,
        )
      ])
    ]

-- A request for a move is either refused with a reason, and then nothing changes, neither the
-- rooms nor any engine nor the published events; or its user has a player's role in the room it
-- is in, a game is active there and goes on, an idle piece of the player's own colour stands on
-- the start, and the move is legal: then exactly that room's engine makes the move, the event is
-- published, and the answer names the room and its members.
pub submit_move-cases :
    (s : GameService) (user_id : String) (start end : ℤ × ℤ)
    → ((reason : Reason) × (submit_move s user_id start end ≡ (s, refusal reason)))
      ⊎ ((g : Granted s user_id start end) × (submit_move s user_id start end
            ≡ granted_result s user_id start end g))
unfolding submit_move
submit_move-cases s user_id start end = elim (Option-cases (room_id_for_user s.rooms user_id)) [
  | inl away ↦ inl (not_in_a_room, rw (away, submit_move) refl)
  | inr (room_id, home) ↦
      (elim (Option-cases (player_color (member_role s.rooms room_id user_id))) [
        | inl views ↦ inl (viewers_cannot_move, rw (home, views, submit_move) refl)
        | inr (color, plays) ↦
            rw (home, plays, submit_move)
              (submit_as-cases s room_id user_id color start end home plays)
      ])
]

-- Every engine of the service is valid.
abbrev pub HasValidEngines : GameService → Type 0
HasValidEngines s =
    (room_id : String) (e : GameEngine) → lookup room_id s.engines ≡ some e → IsValid e

pub played-IsValid :
    (e : GameEngine) (color : Color) (start end : ℤ × ℤ) (r : ℕ)
    → Playable e color start end r
    → IsValid e
    → IsValid (played e r start end)
played-IsValid e color start end r p v =
    rw
      (handle_move_request_accepts e (cell start) (cell end)
        (chebyshev_duration_ms (cell start) (cell end)) r p.accepted p.legal)
      at
      (handle_move_request-IsValid e (cell start) (cell end)
        (chebyshev_duration_ms (cell start) (cell end)) v)

-- A move that is granted leaves all engines valid.
Granted-HasValidEngines :
    (s : GameService) (user_id : String) (start end : ℤ × ℤ) (g : Granted s user_id start end)
    → HasValidEngines s
    → HasValidEngines (granted_result s user_id start end g).0
Granted-HasValidEngines s user_id start end g v room_id e h =
    elim (insert-cases g.room_id room_id (played g.engine g.piece start end) s.engines) [
      | inl (same, here) ↦ subst IsValid (some_inj.0 (sym here ∙ h)) (
          played-IsValid g.engine g.color start end g.piece g.playable
            (v g.room_id g.engine g.active))
      | inr (other, there) ↦ v room_id e (sym there ∙ h)
    ]

-- Whatever is requested, all engines of the service stay valid.
pub submit_move-HasValidEngines :
    (s : GameService) (user_id : String) (start end : ℤ × ℤ)
    → HasValidEngines s
    → HasValidEngines (submit_move s user_id start end).0
submit_move-HasValidEngines s user_id start end v = elim (submit_move-cases s user_id start end) [
  | inl (reason, refused) ↦ rw refused v
  | inr (g, made) ↦ rw made (Granted-HasValidEngines s user_id start end g v)
]
