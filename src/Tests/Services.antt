-- ===== src/Tests/Services.antt =====
-- The witnesses of the games, the lobby, the sessions and the connections of the server.
use chess_kung_fu.Prelude.{
  ℕ, ◌≡◌, ◌≢◌, refl, sym, subst, ap, ◌∙◌, true, false, none, some, [], ◌∷◌, String, string_eq,
  lookup, insert, insert-cases, inl, inr, ◌⊎◌, ℤ, pos, arith,
}
use package.text.Mathlib.TextEquality.{eq_iff}
use mathlib.Core.Option.{some_inj, none-ne-some}
use chess_kung_fu.Model.{text}
use chess_kung_fu.Engine.Valid.{IsValid}
use chess_kung_fu.Server.Protocol.{Builtins, refused, type_error}
use chess_kung_fu.Server.Rooms.{new_service}
use chess_kung_fu.Server.Rooms.Departures.{new_service-IsHoused}
use chess_kung_fu.Server.Matchmaking.{is_queued}
use chess_kung_fu.Server.Games.{GameService, Reason, refusal, submit_move}
use chess_kung_fu.Server.Games.Submits.{Granted, granted_result, HasValidEngines, submit_move-cases}
use chess_kung_fu.Server.Lobby.{Lobby, play, create, join, Identity}
use chess_kung_fu.Server.Lobby.Commands.{Commands, IsSound, play_lem}
use chess_kung_fu.Server.Connections.{
  ConnectionContext, ConnectionRegistry, new_context, bind_user, send_to_user,
}
use chess_kung_fu.Server.Connections.Bindings.{IsBound, bind_user-IsBound, bind_user_twice}
use chess_kung_fu.Tests.Games.{game, game-IsValid}
use chess_kung_fu.Tests.Rooms.{service}

-- The game of Ann's room.
abbrev games : GameService
games = record { rooms = service; engines = insert "a1b2c3" game []; published = [] }

games-HasValidEngines : HasValidEngines games
unfolding lookup
games-HasValidEngines room_id e h = elim (insert-cases "a1b2c3" room_id game []) [
  | inl (_, here) ↦ subst IsValid (some_inj.0 (sym here ∙ h)) game-IsValid
  | inr (_, nothing) ↦ absurd (none-ne-some e (sym nothing ∙ h))
]

abbrev from : ℤ × ℤ
from = (pos 7, pos 0)

abbrev to : ℤ × ℤ
to = (pos 3, pos 0)

submit_move-cases_example :
    ((reason : Reason) × (submit_move games "ann" from to ≡ (games, refusal reason)))
    ⊎ ((g : Granted games "ann" from to) × (submit_move games "ann" from to
          ≡ granted_result games "ann" from to g))
submit_move-cases_example = submit_move-cases games "ann" from to

abbrev pub builtins : Builtins
builtins = record { repr = λ v. []; read_int = λ t. none; dict_of_items = λ v. refused type_error }

abbrev lobby : Lobby
lobby = record { rooms = new_service; queue = [] }

lobby-IsSound : IsSound lobby
lobby-IsSound = record { rooms = new_service-IsHoused; queue = tt }

pub unnamed : ◌≢◌ {A = String} "" "a1b2c3"
unnamed e = ground (arith, eq_iff "" "a1b2c3")

-- Ann makes a room, Bob comes into it, and Cat waits for an opponent.
abbrev evening : Lobby
evening = (play (join (create lobby "a1b2c3" "ann").0 "bob" "a1b2c3").0 0 (pos 1200) "cat").0

play_lem_example :
    ((lookup "cat" lobby.rooms.user_room ≡ none)
      × ((play lobby 0 (pos 1200) "cat").1.succeeded ≡ true)
      × (is_queued (play lobby 0 (pos 1200) "cat").0.queue "cat" ≡ true))
    ⊎ ((r : String) × (lookup "cat" lobby.rooms.user_room ≡ some r)
        × ((play lobby 0 (pos 1200) "cat").1.succeeded ≡ false)
        × ((play lobby 0 (pos 1200) "cat").0 ≡ lobby))
play_lem_example = play_lem lobby 0 (pos 1200) "cat" lobby-IsSound

abbrev ann : Identity
ann = record { user_id = "ann"; username = text "Ann"; elo = pos 1200 }

-- One connection, that Ann has.
abbrev anns_context : ℕ → ConnectionContext
anns_context c = record (new_context 5) { user_id = some "ann" }

abbrev pub registry : ConnectionRegistry
registry = record {
  contexts = anns_context;
  next_context = 1;
  by_ws = (5, 0) ∷ [];
  by_user = insert "ann" 0 [];
}

registry-IsBound : IsBound registry
unfolding lookup
registry-IsBound u c h = elim (insert-cases {V = ℕ} "ann" u 0 []) [
  | inl (same, _) ↦ ap some (sym same)
  | inr (_, nothing) ↦ absurd (none-ne-some c (sym nothing ∙ h))
]

bind_user-IsBound_example : IsBound (bind_user registry 0 "ann" (text "Ann") (pos 1200) (text "t"))
bind_user-IsBound_example =
    bind_user-IsBound registry 0 "ann" (text "Ann") (pos 1200) (text "t") registry-IsBound
      (inr refl)

apart : ◌≢◌ {A = String} "ann" "bob"
apart e = ground (arith, eq_iff "ann" "bob")

bind_user_twice_example :
    (((bind_user registry 0 "bob" (text "Bob") (pos 1200) (text "t")).contexts 0).user_id
      ≡ some "bob")
    × (send_to_user {A = String}
          (bind_user registry 0 "bob" (text "Bob") (pos 1200) (text "t"))
          "ann"
          "hello"
        ≡ send_to_user
            (bind_user registry 0 "bob" (text "Bob") (pos 1200) (text "t"))
            "bob"
            "hello")
unfolding lookup insert
bind_user_twice_example =
    bind_user_twice registry 0 "ann" "bob" (text "Bob") (pos 1200) (text "t") "hello" refl apart
