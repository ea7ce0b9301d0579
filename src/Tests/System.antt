-- ===== src/Tests/System.antt =====
-- The witnesses of the router, the endings of games, the loop and the whole server.
use chess_kung_fu.Prelude.{
  ◌≡◌, refl, true, false, Option, none, some, List, [], ◌∷◌, String, string_eq, lookup, insert, ◌⊎◌,
  ℤ, pos, arith, ◌-ℤ◌,
}
use mathlib.Core.Option.{none-ne-some}
use chess_kung_fu.Model.{Text, text, black}
use chess_kung_fu.Engine.{GameEngine}
use chess_kung_fu.Server.Protocol.{Json, object, Fields, parsed, decode}
use chess_kung_fu.Server.Protocol.Make.{make_room_create, make_error}
use chess_kung_fu.Server.Rooms.{new_service, new_member, as_white, Room}
use chess_kung_fu.Server.Rooms.Departures.{new_service-IsHoused}
use chess_kung_fu.Server.Matchmaking.{QueueEntry}
use chess_kung_fu.Server.Connections.{new_context}
use chess_kung_fu.Server.Games.Endings.{Arena, force_forfeit}
use chess_kung_fu.Server.Games.Ratings.{IsSettled}
use chess_kung_fu.Server.Games.Forfeits.{Plays, force_forfeit_lem}
use chess_kung_fu.Server.Router.{App, Outside, send, handle_raw}
use chess_kung_fu.Server.Router.Changes.{Change, handle_raw-Change}
use chess_kung_fu.Server.Router.Serving.{IsServing, Provides, Moved, handle_raw_engines}
use chess_kung_fu.Server.Router.Strangers.{IsPublic, handle_raw_stranger}
use chess_kung_fu.Server.Runtime.{
  Runtime, Surroundings, Letter, on_client_disconnected, process_disconnect_grace,
}
use chess_kung_fu.Server.Runtime.Losses.{IsOver, Waits}
use chess_kung_fu.Server.Runtime.Grace.{abandoned_game_ends}
use chess_kung_fu.Server.Runtime.Blocked.{run_rounds, blocked_rounds}
use chess_kung_fu.Server.System.{System, app_of, with_app}
use chess_kung_fu.Tests.Games.{game, game-IsValid}
use chess_kung_fu.Tests.Rooms.{service, service-IsHoused}
use chess_kung_fu.Tests.Services.{builtins, registry, unnamed}

abbrev outside : Outside
outside = record {
  py = builtins;
  now = 0;
  elo = λ u. pos 1200;
  token_hex = "a1b2c3";
  fresh_engine = game;
  login = λ u p. record { granted = false; user = none; token = none; reason = text "wrong" };
  authenticate = λ t. none;
  json_msg = text "Expecting value";
}

-- Ann is connected, and there is no room yet.
abbrev app : App
app = record {
  registry = registry;
  lobby = record { rooms = new_service; queue = [] };
  engines = [];
  published = [];
}

abbrev creates_room : Option Json
creates_room = some (object make_room_create)

handle_raw-Change_example : Change outside app 0 (handle_raw outside app 0 creates_room).0
handle_raw-Change_example = handle_raw-Change outside app 0 creates_room

app-IsServing : IsServing app
unfolding lookup
app-IsServing = record {
  sound = record { rooms = new_service-IsHoused; queue = tt };
  valid = tt;
  manned = λ rid room h. absurd (none-ne-some room h);
}

app-Provides : Provides outside app
unfolding lookup
app-Provides = record { fresh = refl; named = unnamed; engine = game-IsValid }

-- The game of Ann's room.
abbrev playing : App
playing = record {
  registry = registry;
  lobby = record { rooms = service; queue = [] };
  engines = insert "a1b2c3" game [];
  published = [];
}

handle_raw_engines_example :
    (e' : GameEngine) × (lookup "a1b2c3" (handle_raw outside playing 0 creates_room).0.engines
      ≡ some e')
    × ((e' ≡ game) ⊎ Moved playing 0 "a1b2c3" e')
unfolding lookup insert
handle_raw_engines_example = handle_raw_engines outside playing 0 creates_room "a1b2c3" game refl

-- A connection without a user.
abbrev strangers : App
strangers = record playing {
  registry = record { contexts = new_context; next_context = 1; by_ws = (0, 0) ∷ []; by_user = [] };
}

handle_raw_stranger_example :
    ((d : Fields) × (decode creates_room ≡ parsed d) × IsPublic d)
    ⊎ ((reason : Text) × (handle_raw outside strangers 0 creates_room
          ≡ (strangers, send strangers 0 (make_error reason))))
handle_raw_stranger_example = handle_raw_stranger outside strangers 0 creates_room refl

abbrev calc : ℤ → ℤ → ℤ × ℤ
calc w l = (w, l)

abbrev arena : Arena
arena = record {
  rooms = service;
  engines = insert "a1b2c3" game [];
  users = [];
  history = [];
  over_events = [];
  finished = [];
}

arena-IsSettled : IsSettled arena
arena-IsSettled x = ground arith

abbrev anns_room : Room
anns_room = record {
  room_id = "a1b2c3";
  members = insert "ann" (new_member "ann" as_white) [];
  elo_updated = false;
  game_started = true;
}

ann-Plays : Plays service.rooms "a1b2c3" "ann" (new_member "ann" as_white)
unfolding lookup insert
ann-Plays = record {
  room = anns_room;
  there = refl;
  seats = service-IsHoused.seated "a1b2c3" anns_room refl;
  here = refl;
  player = refl;
}

force_forfeit_lem_example :
    ((game.game_over ≡ true) × ((force_forfeit calc arena "a1b2c3" "ann").0 ≡ arena))
    ⊎ ((game.game_over ≡ false)
        × ((force_forfeit calc arena "a1b2c3" "ann").0.engines
            ≡ insert "a1b2c3"
                (record game { game_over = true; winner = some black })
                arena.engines))
unfolding lookup insert
force_forfeit_lem_example =
    force_forfeit_lem calc arena "a1b2c3" "ann" (new_member "ann" as_white) game ann-Plays refl

abbrev surroundings : Surroundings
surroundings = record { calc_elo = calc; token_hex = λ k. "d4e5f6"; fresh_engine = game }

abbrev server : Runtime
server = record { arena = arena; queue = []; last_countdown_sent = []; drawn = 0 }

ann-Waits : Waits arena "a1b2c3" "ann"
unfolding lookup insert
ann-Waits = record {
  housed = service-IsHoused;
  player = record {
    room = anns_room;
    member = new_member "ann" as_white;
    there = refl;
    here = refl;
    player = refl;
  };
  game = (game, refl);
}

abandoned_game_ends_example :
    (s' : Runtime) × (letters : List Letter) × (on_client_disconnected server 5000 "ann"
      ≡ some (s', letters))
    × IsOver (process_disconnect_grace surroundings s' 25000).0.arena "a1b2c3"
abandoned_game_ends_example =
    abandoned_game_ends surroundings server 5000 25000 "a1b2c3" "ann" ann-Waits (omega arith)

-- Ann is queued and in her room; Bob waits behind her.
abbrev queued : String → QueueEntry
queued u = record { user_id = u; elo = pos 1200; enqueued_at = 0 }

blocked_rounds_example :
    (rest : List QueueEntry) × (run_rounds surroundings
        (record server { queue = queued "ann" ∷ queued "bob" ∷ [] })
        (50 ∷ 100 ∷ [])
      ≡ record server { queue = queued "ann" ∷ queued "bob" ∷ rest })
unfolding lookup insert ◌-ℤ◌
blocked_rounds_example =
    blocked_rounds surroundings server (queued "ann") (queued "bob") "a1b2c3" refl refl []
      (50 ∷ 100 ∷ []) ((refl, refl), ((refl, refl), tt))

-- A server that has just been started, with Ann's connection.
abbrev system : System
system = record {
  registry = registry;
  published = [];
  runtime = record server { arena = record arena { rooms = new_service; engines = [] } };
}

abbrev later : System
later = with_app system (handle_raw outside (app_of system) 0 creates_room).0
