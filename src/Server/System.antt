-- ===== src/Server/System.antt =====
-- The server as a whole, as Server/bootstrap/wiring.py puts it together: the router, the loop of
-- `ServerRuntime.run`, and what transport/websocket_server.py does for a connection that is lost.
-- Each is a step of its own; the switches between coroutines inside of one are left out.
use chess_kung_fu.Prelude.{
  ℕ, ◌≡◌, Option, none, some, List, String, string_eq, if◌then◌else◌, ◌==◌, [],
}
use chess_kung_fu.Server.Protocol.{Json}
use chess_kung_fu.Server.Lobby
use chess_kung_fu.Server.Lobby.{Lobby}
use chess_kung_fu.Server.Games.{MoveEvent}
use chess_kung_fu.Server.Connections.{ConnectionRegistry, add, remove}
use chess_kung_fu.Server.Router.{App, Outside, handle_raw}
use chess_kung_fu.Server.Router.Serving.{Provides}
use chess_kung_fu.Server.Runtime.{Runtime, Surroundings, Letter, on_client_disconnected, run_round}
use chess_kung_fu.Server.Runtime.Rounds.{Furnishes}

pub record System : Type 0 where
  pub registry : ConnectionRegistry
  pub published : List MoveEvent
  pub runtime : Runtime

-- The part that the router works on, and what it makes of the whole.
abbrev pub app_of : System → App
app_of y = record {
  registry = y.registry;
  lobby = record { rooms = y.runtime.arena.rooms; queue = y.runtime.queue };
  engines = y.runtime.arena.engines;
  published = y.published;
}

abbrev pub with_app : System → App → System
with_app y s = record {
  registry = s.registry;
  published = s.published;
  runtime = record y.runtime {
    arena = record y.runtime.arena { rooms = s.lobby.rooms; engines = s.engines };
    queue = s.lobby.queue;
  };
}

-- `handle_client` of transport/websocket_server.py: a connection that opens.
unfoldable pub open_client : System → ℕ → System
open_client y websocket = record y { registry = (add y.registry websocket).0 }

-- `removed and removed.user_id`
abbrev pub removed_user : ConnectionRegistry → Option ℕ → Option String
removed_user registry none = none
removed_user registry (some c) = elim (registry.contexts c).user_id [
  | none ↦ none
  | some u ↦ if u == "" then none else some u
]

-- The end of `handle_client`, and the messages to the user's room; `none` is an exception.
unfoldable pub close_client : System → ℕ → ℕ → Option (System × List Letter)
close_client y websocket now =
    let (registry, removed) = remove y.registry websocket in
    let y' : System = record y { registry = registry } in
    elim (removed_user registry removed) [
      | none ↦ some (y', [])
      | some u ↦ (elim (on_client_disconnected y.runtime now u) [
        | none ↦ none
        | some (runtime', letters) ↦ some (record y' { runtime = runtime' }, letters)
      ])
    ]

-- What may happen: a connection opens, a message comes, a connection ends, a round of the loop.
pub data Step (y : System) : System → Type 0 where
  opened : (websocket : ℕ) → Step y (open_client y websocket)
  message :
      (o : Outside) (c : ℕ) (raw : Option Json)
      → Provides o (app_of y)
      → Step y (with_app y (handle_raw o (app_of y) c raw).0)
  closed :
      {y' : System} (websocket now : ℕ) (letters : List Letter)
      → close_client y websocket now ≡ some (y', letters)
      → Step y y'
  round :
      (o : Surroundings) (now : ℕ)
      → Furnishes o
      → Step y (record y { runtime = (run_round o y.runtime now).0 })

pub data Runs (y : System) : System → Type 0 where
  started : Runs y y
  then_step : {y' y'' : System} → Runs y y' → Step y' y'' → Runs y y''
