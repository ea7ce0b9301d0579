-- ===== src/Lib.antt =====
-- ChessKungFu: chess without turns, where every move takes time, as a desktop game and as a server
-- with rooms, a queue for opponents and a JSON protocol. This library models the game core and the
-- application layer of the server, and proves what makes them correct.
--
-- The game core. A `Board` (model/board.py) maps squares to pieces. `RuleEngine` and `PieceRules`
-- (rules/) say which moves a piece has on a board. `RealTimeArbiter` (realtime/) keeps the motions
-- in the air, ages them and drops a new one that meets an older one head-on. `GameEngine` (engine/)
-- takes requests for moves and jumps, and lands the motions whose time is over: captures,
-- promotions, scores and the end of the game. `Controller` (controller/) turns clicks into requests.
--
-- The server. `RoomService` (Server/application/room_service.py) has the rooms and their members,
-- `MatchmakingService` (matchmaking_service.py) pairs queued users by Elo and has a room made for
-- each pair, `LobbyService` (lobby_service.py) serves the commands of a user over both,
-- `SessionService` (session_service.py) brings a user back to the room, `GameService`
-- (game_service.py) has an engine for each room and passes a user's move to it, through
-- `KungFuEngineAdapter` (infrastructure/game/engine_adapter.py). Messages are the classes of
-- Server/protocol.py; `ConnectionRegistry` (transport/connection_registry.py) knows whose
-- connection is whose, `MessageRouter` (transport/message_router.py) hands each message to its
-- service, and the loop of `ServerRuntime` (application/server_runtime.py) runs the queue, the
-- games' clock and the grace of those who lose their connection. bootstrap/wiring.py joins all this
-- in one process.
--
-- The sharded server. `RedisMatchmakerWorker` (Server/infrastructure/matchmaking/worker.py) matches
-- users in a queue in Redis, `GameAllocator` (allocator.py beside it) keeps which shard has a room,
-- a shard (Server/game_main.py) hosts the rooms with the services above, and the gateway's proxies
-- (infrastructure/messaging/) send a user's commands to the shard of the user's room.
--
-- Which file models what. Functions and types keep the names of the source.
--   Prelude (Tests, Lists, Int, Dicts, Sort): Python's bool, list, int, dict and stable sort.
--   Model (Texts, Names, Pieces, Grid, Moves): model/. A piece is an object: an identity, with its
--     fields in a `Store`; the grid holds identities, as the source's `is` compares them.
--   Rules (Bounds, Slides, Rays, Steps, Pawn, Legal): rules/. A `while` loop along a ray runs on
--     fuel rows + columns; the equivalences in Rays show that no square of a board is missed.
--   Realtime (Split, Ids, Clock): realtime/. `existing is new_motion` compares ids, which Ids shows
--     to be distinct.
--   Engine (Scores, Calls, Clocks; Squares, Landing, Round, Requests, Valid, Runs, Stranded):
--     engine/. `land` is the body of the loop of `update_game_clock`. Valid has the invariant,
--     Runs every sequence of calls.
--   Control (Pixels, Clicks): controller/.
--   BoardText (Cells, Boards, Accepts): chess_io/.
--   Server/Rooms (Domain, Entry, Presence; Members, Service, Arrivals, Departures, Grace, Marks):
--     Server/domain/models.py and Server/application/room_service.py. Service has the invariant
--     `IsHoused`.
--   Server/Matchmaking (Rounds, Pairs, Queue, Worlds): Server/application/matchmaking_service.py.
--     Workers (Removals, Refines): redis_queue.py and worker.py of
--     Server/infrastructure/matchmaking/.
--   Server/Lobby (Commands): lobby_service.py, session_service.py and dto.py beside it.
--   Server/Games (Submits, Snapshots; Endings, Ratings, Players, Forfeits, Arenas): the engine
--     adapter and game_service.py. Endings has the clock, the forfeits and the ratings.
--   Server/Connections (Bindings): Server/transport/connection_registry.py.
--   Server/Protocol (Play, Accounts, Rooms, Games, Make, Messages,
--     RoundTrip, Wire): Server/protocol.py.
--   Server/Router (State, Sessions, Dispatch; Changes, Openings, Serving, Strangers):
--     Server/transport/message_router.py.
--   Server/Runtime (Players, Losses, Grace, Rounds, Blocked): Server/application/server_runtime.py.
--   Server/System: one process, with the callbacks of bootstrap/wiring.py and the connections of
--     transport/websocket_server.py.
--   Server/Redis: the commands of Redis that are used, and what is documented of them.
--   Server/Allocator (Matches, Turns): Server/infrastructure/matchmaking/allocator.py.
--   Server/Gateway (Rejoins): Server/infrastructure/messaging/, without the bus.
--   Server/Shard (Hosting): Server/game_main.py.
--   Tests: small games, rooms, messages and shards on which the theorems are applied.
--
-- Arguments of the model: what `secrets`, the clock, the repositories and the engine factory give,
-- the rooms behind the matchmaking's callback, the answers of the authentication, `calc_elo`, the
-- commands of Redis, `hash`, the reply of a shard to a command, and what `str`, `int` and `dict`
-- make of a value that the protocol never carries there. Times are whole milliseconds.
--
-- Not modelled: floating point (`calc_elo` of Server/domain/elo.py); the text of JSON; SQL and the
-- hashing of passwords; asyncio with the interleaving of coroutines inside one call; the transport
-- of commands between gateway and shard (game_bus.py); logging; sockets, environment variables and
-- the start of the processes; the drawing, sound and input of Design/board; the scripts of
-- texttests/.
pub mod Prelude
pub mod Model
pub mod Rules
pub mod Realtime
pub mod Engine
pub mod BoardText
pub mod Control
pub mod Server
pub mod Tests
