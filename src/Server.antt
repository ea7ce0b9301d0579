-- ===== src/Server.antt =====
-- The game server (Server/): its application services over the engine. A service's state is a
-- record, a call returns the new state; time, tokens and ids come in as arguments.
pub mod Rooms
pub mod Protocol
pub mod Matchmaking
pub mod Games
pub mod Lobby
pub mod Connections
pub mod Redis
pub mod Allocator
pub mod Gateway
pub mod Router
pub mod Shard
pub mod Runtime
pub mod System
