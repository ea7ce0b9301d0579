-- ===== src/Tests.antt =====
-- The tests: the games, boards and rooms they run on, and a child for each part of the program.
pub mod Games
pub mod Board
pub mod Duel
pub mod Rooms
pub mod Server
pub mod Services
pub mod System
pub mod Shards
pub mod Texts
