-- ===== src/Engine.antt =====
-- engine/scoreboard.py (`Scoreboard`) and engine/game_engine.py (`GameEngine`). The engine's
-- state holds the store of the piece objects, which its board and its arbiter share.
mod Scores
mod Calls
mod Clocks
pub mod Squares
pub mod Landing
pub mod Round
pub mod Requests
pub mod Valid
pub mod Runs
pub mod Stranded
unfoldable pub use Scores.*
unfoldable pub use Calls.*
unfoldable pub use Clocks.*
