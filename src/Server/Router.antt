-- ===== src/Server/Router.antt =====
-- Server/transport/message_router.py (`MessageRouter`), with the services wired as in
-- Server/bootstrap/wiring.py.
mod State
mod Sessions
mod Dispatch
pub mod Changes
pub mod Openings
pub mod Serving
pub mod Strangers
unfoldable pub use State.*
unfoldable pub use Sessions.*
unfoldable pub use Dispatch.*
