-- ===== src/Server/Rooms.antt =====
-- Server/domain/models.py (`Room`, `RoomMember`) and Server/application/room_service.py
-- (`RoomService`). Time is counted in milliseconds; `secrets.token_hex(3)` is an argument; the
-- rooms that the callback `_on_room_created` was called for are listed in `started`. What is
-- only logged is left out.
mod Domain
mod Entry
mod Presence
pub mod Members
pub mod Service
pub mod Arrivals
pub mod Departures
pub mod Grace
pub mod Marks
unfoldable pub use Domain.*
unfoldable pub use Entry.*
unfoldable pub use Presence.*
