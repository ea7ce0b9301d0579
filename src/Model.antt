-- ===== src/Model.antt =====
-- The data model: model/position.py, model/piece.py, model/board.py.
-- A `Piece` is a mutable object that the board and the motions share, so it lives in a store
-- (`Store`, from an object's identity to its fields), and the board's grid holds identities.
mod Texts
mod Pieces
mod Grid
mod Names
pub mod Moves
unfoldable pub use Texts.*
unfoldable pub use Pieces.*
unfoldable pub use Grid.*
unfoldable pub use Names.*
