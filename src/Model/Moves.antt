-- ===== src/Model/Moves.antt =====
-- `Board.move_piece` against the map that the board stands for.
use chess_kung_fu.Prelude.{◌≡◌, none, some, if◌then◌else◌, ◌==◌, inl, inr, Option-cases, ◌∙◌, ap}
use chess_kung_fu.Model.Pieces.{Position, position_eq}
use chess_kung_fu.Model.Grid.{Board, get_piece, set_piece, move_piece, get_piece-set_piece}

-- After `move_piece` the target square holds what stood on the start square (if anything did),
-- the start square is empty (unless it is the target), and every other square is as it was; from
-- an empty start square nothing moves.
pub get_piece-move_piece :
    (b : Board) (start end q : Position)
    → get_piece (move_piece b start end) q ≡ elim (get_piece b start) [
      | none ↦ get_piece b q
      | some r ↦ if q == end then some r else if q == start then none else get_piece b q
    ]
unfolding move_piece
get_piece-move_piece b start end q = elim (Option-cases (get_piece b start)) [
  | inl e ↦ rw (e, move_piece)
  | inr (r, e) ↦
      rw (e, move_piece)
        (get_piece-set_piece (set_piece b start none) end q (some r)
          ∙ ap (λ v. if q == end then some r else v) (get_piece-set_piece b start q none))
]
