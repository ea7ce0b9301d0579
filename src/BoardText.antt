-- ===== src/BoardText.antt =====
-- chess_io/board_parser.py (`BoardParser`) and chess_io/board_printer.py (`BoardPrinter`). A line
-- is a text without its line break; what is printed is a list of lines. The pieces that the parser
-- makes are new objects, numbered as they come.
pub mod Cells
pub mod Boards
pub mod Accepts
use chess_kung_fu.Prelude.{
  ℕ, zero, suc, ◌+◌, ◌≡◌, Bool, true, false, not, ◌&&◌, ◌||◌, Option, none, some, List, [], ◌∷◌,
  ◌++◌, map, length, if◌then◌else◌, ◌==◌, leb, ltb, ℤ, pos, nat_eq, elem,
}
use chess_kung_fu.Model.{
  Text, text, text_eq, Position, idle, Color, white, black, PieceType, king, queen, rook, bishop,
  knight, pawn, Piece, Store, write, Board, empty_board, get_piece, set_piece,
}
use chess_kung_fu.Server.Protocol.{is_space}

-- The word at the head of a text, and the words after it.
abbrev pub push_word : Text → List Text → List Text
push_word [] words = words
push_word (c ∷ cs) words = (c ∷ cs) ∷ words

unfoldable pub split_word : Text → Text × List Text
split_word [] = ([], [])
split_word (c ∷ cs) =
    let (word, words) = split_word cs in
    if is_space c then ([], push_word word words) else (c ∷ word, words)

-- `line.strip().split()`: `split` leaves the space around out by itself.
unfoldable pub split : Text → List Text
unfolding split_word
split line = let (word, words) = split_word line in push_word word words

-- `str.lower` of a character, as far as it can give a letter that is asked for (the last is the
-- sign for kelvin).
abbrev pub lower_char : ℕ → ℕ
lower_char c = if leb 65 c && leb c 90 then c + 32 else if c == 8490 then 107 else c

abbrev pub lower : Text → Text
lower = map lower_char

-- `parts[0]` and `parts[1]` of `token.split('_')`, where there is a '_'.
unfoldable pub before_mark : Text → Text
before_mark [] = []
before_mark (c ∷ cs) = let rest = before_mark cs in if c == b'_' then [] else c ∷ rest

unfoldable pub after_mark : Text → Text
after_mark [] = []
after_mark (c ∷ cs) = let rest = after_mark cs in if c == b'_' then cs else rest

-- The colour and the type that a token names, as texts; none for a token that is too short.
unfoldable pub token_parts : Text → Option (Text × Text)
unfolding before_mark after_mark
token_parts token =
    if elem b'_' token
    then some (before_mark token, lower (before_mark (after_mark token)))
    else (elim token [
      | [] ↦ none
      | c ∷ cs ↦ if length cs == 0 then none else some (lower (c ∷ []), lower cs)
    ])

abbrev pub color_named : Text → Option Color
color_named t = if t == text "w" then some white else if t == text "b" then some black else none

abbrev pub type_named : Text → Option PieceType
type_named t =
    if t == text "k"
    then some king
    else if t == text "q"
    then some queen
    else if t == text "r"
    then some rook
    else if t == text "b"
    then some bishop
    else if t == text "n"
    then some knight
    else if t == text "p"
    then some pawn
    else none

-- `Piece(piece_id=token, color=color, piece_type=piece_type)`, for a token that names one.
unfoldable pub piece_named : Text → Option Piece
unfolding token_parts
piece_named token = elim (token_parts token) [
  | none ↦ none
  | some (color, piece_type) ↦ (elim (color_named color) [
    | none ↦ none
    | some c ↦ (elim (type_named piece_type) [
      | none ↦ none
      | some t ↦ some (record {
        piece_id = token;
        color = c;
        piece_type = t;
        status = idle;
        animation_time = 0;
      })
    ])
  ])
]

-- `ChessValidationError`
pub data ChessValidationError : Type 0 where
  row_width_mismatch unknown_token : ChessValidationError

pub data Result (A : Type 0) : Type 0 where
  ok : A → Result A
  raise : ChessValidationError → Result A

-- A board with the objects on it; `next` is the identity of the next one.
pub record Setup : Type 0 where
  pub store : Store
  pub board : Board
  pub next : ℕ

abbrev pub at : ℕ → ℕ → Position
at row col = record { row = pos row; col = pos col }

-- `board.set_piece(position, piece)` of a new piece
unfoldable pub place : Setup → ℕ → ℕ → Piece → Setup
place s row col piece = record {
  store = write s.store s.next piece;
  board = set_piece s.board (at row col) (some s.next);
  next = s.next + 1;
}

abbrev pub dot : Text
dot = text "."

-- The loop over the tokens of a line, from the column `col` on.
unfoldable pub parse_cells : Setup → ℕ → ℕ → List Text → Result Setup
unfolding piece_named
parse_cells s row col [] = ok s
parse_cells s row col (token ∷ tokens) = elim (token == dot) [
  | true ↦ parse_cells s row (suc col) tokens
  | false ↦ (elim (piece_named token) [
    | none ↦ raise unknown_token
    | some piece ↦ parse_cells (place s row col piece) row (suc col) tokens
  ])
]

-- The loop over the lines, from the row `row` on.
unfoldable pub parse_rows : Setup → ℕ → ℕ → List Text → Result Setup
unfolding parse_cells split
parse_rows s expected row [] = ok s
parse_rows s expected row (line ∷ lines) = elim (length (split line) == expected) [
  | false ↦ raise row_width_mismatch
  | true ↦ (elim (parse_cells s row 0 (split line)) [
    | raise e ↦ raise e
    | ok s' ↦ parse_rows s' expected (suc row) lines
  ])
]

abbrev pub blank : Store → ℕ → ℕ → Setup
blank store rows cols = record { store = store; board = empty_board rows cols; next = 0 }

-- `parse_initial_board`; `store` is what objects there were.
unfoldable pub parse_initial_board : Store → List Text → Result Setup
unfolding parse_rows
parse_initial_board store [] = ok (blank store 0 0)
parse_initial_board store (line ∷ lines) =
    let expected = length (split line) in
    parse_rows (blank store (length (line ∷ lines)) expected) expected 0 (line ∷ lines)

-- `piece.piece_id`, or "." for an empty square
unfoldable pub shown : Setup → Position → Text
shown s p = elim (get_piece s.board p) [ none ↦ dot | some r ↦ (s.store r).piece_id ]

-- `" ".join(tokens)`
unfoldable pub join : List Text → Text
join [] = []
join (token ∷ []) = token
join (token ∷ t ∷ tokens) = token ++ (b' ' ∷ join (t ∷ tokens))

-- `row_tokens`, from the column `col` on, for `n` more columns.
unfoldable pub row_tokens : Setup → ℕ → ℕ → ℕ → List Text
row_tokens s row col zero = []
row_tokens s row col (suc n) = shown s (at row col) ∷ row_tokens s row (suc col) n

unfoldable pub print_rows : Setup → ℕ → ℕ → List Text
unfolding row_tokens join
print_rows s row zero = []
print_rows s row (suc n) = join (row_tokens s row 0 s.board.num_cols) ∷ print_rows s (suc row) n

-- `print_board`
unfoldable pub print_board : Setup → List Text
unfolding print_rows
print_board s = print_rows s 0 s.board.num_rows
