-- ===== src/Realtime.antt =====
-- realtime/motion.py (`Motion`) and realtime/real_time_arbiter.py (`RealTimeArbiter`). A motion
-- holds the identity of its piece; the arbiter writes the piece's status in the store. Motions
-- are told apart by `motion_id`, which the counter gives out once (Realtime/Ids).
pub mod Split
pub mod Ids
pub mod Clock
use chess_kung_fu.Prelude.{
  ℕ, zero, suc, ◌+◌, ◌≡◌, Bool, true, false, not, ◌&&◌, ◌||◌, Option, none, some, List, [], ◌∷◌,
  ◌++◌, if◌then◌else◌, ◌==◌, Eq, ℤ, pos, negsuc, ◌+ℤ◌, ◌-ℤ◌, leb_ℤ, ltb_ℤ, int_eq, nat_eq, leb, ltb,
  length, abs,
}
use chess_kung_fu.Prelude.Sort.{sort}
use chess_kung_fu.Model.{
  Position, position_eq, Piece, piece_beq, Store, set_status, moving, jumping,
}

pub record Motion : Type 0 where
  pub motion_id : ℕ
  pub piece : ℕ
  pub start : Position
  pub end : Position
  pub remaining_time : ℤ
  pub original_duration : ℤ
  pub is_jump : Bool

-- Field by field, as a dataclass compares: pieces by their fields.
unfoldable pub motion_beq : Store → Motion → Motion → Bool
motion_beq store a b =
    a.motion_id == b.motion_id
    && (piece_beq (store a.piece) (store b.piece)
        && (a.start == b.start
            && (a.end == b.end
                && (a.remaining_time == b.remaining_time
                    && (a.original_duration == b.original_duration
                        && (if a.is_jump then b.is_jump else not b.is_jump))))))

pub record RealTimeArbiter : Type 0 where
  pub active_motions : List Motion
  pub motion_counter : ℕ

abbrev pub new_arbiter : RealTimeArbiter
new_arbiter = record { active_motions = []; motion_counter = 0 }

-- The `Motion` that `start_motion` makes, and `start_jump`, under the counter's next value.
abbrev pub new_motion : RealTimeArbiter → ℕ → Position → Position → ℤ → Bool → Motion
new_motion a piece start end duration_ms is_jump = record {
  motion_id = a.motion_counter + 1;
  piece = piece;
  start = start;
  end = end;
  remaining_time = duration_ms;
  original_duration = duration_ms;
  is_jump = is_jump;
}

-- `self._motion_counter += 1` and `self._active_motions.append(new_motion)`
abbrev pub append_motion : RealTimeArbiter → Motion → RealTimeArbiter
append_motion a m = record {
  active_motions = a.active_motions ++ m ∷ [];
  motion_counter = a.motion_counter + 1;
}

unfoldable pub start_jump : Store → RealTimeArbiter → ℕ → Position → ℤ → Store × RealTimeArbiter
start_jump store a piece position duration_ms = (
  set_status store piece jumping,
  append_motion a (new_motion a piece position position duration_ms true),
)

-- `_sign`
unfoldable pub sign : ℤ → ℤ
sign x = if ltb_ℤ (pos 0) x then pos 1 else if ltb_ℤ x (pos 0) then negsuc 0 else pos 0

-- `_are_on_collision_course`, past the tests on the directions: along a row, along a column, and
-- along a diagonal.
unfoldable pub on_row : ℤ → ℤ → ℤ → ℤ → Bool
on_row dc_a diff_row diff_col end_col =
    if not (diff_row == pos 0)
    then false
    else if ltb_ℤ (pos 0) dc_a
    then ltb_ℤ (pos 0) diff_col && leb_ℤ diff_col end_col
    else leb_ℤ end_col diff_col && ltb_ℤ diff_col (pos 0)

unfoldable pub on_column : ℤ → ℤ → ℤ → ℤ → Bool
on_column dr_a diff_row diff_col end_row =
    if not (diff_col == pos 0)
    then false
    else if ltb_ℤ (pos 0) dr_a
    then ltb_ℤ (pos 0) diff_row && leb_ℤ diff_row end_row
    else leb_ℤ end_row diff_row && ltb_ℤ diff_row (pos 0)

unfoldable pub on_diagonal : ℤ → ℤ → ℤ → ℤ → ℤ → Bool
unfolding sign
on_diagonal dr_a dc_a diff_row diff_col end_row =
    if diff_row == pos 0 || diff_col == pos 0
    then false
    else if not (abs diff_row == abs diff_col)
    then false
    else if not (sign diff_row == dr_a) || not (sign diff_col == dc_a)
    then false
    else ltb 0 (abs diff_row) && leb (abs diff_row) (abs end_row)

unfoldable pub are_on_collision_course : Motion → Motion → Bool
unfolding sign on_row on_column on_diagonal
are_on_collision_course a b =
    let dr_a = sign (a.end.row -ℤ a.start.row) in
    let dc_a = sign (a.end.col -ℤ a.start.col) in
    let dr_b = sign (b.end.row -ℤ b.start.row) in
    let dc_b = sign (b.end.col -ℤ b.start.col) in
    let diff_row = b.start.row -ℤ a.start.row in
    let diff_col = b.start.col -ℤ a.start.col in
    let end_row = a.end.row -ℤ a.start.row in
    let end_col = a.end.col -ℤ a.start.col in
    if not (dr_a +ℤ dr_b == pos 0) || not (dc_a +ℤ dc_b == pos 0)
    then false
    else if dr_a == pos 0 && dc_a == pos 0
    then false
    else if dr_a == pos 0
    then on_row dc_a diff_row diff_col end_col
    else if dc_a == pos 0
    then on_column dr_a diff_row diff_col end_row
    else on_diagonal dr_a dc_a diff_row diff_col end_row

-- `list.remove`: drops the first equal item.
unfoldable pub remove : Store → Motion → List Motion → List Motion
remove store m [] = []
remove store m (x ∷ xs) = if motion_beq store x m then xs else x ∷ remove store m xs

-- The loop of `_resolve_common_route_collision`: is there an older motion on a collision course?
unfoldable pub collides : Motion → List Motion → Bool
collides m [] = false
collides m (existing ∷ motions) =
    let rest = collides m motions in
    if existing.motion_id == m.motion_id
    then rest
    else if are_on_collision_course existing m
    then true
    else rest

unfoldable pub resolve_common_route_collision : Store → RealTimeArbiter → Motion → RealTimeArbiter
unfolding collides remove
resolve_common_route_collision store a m =
    if collides m a.active_motions
    then record a { active_motions = remove store m a.active_motions }
    else a

unfoldable pub start_motion :
    Store → RealTimeArbiter → ℕ → Position → Position → ℤ → Store × RealTimeArbiter
start_motion store a piece start end duration_ms =
    let store' = set_status store piece moving in
    let m = new_motion a piece start end duration_ms false in
    (store', resolve_common_route_collision store' (append_motion a m) m)

unfoldable pub has_active_motion : RealTimeArbiter → Bool
has_active_motion a = ltb 0 (length a.active_motions)

unfoldable pub get_active_motions : RealTimeArbiter → List Motion
get_active_motions a = a.active_motions

-- `motion.remaining_time -= ms`
abbrev pub age : ℤ → Motion → Motion
age ms m = record m { remaining_time = m.remaining_time -ℤ ms }

-- The loop of `advance_time`: the motions that are over, and those that go on.
unfoldable pub split_completed : ℤ → List Motion → List Motion × List Motion
split_completed ms [] = ([], [])
split_completed ms (m ∷ motions) =
    let (completed, still) = split_completed ms motions in
    if leb_ℤ (age ms m).remaining_time (pos 0)
    then (age ms m ∷ completed, still)
    else (completed, age ms m ∷ still)

-- The key (remaining_time, motion_id).
abbrev pub arrives_before : Motion → Motion → Bool
arrives_before a b =
    if ltb_ℤ a.remaining_time b.remaining_time
    then true
    else if ltb_ℤ b.remaining_time a.remaining_time
    then false
    else leb a.motion_id b.motion_id

unfoldable pub advance_time : RealTimeArbiter → ℤ → RealTimeArbiter × List Motion
unfolding split_completed
advance_time a ms =
    let (completed, still) = split_completed ms a.active_motions in
    (record a { active_motions = still }, sort arrives_before completed)
