-- ===== src/Realtime/Ids.antt =====
-- The ids of motions: each is given once, so `motion_id` stands for the identity of a motion.
use chess_kung_fu.Prelude.{
  ℕ, ◌+◌, ◌≤◌, ◌≡◌, ◌≢◌, refl, true, false, List, [], ◌∷◌, ◌++◌, arith, if◌then◌else◌, nat_eq, ℤ,
  int_beq_iff, All, All_imp, All-append, Bool-cases, inl, inr, DistinctBy, DistinctBy-snoc,
}
use chess_kung_fu.Model.{piece_beq_refl, position_beq_iff, Position, Store, set_status, moving}
use chess_kung_fu.Realtime.Split.{split-All, split-DistinctBy}
use chess_kung_fu.Realtime.{
  Motion, RealTimeArbiter, new_arbiter, new_motion, append_motion, motion_beq, remove, collides,
  start_jump, start_motion, resolve_common_route_collision, advance_time,
}

-- Ids are told apart, and none is above the counter.
pub record IsValid (a : RealTimeArbiter) : Type 0 where
  pub counted : All (λ m. m.motion_id ≤ a.motion_counter) a.active_motions
  pub distinct : DistinctBy (λ m. m.motion_id) a.active_motions

-- Among older motions a new one is compared with all of them, and not with itself.
pub collides-snoc :
    (m : Motion) (motions : List Motion) → collides m (motions ++ m ∷ []) ≡ collides m motions
unfolding collides
collides-snoc m [] = ground arith
collides-snoc m (x ∷ motions) = ground (arith, collides-snoc m motions)

motion_beq-ne :
    (store : Store) (x m : Motion) → x.motion_id ≢ m.motion_id → motion_beq store x m ≡ false
unfolding motion_beq
motion_beq-ne store x m h = ground arith

pub motion_beq_refl : (store : Store) (m : Motion) → motion_beq store m m ≡ true
unfolding motion_beq
motion_beq_refl store m = ground (
  arith,
  piece_beq_refl (store m.piece),
  position_beq_iff m.start m.start,
  position_beq_iff m.end m.end,
  int_beq_iff m.remaining_time m.remaining_time,
  int_beq_iff m.original_duration m.original_duration,
)

-- `remove` takes the new motion out, and no older one.
pub remove-snoc :
    (store : Store) (m : Motion) (motions : List Motion)
    → motion_beq store m m ≡ true
    → All (λ x. x.motion_id ≢ m.motion_id) motions
    → remove store m (motions ++ m ∷ []) ≡ motions
unfolding remove
remove-snoc store m [] same h = rw same
remove-snoc store m (x ∷ motions) same h =
    rw (motion_beq-ne store x m h.0, remove-snoc store m motions same h.1)

new_id :
    (a : RealTimeArbiter) (m : Motion)
    → m.motion_id ≡ a.motion_counter + 1
    → IsValid a
    → All (λ x. x.motion_id ≢ m.motion_id) a.active_motions
new_id a m e v = All_imp (λ x le same. omega arith) a.active_motions v.counted

-- What a launch leaves in the air.
abbrev pub after_launch : RealTimeArbiter → Motion → RealTimeArbiter
after_launch a m = record {
  active_motions =
      if collides m a.active_motions then a.active_motions else a.active_motions ++ m ∷ [];
  motion_counter = a.motion_counter + 1;
}

-- With valid ids a launch writes MOVING to the piece in every case. The new motion joins the
-- active ones, unless an older one is on a collision course with it: then exactly the new motion
-- is dropped, and the older ones stay.
pub start_motion_lem :
    (store : Store) (a : RealTimeArbiter) (piece : ℕ) (start end : Position) (duration_ms : ℤ)
    → IsValid a
    → start_motion store a piece start end duration_ms ≡ (
      set_status store piece moving,
      after_launch a (new_motion a piece start end duration_ms false),
    )
unfolding start_motion resolve_common_route_collision
start_motion_lem store a piece start end duration_ms v =
    let m = new_motion a piece start end duration_ms false in
    let store' = set_status store piece moving in
    ground (
      arith,
      collides-snoc m a.active_motions,
      remove-snoc store' m a.active_motions (motion_beq_refl store' m) (new_id a m refl v),
    )

-- The ids stay valid under every operation of the arbiter.
pub new_arbiter-IsValid : IsValid new_arbiter
new_arbiter-IsValid = record { counted = tt; distinct = tt }

appended-IsValid :
    (a : RealTimeArbiter) (m : Motion)
    → m.motion_id ≡ a.motion_counter + 1
    → IsValid a
    → IsValid (append_motion a m)
appended-IsValid a m e v = record {
  counted =
      All-append (λ x. x.motion_id ≤ a.motion_counter + 1) a.active_motions (m ∷ [])
        (All_imp (λ x le. omega arith) a.active_motions v.counted) (omega arith, tt);
  distinct = DistinctBy-snoc (λ x. x.motion_id) a.active_motions m v.distinct (new_id a m e v);
}

counter_raised :
    (a : RealTimeArbiter) (n : ℕ)
    → a.motion_counter ≤ n
    → IsValid a
    → IsValid (record a { motion_counter = n })
counter_raised a n le v = record {
  counted = All_imp (λ x h. omega arith) a.active_motions v.counted;
  distinct = v.distinct;
}

pub start_jump-IsValid :
    (store : Store) (a : RealTimeArbiter) (piece : ℕ) (p : Position) (duration_ms : ℤ)
    → IsValid a
    → IsValid (start_jump store a piece p duration_ms).1
unfolding start_jump
start_jump-IsValid store a piece p duration_ms v = appended-IsValid a _ refl v

pub start_motion-IsValid :
    (store : Store) (a : RealTimeArbiter) (piece : ℕ) (start end : Position) (duration_ms : ℤ)
    → IsValid a
    → IsValid (start_motion store a piece start end duration_ms).1
start_motion-IsValid store a piece start end duration_ms v =
    let m = new_motion a piece start end duration_ms false in
    rw (start_motion_lem store a piece start end duration_ms v)
      (elim (Bool-cases (collides m a.active_motions)) [
        | inl e ↦ rw e (counter_raised a (a.motion_counter + 1) (omega arith) v)
        | inr e ↦ rw e (appended-IsValid a m refl v)
      ])

pub advance_time-IsValid :
    (a : RealTimeArbiter) (ms : ℤ) → IsValid a → IsValid (advance_time a ms).0
unfolding advance_time
advance_time-IsValid a ms v = record {
  counted =
      (split-All ms (λ m. m.motion_id ≤ a.motion_counter) (λ m h. h) a.active_motions v.counted).1;
  distinct = (split-DistinctBy ms (λ m. m.motion_id) (λ m. refl) a.active_motions v.distinct).1;
}
