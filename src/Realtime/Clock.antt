-- ===== src/Realtime/Clock.antt =====
-- `RealTimeArbiter.advance_time`: the clock.
use mathlib.Core.List.{Perm, perm_middle}
use mathlib.Core.List.Perm
use chess_kung_fu.Prelude.{
  ◌≡◌, refl, true, false, List, [], ◌∷◌, ◌++◌, map, arith, ℤ, pos, leb_ℤ, ◌≤ℤ◌, ◌<ℤ◌, All,
  Bool-cases, inl, inr,
}
use chess_kung_fu.Prelude.Sort.{sort-perm, All-sort, sort-IsSorted, IsSorted}
use chess_kung_fu.Realtime.{
  Motion, RealTimeArbiter, age, split_completed, arrives_before, advance_time,
}

module _ (ms : ℤ) where
  split_completed-perm :
      (motions : List Motion)
      → Perm
          ((split_completed ms motions).0 ++ (split_completed ms motions).1)
          (map (age ms) motions)
  unfolding split_completed
  split_completed-perm [] = Perm.refl []
  split_completed-perm (m ∷ motions) = elim (Bool-cases (leb_ℤ (age ms m).remaining_time (pos 0))) [
    | inl e ↦ rw e (Perm.cons (age ms m) (split_completed-perm motions))
    | inr e ↦
        rw e (Perm.trans (perm_middle _ _) (Perm.cons (age ms m) (split_completed-perm motions)))
  ]

  split_completed-due :
      (motions : List Motion)
      → All (λ m. m.remaining_time ≤ℤ pos 0) (split_completed ms motions).0
        × All (λ m. pos 0 <ℤ m.remaining_time) (split_completed ms motions).1
  unfolding split_completed
  split_completed-due [] = (tt, tt)
  split_completed-due (m ∷ motions) = elim (Bool-cases (leb_ℤ (age ms m).remaining_time (pos 0))) [
    | inl e ↦
        rw e ((ground arith, (split_completed-due motions).0), (split_completed-due motions).1)
    | inr e ↦
        rw e ((split_completed-due motions).0, (ground arith, (split_completed-due motions).1))
  ]

arrives_before_total : (x y : Motion) → arrives_before x y ≡ false → arrives_before y x ≡ true
arrives_before_total x y h = ground arith

arrives_before_trans :
    (x y z : Motion)
    → arrives_before x y ≡ true
    → arrives_before y z ≡ true
    → arrives_before x z ≡ true
arrives_before_trans x y z h k = ground arith

-- What a call of `advance_time` does to the arbiter `a`.
pub record Advanced (a a' : RealTimeArbiter) (ms : ℤ) (completed : List Motion) : Type 0 where
  pub whole : Perm (completed ++ a'.active_motions) (map (age ms) a.active_motions)
  pub over : All (λ m. m.remaining_time ≤ℤ pos 0) completed
  pub running : All (λ m. pos 0 <ℤ m.remaining_time) a'.active_motions
  pub in_order : IsSorted arrives_before completed
  pub counter : a'.motion_counter ≡ a.motion_counter

-- `advance_time` takes `ms` off every active motion and loses or doubles none: it returns exactly
-- those whose time has run out, by remaining time and then by id, and keeps exactly the others,
-- all of which have time left.
pub advance_time_lem :
    (a : RealTimeArbiter) (ms : ℤ)
    → let (a', completed) = advance_time a ms in Advanced a a' ms completed
unfolding advance_time
advance_time_lem a ms =
    let s = split_completed ms a.active_motions in
    record {
      whole =
          Perm.trans (Perm.append (sort-perm arrives_before s.0) (Perm.refl s.1))
            (split_completed-perm ms a.active_motions);
      over =
          All-sort arrives_before (λ m. m.remaining_time ≤ℤ pos 0) s.0
            (split_completed-due ms a.active_motions).0;
      running = (split_completed-due ms a.active_motions).1;
      in_order = sort-IsSorted arrives_before arrives_before_total arrives_before_trans s.0;
      counter = refl;
    }
