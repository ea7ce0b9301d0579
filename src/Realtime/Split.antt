-- ===== src/Realtime/Split.antt =====
-- What the split of `advance_time` keeps of the motions: any fact that does not look at the time.
use chess_kung_fu.Prelude.{
  ℕ, ◌≡◌, ◌≢◌, sym, ◌∙◌, List, [], ◌∷◌, ℤ, pos, leb_ℤ, All, All_imp, Bool-cases, inl, inr,
  DistinctBy,
}
use chess_kung_fu.Realtime.{Motion, age, split_completed}

add_right :
    (f : Motion → ℕ) (m : Motion) (c s : List Motion)
    → All (λ n. f n ≢ f m) c
    → All (λ n. All (λ k. f k ≢ f n) s) c
    → All (λ n. All (λ k. f k ≢ f n) (m ∷ s)) c
add_right f m [] s h k = tt
add_right f m (x ∷ c) s h k = ((λ e. h.0 (sym e), k.0), add_right f m c s h.1 k.1)

module _ (ms : ℤ) where
  pub split-All {κ} :
      (P : Motion → Type κ)
      → ((m : Motion) → P m → P (age ms m))
      → (motions : List Motion) → All P motions
      → All P (split_completed ms motions).0 × All P (split_completed ms motions).1
  unfolding split_completed
  split-All P keep [] h = (tt, tt)
  split-All P keep (m ∷ motions) h =
      let (c, s) = split-All P keep motions h.1 in
      elim (Bool-cases (leb_ℤ (age ms m).remaining_time (pos 0))) [
        | inl e ↦ rw e ((keep m h.0, c), s)
        | inr e ↦ rw e (c, (keep m h.0, s))
      ]

  -- Distinct motions are split into distinct ones, and none is on both sides.
  pub split-DistinctBy :
      (f : Motion → ℕ)
      → ((m : Motion) → f (age ms m) ≡ f m)
      → (motions : List Motion) → DistinctBy f motions
      → let (c, s) = split_completed ms motions in
        DistinctBy f c × DistinctBy f s × All (λ m. All (λ n. f n ≢ f m) s) c
  unfolding split_completed
  split-DistinctBy f same [] d = (tt, tt, tt)
  split-DistinctBy f same (m ∷ motions) d =
      let (dc, ds, cross) = split-DistinctBy f same motions d.1 in
      let (fc, fs) =
        split-All (λ n. f n ≢ f (age ms m)) (λ n ne e. ne (sym (same n) ∙ e)) motions
          (All_imp (λ n ne e. ne (e ∙ same m)) motions d.0) in
      elim (Bool-cases (leb_ℤ (age ms m).remaining_time (pos 0))) [
        | inl e ↦ rw e ((fc, dc), ds, (fs, cross))
        | inr e ↦ rw e (
          dc,
          (fs, ds),
          add_right f (age ms m) (split_completed ms motions).0 (split_completed ms motions).1 fc
              cross,
        )
      ]
