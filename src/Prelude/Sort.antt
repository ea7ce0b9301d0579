-- ===== src/Prelude/Sort.antt =====
-- `list.sort(key=...)`, which is stable: an item is put in front of the first one that it is
-- not behind. `le a b` says that the key of `a` is at most that of `b`.
use mathlib.Core.Path.{◌≡◌, sym}
use mathlib.Core.Bool.{Bool, true, false}
use mathlib.Core.List.{List, [], ◌∷◌, Perm}
use mathlib.Core.List.Perm
use mathlib.Core.Logic.{inl, inr, ◌≢◌}
use Prim.Native.Nat.{ℕ}
use chess_kung_fu.Prelude.Tests.{if◌then◌else◌, Bool-cases}
use chess_kung_fu.Prelude.Lists.{All, All_imp, DistinctBy}

module _ {ℓ} {A : Type ℓ} (le : A → A → Bool) where
  unfoldable pub insert_sorted : A → List A → List A
  insert_sorted x [] = x ∷ []
  insert_sorted x (y ∷ ys) = if le x y then x ∷ y ∷ ys else y ∷ insert_sorted x ys

  unfoldable pub sort : List A → List A
  unfolding insert_sorted
  sort [] = []
  sort (x ∷ xs) = insert_sorted x (sort xs)

  -- Every item is at most each later one.
  abbrev pub IsSorted : List A → Type 0
  IsSorted [] = Unit
  IsSorted (x ∷ xs) = All (λ y. le x y ≡ true) xs × IsSorted xs

  insert_sorted-perm : (x : A) (ys : List A) → Perm (insert_sorted x ys) (x ∷ ys)
  unfolding insert_sorted
  insert_sorted-perm x [] = Perm.refl (x ∷ [])
  insert_sorted-perm x (y ∷ ys) = elim (Bool-cases (le x y)) [
    | inl e ↦ rw e (Perm.refl (x ∷ y ∷ ys))
    | inr e ↦ rw e (Perm.trans (Perm.cons y (insert_sorted-perm x ys)) (Perm.swap x y ys))
  ]

  -- A sort loses no item and adds none.
  pub sort-perm : (xs : List A) → Perm (sort xs) xs
  unfolding sort
  sort-perm [] = Perm.refl []
  sort-perm (x ∷ xs) = Perm.trans (insert_sorted-perm x (sort xs)) (Perm.cons x (sort-perm xs))

  All-insert_sorted {κ} :
      (P : A → Type κ) (x : A) (ys : List A) → P x → All P ys → All P (insert_sorted x ys)
  unfolding insert_sorted
  All-insert_sorted P x [] p h = (p, tt)
  All-insert_sorted P x (y ∷ ys) p h = elim (Bool-cases (le x y)) [
    | inl e ↦ rw e (p, h)
    | inr e ↦ rw e (h.0, All-insert_sorted P x ys p h.1)
  ]

  pub All-sort {κ} : (P : A → Type κ) (xs : List A) → All P xs → All P (sort xs)
  unfolding sort
  All-sort P [] h = tt
  All-sort P (x ∷ xs) h = All-insert_sorted P x (sort xs) h.0 (All-sort P xs h.1)

  module _ (total : (x y : A) → le x y ≡ false → le y x ≡ true)
      (trans : (x y z : A) → le x y ≡ true → le y z ≡ true → le x z ≡ true) where
    insert_sorted-IsSorted : (x : A) (ys : List A) → IsSorted ys → IsSorted (insert_sorted x ys)
    unfolding insert_sorted
    insert_sorted-IsSorted x [] h = (tt, tt)
    insert_sorted-IsSorted x (y ∷ ys) h = elim (Bool-cases (le x y)) [
      | inl e ↦ rw e ((e, All_imp (λ z q. trans x y z e q) ys h.0), h)
      | inr e ↦ rw e (
        All-insert_sorted (λ z. le y z ≡ true) x ys (total x y e) h.0,
        insert_sorted-IsSorted x ys h.1,
      )
    ]

    -- A sort by a total order sorts.
    pub sort-IsSorted : (xs : List A) → IsSorted (sort xs)
    unfolding sort
    sort-IsSorted [] = tt
    sort-IsSorted (x ∷ xs) = insert_sorted-IsSorted x (sort xs) (sort-IsSorted xs)

  -- A sort keeps distinct items distinct.
  DistinctBy-insert_sorted :
      (f : A → ℕ) (x : A) (ys : List A)
      → All (λ y. f y ≢ f x) ys
      → DistinctBy f ys
      → DistinctBy f (insert_sorted x ys)
  unfolding insert_sorted
  DistinctBy-insert_sorted f x [] h d = (tt, tt)
  DistinctBy-insert_sorted f x (y ∷ ys) h d = elim (Bool-cases (le x y)) [
    | inl e ↦ rw e (h, d)
    | inr e ↦ rw e (
      All-insert_sorted (λ z. f z ≢ f y) x ys (λ s. h.0 (sym s)) d.0,
      DistinctBy-insert_sorted f x ys h.1 d.1,
    )
  ]

  pub DistinctBy-sort : (f : A → ℕ) (xs : List A) → DistinctBy f xs → DistinctBy f (sort xs)
  unfolding sort
  DistinctBy-sort f [] d = tt
  DistinctBy-sort f (x ∷ xs) d =
      DistinctBy-insert_sorted f x (sort xs) (All-sort (λ y. f y ≢ f x) xs d.0)
        (DistinctBy-sort f xs d.1)
