-- ===== src/Prelude/Lists.antt =====
-- Lists measured by native numbers, membership by a Boolean test, predicates by recursion.
use Prim.Native.Nat.{ℕ, suc, ◌+◌, ◌≤◌}
use mathlib.Core.Path.{◌≡◌, refl, subst, sym}
use mathlib.Core.Bool.{◌&&◌, Bool, true, false, ◌||◌}
use mathlib.Core.Logic.{inl, inr, ◌≢◌}
use mathlib.Core.List.{List, [], ◌∷◌, ◌++◌}
use native.Mathlib.Omega.{arith}
use chess_kung_fu.Prelude.Tests.{Eq, ◌==◌, if◌then◌else◌, Bool-cases}

module _ {ℓ} {A : Type ℓ} where
  abbrev pub length : List A → ℕ
  length [] = 0
  length (x ∷ xs) = suc (length xs)

  pub length-append : (xs ys : List A) → length (xs ++ ys) ≡ length xs + length ys
  length-append [] ys = omega arith
  length-append (x ∷ xs) ys = omega (arith, length-append xs ys)

  -- `[x for x in xs if p(x)]`
  abbrev pub filter : (A → Bool) → List A → List A
  filter p [] = []
  filter p (x ∷ xs) = if p x then x ∷ filter p xs else filter p xs

  -- `any(p(x) for x in xs)`
  abbrev pub any : (A → Bool) → List A → Bool
  any p [] = false
  any p (x ∷ xs) = p x || any p xs

  -- `all(p(x) for x in xs)`
  abbrev pub all : (A → Bool) → List A → Bool
  all p [] = true
  all p (x ∷ xs) = p x && all p xs

  abbrev pub All {κ} : (A → Type κ) → List A → Type κ
  All P [] = Unit
  All P (x ∷ xs) = P x × All P xs

  pub any-append : (p : A → Bool) (xs ys : List A) → any p (xs ++ ys) ≡ (any p xs || any p ys)
  any-append p [] ys = refl
  any-append p (x ∷ xs) ys = ground (arith, any-append p xs ys)

  pub All-append {κ} : (P : A → Type κ) (xs ys : List A) → All P xs → All P ys → All P (xs ++ ys)
  All-append P [] ys h k = k
  All-append P (x ∷ xs) ys h k = (h.0, All-append P xs ys h.1 k)

  pub All_imp {κ μ} :
      {P : A → Type κ} {Q : A → Type μ} (f : (x : A) → P x → Q x) (xs : List A)
      → All P xs
      → All Q xs
  All_imp f [] h = tt
  All_imp f (x ∷ xs) h = (f x h.0, All_imp f xs h.1)

  pub All-both {κ μ ν} :
      {P : A → Type κ} {Q : A → Type μ} {R : A → Type ν} (f : (x : A) → P x → Q x → R x)
      (xs : List A)
      → All P xs
      → All Q xs
      → All R xs
  All-both f [] h k = tt
  All-both f (x ∷ xs) h k = (f x h.0 k.0, All-both f xs h.1 k.1)

  pub All-filter {κ} :
      (P : A → Type κ) (p : A → Bool) (xs : List A) → All P xs → All P (filter p xs)
  All-filter P p [] h = tt
  All-filter P p (x ∷ xs) h = elim (Bool-cases (p x)) [
    | inl e ↦ rw e (h.0, All-filter P p xs h.1)
    | inr e ↦ rw e (All-filter P p xs h.1)
  ]

  pub length-filter-le : (p : A → Bool) (xs : List A) → length (filter p xs) ≤ length xs
  length-filter-le p [] = omega arith
  length-filter-le p (x ∷ xs) = ground (arith, length-filter-le p xs)

module _ {ℓ} {A : Type ℓ} ⦃e : Eq A⦄ where
  -- `a in xs`
  abbrev pub elem : A → List A → Bool
  elem a = any (λ x. x == a)

  pub elem-append : (a : A) (xs ys : List A) → elem a (xs ++ ys) ≡ (elem a xs || elem a ys)
  elem-append a xs ys = any-append (λ x. x == a) xs ys

  pub elem-append_left : (a : A) (xs ys : List A) → elem a xs ≡ true → elem a (xs ++ ys) ≡ true
  elem-append_left a xs ys h = ground (arith, elem-append a xs ys)

  pub elem-append_right : (a : A) (xs ys : List A) → elem a ys ≡ true → elem a (xs ++ ys) ≡ true
  elem-append_right a xs ys h = ground (arith, elem-append a xs ys)

  pub All-elem {κ} : (P : A → Type κ) (a : A) (xs : List A) → All P xs → elem a xs ≡ true → P a
  All-elem P a [] h m = cc
  All-elem P a (x ∷ xs) h m = elim (Bool-cases (x == a)) [
    | inl here ↦ subst P ((e.beq_iff x a).0 here) h.0
    | inr other ↦ All-elem P a xs h.1 (ground arith)
  ]

module _ {ℓ} {A : Type ℓ} where
  -- No two items have the same `f`.
  abbrev pub DistinctBy : (A → ℕ) → List A → Type 0
  DistinctBy f [] = Unit
  DistinctBy f (x ∷ xs) = All (λ y. f y ≢ f x) xs × DistinctBy f xs

  pub DistinctBy-snoc :
      (f : A → ℕ) (xs : List A) (y : A)
      → DistinctBy f xs
      → All (λ x. f x ≢ f y) xs
      → DistinctBy f (xs ++ y ∷ [])
  DistinctBy-snoc f [] y d h = (tt, tt)
  DistinctBy-snoc f (x ∷ xs) y d h = (
    All-append (λ z. f z ≢ f x) xs (y ∷ []) d.0 (λ e. h.0 (sym e), tt),
    DistinctBy-snoc f xs y d.1 h.1,
  )
