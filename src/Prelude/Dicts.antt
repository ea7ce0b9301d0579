-- ===== src/Prelude/Dicts.antt =====
-- Python's `dict`, in insertion order, as an association list. A dictionary has one entry for a
-- key, so a removal that drops every entry with the key drops that one.
use Prim.Native.Nat.{ℕ, ◌+◌}
use mathlib.Core.Path.{◌≡◌, refl, ◌∙◌, sym, subst}
use mathlib.Core.Bool.{Bool, true, false, true≢false}
use mathlib.Core.Option.{Option, none, some}
use mathlib.Core.List.{List, [], ◌∷◌}
use mathlib.Core.Logic.{◌≢◌, ◌⊎◌, inl, inr}
use native.Mathlib.Omega.{arith}
use chess_kung_fu.Prelude.Tests.{Eq, ◌==◌, if◌then◌else◌, Bool-cases, eq_of_==, ==-sym, ==-refl}
use chess_kung_fu.Prelude.Lists.{length, filter, All}

abbrev pub Dict {ℓ κ} : Type ℓ → Type κ → Type (ℓ ⊔ κ)
Dict K V = List (K × V)

module _ {ℓ κ} {K : Type ℓ} {V : Type κ} ⦃e : Eq K⦄ where
  -- `d.get(k)`
  unfoldable pub lookup : K → Dict K V → Option V
  lookup k [] = none
  lookup k ((j, v) ∷ d) = if k == j then some v else lookup k d

  -- `d[k] = v`
  unfoldable pub insert : K → V → Dict K V → Dict K V
  insert k v [] = (k, v) ∷ []
  insert k v ((j, w) ∷ d) = if k == j then (k, v) ∷ d else (j, w) ∷ insert k v d

  -- `d.pop(k, None)`
  unfoldable pub erase : K → Dict K V → Dict K V
  erase k [] = []
  erase k ((j, w) ∷ d) = if k == j then erase k d else (j, w) ∷ erase k d

  -- `k in d`
  unfoldable pub contains : K → Dict K V → Bool
  unfolding lookup
  contains k d = elim (lookup k d) [ none ↦ false | some _ ↦ true ]

  pub lookup-insert :
      (k q : K) (v : V) (d : Dict K V)
      → lookup q (insert k v d) ≡ (if q == k then some v else lookup q d)
  unfolding lookup insert
  lookup-insert k q v [] = refl
  lookup-insert k q v ((j, w) ∷ d) =
      ground (arith, e.beq_iff k j, e.beq_iff q k, e.beq_iff q j, lookup-insert k q v d)

  pub lookup-erase :
      (k q : K) (d : Dict K V) → lookup q (erase k d) ≡ (if q == k then none else lookup q d)
  unfolding lookup erase
  lookup-erase k q [] = ground arith
  lookup-erase k q ((j, w) ∷ d) =
      ground (arith, e.beq_iff k j, e.beq_iff q k, e.beq_iff q j, lookup-erase k q d)

  -- The two cases of a lookup after a write, and after a removal.
  pub insert-cases :
      (k q : K) (v : V) (d : Dict K V)
      → ((q ≡ k) × (lookup q (insert k v d) ≡ some v))
        ⊎ ((q ≢ k) × (lookup q (insert k v d) ≡ lookup q d))
  insert-cases k q v d = elim (Bool-cases (q == k)) [
    | inl same ↦ inl (eq_of_== {a = q} {b = k} same, lookup-insert k q v d ∙ rw same refl)
    | inr other ↦
        inr (
          λ h. true≢false (sym ((e.beq_iff q k).1 h) ∙ other),
          lookup-insert k q v d ∙ rw other refl,
        )
  ]

  pub erase-cases :
      (k q : K) (d : Dict K V)
      → ((q ≡ k) × (lookup q (erase k d) ≡ none)) ⊎ ((q ≢ k) × (lookup q (erase k d) ≡ lookup q d))
  erase-cases k q d = elim (Bool-cases (q == k)) [
    | inl same ↦ inl (eq_of_== {a = q} {b = k} same, lookup-erase k q d ∙ rw same refl)
    | inr other ↦
        inr
          (λ h. true≢false (sym ((e.beq_iff q k).1 h) ∙ other), lookup-erase k q d ∙ rw other refl)
  ]

  pub erase_other : (k q : K) (d : Dict K V) → q ≢ k → lookup q (erase k d) ≡ lookup q d
  erase_other k q d apart = elim (erase-cases k q d) [
    | inl (same, _) ↦ absurd (apart same)
    | inr (_, stays) ↦ stays
  ]

  pub insert_here : (k : K) (v : V) (d : Dict K V) → lookup k (insert k v d) ≡ some v
  insert_here k v d = lookup-insert k k v d ∙ rw (==-refl k) refl

  pub insert_same : (k : K) (v : V) (d : Dict K V) → lookup k d ≡ some v → insert k v d ≡ d
  unfolding lookup insert
  insert_same k v [] h = cc
  insert_same k v ((j, w) ∷ d) h = ground (arith, e.beq_iff k j, insert_same k v d)

  pub insert_twice : (k : K) (v w : V) (d : Dict K V) → insert k v (insert k w d) ≡ insert k v d
  unfolding insert
  insert_twice k v w [] = ground (arith, e.beq_iff k k)
  insert_twice k v w ((j, x) ∷ d) = ground (arith, e.beq_iff k k, insert_twice k v w d)

  pub contains-some : (k : K) (d : Dict K V) {v : V} → lookup k d ≡ some v → contains k d ≡ true
  unfolding contains
  contains-some k d h = ground arith

  pub contains-none : (k : K) (d : Dict K V) → contains k d ≡ false → lookup k d ≡ none
  unfolding contains
  contains-none k d h = ground arith

  -- Every key has one entry, as in a `dict`.
  abbrev pub HasUniqueKeys : Dict K V → Type κ
  HasUniqueKeys [] = Unit
  HasUniqueKeys ((k, v) ∷ d) = (lookup k d ≡ none) × HasUniqueKeys d

  pub insert-HasUniqueKeys :
      (k : K) (v : V) (d : Dict K V) → HasUniqueKeys d → HasUniqueKeys (insert k v d)
  unfolding lookup insert
  insert-HasUniqueKeys k v [] h = (refl, tt)
  insert-HasUniqueKeys k v ((j, w) ∷ d) h = elim (Bool-cases (k == j)) [
    | inl same ↦ rw same (rw (eq_of_== {a = k} {b = j} same) h.0, h.1)
    | inr other ↦
        rw other
          (lookup-insert k j v d ∙ rw (==-sym j k, other) h.0, insert-HasUniqueKeys k v d h.1)
  ]

  pub erase_absent : (k : K) (d : Dict K V) → lookup k d ≡ none → erase k d ≡ d
  unfolding lookup erase
  erase_absent k [] h = refl
  erase_absent k ((j, w) ∷ d) h = ground (arith, erase_absent k d)

  pub erase-HasUniqueKeys : (k : K) (d : Dict K V) → HasUniqueKeys d → HasUniqueKeys (erase k d)
  unfolding lookup erase
  erase-HasUniqueKeys k [] h = tt
  erase-HasUniqueKeys k ((j, w) ∷ d) h = elim (Bool-cases (k == j)) [
    | inl same ↦ rw same (erase-HasUniqueKeys k d h.1)
    | inr other ↦
        rw other (lookup-erase k j d ∙ rw (==-sym j k, other) h.0, erase-HasUniqueKeys k d h.1)
  ]

  -- The number of values that pass a test.
  abbrev pub count : (V → Bool) → Dict K V → ℕ
  count p d = length (filter (λ e. p e.1) d)

  pub count-insert_new :
      (p : V → Bool) (k : K) (v : V) (d : Dict K V)
      → lookup k d ≡ none
      → count p (insert k v d) ≡ count p d + (if p v then 1 else 0)
  unfolding lookup insert
  count-insert_new p k v [] h = ground arith
  count-insert_new p k v ((j, w) ∷ d) h = ground (arith, count-insert_new p k v d)

  pub count-insert_same :
      (p : V → Bool) (k : K) (v old : V) (d : Dict K V)
      → lookup k d ≡ some old
      → p old ≡ p v
      → count p (insert k v d) ≡ count p d
  unfolding lookup insert
  count-insert_same p k v old [] h same = cc
  count-insert_same p k v old ((j, w) ∷ d) h same = ground (arith, count-insert_same p k v old d)

  pub count-erase :
      (p : V → Bool) (k : K) (old : V) (d : Dict K V)
      → HasUniqueKeys d
      → lookup k d ≡ some old
      → p old ≡ false
      → count p (erase k d) ≡ count p d
  unfolding lookup erase
  count-erase p k old [] u h out = cc
  count-erase p k old ((j, w) ∷ d) u h out = elim (Bool-cases (k == j)) [
    | inl same ↦
        let absent : lookup k d ≡ none = rw (eq_of_== {a = k} {b = j} same) u.0 in
        ground (arith, erase_absent k d absent)
    | inr other ↦ ground (arith, count-erase p k old d u.1)
  ]

  -- A property of every value.
  abbrev pub Each {μ} : (V → Type μ) → Dict K V → Type μ
  Each P = All (λ (e : K × V). P e.1)

  pub Each-insert {μ} :
      (P : V → Type μ) (k : K) (v : V) (d : Dict K V) → P v → Each P d → Each P (insert k v d)
  unfolding insert
  Each-insert P k v [] p h = (p, tt)
  Each-insert P k v ((j, w) ∷ d) p h = elim (Bool-cases (k == j)) [
    | inl same ↦ rw same (p, h.1)
    | inr other ↦ rw other (h.0, Each-insert P k v d p h.1)
  ]

  pub Each-lookup {μ} :
      (P : V → Type μ) (k : K) (d : Dict K V) {v : V} → Each P d → lookup k d ≡ some v → P v
  unfolding lookup
  Each-lookup P k [] h at = cc
  Each-lookup P k ((j, w) ∷ d) {v} h at = elim (Bool-cases (k == j)) [
    | inl same ↦ subst P (ground arith) h.0
    | inr other ↦ Each-lookup P k d h.1 (ground arith)
  ]
