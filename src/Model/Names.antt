-- ===== src/Model/Names.antt =====
-- A text of a message as a name: the same string, with its codes checked to be characters. A code
-- that is none, which JSON brings only as a lone surrogate, becomes U+0000.
use Prim.Native.Nat.{compare, Ordering}
use Prim.Native.Char.{Char, char, IsScalar, nul}
use chess_kung_fu.Prelude.{ℕ, ◌≡◌, refl, Option, none, some, [], ◌∷◌, ◌⊎◌, inl, inr, String}
use chess_kung_fu.Model.Texts.{Text, text}

Ordering-cases : (o : Ordering) → (o ≡ Ordering.lt) ⊎ ((o ≡ Ordering.eq) ⊎ (o ≡ Ordering.gt))
Ordering-cases Ordering.lt = inl refl
Ordering-cases Ordering.eq = inr (inl refl)
Ordering-cases Ordering.gt = inr (inr refl)

-- Whether `n` is the number of a character.
scalar? : (n : ℕ) → Option (IsScalar n)
unfolding Ordering-cases
scalar? n = elim (Ordering-cases (compare n 55296)) [
  | inl low ↦ some (rw low tt)
  | inr (inl _) ↦ none
  | inr (inr high) ↦ (elim (Ordering-cases (compare 57343 n)) [
    | inl above ↦ (elim (Ordering-cases (compare n 1114112)) [
      | inl below ↦ some (rw (high, above, below) tt)
      | inr _ ↦ none
    ])
    | inr _ ↦ none
  ])
]

char_of : ℕ → Char
unfolding scalar?
char_of n = elim (scalar? n) [ none ↦ nul | some p ↦ char n p ]

unfoldable pub string_of : Text → String
unfolding char_of
string_of [] = String.[]
string_of (c ∷ cs) = String.◌∷◌ (char_of c) (string_of cs)

string_of_name : string_of (text "a1b2c3") ≡ "a1b2c3"
unfolding string_of
string_of_name = refl
