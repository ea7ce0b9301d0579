-- ===== src/Model/Texts.antt =====
-- Texts that the program walks, as lists of code points; `str(n)` of an integer.
use Prim.Native.Char.{code}
use chess_kung_fu.Prelude.{
  ℕ, zero, suc, ◌+◌, ◌/◌, ◌%◌, ◌≡◌, ◌↔◌, Bool, true, false, ◌&&◌, List, [], ◌∷◌, arith, ltb,
  if◌then◌else◌, ◌==◌, Eq, nat_eq, nat_beq_iff, String, ℤ, pos, negsuc,
}

abbrev pub Text : Type 0
Text = List ℕ

-- A literal of the source.
abbrev pub text : String → Text
text String.[] = []
text (String.◌∷◌ c s) = code c ∷ text s

unfoldable pub text_beq : Text → Text → Bool
text_beq [] [] = true
text_beq [] (b ∷ bs) = false
text_beq (a ∷ as') [] = false
text_beq (a ∷ as') (b ∷ bs) = a == b && text_beq as' bs

pub text_beq_iff : (a b : Text) → (text_beq a b ≡ true) ↔ (a ≡ b)
unfolding text_beq
text_beq_iff [] [] = ground arith
text_beq_iff [] (b ∷ bs) = ground arith
text_beq_iff (a ∷ as') [] = ground arith
text_beq_iff (a ∷ as') (b ∷ bs) = ground (arith, text_beq_iff as' bs, nat_beq_iff a b)

instance abbrev pub text_eq : Eq Text
text_eq = record { beq = text_beq; beq_iff = text_beq_iff }

-- The decimal digits of `n` before `acc`, on fuel: a number has fewer digits than its successor.
digits_before : ℕ → ℕ → Text → Text
digits_before zero n acc = acc
digits_before (suc f) n acc =
    let acc' = (b'0' + n % 10) ∷ acc in
    let rest = digits_before f (n / 10) acc' in if ltb n 10 then acc' else rest

-- `str(n)`
unfoldable pub show_int : ℤ → Text
unfolding digits_before
show_int (pos n) = digits_before (suc n) n []
show_int (negsuc n) = b'-' ∷ digits_before (suc (suc n)) (suc n) []
