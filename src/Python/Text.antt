-- ===== src/Python/Text.antt =====
-- Texts as lists of code points. `lower` is `str.lower` on ASCII: the addresses and hashes that the
-- package lowers are ASCII.
use Prim.Native.Char.{code}
use zksync_python.Prelude.{
  ℕ, ◌+◌, ◌≡◌, refl, Bool, true, false, ◌&&◌, List, [], ◌∷◌, String, map, leb, ◌==◌, if◌then◌else◌,
  arith,
}

abbrev pub Text : Type 0
Text = List ℕ

-- The code points of a literal.
abbrev pub text : String → Text
text String.[] = []
text (String.◌∷◌ c s) = code c ∷ text s

-- `s.startswith(prefix)`
abbrev pub starts_with : Text → Text → Bool
starts_with [] s = true
starts_with (p ∷ prefix) [] = false
starts_with (p ∷ prefix) (c ∷ s) = p == c && starts_with prefix s

-- `s == t`
abbrev pub eqb_text : Text → Text → Bool
eqb_text [] [] = true
eqb_text [] (d ∷ t) = false
eqb_text (c ∷ s) [] = false
eqb_text (c ∷ s) (d ∷ t) = c == d && eqb_text s t

abbrev pub lower_char : ℕ → ℕ
lower_char c = if leb b'A' c && leb c b'Z' then c + 32 else c

abbrev pub lower : Text → Text
lower = map lower_char

pub eqb_text_sound : (s t : Text) → eqb_text s t ≡ true → s ≡ t
eqb_text_sound [] [] h = refl
eqb_text_sound [] (d ∷ t) h = cc
eqb_text_sound (c ∷ s) [] h = cc
eqb_text_sound (c ∷ s) (d ∷ t) h = ground (arith, eqb_text_sound s t)

pub eqb_text_refl : (s : Text) → eqb_text s s ≡ true
eqb_text_refl [] = refl
eqb_text_refl (c ∷ s) = ground (arith, eqb_text_refl s)

pub lower_idem : (s : Text) → lower (lower s) ≡ lower s
lower_idem [] = refl
lower_idem (c ∷ s) = ground (arith, lower_idem s)
