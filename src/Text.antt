-- ===== src/Text.antt =====
-- Text as its list of UTF-16 code units, as the program reads it by position and compares it.
use Prim.Native.Char.{code}
pub mod Laws
use turno_flow.Prelude.{
  ℕ, ◌+◌, ◌-◌, ◌*◌, List, [], ◌∷◌, String, Bool, true, false, ◌&&◌, ◌||◌, leb, ltb, ◌==◌,
}

abbrev pub Text : Type 0
Text = List ℕ

-- A literal of the source. All of them are ASCII.
abbrev pub codes : String → Text
codes String.[] = []
codes (String.◌∷◌ c s) = code c ∷ codes s

-- `a === b`
abbrev pub text_eq : Text → Text → Bool
text_eq [] [] = true
text_eq [] (b ∷ bs) = false
text_eq (a ∷ as') [] = false
text_eq (a ∷ as') (b ∷ bs) = a == b && text_eq as' bs

-- `a < b` on strings: by the first code unit that differs.
abbrev pub text_ltb : Text → Text → Bool
text_ltb as' [] = false
text_ltb [] (b ∷ bs) = true
text_ltb (a ∷ as') (b ∷ bs) = ltb a b || (a == b && text_ltb as' bs)

-- `\d`
abbrev pub is_digit : ℕ → Bool
is_digit c = leb b'0' c && leb c b'9'

abbrev pub digit : ℕ → ℕ
digit c = c - b'0'

-- `Number(text)` on a text of decimal digits.
abbrev pub number_from : ℕ → Text → ℕ
number_from acc [] = acc
number_from acc (c ∷ cs) = number_from (acc * 10 + digit c) cs

abbrev pub number : Text → ℕ
number cs = number_from 0 cs
