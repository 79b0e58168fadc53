-- ===== src/Text/Laws.antt =====
-- Equality of texts is decided by `text_eq`.
use turno_flow.Prelude.{◌≡◌, refl, ◌↔◌, [], ◌∷◌, true, arith}
use turno_flow.Text.{Text, text_eq}

pub text_eq_sound : (a b : Text) → text_eq a b ≡ true → a ≡ b
text_eq_sound [] [] h = refl
text_eq_sound [] (b ∷ bs) h = ground arith
text_eq_sound (a ∷ as') [] h = ground arith
text_eq_sound (a ∷ as') (b ∷ bs) h = ground (arith, text_eq_sound as' bs)

pub text_eq_self : (a : Text) → text_eq a a ≡ true
text_eq_self [] = refl
text_eq_self (a ∷ as') = ground (arith, text_eq_self as')

pub text_eq_iff : (a b : Text) → (text_eq a b ≡ true) ↔ (a ≡ b)
text_eq_iff a b = (text_eq_sound a b, λ e. rw (← e) (text_eq_self a))
