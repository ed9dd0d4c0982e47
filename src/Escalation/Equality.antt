-- ===== src/Escalation/Equality.antt =====
-- `===` on the texts of packages/core/src/escalation/EscalationEngine.ts decides their equality.
use roadwatch.Prelude.{◌≡◌, ◌≢◌, refl, sym, [], ◌∷◌, true, false, Bool-cases, inl, inr, arith}
use roadwatch.Prelude.Text.{Text}
use roadwatch.Escalation.{text_eq}

pub text_eq_sound : (a b : Text) → text_eq a b ≡ true → a ≡ b
text_eq_sound [] [] h = refl
text_eq_sound [] (b ∷ bs) h = cc
text_eq_sound (a ∷ as') [] h = cc
text_eq_sound (a ∷ as') (b ∷ bs) h = ground (arith, text_eq_sound as' bs)

pub text_eq_refl : (a : Text) → text_eq a a ≡ true
text_eq_refl [] = refl
text_eq_refl (a ∷ as') = ground (arith, text_eq_refl as')

pub text_eq_ne : (a b : Text) → a ≢ b → text_eq b a ≡ false
text_eq_ne a b h = elim (Bool-cases (text_eq b a)) [
  | inl e ↦ absurd (h (sym (text_eq_sound b a e)))
  | inr e ↦ e
]
