-- ===== src/Text/Equality.antt =====
-- The test on texts decides their equality.
use remote_executor.Base.{
  ◌≡◌, ◌↔◌, ◌⊎◌, refl, ap, ◌∙◌, inl, inr, true, false, [], ◌∷◌, arith, Bool-cases,
}
use mathlib.Core.Logic.{◌≢◌}
use remote_executor.Text.{Text, text_eq}

pub text_eq-eq : (a b : Text) → text_eq a b ≡ true → a ≡ b
unfolding text_eq
text_eq-eq [] [] h = refl
text_eq-eq [] (d ∷ b) h = cc
text_eq-eq (c ∷ a) [] h = cc
text_eq-eq (c ∷ a) (d ∷ b) h = ground (arith, text_eq-eq a b)

pub text_eq_refl : (a : Text) → text_eq a a ≡ true
unfolding text_eq
text_eq_refl [] = refl
text_eq_refl (c ∷ a) = ground (arith, text_eq_refl a)

pub text_eq_iff : (a b : Text) → (text_eq a b ≡ true) ↔ (a ≡ b)
text_eq_iff a b = (text_eq-eq a b, λ e. rw (← e) (text_eq_refl a))

-- Two texts are the same or the test tells them apart.
pub text_eq-cases : (a b : Text) → (a ≡ b) ⊎ ((text_eq a b ≡ false) × (a ≢ b))
text_eq-cases a b = elim (Bool-cases (text_eq a b)) [
  | inl e ↦ inl (text_eq-eq a b e)
  | inr e ↦ inr (e, λ same. cc (e, (text_eq_iff a b).1 same))
]

pub text_eq-ne : (a b : Text) → a ≢ b → text_eq a b ≡ false
text_eq-ne a b ne = elim (Bool-cases (text_eq a b)) [
  | inl e ↦ absurd (ne (text_eq-eq a b e))
  | inr e ↦ e
]

pub ne-text_eq : (a b : Text) → text_eq a b ≡ false → a ≢ b
ne-text_eq a b h e =
    let same : text_eq a a ≡ true = text_eq_refl a in
    let other : text_eq a a ≡ false = ap (text_eq a) e ∙ h in cc
