-- ===== src/Text/Laws.antt =====
-- Laws of the operations on texts.
use go_max_tech_stack.Text.{Text, trim_left, trim_space, text_eq, last_is, is_space}
use go_max_tech_stack.Prelude.{
  ◌++◌, [], arith, false, refl, reverse, reverse-append, reverse-reverse, subst, true, ℕ, ◌↔◌, ◌∷◌,
  ◌≡◌,
}

text_eq_sound : (s t : Text) → text_eq s t ≡ true → s ≡ t
unfolding text_eq
text_eq_sound [] [] h = refl
text_eq_sound [] (d ∷ t) h = cc
text_eq_sound (c ∷ s) [] h = cc
text_eq_sound (c ∷ s) (d ∷ t) h = ground (arith, text_eq_sound s t)

text_eq_refl : (s : Text) → text_eq s s ≡ true
unfolding text_eq
text_eq_refl [] = refl
text_eq_refl (c ∷ s) = ground (arith, text_eq_refl s)

pub text_eq_iff : (s t : Text) → (text_eq s t ≡ true) ↔ (s ≡ t)
text_eq_iff s t = (text_eq_sound s t, λ e. subst (λ u. text_eq s u ≡ true) e (text_eq_refl s))

trim_left-kept : (c : ℕ) (s : Text) → is_space c ≡ false → trim_left (c ∷ s) ≡ c ∷ s
unfolding trim_left
trim_left-kept c s h = rw h refl

-- A text whose ends are no spaces is not trimmed.
pub trim_space-kept :
    (c d : ℕ) (s : Text)
    → is_space c ≡ false
    → is_space d ≡ false
    → trim_space (c ∷ (s ++ (d ∷ []))) ≡ c ∷ (s ++ (d ∷ []))
unfolding trim_space
trim_space-kept c d s h k =
    let t : Text = c ∷ (s ++ (d ∷ [])) in
    let turned : reverse t ≡ d ∷ reverse (c ∷ s) = reverse-append (c ∷ s) (d ∷ []) in
    rw (trim_left-kept c (s ++ (d ∷ [])) h)
      (rw turned (rw (trim_left-kept d (reverse (c ∷ s)) k) (rw (← turned) (reverse-reverse t))))

pub last_is-append : (x : ℕ) (s : Text) → last_is x (s ++ (x ∷ [])) ≡ true
unfolding last_is
last_is-append x [] = ground arith
last_is-append x (c ∷ []) = ground arith
last_is-append x (c ∷ d ∷ s) = last_is-append x (d ∷ s)
