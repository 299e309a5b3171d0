-- ===== src/Portal/Trim.antt =====
-- `trim` on a text that has been trimmed.
use headfwd.Common.{
  ℕ, ◌≡◌, refl, sym, ap, ◌∙◌, false, [], ◌∷◌, ◌++◌, Text, is_space, trim_start, trim, Bool-cases,
  inl, inr, arith,
}
use mathlib.Core.List.{reverse, reverse-append, reverse-reverse}

trim_start-idempotent : (s : Text) → trim_start (trim_start s) ≡ trim_start s
unfolding trim_start
trim_start-idempotent [] = refl
trim_start-idempotent (c ∷ s) = ground (arith, trim_start-idempotent s)

-- What begins with no space.
abbrev Clean : Text → Type 0
Clean [] = Unit
Clean (c ∷ s) = is_space c ≡ false

trim_start-Clean : (s : Text) → Clean (trim_start s)
unfolding trim_start
trim_start-Clean [] = tt
trim_start-Clean (c ∷ s) = elim (Bool-cases (is_space c)) [
  | inl space ↦ rw space (trim_start-Clean s)
  | inr other ↦ rw other other
]

-- What begins with another character than a space keeps that end when the other one is trimmed.
keeps_end :
    (s : Text) (c : ℕ) → is_space c ≡ false → (z : Text) × (trim_start (s ++ c ∷ []) ≡ z ++ c ∷ [])
unfolding trim_start
keeps_end [] c h = ([], rw h refl)
keeps_end (x ∷ s) c h = elim (Bool-cases (is_space x)) [
  | inl space ↦ let (z, e) = keeps_end s c h in (z, rw space e)
  | inr other ↦ (x ∷ s, rw other refl)
]

keeps_start :
    (t : Text)
    → Clean t
    → trim_start (reverse (trim_start (reverse t))) ≡ reverse (trim_start (reverse t))
unfolding trim_start
keeps_start [] h = refl
keeps_start (c ∷ t) clean =
    let (z, e) = keeps_end (reverse t) c clean in
    let shape : reverse (trim_start (reverse (c ∷ t))) ≡ c ∷ reverse z =
      ap (λ x. reverse (trim_start x)) (reverse-append (c ∷ []) t)
      ∙ ap reverse e
      ∙ reverse-append z (c ∷ []) in
    ap trim_start shape ∙ rw clean refl ∙ sym shape

pub trim-trim : (s : Text) → trim (trim s) ≡ trim s
unfolding trim
trim-trim s =
    let r = reverse (trim_start (reverse (trim_start s))) in
    ap (λ x. reverse (trim_start (reverse x))) (keeps_start (trim_start s) (trim_start-Clean s))
    ∙ ap (λ x. reverse (trim_start x)) (reverse-reverse (trim_start (reverse (trim_start s))))
    ∙ ap reverse (trim_start-idempotent (reverse (trim_start s)))
