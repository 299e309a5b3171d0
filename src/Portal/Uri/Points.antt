-- ===== src/Portal/Uri/Points.antt =====
-- Strings and their code points.
use mathlib.Core.List.{flat_map}
use mathlib.Core.Path.{subst}
use headfwd.Common.{
  ℕ, ◌+◌, ◌-◌, ◌*◌, ◌<◌, ◌≡◌, refl, sym, true, false, inl, inr, Option, none, some, List, [], ◌∷◌,
  ◌++◌, Text, All, Bool-cases, arith,
}
use headfwd.Portal.Uri.{is_high, is_low, points, push, units}

-- A code unit, and a code point.
abbrev pub IsUnit : ℕ → Type 0
IsUnit c = c < 0x10000

abbrev pub IsPoint : ℕ → Type 0
IsPoint p = p < 0x110000

abbrev pub half : Option ℕ → Text
half none = []
half (some h) = h ∷ []

abbrev IsHalf : Option ℕ → Type 0
IsHalf none = Unit
IsHalf (some h) = is_high h ≡ true

-- What is read is the string, and code points.
abbrev pub Reads : Option ℕ → Text → Option (List ℕ) → Type 0
Reads o s none = Unit
Reads o s (some ps) = (flat_map units ps ≡ half o ++ s) × All IsPoint ps

units-small : (c : ℕ) → IsUnit c → units c ≡ c ∷ []
unfolding units
units-small c h = ground arith

units-pair :
    (h c : ℕ)
    → is_high h ≡ true
    → is_low c ≡ true
    → (units (0x10000 + (h - 0xd800) * 0x400 + (c - 0xdc00)) ≡ h ∷ c ∷ [])
      × IsPoint (0x10000 + (h - 0xd800) * 0x400 + (c - 0xdc00))
unfolding units
units-pair h c high low = ground arith

push-Reads :
    (o : Option ℕ) (c p : ℕ) (s : Text) (m : Option (List ℕ))
    → units p ≡ half o ++ c ∷ []
    → IsPoint p
    → Reads none s m
    → Reads o (c ∷ s) (push p m)
unfolding flat_map
push-Reads o c p s none e h r = tt
push-Reads none c p s (some ps) e h (r, a) = (rw (e, r) refl, (h, a))
push-Reads (some b) c p s (some ps) e h (r, a) = (rw (e, r) refl, (h, a))

shift : (c : ℕ) (s : Text) (o : Option (List ℕ)) → Reads (some c) s o → Reads none (c ∷ s) o
shift c s none r = tt
shift c s (some ps) r = r

-- One equation for each branch.
points-high : (c : ℕ) (s : Text) → is_high c ≡ true → points none (c ∷ s) ≡ points (some c) s
unfolding points
points-high c s h = rw (h, points) refl

points-low : (c : ℕ) (s : Text) → is_high c ≡ false → is_low c ≡ true → points none (c ∷ s) ≡ none
unfolding points
points-low c s h l = rw (h, l, points) refl

points-plain :
    (c : ℕ) (s : Text)
    → is_high c ≡ false
    → is_low c ≡ false
    → points none (c ∷ s) ≡ push c (points none s)
unfolding points
points-plain c s h l = rw (h, l, points) refl

points-pair :
    (b c : ℕ) (s : Text)
    → is_low c ≡ true
    → points (some b) (c ∷ s) ≡ push (0x10000 + (b - 0xd800) * 0x400 + (c - 0xdc00)) (points none s)
unfolding points
points-pair b c s l = rw (l, points) refl

points-single : (b c : ℕ) (s : Text) → is_low c ≡ false → points (some b) (c ∷ s) ≡ none
unfolding points
points-single b c s l = rw (l, points) refl

pub points-Reads : (o : Option ℕ) (s : Text) → All IsUnit s → IsHalf o → Reads o s (points o s)
unfolding flat_map
points-Reads none [] u h = unfold points in (refl, tt)
points-Reads (some b) [] u h = unfold points in tt
points-Reads none (c ∷ s) (u, us) h = elim (Bool-cases (is_high c)) [
  | inl high ↦
      subst (Reads none (c ∷ s)) (sym (points-high c s high))
        (shift c s (points (some c) s) (points-Reads (some c) s us high))
  | inr plain ↦ elim (Bool-cases (is_low c)) [
    | inl low ↦ subst (Reads none (c ∷ s)) (sym (points-low c s plain low)) tt
    | inr other ↦ subst (Reads none (c ∷ s)) (sym (points-plain c s plain other)) (
        push-Reads none c c s (points none s) (units-small c u) (omega arith)
          (points-Reads none s us tt))
  ]
]
points-Reads (some b) (c ∷ s) (u, us) h = elim (Bool-cases (is_low c)) [
  | inl low ↦
      let (e, p) = units-pair b c h low in
      subst (Reads (some b) (c ∷ s)) (sym (points-pair b c s low))
        (push-Reads (some b) c _ s (points none s) e p (points-Reads none s us tt))
  | inr other ↦ subst (Reads (some b) (c ∷ s)) (sym (points-single b c s other)) tt
]
