-- ===== src/Fingerprint/Hosts.antt =====
-- Which host names carry a fingerprint, and which.
use headfwd.Common.{
  ℕ, zero, suc, ◌≤◌, ◌≡◌, refl, sym, ap, ◌∙◌, ◌↔◌, ◌⊎◌, true, inl, inr, Option, none, some, [], ◌∷◌,
  ◌++◌, map, Text, text_eq_iff, text_cases, All, length, Bool-cases, arith,
}
use headfwd.Hex.RoundTrip.{IsLowerHex}
use headfwd.Fingerprint.{
  to_lower, in_class, push, match_class, under_domain, domain, extract_fingerprint,
}

-- The names under which an instance is registered: 32 digits of lower case.
pub record IsFingerprint (f : Text) : Type 0 where
  pub size : length f ≡ 32
  pub digits : All IsLowerHex f

-- A hexadecimal digit of either case.
abbrev pub IsHex : ℕ → Type 0
IsHex c = IsLowerHex c ⊎ ((b'A' ≤ c) × (c ≤ b'F'))

-- The host name is a label of 32 digits before the domain, both in any case, and the
-- fingerprint is the label in lower case.
pub record Carries (h f : Text) : Type 0 where
  pub label : Text
  pub rest : Text
  pub split : h ≡ label ++ rest
  pub size : length label ≡ 32
  pub digits : All IsHex label
  pub under_domain : map to_lower rest ≡ domain
  pub lowered : f ≡ map to_lower label

in_class→IsHex : (c : ℕ) → in_class c ≡ true → IsHex c
in_class→IsHex c h = ground arith

IsHex→in_class : (c : ℕ) → IsHex c → in_class c ≡ true
IsHex→in_class c h = ground arith

to_lower-IsLowerHex : (c : ℕ) → IsHex c → IsLowerHex (to_lower c)
to_lower-IsLowerHex c h = ground arith

to_lower_of_IsLowerHex : (c : ℕ) → IsLowerHex c → to_lower c ≡ c
to_lower_of_IsLowerHex c h = ground arith

-- What a match of n characters says of the text.
abbrev Fits : ℕ → Text → Option (Text × Text) → Type 0
Fits n s none = Unit
Fits n s (some (p, r)) = (s ≡ p ++ r) × (length p ≡ n) × All IsHex p

push-Fits :
    (n c : ℕ) (s : Text) (m : Option (Text × Text))
    → IsHex c
    → Fits n s m
    → Fits (suc n) (c ∷ s) (push c m)
push-Fits n c s none h f = tt
push-Fits n c s (some (p, r)) h (e, l, d) = (ap (◌∷◌ c) e, ap suc l, (h, d))

match_class-Fits : (n : ℕ) (s : Text) → Fits n s (match_class n s)
unfolding match_class
match_class-Fits zero s = (refl, refl, tt)
match_class-Fits (suc n) [] = tt
match_class-Fits (suc n) (c ∷ s) = elim (Bool-cases (in_class c)) [
  | inl e ↦ rw e (push-Fits n c s (match_class n s) (in_class→IsHex c e) (match_class-Fits n s))
  | inr e ↦ rw e tt
]

match_class_complete :
    (n : ℕ) (p r : Text) → length p ≡ n → All IsHex p → match_class n (p ++ r) ≡ some (p, r)
unfolding match_class
match_class_complete zero [] r e h = refl
match_class_complete zero (c ∷ p) r e h = absurd (omega arith)
match_class_complete (suc n) [] r e h = absurd (omega arith)
match_class_complete (suc n) (c ∷ p) r e (k, h) =
    ground (arith, IsHex→in_class c k, match_class_complete n p r (omega arith) h)

under_domain-Carries :
    (h f : Text) (m : Option (Text × Text)) → Fits 32 h m → under_domain m ≡ some f → Carries h f
unfolding under_domain
under_domain-Carries h f none fits q = cc
under_domain-Carries h f (some (p, r)) (s, l, d) q = elim (text_cases (map to_lower r) domain) [
  | inl (same, e) ↦ record {
    label = p;
    rest = r;
    split = s;
    size = l;
    digits = d;
    under_domain = same;
    lowered = ground (arith, e);
  }
  | inr e ↦ cc (rw e at q)
]

-- The code finds a fingerprint in exactly the host names that carry it: a label of 32 hexadecimal
-- digits before the domain, in any case, with the fingerprint as the label in lower case.
pub extract_fingerprint_iff : (h f : Text) → (extract_fingerprint h ≡ some f) ↔ Carries h f
unfolding extract_fingerprint under_domain
extract_fingerprint_iff h f = (
  λ q. under_domain-Carries h f (match_class 32 h) (match_class-Fits 32 h) q,
  λ c. rw (
    c.split,
    match_class_complete 32 c.label c.rest c.size c.digits,
    (text_eq_iff _ _).1 c.under_domain,
    c.lowered,
  ),
)

length-map : (f : ℕ → ℕ) (s : Text) → length (map f s) ≡ length s
length-map f [] = refl
length-map f (c ∷ s) = ap suc (length-map f s)

map-to_lower-IsLowerHex : (s : Text) → All IsHex s → All IsLowerHex (map to_lower s)
map-to_lower-IsLowerHex [] h = tt
map-to_lower-IsLowerHex (c ∷ s) (p, h) = (to_lower-IsLowerHex c p, map-to_lower-IsLowerHex s h)

map-to_lower_of_IsLowerHex : (s : Text) → All IsLowerHex s → map to_lower s ≡ s
map-to_lower_of_IsLowerHex [] h = refl
map-to_lower_of_IsLowerHex (c ∷ s) (p, h) =
    cc (to_lower_of_IsLowerHex c p, map-to_lower_of_IsLowerHex s h)

All-IsHex : (s : Text) → All IsLowerHex s → All IsHex s
All-IsHex [] h = tt
All-IsHex (c ∷ s) (p, h) = (inl p, All-IsHex s h)

-- Whatever the host name, what is extracted has the form of a fingerprint.
pub extract_fingerprint-IsFingerprint :
    (h f : Text) → extract_fingerprint h ≡ some f → IsFingerprint f
extract_fingerprint-IsFingerprint h f q =
    let c = (extract_fingerprint_iff h f).0 q in
    rw c.lowered (record {
      size = length-map to_lower c.label ∙ c.size;
      digits = map-to_lower-IsLowerHex c.label c.digits;
    })

-- The public host name of an instance leads back to its fingerprint.
pub extract_fingerprint-domain :
    (f : Text) → IsFingerprint f → extract_fingerprint (f ++ domain) ≡ some f
extract_fingerprint-domain f v = (extract_fingerprint_iff (f ++ domain) f).1 (record {
  label = f;
  rest = domain;
  split = refl;
  size = v.size;
  digits = All-IsHex f v.digits;
  under_domain = refl;
  lowered = sym (map-to_lower_of_IsLowerHex f v.digits);
})
