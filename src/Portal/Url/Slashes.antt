-- ===== src/Portal/Url/Slashes.antt =====
-- An encoded text is one segment of a path.
use mathlib.Core.List.{flat_map}
use mathlib.Core.Path.{subst}
use headfwd.Common.{
  ℕ, ◌/◌, ◌%◌, ◌≡◌, refl, true, false, inl, inr, none, some, List, [], ◌∷◌, Text, All, All-append,
  Bool-cases, ◌==◌, >>=-eq-some, arith,
}
use headfwd.Hex.{Bytes}
use headfwd.Portal.Uri.{
  points, is_unreserved, utf8, upper_digit, percent, encode_point, encode_uri_component,
}
use headfwd.Portal.Url.{split_slash}

abbrev pub IsNoSlash : ℕ → Type 0
IsNoSlash c = (c == b'/') ≡ false

upper_digit-IsNoSlash : (d : ℕ) → IsNoSlash (upper_digit d)
upper_digit-IsNoSlash d = ground arith

bytes-IsNoSlash : (bs : Bytes) → All IsNoSlash (flat_map percent bs)
unfolding flat_map percent
bytes-IsNoSlash [] = tt
bytes-IsNoSlash (b ∷ bs) =
    (refl, (upper_digit-IsNoSlash (b / 16), (upper_digit-IsNoSlash (b % 16), bytes-IsNoSlash bs)))

is_unreserved-IsNoSlash : (c : ℕ) → is_unreserved c ≡ true → IsNoSlash c
unfolding is_unreserved
is_unreserved-IsNoSlash c h = ground arith

encode_point-IsNoSlash : (p : ℕ) → All IsNoSlash (encode_point p)
unfolding encode_point
encode_point-IsNoSlash p = elim (Bool-cases (is_unreserved p)) [
  | inl plain ↦ rw plain (is_unreserved-IsNoSlash p plain, tt)
  | inr other ↦ rw other (bytes-IsNoSlash (utf8 p))
]

points-IsNoSlash : (ps : List ℕ) → All IsNoSlash (flat_map encode_point ps)
unfolding flat_map
points-IsNoSlash [] = tt
points-IsNoSlash (p ∷ ps) =
    All-append IsNoSlash (encode_point p) (flat_map encode_point ps) (encode_point-IsNoSlash p)
      (points-IsNoSlash ps)

pub encoded-IsNoSlash : (s e : Text) → encode_uri_component s ≡ some e → All IsNoSlash e
unfolding encode_uri_component
encoded-IsNoSlash s e h =
    let (ps, _, same) = >>=-eq-some (points none s) _ h in
    let same' : flat_map encode_point ps ≡ e = cc in
    subst (All IsNoSlash) same' (points-IsNoSlash ps)

pub split_slash-single : (s : Text) → All IsNoSlash s → split_slash s ≡ s ∷ []
unfolding split_slash
split_slash-single [] h = refl
split_slash-single (c ∷ s) (n, h) = rw (n, split_slash-single s h) refl
