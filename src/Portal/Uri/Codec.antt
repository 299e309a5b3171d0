-- ===== src/Portal/Uri/Codec.antt =====
-- What is encoded decodes to the same string.
use mathlib.Core.List.{flat_map}
use mathlib.Core.Path.{subst}
use native.Mathlib.Decide.{dec_lt}
use headfwd.Common.{
  ℕ, zero, suc, ◌+◌, ◌-◌, ◌*◌, ◌/◌, ◌%◌, ◌≤◌, ◌<◌, ◌≡◌, refl, ap, ◌∙◌, true, inl, inr, Option, none,
  some, List, [], ◌∷◌, ◌++◌, Text, All, length, length-append, Bool-cases, ◌>>=◌, arith,
}
use headfwd.Hex.{hex_value}
use headfwd.Portal.Uri.{
  points, push, is_unreserved, utf8, upper_digit, percent, encode_point, encode_uri_component,
  read_byte, read_more, decode_point, decode_points, decode_uri_component,
}
use headfwd.Portal.Uri.Points.{IsUnit, IsPoint, Reads, points-Reads}

hex_value-upper_digit : (d : ℕ) → d < 16 → hex_value (upper_digit d) ≡ some d
unfolding hex_value
hex_value-upper_digit d h = ground arith

read_byte-percent : (b : ℕ) (s : Text) → b < 256 → read_byte (percent b ++ s) ≡ some (b, s)
unfolding read_byte percent
read_byte-percent b s h =
    rw (hex_value-upper_digit (b / 16) (omega arith), hex_value-upper_digit (b % 16) (omega arith))
      (ground arith)

read_byte-plain : (c : ℕ) (s : Text) → is_unreserved c ≡ true → read_byte (c ∷ s) ≡ some (c, s)
unfolding read_byte is_unreserved
read_byte-plain c [] h = ground arith
read_byte-plain c (a ∷ []) h = ground arith
read_byte-plain c (a ∷ b ∷ s) h = ground arith

-- A continuation byte adds its six bits.
read_more-percent :
    (n acc x : ℕ) (s : Text)
    → x < 64
    → read_more (suc n) acc (percent (0x80 + x) ++ s) ≡ read_more n (acc * 64 + x) s
unfolding read_more
read_more-percent n acc x s h =
    rw (read_byte-percent (0x80 + x) s (omega arith))
      (ap (λ k. read_more n (acc * 64 + k) s) (omega arith))

-- What the leading byte says of the length.
module _ (b : ℕ) (s : Text) where
  decode_point-one : b < 0x80 → decode_point (percent b ++ s) ≡ some (b, s)
  unfolding decode_point
  decode_point-one h = rw (read_byte-percent b s (omega arith)) (ground arith)

  decode_point-two : 0xc0 ≤ b → b < 0xe0 → decode_point (percent b ++ s) ≡ read_more 1 (b - 0xc0) s
  unfolding decode_point
  decode_point-two l h = rw (read_byte-percent b s (omega arith)) (ground arith)

  decode_point-three :
      0xe0 ≤ b → b < 0xf0 → decode_point (percent b ++ s) ≡ read_more 2 (b - 0xe0) s
  unfolding decode_point
  decode_point-three l h = rw (read_byte-percent b s (omega arith)) (ground arith)

  decode_point-four : 0xf0 ≤ b → b < 256 → decode_point (percent b ++ s) ≡ read_more 3 (b - 0xf0) s
  unfolding decode_point
  decode_point-four l h = rw (read_byte-percent b s h) (ground arith)

-- The last continuation byte completes the code point.
read_last :
    (acc x p : ℕ) (s : Text)
    → x < 64
    → acc * 64 + x ≡ p
    → read_more 1 acc (percent (0x80 + x) ++ s) ≡ some (p, s)
unfolding read_more
read_last acc x p s h e = read_more-percent 0 acc x s h ∙ ap (λ k. some (k, s)) e

utf8-one : (p : ℕ) → p < 0x80 → utf8 p ≡ p ∷ []
unfolding utf8
utf8-one p h = ground arith

utf8-two : (p : ℕ) → 0x80 ≤ p → p < 0x800 → utf8 p ≡ (0xc0 + p / 64) ∷ (0x80 + p % 64) ∷ []
unfolding utf8
utf8-two p l h = ground arith

utf8-three :
    (p : ℕ)
    → 0x800 ≤ p
    → p < 0x10000
    → utf8 p ≡ (0xe0 + p / 4096) ∷ (0x80 + p / 64 % 64) ∷ (0x80 + p % 64) ∷ []
unfolding utf8
utf8-three p l h = ground arith

utf8-four :
    (p : ℕ)
    → 0x10000 ≤ p
    → utf8 p
      ≡ (0xf0 + p / 262144) ∷ (0x80 + p / 4096 % 64) ∷ (0x80 + p / 64 % 64) ∷ (0x80 + p % 64) ∷ []
unfolding utf8
utf8-four p l = ground arith

-- The escapes of a code point.
abbrev escaped : List ℕ → Text → Text
escaped bs s = flat_map percent bs ++ s

module _ (p : ℕ) (s : Text) where
  escaped-one : p < 0x80 → decode_point (escaped (utf8 p) s) ≡ some (p, s)
  unfolding flat_map percent
  escaped-one h = ap (λ u. decode_point (escaped u s)) (utf8-one p h) ∙ decode_point-one p s h

  escaped-two : 0x80 ≤ p → p < 0x800 → decode_point (escaped (utf8 p) s) ≡ some (p, s)
  unfolding flat_map percent
  escaped-two l h =
      let rest = percent (0x80 + p % 64) ++ s in
      ap (λ u. decode_point (escaped u s)) (utf8-two p l h)
      ∙ decode_point-two (0xc0 + p / 64) rest (omega arith) (omega arith)
      ∙ ap (λ k. read_more 1 k rest) (omega arith)
      ∙ read_last (p / 64) (p % 64) p s (omega arith) (omega arith)

  escaped-three : 0x800 ≤ p → p < 0x10000 → decode_point (escaped (utf8 p) s) ≡ some (p, s)
  unfolding flat_map percent
  escaped-three l h =
      let last = percent (0x80 + p % 64) ++ s in
      let rest = percent (0x80 + p / 64 % 64) ++ last in
      ap (λ u. decode_point (escaped u s)) (utf8-three p l h)
      ∙ decode_point-three (0xe0 + p / 4096) rest (omega arith) (omega arith)
      ∙ ap (λ k. read_more 2 k rest) (omega arith)
      ∙ read_more-percent 1 (p / 4096) (p / 64 % 64) last (omega arith)
      ∙ read_last (p / 4096 * 64 + p / 64 % 64) (p % 64) p s (omega arith) (omega arith)

  escaped-four : 0x10000 ≤ p → p < 0x110000 → decode_point (escaped (utf8 p) s) ≡ some (p, s)
  unfolding flat_map percent
  escaped-four l h =
      let last = percent (0x80 + p % 64) ++ s in
      let third = percent (0x80 + p / 64 % 64) ++ last in
      let rest = percent (0x80 + p / 4096 % 64) ++ third in
      ap (λ u. decode_point (escaped u s)) (utf8-four p l)
      ∙ decode_point-four (0xf0 + p / 262144) rest (omega arith) (omega arith)
      ∙ ap (λ k. read_more 3 k rest) (omega arith)
      ∙ read_more-percent 2 (p / 262144) (p / 4096 % 64) third (omega arith)
      ∙ read_more-percent 1 (p / 262144 * 64 + p / 4096 % 64) (p / 64 % 64) last (omega arith)
      ∙ read_last ((p / 262144 * 64 + p / 4096 % 64) * 64 + p / 64 % 64) (p % 64) p s (omega arith)
          (omega arith)

  escaped_any : IsPoint p → decode_point (escaped (utf8 p) s) ≡ some (p, s)
  escaped_any h = elim (dec_lt p 0x80) [
    | yes a ↦ escaped-one a
    | no a ↦ elim (dec_lt p 0x800) [
      | yes b ↦ escaped-two (omega arith) b
      | no b ↦ elim (dec_lt p 0x10000) [
        | yes c ↦ escaped-three (omega arith) c
        | no c ↦ escaped-four (omega arith) h
      ]
    ]
  ]

  plain-ascii : is_unreserved p ≡ true → p < 0x80
  unfolding is_unreserved
  plain-ascii h = ground arith

  decode_point-encode_point : IsPoint p → decode_point (encode_point p ++ s) ≡ some (p, s)
  unfolding encode_point decode_point
  decode_point-encode_point h = elim (Bool-cases (is_unreserved p)) [
    | inl plain ↦ rw plain (rw (read_byte-plain p s plain) (ground (arith, plain-ascii plain)))
    | inr special ↦ rw special (escaped_any h)
  ]

decode_points_step :
    (fuel p : ℕ) (s rest : Text)
    → decode_point s ≡ some (p, rest)
    → decode_points (suc fuel) s ≡ push p (decode_points fuel rest)
unfolding decode_points decode_point read_byte
decode_points_step fuel p [] rest e = cc
decode_points_step fuel p (c ∷ s) rest e = rw (e, decode_points) refl

decode_points-flat_map :
    (ps : List ℕ) (fuel : ℕ)
    → All IsPoint ps
    → length ps ≤ fuel
    → decode_points fuel (flat_map encode_point ps) ≡ some ps
unfolding flat_map
decode_points-flat_map [] zero a h = unfold decode_points in refl
decode_points-flat_map [] (suc fuel) a h = unfold decode_points in refl
decode_points-flat_map (p ∷ ps) zero a h = absurd (omega arith)
decode_points-flat_map (p ∷ ps) (suc fuel) (b, a) h =
    decode_points_step fuel p (encode_point p ++ flat_map encode_point ps)
      (flat_map encode_point ps) (decode_point-encode_point p (flat_map encode_point ps) b)
    ∙ ap (push p) (decode_points-flat_map ps fuel a (omega arith))

-- Each code point takes a character at least.
encode_point_pos : (p : ℕ) → 1 ≤ length (encode_point p)
unfolding encode_point utf8 percent flat_map
encode_point_pos p = ground arith

length-le-flat_map : (ps : List ℕ) → length ps ≤ length (flat_map encode_point ps)
unfolding flat_map
length-le-flat_map [] = omega arith
length-le-flat_map (p ∷ ps) = omega (
  arith,
  encode_point_pos p,
  length-append (encode_point p) (flat_map encode_point ps),
  length-le-flat_map ps,
)

module _ (s : Text) (units_of_s : All IsUnit s) where
  by_points :
      (o : Option (List ℕ)) (e : Text)
      → points none s ≡ o
      → (o >>= λ ps. some (flat_map encode_point ps)) ≡ some e
      → decode_uri_component e ≡ some s
  unfolding decode_uri_component
  by_points none e r h = cc
  by_points (some ps) e r h =
      let (back, all) = subst (Reads none s) r (points-Reads none s units_of_s tt) in
      let same : flat_map encode_point ps ≡ e = cc in
      let read =
        decode_points-flat_map ps (length (flat_map encode_point ps)) all (length-le-flat_map ps) in
      subst (λ x. decode_uri_component x ≡ some s) same (rw read (ap some back))

  -- A string of 16-bit units that can be encoded is what its encoding decodes to.
  pub decode_uri_component-encode_uri_component :
      (e : Text) → encode_uri_component s ≡ some e → decode_uri_component e ≡ some s
  unfolding encode_uri_component
  decode_uri_component-encode_uri_component e h = by_points (points none s) e refl h
