-- ===== src/Portal/Uri.antt =====
-- `encodeURIComponent`, which headfwd-sidecar/portal/frontend/src/api/client.ts puts into paths, and
-- the decoding on the other side: UTF-16 to code points, UTF-8, and percent signs.
pub mod Points
pub mod Codec
use mathlib.Core.List.{flat_map}
use headfwd.Common.{
  ℕ, zero, suc, ◌+◌, ◌-◌, ◌*◌, ◌/◌, ◌%◌, Bool, true, false, ◌&&◌, ◌||◌, Option, none, some, List,
  [], ◌∷◌, ◌++◌, Text, length, ltb, leb, ◌==◌, if◌then◌else◌, ◌>>=◌,
}
use headfwd.Hex.{Bytes, hex_value}

-- The two halves of a character beyond U+FFFF.
abbrev pub is_high : ℕ → Bool
is_high c = leb 0xd800 c && leb c 0xdbff

abbrev pub is_low : ℕ → Bool
is_low c = leb 0xdc00 c && leb c 0xdfff

abbrev push : ℕ → Option (List ℕ) → Option (List ℕ)
push p none = none
push p (some ps) = some (p ∷ ps)

-- The code points of a string, with the half that was read last; a half alone throws (`none`).
unfoldable pub points : Option ℕ → Text → Option (List ℕ)
points none [] = some []
points (some h) [] = none
points none (c ∷ s) = elim (is_high c) [
  | true ↦ points (some c) s
  | false ↦ elim (is_low c) [ true ↦ none | false ↦ push c (points none s) ]
]
points (some h) (c ∷ s) = elim (is_low c) [
  | true ↦ push (0x10000 + (h - 0xd800) * 0x400 + (c - 0xdc00)) (points none s)
  | false ↦ none
]

-- Letters, digits and - _ . ! ~ * ' ( ).
unfoldable pub is_unreserved : ℕ → Bool
is_unreserved c =
    (leb b'A' c && leb c b'Z')
    || (leb b'a' c && leb c b'z')
    || (leb b'0' c && leb c b'9')
    || c == b'-'
    || c == b'_'
    || c == b'.'
    || c == b'!'
    || c == b'~'
    || c == b'*'
    || c == b'\''
    || c == b'('
    || c == b')'

unfoldable pub utf8 : ℕ → Bytes
utf8 p =
    if ltb p 0x80
    then p ∷ []
    else if ltb p 0x800
    then (0xc0 + p / 64) ∷ (0x80 + p % 64) ∷ []
    else if ltb p 0x10000
    then (0xe0 + p / 4096) ∷ (0x80 + p / 64 % 64) ∷ (0x80 + p % 64) ∷ []
    else (0xf0 + p / 262144) ∷ (0x80 + p / 4096 % 64) ∷ (0x80 + p / 64 % 64) ∷ (0x80 + p % 64) ∷ []

abbrev pub upper_digit : ℕ → ℕ
upper_digit d = if ltb d 10 then d + b'0' else d - 10 + b'A'

unfoldable pub percent : ℕ → Text
percent b = b'%' ∷ upper_digit (b / 16) ∷ upper_digit (b % 16) ∷ []

unfoldable pub encode_point : ℕ → Text
unfolding is_unreserved utf8 percent flat_map
encode_point p = if is_unreserved p then p ∷ [] else flat_map percent (utf8 p)

unfoldable pub encode_uri_component : Text → Option Text
unfolding points encode_point flat_map
encode_uri_component s = points none s >>= λ ps. some (flat_map encode_point ps)

-- The other side: a byte, from a percent sign or as it is.
abbrev byte_of_digits : Option ℕ → Option ℕ → Text → Option (ℕ × Text)
byte_of_digits (some a) (some b) s = some (a * 16 + b, s)
byte_of_digits _ _ s = none

unfoldable pub read_byte : Text → Option (ℕ × Text)
unfolding hex_value
read_byte [] = none
read_byte (c ∷ []) = if c == b'%' then none else some (c, [])
read_byte (c ∷ a ∷ []) = if c == b'%' then none else some (c, a ∷ [])
read_byte (c ∷ a ∷ b ∷ s) =
    if c == b'%' then byte_of_digits (hex_value a) (hex_value b) s else some (c, a ∷ b ∷ s)

-- Bytes that continue a code point, six bits each.
unfoldable pub read_more : ℕ → ℕ → Text → Option (ℕ × Text)
unfolding read_byte
read_more zero acc s = some (acc, s)
read_more (suc n) acc s = do (b, rest) ← read_byte s; read_more n (acc * 64 + b % 64) rest

unfoldable pub decode_point : Text → Option (ℕ × Text)
unfolding read_byte read_more
decode_point s = do
  (b, rest) ← read_byte s
  if ltb b 0x80
      then some (b, rest)
      else if ltb b 0xe0
      then read_more 1 (b - 0xc0) rest
      else if ltb b 0xf0
      then read_more 2 (b - 0xe0) rest
      else read_more 3 (b - 0xf0) rest

-- The code points of a text, with fuel for each.
unfoldable pub decode_points : ℕ → Text → Option (List ℕ)
unfolding decode_point
decode_points fuel [] = some []
decode_points zero (c ∷ s) = none
decode_points (suc fuel) (c ∷ s) = elim (decode_point (c ∷ s)) [
  | none ↦ none
  | some (p, rest) ↦ push p (decode_points fuel rest)
]

-- A code point in UTF-16.
unfoldable pub units : ℕ → Text
units p =
    if ltb p 0x10000
    then p ∷ []
    else (0xd800 + (p - 0x10000) / 0x400) ∷ (0xdc00 + (p - 0x10000) % 0x400) ∷ []

unfoldable pub decode_uri_component : Text → Option Text
unfolding decode_points units flat_map
decode_uri_component s = decode_points (length s) s >>= λ ps. some (flat_map units ps)
