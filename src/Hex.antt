-- ===== src/Hex.antt =====
-- The conversions between bytes and hexadecimal text at the end of headfwd-proxy/src/index.ts.
-- A `Uint8Array` or an `ArrayBuffer` is the list of its bytes.
pub mod RoundTrip
use headfwd.Common.{
  ℕ, zero, suc, ◌+◌, ◌-◌, ◌*◌, ◌/◌, ◌%◌, ◌<◌, Bool, true, false, ◌&&◌, ◌||◌, Option, none, some,
  List, [], ◌∷◌, ◌++◌, Text, codes, All, length, ltb, leb, ◌==◌, if◌then◌else◌, trim_start,
}

abbrev pub Bytes : Type 0
Bytes = List ℕ

abbrev pub IsByte : ℕ → Type 0
IsByte b = b < 256

-- A digit of `toString(16)`.
abbrev pub hex_digit : ℕ → ℕ
hex_digit d = if ltb d 10 then d + b'0' else d - 10 + b'a'

-- `b.toString(16)` of a byte.
abbrev to_string16 : ℕ → Text
to_string16 b = if ltb b 16 then hex_digit b ∷ [] else hex_digit (b / 16) ∷ hex_digit (b % 16) ∷ []

abbrev pad_start : ℕ → ℕ → Text → Text
pad_start n c s = pad (n - length s)
  where
    pad : ℕ → Text
    pad zero = s
    pad (suc k) = c ∷ pad k

-- `b.toString(16).padStart(2, '0')`.
unfoldable pub byte_hex : ℕ → Text
byte_hex b = pad_start 2 b'0' (to_string16 b)

unfoldable pub buffer_to_hex : Bytes → Text
unfolding byte_hex
buffer_to_hex [] = []
buffer_to_hex (b ∷ bs) = byte_hex b ++ buffer_to_hex bs

-- The value of a hexadecimal digit of either case.
unfoldable pub hex_value : ℕ → Option ℕ
hex_value c =
    if leb b'0' c && leb c b'9'
    then some (c - b'0')
    else if leb b'a' c && leb c b'f'
    then some (c - b'a' + 10)
    else if leb b'A' c && leb c b'F'
    then some (c - b'A' + 10)
    else none

-- The value of the longest run of digits at the start, added to what was read before.
read_digits : ℕ → Text → ℕ
unfolding hex_value
read_digits acc [] = acc
read_digits acc (c ∷ s) = elim (hex_value c) [ none ↦ acc | some d ↦ read_digits (acc * 16 + d) s ]

-- `parseInt` wants at least one digit; `none` is NaN.
read_number : Text → Option ℕ
unfolding hex_value read_digits
read_number [] = none
read_number (c ∷ s) = elim (hex_value c) [ none ↦ none | some d ↦ some (read_digits d s) ]

strip_prefix : Text → Text
strip_prefix (z ∷ x ∷ s) = if z == b'0' && (x == b'x' || x == b'X') then s else z ∷ x ∷ s
strip_prefix s = s

-- `parseInt(s, 16)`: whether a minus sign stands in front, and the number behind it.
parse_int16 : Text → Option (Bool × ℕ)
unfolding trim_start strip_prefix read_number
parse_int16 s = signed (trim_start s)
  where
    with_sign : Bool → Option ℕ → Option (Bool × ℕ)
    with_sign b none = none
    with_sign b (some n) = some (b, n)

    signed : Text → Option (Bool × ℕ)
    signed [] = none
    signed (c ∷ r) =
        if c == b'-'
        then with_sign true (read_number (strip_prefix r))
        else if c == b'+'
        then with_sign false (read_number (strip_prefix r))
        else with_sign false (read_number (strip_prefix (c ∷ r)))

-- What a store into a `Uint8Array` keeps of a number: NaN gives 0, the rest wraps.
to_uint8 : Option (Bool × ℕ) → ℕ
to_uint8 none = 0
to_uint8 (some (false, n)) = n % 256
to_uint8 (some (true, n)) = (256 - n % 256) % 256

unfoldable pub byte_of : Text → ℕ
unfolding parse_int16 to_uint8
byte_of s = to_uint8 (parse_int16 s)

-- The array has half as many bytes as there are characters, rounded down, so that the store for
-- the last character of an odd number of them is out of range and is dropped.
unfoldable pub hex_to_bytes : Text → Bytes
unfolding byte_of
hex_to_bytes [] = []
hex_to_bytes (a ∷ []) = []
hex_to_bytes (a ∷ b ∷ s) = byte_of (a ∷ b ∷ []) ∷ hex_to_bytes s

-- `getRandomValues` fills a buffer of 32 bytes; both write it in hexadecimal.
unfoldable pub generate_secret : Bytes → Text
generate_secret buffer = buffer_to_hex buffer

unfoldable pub generate_nonce : Bytes → Text
generate_nonce buffer = buffer_to_hex buffer
