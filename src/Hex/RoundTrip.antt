-- ===== src/Hex/RoundTrip.antt =====
-- Hexadecimal text of bytes decodes to the same bytes; its shape.
use headfwd.Common.{
  ℕ, zero, suc, ◌+◌, ◌-◌, ◌*◌, ◌/◌, ◌%◌, ◌≤◌, ◌<◌, ◌≡◌, refl, ◌⊎◌, Bool, true, ◌&&◌, [], ◌∷◌, All,
  length, ◌==◌, ==_iff, arith,
}
use native.Mathlib.Decide.{dec_lt}
use headfwd.Hex.{Bytes, IsByte, hex_digit, byte_hex, buffer_to_hex, byte_of, hex_to_bytes}

-- Whether the bytes from 255 - k to 255 come back from their hexadecimal text.
decodes_down : ℕ → Bool
decodes_down zero = byte_of (byte_hex 255) == 255
decodes_down (suc k) = (byte_of (byte_hex (254 - k)) == 254 - k) && decodes_down k

decodes_down-all :
    (k : ℕ) → decodes_down k ≡ true → (b : ℕ) → b ≤ 255 → 255 ≤ b + k → byte_of (byte_hex b) ≡ b
unfolding decodes_down
decodes_down-all zero all b top low =
    let same : b ≡ 255 = omega arith in rw same ((==_iff (byte_of (byte_hex 255)) 255).0 all)
decodes_down-all (suc k) all b top low = elim (dec_lt (b + k) 255) [
  | yes this ↦
      let same : b ≡ 254 - k = omega arith in
      rw same ((==_iff (byte_of (byte_hex (254 - k))) (254 - k)).0 (ground arith))
  | no later ↦ decodes_down-all k (ground arith) b top (omega arith)
]

every_byte : decodes_down 255 ≡ true
unfolding decodes_down byte_of byte_hex
every_byte = refl

byte_of-byte_hex : (b : ℕ) → b < 256 → byte_of (byte_hex b) ≡ b
byte_of-byte_hex b h = decodes_down-all 255 every_byte b (omega arith) (omega arith)

byte_hex_digits : (b : ℕ) → b < 256 → byte_hex b ≡ hex_digit (b / 16) ∷ hex_digit (b % 16) ∷ []
unfolding byte_hex
byte_hex_digits b h = ground arith

-- Decoding the hexadecimal text of a sequence of bytes gives the bytes back.
pub hex_to_bytes-buffer_to_hex : (bs : Bytes) → All IsByte bs → hex_to_bytes (buffer_to_hex bs) ≡ bs
unfolding hex_to_bytes buffer_to_hex
hex_to_bytes-buffer_to_hex [] h = refl
hex_to_bytes-buffer_to_hex (b ∷ bs) (p, h) =
    ground (arith, byte_hex_digits b p, byte_of-byte_hex b p, hex_to_bytes-buffer_to_hex bs h)

abbrev pub IsLowerHex : ℕ → Type 0
IsLowerHex c = ((b'0' ≤ c) × (c ≤ b'9')) ⊎ ((b'a' ≤ c) × (c ≤ b'f'))

hex_digit-IsLowerHex : (d : ℕ) → d < 16 → IsLowerHex (hex_digit d)
hex_digit-IsLowerHex d h = ground arith

pub buffer_to_hex-IsLowerHex : (bs : Bytes) → All IsByte bs → All IsLowerHex (buffer_to_hex bs)
unfolding buffer_to_hex
buffer_to_hex-IsLowerHex [] h = tt
buffer_to_hex-IsLowerHex (b ∷ bs) (p, h) = rw (byte_hex_digits b p) (
  hex_digit-IsLowerHex (b / 16) (omega arith),
  (hex_digit-IsLowerHex (b % 16) (omega arith), buffer_to_hex-IsLowerHex bs h),
)

pub length-buffer_to_hex : (bs : Bytes) → All IsByte bs → length (buffer_to_hex bs) ≡ 2 * length bs
unfolding buffer_to_hex
length-buffer_to_hex [] h = refl
length-buffer_to_hex (b ∷ bs) (p, h) =
    rw (byte_hex_digits b p) (omega (arith, length-buffer_to_hex bs h))
