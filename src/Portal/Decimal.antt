-- ===== src/Portal/Decimal.antt =====
-- A number in a template string, `${n}`: its decimal digits.
use native.Mathlib.Decide.{dec_lt}
use headfwd.Common.{
  ◌-◌, lt→ltb, le→not_ltb, ℕ, zero, suc, ◌+◌, ◌*◌, ◌/◌, ◌%◌, ◌<◌, ◌≡◌, ◌∙◌, ap, Bool, ◌&&◌, [], ◌∷◌,
  Text, ltb, leb, if◌then◌else◌, arith,
}

-- The last digit goes first to the front of what is written already; one round for each digit.
unfoldable pub write_digits : ℕ → ℕ → Text → Text
write_digits zero n out = out
write_digits (suc fuel) n out =
    let rest = write_digits fuel (n / 10) ((b'0' + n % 10) ∷ out) in
    if ltb n 10 then (b'0' + n) ∷ out else rest

-- A number has at most as many digits as its value, and one more.
unfoldable pub decimal : ℕ → Text
unfolding write_digits
decimal n = write_digits (suc n) n []

abbrev pub is_digit : ℕ → Bool
is_digit c = leb b'0' c && leb c b'9'

-- The number that stands before the first character that is no digit.
unfoldable pub read_decimal : ℕ → Text → ℕ × Text
read_decimal acc [] = (acc, [])
read_decimal acc (c ∷ s) =
    let rest = read_decimal (acc * 10 + (c - b'0')) s in if is_digit c then rest else (acc, c ∷ s)

read_digit :
    (acc d : ℕ) (s : Text)
    → d < 10
    → read_decimal acc ((b'0' + d) ∷ s) ≡ read_decimal (acc * 10 + d) s
unfolding read_decimal
read_digit acc d s h = ground arith

pub read-write_digits :
    (fuel n : ℕ) (out : Text)
    → n < fuel
    → read_decimal 0 (write_digits fuel n out) ≡ read_decimal n out
unfolding write_digits
read-write_digits zero n out h = absurd (omega arith)
read-write_digits (suc fuel) n out h = elim (dec_lt n 10) [
  | yes small ↦
      rw (lt→ltb n 10 small) (read_digit 0 n out small ∙ ap (λ k. read_decimal k out) (omega arith))
  | no large ↦ rw (le→not_ltb n 10 (omega arith)) (
      read-write_digits fuel (n / 10) ((b'0' + n % 10) ∷ out) (omega arith)
      ∙ read_digit (n / 10) (n % 10) out (omega arith)
      ∙ ap (λ k. read_decimal k out) (omega arith))
]

-- A printed number is read back.
pub read_decimal-decimal : (n : ℕ) → read_decimal 0 (decimal n) ≡ (n, [])
unfolding decimal read_decimal
read_decimal-decimal n = read-write_digits (suc n) n [] (omega arith)
