-- ===== src/Compare/Correct.antt =====
-- `timingSafeEqual` decides equality of strings.
use Prim.Native.Nat.{bit_or, bit_xor}
use headfwd.Common.{ℕ, ◌≡◌, ap, ◌↔◌, true, [], ◌∷◌, Text, length, arith}
use headfwd.Compare.Bits.{bit_or-eq-zero_iff, bit_xor-eq-zero_iff}
use headfwd.Compare.{mismatch, timing_safe_equal}

mismatch-eq-zero_iff :
    (r : ℕ) (s t : Text) → length s ≡ length t → (mismatch r s t ≡ 0) ↔ ((r ≡ 0) × (s ≡ t))
unfolding mismatch
mismatch-eq-zero_iff r [] [] h = ground arith
mismatch-eq-zero_iff r [] (b ∷ t) h = absurd (omega arith)
mismatch-eq-zero_iff r (a ∷ s) [] h = absurd (omega arith)
mismatch-eq-zero_iff r (a ∷ s) (b ∷ t) h = ground (
  arith,
  mismatch-eq-zero_iff (bit_or r (bit_xor a b)) s t (omega arith),
  bit_or-eq-zero_iff r (bit_xor a b),
  bit_xor-eq-zero_iff a b,
)

-- The comparison says true for equal strings, and for no others.
pub timing_safe_equal_iff : (a b : Text) → (timing_safe_equal a b ≡ true) ↔ (a ≡ b)
unfolding timing_safe_equal
timing_safe_equal_iff a b =
    ground (arith, mismatch-eq-zero_iff 0 a b, ap (length {A = ℕ}) {x = a} {y = b})
