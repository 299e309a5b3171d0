-- ===== src/Compare.antt =====
-- `timingSafeEqual` of headfwd-proxy/src/index.ts. The code units of a string stay below 2 ^ 16,
-- so the 32-bit `^` and `|` of the loop are those of the natural numbers.
mod Bits
pub mod Correct
use Prim.Native.Nat.{bit_or, bit_xor}
use headfwd.Common.{ℕ, Bool, true, false, not, [], ◌∷◌, Text, length, ◌==◌, if◌then◌else◌}

-- The loop over two strings of one length.
mismatch : ℕ → Text → Text → ℕ
mismatch result (a ∷ s) (b ∷ t) = mismatch (bit_or result (bit_xor a b)) s t
mismatch result s t = result

unfoldable pub timing_safe_equal : Text → Text → Bool
unfolding mismatch
timing_safe_equal a b = if not (length a == length b) then false else mismatch 0 a b == 0
