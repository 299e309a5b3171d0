-- ===== src/Compare/Bits.antt =====
-- When `|` and `^` of natural numbers are 0: by induction on the fuel of their binary digits.
use Prim.Native.Nat.{bit_or, bit_xor, max, digits, bit_or-bitwise, bit_xor-bitwise, differ}
use native.Mathlib.Nat.{le_refl}
use headfwd.Common.{ℕ, zero, suc, ◌/◌, ◌%◌, ◌≤◌, ◌≡◌, sym, ◌↔◌, arith}

differ-eq-zero_iff : (a b : ℕ) → (differ a b ≡ 0) ↔ (a ≡ b)
differ-eq-zero_iff zero b = (sym, sym)
differ-eq-zero_iff (suc a) zero = (λ h. h, λ h. h)
differ-eq-zero_iff (suc a) (suc b) = ground (arith, differ-eq-zero_iff a b)

digits-max_iff :
    (fuel a b : ℕ) → a ≤ fuel → (digits (λ y. y) max fuel a b ≡ 0) ↔ ((a ≡ 0) × (b ≡ 0))
digits-max_iff zero zero b h = ground arith
digits-max_iff zero (suc a) b h = absurd (omega arith)
digits-max_iff (suc fuel) zero b h = ground arith
digits-max_iff (suc fuel) (suc a) b h =
    ground (arith, digits-max_iff fuel (suc a / 2) (b / 2) (omega arith))

digits-differ_iff : (fuel a b : ℕ) → a ≤ fuel → (digits (λ y. y) differ fuel a b ≡ 0) ↔ (a ≡ b)
digits-differ_iff zero zero b h = ground arith
digits-differ_iff zero (suc a) b h = absurd (omega arith)
digits-differ_iff (suc fuel) zero b h = ground arith
digits-differ_iff (suc fuel) (suc a) b h = ground (
  arith,
  digits-differ_iff fuel (suc a / 2) (b / 2) (omega arith),
  differ-eq-zero_iff (suc a % 2) (b % 2),
)

pub bit_or-eq-zero_iff : (a b : ℕ) → (bit_or a b ≡ 0) ↔ ((a ≡ 0) × (b ≡ 0))
bit_or-eq-zero_iff a b = simp bit_or-bitwise (digits-max_iff a a b (le_refl a))

pub bit_xor-eq-zero_iff : (a b : ℕ) → (bit_xor a b ≡ 0) ↔ (a ≡ b)
bit_xor-eq-zero_iff a b = simp bit_xor-bitwise (digits-differ_iff a a b (le_refl a))
