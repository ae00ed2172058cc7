-- ===== src/Bits.antt =====
-- Two facts on the bitwise or at variables, from its definition by binary digits.
use Prim.Native.Nat.{digits, max, bit_or-bitwise}
use libfsxfs.Prelude.{ℕ, zero, suc, ◌+◌, ◌/◌, ◌≤◌, ◌≡◌, refl, arith, bit_or, ◌∙◌}

abbrev or_digits : ℕ → ℕ → ℕ → ℕ
or_digits n a b = digits (λ b. b) max n a b

or_digits-le : (n a b : ℕ) → or_digits n a b ≤ a + b
or_digits-le zero a b = omega arith
or_digits-le (suc n) zero b = omega arith
or_digits-le (suc n) (suc a) b = omega (arith, or_digits-le n (suc a / 2) (b / 2))

or_digits-zero : (n a : ℕ) → a ≤ n → or_digits n a 0 ≡ a
or_digits-zero zero a h = omega arith
or_digits-zero (suc n) zero h = refl
or_digits-zero (suc n) (suc a) h = omega (arith, or_digits-zero n (suc a / 2) (omega arith))

pub bit_or-le : (a b : ℕ) → bit_or a b ≤ a + b
bit_or-le a b = rw (bit_or-bitwise a b) (or_digits-le a a b)

pub bit_or-zero : (a : ℕ) → bit_or a 0 ≡ a
bit_or-zero a = bit_or-bitwise a 0 ∙ or_digits-zero a a (omega arith)
