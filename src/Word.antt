-- ===== src/Word.antt =====
-- Unsigned machine words: uint32_t, uint64_t and size_t (64 bits) as native numbers with the
-- wrap-around written out.
use native.Mathlib.Nat.{le-div_iff_mul-le}
use libfsxfs.Prelude.{
  ◌<◌, ◌↔◌, false, ℕ, ◌+◌, ◌-◌, ◌*◌, ◌/◌, ◌%◌, ◌^◌, ◌≤◌, ◌≡◌, arith, ltb, if◌then◌else◌,
}

abbrev pub u16_mod : ℕ
u16_mod = 65536

abbrev pub u32_mod : ℕ
u32_mod = 4294967296

abbrev pub u64_mod : ℕ
u64_mod = 18446744073709551616

-- SSIZE_MAX and INT64_MAX are the same number.
abbrev pub int64_max : ℕ
int64_max = 9223372036854775807

abbrev pub add64 : ℕ → ℕ → ℕ
add64 a b = (a + b) % u64_mod

-- `-` on ℕ is truncated, so the modulus is added first.
abbrev pub sub64 : ℕ → ℕ → ℕ
sub64 a b = (a + u64_mod - b) % u64_mod

abbrev pub mul64 : ℕ → ℕ → ℕ
mul64 a b = a * b % u64_mod

abbrev pub add32 : ℕ → ℕ → ℕ
add32 a b = (a + b) % u32_mod

-- `x & ( 2^k - 1 )` and `x >> k`.
abbrev pub low_bits : ℕ → ℕ → ℕ
low_bits x k = x % 2 ^ k

abbrev pub shr : ℕ → ℕ → ℕ
shr x k = x / 2 ^ k

-- `(off64_t) (int) x`: the lowest 32 bits, with their sign, as the bits of an off64_t.
abbrev pub int_bits : ℕ → ℕ
int_bits x = if ltb (x % u32_mod) 2147483648 then x % u32_mod else x % u32_mod + (u64_mod - u32_mod)

-- `x <= SSIZE_MAX` sizes subtract with no wrap-around.
pub sub64_le : (a b : ℕ) → b ≤ a → a ≤ int64_max → sub64 a b ≡ a - b
sub64_le a b h k = omega arith

-- The guard `a > M / b` against a product that is too large.
pub guard_iff : (a b m : ℕ) → 0 < b → (ltb (m / b) a ≡ false) ↔ (a * b ≤ m)
guard_iff a b m h = (
  (λ g. (le-div_iff_mul-le h).0 (ground arith)),
  λ k. let q : a ≤ m / b = (le-div_iff_mul-le h).1 k in ground arith,
)

pub le_mul_pos : (a b : ℕ) → 0 < b → a ≤ a * b
le_mul_pos a b h = grind arith
