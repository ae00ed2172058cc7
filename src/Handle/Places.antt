-- ===== src/Handle/Places.antt =====
-- The place of a block in the volume, apart from the expression in the code.
use libfsxfs.Prelude.{ℕ, ◌+◌, ◌*◌, ◌/◌, ◌%◌, ◌^◌, ◌≤◌, ◌<◌, ◌≡◌, arith}
use libfsxfs.Word.{int64_max, int_bits, add64, mul64, le_mul_pos}
use libfsxfs.Handle.{IoHandle, block_offset}

-- The allocation group of a block, and the block in the group, as the format has them.
abbrev pub group_of : IoHandle → ℕ → ℕ
group_of io block_number = block_number / 2 ^ io.number_of_relative_block_number_bits

abbrev pub block_in_group : IoHandle → ℕ → ℕ
block_in_group io block_number = block_number % 2 ^ io.number_of_relative_block_number_bits

-- The offset of a block from the start of the volume: the groups follow one another.
abbrev pub place_of : IoHandle → ℕ → ℕ
place_of io block_number =
    (group_of io block_number * io.allocation_group_size + block_in_group io block_number)
    * io.block_size

-- The index of the group fits an int, and the `n` blocks from the block on end where an off64_t can
-- say it.
pub record IsInVolume (io : IoHandle) (block_number n : ℕ) : Type 0 where
  pub group_fits : group_of io block_number < 2147483648
  pub end_fits : place_of io block_number + n * io.block_size ≤ int64_max

pub unwrapped :
    (q a r bs : ℕ)
    → q < 2147483648
    → 0 < bs
    → (q * a + r) * bs ≤ int64_max
    → mul64 (add64 (mul64 (int_bits q) a) r) bs ≡ (q * a + r) * bs
unwrapped q a r bs small pos h =
    let index : int_bits q ≡ q = ground arith in
    let le = le_mul_pos (q * a + r) bs pos in
    let product : mul64 q a ≡ q * a = omega arith in
    let total : add64 (q * a) r ≡ q * a + r = omega arith in
    let scaled : mul64 (q * a + r) bs ≡ (q * a + r) * bs = omega arith in
    rw (index, product, total, scaled)

pub block_offset-place :
    (io : IoHandle) (b n : ℕ)
    → 0 < io.block_size
    → IsInVolume io b n
    → block_offset io b ≡ place_of io b
unfolding block_offset
block_offset-place io b n pos v =
    unwrapped (group_of io b) io.allocation_group_size (block_in_group io b) io.block_size
      v.group_fits pos (omega (arith, v.end_fits))
