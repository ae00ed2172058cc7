-- ===== src/Extent.antt =====
-- libfsxfs_extent.c: one packed extent of 16 bytes, and its position in the volume.
pub mod Fields
pub mod Range
use libfsxfs.Prelude.{ℕ, ◌-◌, ◌/◌, ◌%◌, List, ◌==◌, ltb, ◌||◌, if◌then◌else◌, bit_or}
use libfsxfs.Result.{Result, ok, value_out_of_bounds, ◌>>=◌, ◌>>◌, fail_if}
use libfsxfs.Word.{u32_mod, u64_mod, int64_max, low_bits, shr, mul64}
use libfsxfs.Bytes.{read_uint64}
use libfsxfs.Handle.{IoHandle}

pub record Extent : Type 0 where
  pub logical_block_number : ℕ
  pub physical_block_number : ℕ
  pub number_of_blocks : ℕ
  pub range_flags : ℕ

-- LIBFSXFS_EXTENT_FLAG_IS_SPARSE
abbrev pub extent_flag_is_sparse : ℕ
extent_flag_is_sparse = 1

-- `libfsxfs_extent_initialize`: the structure is cleared.
abbrev pub initialize : Extent
initialize = record {
  logical_block_number = 0;
  physical_block_number = 0;
  number_of_blocks = 0;
  range_flags = 0;
}

-- The fields of the two halves of the 128-bit value.
unfoldable pub unpack : ℕ → ℕ → Extent
unpack upper lower = record {
  logical_block_number = low_bits (shr upper 9) 54;
  physical_block_number = bit_or (shr lower 21) (low_bits upper 9);
  number_of_blocks = low_bits lower 21 % u32_mod;
  range_flags = if shr (shr upper 9) 54 == 0 then 0 else extent_flag_is_sparse;
}

unfoldable pub read_data : List ℕ → ℕ → Result Extent
read_data data_bytes data_size = do
  fail_if (ltb data_size 16 || ltb int64_max data_size) value_out_of_bounds
  upper ← read_uint64 data_bytes 0
  lower ← read_uint64 data_bytes 8
  ok (unpack upper lower)

pub record ExtentValues : Type 0 where
  pub extent_offset : ℕ
  pub extent_size : ℕ
  pub extent_flags : ℕ

-- `(off64_t) physical_block_number * (off64_t) block_size` is in range behind the guard.
unfoldable pub get_values : Extent → IoHandle → Result ExtentValues
get_values extent io_handle = do
  fail_if (io_handle.block_size == 0) value_out_of_bounds
  fail_if (ltb (int64_max / io_handle.block_size) extent.physical_block_number) value_out_of_bounds
  fail_if (ltb ((u64_mod - 1) / io_handle.block_size) extent.number_of_blocks) value_out_of_bounds
  ok (record {
    extent_offset = mul64 extent.physical_block_number io_handle.block_size;
    extent_size = mul64 extent.number_of_blocks io_handle.block_size;
    extent_flags = extent.range_flags;
  })
