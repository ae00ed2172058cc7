-- ===== src/Handle.antt =====
-- libfsxfs_io_handle.h: what the reader knows of the volume, and the file that it reads.
pub mod Places
use libfsxfs.Prelude.{ℕ, List, Option, length, ◌==◌, not}
use libfsxfs.Word.{int_bits, shr, low_bits, mul64, add64}
use libfsxfs.Result.{Result, ok, read_failed, ◌>>=◌, ◌>>◌, fail_if, or_fail}

-- struct libfsxfs_io_handle; `abort` is never read by the modelled code.
pub record IoHandle : Type 0 where
  pub format_version : ℕ
  pub secondary_feature_flags : ℕ
  pub block_size : ℕ
  pub allocation_group_size : ℕ
  pub inode_size : ℕ
  pub directory_block_size : ℕ
  pub number_of_relative_block_number_bits : ℕ
  pub number_of_relative_inode_number_bits : ℕ

-- LIBFSXFS_SECONDARY_FEATURE_FLAG_FILE_TYPE
abbrev pub secondary_feature_flag_file_type : ℕ
secondary_feature_flag_file_type = 0x200

-- LIBFSXFS_MAXIMUM_RECURSION_DEPTH
abbrev pub maximum_recursion_depth : ℕ
maximum_recursion_depth = 256

-- libbfio, which src/ only calls: the bytes that a read of `size` bytes at `offset` gives, fewer
-- than `size` at the end of the file, or none for -1.
abbrev pub FileIoHandle : Type 0
FileIoHandle = ℕ → ℕ → Option (List ℕ)

-- `libbfio_handle_read_buffer_at_offset`, and the test of its read count that follows every call.
unfoldable pub read_buffer_at_offset : FileIoHandle → ℕ → ℕ → Result (List ℕ)
read_buffer_at_offset file size offset = do
  buffer ← or_fail (file size offset) read_failed
  fail_if (not (length buffer == size)) read_failed
  ok buffer

-- The offset of a block by its file system block number: the allocation group in the upper bits
-- and the block in the group in the lower `number_of_relative_block_number_bits`. The expression
-- is the same in libfsxfs_extent_btree.c, libfsxfs_directory.c and libfsxfs_data_stream.c. An
-- off64_t stands as its 64 bits.
unfoldable pub block_offset : IoHandle → ℕ → ℕ
block_offset io_handle block_number =
    let bits = io_handle.number_of_relative_block_number_bits in
    let allocation_group_index = int_bits (shr block_number bits) in
    let relative_block_number = low_bits block_number bits in
    mul64
      (add64 (mul64 allocation_group_index io_handle.allocation_group_size) relative_block_number)
      io_handle.block_size
