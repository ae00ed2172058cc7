-- ===== src/Superblock.antt =====
-- libfsxfs_superblock.c: the superblock of an allocation group, and what it says of the volume.
pub mod Supported
use libfsxfs.Prelude.{
  ℕ, ◌+◌, ◌-◌, ◌*◌, ◌/◌, ◌%◌, ◌^◌, Bool, List, [], ◌∷◌, ◌==◌, ltb, leb, ◌||◌, ◌&&◌, not,
  if◌then◌else◌, bit_and,
}
use libfsxfs.Result.{Result, ok, value_out_of_bounds, unsupported_value, ◌>>=◌, ◌>>◌, fail_if}
use libfsxfs.Word.{int64_max, u32_mod}
use libfsxfs.Bytes.{slice, read_uint8, read_uint16, read_uint32, read_uint64, same_bytes}
use libfsxfs.Handle.{FileIoHandle, read_buffer_at_offset}

pub record Superblock : Type 0 where
  pub block_size : ℕ
  pub number_of_blocks : ℕ
  pub journal_block_number : ℕ
  pub root_directory_inode_number : ℕ
  pub allocation_group_size : ℕ
  pub number_of_allocation_groups : ℕ
  pub format_version : ℕ
  pub feature_flags : ℕ
  pub sector_size : ℕ
  pub inode_size : ℕ
  pub directory_block_size : ℕ
  pub volume_label : List ℕ
  pub secondary_feature_flags : ℕ
  pub number_of_relative_block_number_bits : ℕ
  pub number_of_relative_inode_number_bits : ℕ

abbrev pub uint32_max : ℕ
uint32_max = u32_mod - 1

-- 0x0010, 0x0020, 0x0080, 0x0400, 0x0800, 0x1000, 0x2000, 0x4000 and 0x8000 joined.
abbrev pub supported_feature_flags : ℕ
supported_feature_flags = 0xfcb0

unfoldable pub is_sector_size : ℕ → Bool
is_sector_size n = n == 512 || n == 1024 || n == 2048 || n == 4096 || n == 8192 || n == 16384

-- The size of a directory block, of `2 ^ log2` blocks.
unfoldable pub directory_block_size_of : ℕ → ℕ → Result ℕ
directory_block_size_of block_size log2 = if log2 == 0 then ok block_size else (do
  fail_if (leb 32 log2) unsupported_value
  fail_if (ltb (uint32_max / block_size) (2 ^ log2)) unsupported_value
  ok (2 ^ log2 * block_size))

-- The guards on the values that the directory block size does not depend on, up to it.
unfoldable pub check_sizes : Superblock → Result (Unit {0})
check_sizes s = do
  fail_if (not (s.format_version == 4) && not (s.format_version == 5)) unsupported_value
  fail_if (not (bit_and s.feature_flags (uint32_max - supported_feature_flags) == 0))
      unsupported_value
  fail_if (ltb s.block_size 512 || ltb 65536 s.block_size) unsupported_value
  fail_if (not (is_sector_size s.sector_size)) unsupported_value
  fail_if (ltb s.inode_size 256 || ltb 2048 s.inode_size) unsupported_value
  ok tt

-- The guards behind it. The number of inode bits is the sum of the two logarithms.
unfoldable pub check_groups : ℕ → ℕ → ℕ → ℕ → Result (Unit {0})
check_groups allocation_group_size allocation_group_size_log2 number_of_inodes_per_block
      number_of_inodes_per_block_log2 =
    do
      fail_if (ltb allocation_group_size 5 || ltb 2147483647 allocation_group_size)
          unsupported_value
      fail_if (allocation_group_size_log2 == 0 || ltb 31 allocation_group_size_log2)
          unsupported_value
      fail_if
          (number_of_inodes_per_block_log2 == 0
            || ltb (32 - allocation_group_size_log2) number_of_inodes_per_block_log2)
          unsupported_value
      let bits = allocation_group_size_log2 + number_of_inodes_per_block_log2
      fail_if (bits == 0 || leb 32 bits) unsupported_value
      fail_if (not (2 ^ number_of_inodes_per_block_log2 == number_of_inodes_per_block))
          unsupported_value
      ok tt

-- The fields that are read before the first guard on them.
unfoldable pub read_fields : List ℕ → Result Superblock
read_fields data_bytes = do
  block_size ← read_uint32 data_bytes 4
  number_of_blocks ← read_uint64 data_bytes 8
  journal_block_number ← read_uint64 data_bytes 48
  root_directory_inode_number ← read_uint64 data_bytes 56
  allocation_group_size ← read_uint32 data_bytes 84
  number_of_allocation_groups ← read_uint32 data_bytes 88
  version_and_feature_flags ← read_uint16 data_bytes 100
  sector_size ← read_uint16 data_bytes 102
  inode_size ← read_uint16 data_bytes 104
  volume_label ← slice data_bytes 108 12
  secondary_feature_flags ← read_uint32 data_bytes 200
  ok (record {
    block_size = block_size;
    number_of_blocks = number_of_blocks;
    journal_block_number = journal_block_number;
    root_directory_inode_number = root_directory_inode_number;
    allocation_group_size = allocation_group_size;
    number_of_allocation_groups = number_of_allocation_groups;
    format_version = version_and_feature_flags % 16;
    feature_flags = version_and_feature_flags - version_and_feature_flags % 16;
    sector_size = sector_size;
    inode_size = inode_size;
    directory_block_size = 0;
    volume_label = volume_label;
    secondary_feature_flags = secondary_feature_flags;
    number_of_relative_block_number_bits = 0;
    number_of_relative_inode_number_bits = 0;
  })

unfoldable pub read_data : List ℕ → ℕ → Result Superblock
read_data data_bytes data_size = do
  fail_if (ltb data_size 208 || ltb int64_max data_size) value_out_of_bounds
  signature ← slice data_bytes 0 4
  fail_if (not (same_bytes signature (b'X' ∷ b'F' ∷ b'S' ∷ b'B' ∷ []))) unsupported_value
  s ← read_fields data_bytes
  number_of_inodes_per_block ← read_uint16 data_bytes 106
  number_of_inodes_per_block_log2 ← read_uint8 data_bytes 123
  allocation_group_size_log2 ← read_uint8 data_bytes 124
  directory_block_size_log2 ← read_uint8 data_bytes 192
  check_sizes s
  directory_block_size ← directory_block_size_of s.block_size directory_block_size_log2
  check_groups s.allocation_group_size allocation_group_size_log2 number_of_inodes_per_block
      number_of_inodes_per_block_log2
  ok (record s {
    directory_block_size = directory_block_size;
    number_of_relative_block_number_bits = allocation_group_size_log2;
    number_of_relative_inode_number_bits =
        allocation_group_size_log2 + number_of_inodes_per_block_log2;
  })

unfoldable pub read_file_io_handle : FileIoHandle → ℕ → Result Superblock
read_file_io_handle file file_offset = do
  buffer ← read_buffer_at_offset file 512 file_offset
  read_data buffer 512
