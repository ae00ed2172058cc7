-- ===== src/Volume.antt =====
-- libfsxfs_volume.c: opening a volume, with `libfsxfs_file_system_read_inode_information` of
-- libfsxfs_file_system.c. The loop runs once for each allocation group, so its count is its measure.
pub mod Groups
pub mod Skips
use libfsxfs.Prelude.{ℕ, zero, suc, ◌+◌, ◌-◌, ◌*◌, ◌==◌, ltb, ◌||◌}
use libfsxfs.Result.{Result, ok, err, fault, exhausted, value_out_of_bounds, ◌>>=◌, ◌>>◌, fail_if}
use libfsxfs.Word.{int64_max, add64, mul64}
use libfsxfs.Array.{CdataArray}
use libfsxfs.Handle.{IoHandle, FileIoHandle}
use libfsxfs.InodeInformation.{InodeInformation}
use libfsxfs.InodeBtree
use libfsxfs.Superblock
use libfsxfs.Superblock.{Superblock}

-- The values that the IO handle takes from the first superblock.
abbrev pub io_handle_of : Superblock → IoHandle
io_handle_of s = record {
  format_version = s.format_version;
  secondary_feature_flags = s.secondary_feature_flags;
  block_size = s.block_size;
  allocation_group_size = s.allocation_group_size;
  inode_size = s.inode_size;
  directory_block_size = s.directory_block_size;
  number_of_relative_block_number_bits = s.number_of_relative_block_number_bits;
  number_of_relative_inode_number_bits = s.number_of_relative_inode_number_bits;
}

-- The bytes of an allocation group.
abbrev pub group_data_size : IoHandle → ℕ
group_data_size io_handle = mul64 io_handle.allocation_group_size io_handle.block_size

-- The inode information stands in the third sector of its group.
abbrev pub information_offset : Superblock → ℕ → ℕ
information_offset superblock superblock_offset =
    add64 superblock_offset (2 * superblock.sector_size)

abbrev pub keep_on_error {ℓ} : {A : Type ℓ} → Result A → A → Result A
keep_on_error (ok extended) before = ok extended
keep_on_error (err e) before = ok before
keep_on_error fault before = fault
keep_on_error exhausted before = exhausted

module _ (lib : CdataArray InodeInformation) where
  open lib use {Array}

  -- The source returns 1 also where the call below it failed, which leaves the array as it was.
  unfoldable pub read_information : IoHandle → FileIoHandle → ℕ → Array → Result Array
  read_information io_handle file file_offset information =
      keep_on_error (InodeBtree.read_inode_information lib information io_handle file file_offset)
        information

  -- What the loop does behind the read of a superblock: the array, and the next offset.
  unfoldable pub read_group : Superblock → FileIoHandle → ℕ → Array → Result (Array × ℕ)
  read_group superblock file superblock_offset information = do
    let io_handle = io_handle_of superblock
    extended ←
        read_information io_handle file (information_offset superblock superblock_offset)
          information
    fail_if
        (group_data_size io_handle == 0
          || ltb (int64_max - group_data_size io_handle) superblock_offset)
        value_out_of_bounds
    ok (extended, superblock_offset + group_data_size io_handle)

  -- The groups behind the first. Their superblocks are read and checked, but their values not used.
  unfoldable pub read_groups : ℕ → Superblock → FileIoHandle → ℕ → Array → Result Array
  read_groups zero superblock file superblock_offset information = ok information
  read_groups (suc n) superblock file superblock_offset information = do
    other ← Superblock.read_file_io_handle file superblock_offset
    (extended, next_offset) ← read_group superblock file superblock_offset information
    read_groups n superblock file next_offset extended

  -- The superblock and the inode information, from an array that is empty at first.
  unfoldable pub open_read : FileIoHandle → Array → Result (Superblock × Array)
  open_read file information = do
    superblock ← Superblock.read_file_io_handle file 0
    (first, next_offset) ← read_group superblock file 0 information
    all ← read_groups (superblock.number_of_allocation_groups - 1) superblock file next_offset first
    fail_if (superblock.number_of_allocation_groups == 0) value_out_of_bounds
    ok (superblock, all)
