-- ===== src/DirectoryEntry.antt =====
-- libfsxfs_directory_entry.c, and the flag that says whether an entry on disk has a file type.
use libfsxfs.Prelude.{ℕ, Bool, List, ◌==◌, ◌||◌, not, bit_and, if◌then◌else◌}
use libfsxfs.Handle.{IoHandle, secondary_feature_flag_file_type}

-- `name` is the first `name_size` bytes of the name buffer.
pub record DirectoryEntry : Type 0 where
  pub inode_number : ℕ
  pub name : List ℕ

-- The test of libfsxfs_directory_table.c and libfsxfs_block_directory.c.
unfoldable pub has_file_type : IoHandle → Bool
has_file_type io_handle =
    io_handle.format_version == 5
    || not (bit_and io_handle.secondary_feature_flags secondary_feature_flag_file_type == 0)

-- The bytes of the file type in an entry.
abbrev pub file_type_size : IoHandle → ℕ
file_type_size io_handle = if has_file_type io_handle then 1 else 0
