-- ===== src/Directory.antt =====
-- libfsxfs_directory.c: the entries of a directory, from its inode or from its blocks, and the
-- search for a name among them.
-- Where the source empties the array on an error, the error carries no array here: the callers
-- free it then.
pub mod Blocks
pub mod Safety
pub mod Names
pub mod Places
pub mod Written
use libfsxfs.Prelude.{
  ℕ, zero, suc, ◌+◌, ◌*◌, ◌/◌, Bool, true, false, List, ◌==◌, ltb, leb, ◌||◌, ◌&&◌, not,
  if◌then◌else◌, Option, none, some,
}
use libfsxfs.Result.{
  Result, ok, exhausted, value_out_of_bounds, unsupported_value, invalid_value, get_failed,
  generic_error, ◌>>=◌, ◌>>◌, fail_if, or_fail,
}
use libfsxfs.Word.{int64_max, add64, sub64, mul64}
use libfsxfs.Array.{CdataArray}
use libfsxfs.Handle.{IoHandle, FileIoHandle, block_offset}
use libfsxfs.Extent.{Extent}
use libfsxfs.DirectoryEntry.{DirectoryEntry}
use libfsxfs.DirectoryTable
use libfsxfs.BlockDirectory
use libfsxfs.Inode.{
  Inode, get_number_of_extents, get_extent_by_index, fork_type_inline_data, fork_type_extents,
  fork_type_btree, file_type_directory, file_type_of,
}

-- LIBFSXFS_DIRECTORY_LEAF_OFFSET: the leaf blocks, which have no entries, stand from here on.
abbrev pub directory_leaf_offset : ℕ
directory_leaf_offset = 0x800000000

module _ (lib : CdataArray DirectoryEntry) (io_handle : IoHandle) (file : FileIoHandle) where
  open lib use {Array}

  -- The loop over the blocks of an extent, on fuel. The extent's size is a uint64_t, and wraps where
  -- it is no multiple of the directory block size.
  unfoldable pub read_blocks : ℕ → ℕ → ℕ → Array → Result Array
  read_blocks zero block_directory_offset extent_size entries_array =
      if extent_size == 0 then ok entries_array else exhausted
  read_blocks (suc fuel) block_directory_offset extent_size entries_array =
      if extent_size == 0 then ok entries_array else (do
        filled ←
            BlockDirectory.read_file_io_handle lib io_handle file io_handle.block_size
              block_directory_offset entries_array
        read_blocks fuel (add64 block_directory_offset io_handle.directory_block_size)
            (sub64 extent_size io_handle.directory_block_size) filled)

  module _ (extents_lib : CdataArray Extent) where
    -- The loop over the extents, on the count of extents left.
    unfoldable pub read_extents : ℕ → Inode extents_lib → ℕ → ℕ → Array → Result Array
    read_extents fuel inode zero extent_index entries_array = ok entries_array
    read_extents fuel inode (suc n) extent_index entries_array = do
      extent ← get_extent_by_index extents_lib inode.data_fork extent_index
      fail_if (ltb (int64_max / io_handle.block_size) extent.logical_block_number)
          value_out_of_bounds
      let logical_offset = mul64 extent.logical_block_number io_handle.block_size
      if leb directory_leaf_offset logical_offset then ok entries_array else (do
        filled ←
            read_blocks fuel (block_offset io_handle extent.physical_block_number)
              (mul64 extent.number_of_blocks io_handle.block_size) entries_array
        read_extents fuel inode n (extent_index + 1) filled)

    -- The first argument is the fuel for each extent. An inode of another type has no entries.
    unfoldable pub read_file_io_handle : ℕ → Inode extents_lib → Array → Result Array
    read_file_io_handle fuel inode entries_array =
        let fork_type = inode.fields.fork_type in
        do
          fail_if (io_handle.allocation_group_size == 0) value_out_of_bounds
          fail_if (io_handle.block_size == 0) value_out_of_bounds
          if not (file_type_of inode.fields.file_mode == file_type_directory)
              then ok entries_array
              else (do
                fail_if
                    (not (fork_type == fork_type_inline_data)
                      && (not (fork_type == fork_type_extents)
                          && not (fork_type == fork_type_btree)))
                    unsupported_value
                if fork_type == fork_type_inline_data
                    then (do
                      data_bytes ← or_fail inode.data_fork.inline_data invalid_value
                      (header, filled) ←
                          DirectoryTable.read_data lib io_handle data_bytes inode.fields.size
                            entries_array
                      ok filled)
                    else (do
                      number_of_extents ← get_number_of_extents extents_lib inode.data_fork
                      read_extents fuel inode number_of_extents 0 entries_array))

-- LIBUNA_COMPARE_LESS, _EQUAL and _GREATER
pub data Compare : Type 0 where
  less equal greater : Compare

abbrev pub is_equal : Compare → Bool
is_equal less = false
is_equal equal = true
is_equal greater = false

module _ (lib : CdataArray DirectoryEntry) where
  open lib use {Array, get_number_of_entries, get_entry_by_index}

  -- `compare` is libuna's comparison of the string with the name of an entry; none stands for -1.
  module _ (compare_name : List ℕ → Option Compare) where
    unfoldable pub compare_entry : DirectoryEntry → Result Compare
    compare_entry entry = or_fail (compare_name entry.name) generic_error

    -- The loop, on the count of entries left; none stands for a result of 0.
    unfoldable pub find_entry : ℕ → ℕ → Array → Result (Option DirectoryEntry)
    find_entry zero entry_index entries_array = ok none
    find_entry (suc n) entry_index entries_array = do
      entry ← or_fail (get_entry_by_index entries_array entry_index) get_failed
      result ← compare_entry entry
      if is_equal result then ok (some entry) else find_entry n (entry_index + 1) entries_array

    unfoldable pub get_entry_by_name : Array → Result (Option DirectoryEntry)
    get_entry_by_name entries_array =
        find_entry (get_number_of_entries entries_array) 0 entries_array

  unfoldable pub directory_get_entry_by_index : Array → ℕ → Result DirectoryEntry
  directory_get_entry_by_index entries_array entry_index =
      or_fail (get_entry_by_index entries_array entry_index) get_failed
