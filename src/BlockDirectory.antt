-- ===== src/BlockDirectory.antt =====
-- libfsxfs_block_directory_header.c, libfsxfs_block_directory_footer.c and
-- libfsxfs_block_directory.c: the entries of a larger directory, which stand in blocks of their own.
-- An entry or a free region moves the offset by at least 4 bytes, so as much fuel as there are
-- bytes is enough.
pub mod Safety
pub mod RoundTrip
pub mod Written
use libfsxfs.Prelude.{
  ℕ, zero, suc, ◌+◌, ◌-◌, ◌*◌, ◌/◌, ◌%◌, Bool, true, false, List, [], ◌∷◌, ◌==◌, ltb, ◌||◌, ◌&&◌,
  not, if◌then◌else◌, Option, none, some, drop,
}
use libfsxfs.Result.{
  Result, ok, exhausted, value_out_of_bounds, unsupported_value, append_failed, ◌>>=◌, ◌>>◌,
  fail_if, or_fail,
}
use libfsxfs.Word.{int64_max, sub64}
use libfsxfs.Bytes.{slice, read_uint8, read_uint16, read_uint32, read_uint64, same_bytes}
use libfsxfs.Array.{CdataArray}
use libfsxfs.Handle.{IoHandle, FileIoHandle, read_buffer_at_offset}
use libfsxfs.Btree.{maximum_allocation_size}
use libfsxfs.DirectoryEntry.{DirectoryEntry, file_type_size}

pub record BlockDirectoryHeader : Type 0 where
  pub format_version : ℕ
  pub has_footer : Bool

-- "XD2B", "XD2D", "XDB3" and "XDD3"; 0 for any other signature.
unfoldable pub version_of_signature : List ℕ → ℕ
version_of_signature signature =
    if same_bytes signature (b'X' ∷ b'D' ∷ b'2' ∷ b'B' ∷ [])
    then 2
    else if same_bytes signature (b'X' ∷ b'D' ∷ b'2' ∷ b'D' ∷ [])
    then 2
    else if same_bytes signature (b'X' ∷ b'D' ∷ b'B' ∷ b'3' ∷ [])
    then 3
    else if same_bytes signature (b'X' ∷ b'D' ∷ b'D' ∷ b'3' ∷ [])
    then 3
    else 0

unfoldable pub has_footer_signature : List ℕ → Bool
has_footer_signature signature =
    same_bytes signature (b'X' ∷ b'D' ∷ b'2' ∷ b'B' ∷ [])
    || same_bytes signature (b'X' ∷ b'D' ∷ b'B' ∷ b'3' ∷ [])

-- `sizeof` of the two header structures of fsxfs_block_directory.h.
abbrev pub entries_start : ℕ → ℕ
entries_start format_version = if format_version == 3 then 64 else 16

unfoldable pub read_directory_header : List ℕ → ℕ → Result BlockDirectoryHeader
read_directory_header data_bytes data_size = do
  fail_if (ltb data_size 4 || ltb int64_max data_size) value_out_of_bounds
  signature ← slice data_bytes 0 4
  let format_version = version_of_signature signature
  fail_if (ltb data_size (if format_version == 0 then data_size else entries_start format_version))
      value_out_of_bounds
  fail_if (not (format_version == 2) && not (format_version == 3)) unsupported_value
  ok (record { format_version = format_version; has_footer = has_footer_signature signature })

-- The footer has one field, `number_of_entries`.
unfoldable pub read_footer : List ℕ → ℕ → Result ℕ
read_footer data_bytes data_size = do
  fail_if (ltb data_size 8 || ltb int64_max data_size) value_out_of_bounds
  read_uint32 data_bytes 0

-- `entries_data_end_offset`. The offset that the guard subtracts is still 0 there.
unfoldable pub entries_end : BlockDirectoryHeader → List ℕ → ℕ → Result ℕ
entries_end header data_bytes data_size =
    if header.has_footer
    then (do
      number_of_entries ← read_footer (drop (sub64 data_size 8) data_bytes) 8
      fail_if (ltb (sub64 (sub64 data_size 0) 8 / 8) number_of_entries) value_out_of_bounds
      ok (sub64 data_size (8 + number_of_entries * 8)))
    else ok data_size

-- An entry is padded to a multiple of 8.
abbrev pub padding_size : ℕ → ℕ
padding_size entry_data_size = if entry_data_size % 8 == 0 then 0 else 8 - entry_data_size % 8

-- "." and "..".
unfoldable pub is_ignored : List ℕ → Bool
is_ignored name = same_bytes name (b'.' ∷ []) || same_bytes name (b'.' ∷ b'.' ∷ [])

module _ (io_handle : IoHandle) where
  -- The body of the loop: the entry, or none for a free region and the ignored names, and the
  -- offset behind it.
  unfoldable pub read_entry : List ℕ → ℕ → ℕ → Result (Option DirectoryEntry × ℕ)
  read_entry data_bytes end_offset data_offset = do
    fail_if (ltb (sub64 end_offset data_offset) 4) value_out_of_bounds
    free_tag ← read_uint16 data_bytes data_offset
    if free_tag == 0xffff
        then (do
          region_data_size ← read_uint16 data_bytes (data_offset + 2)
          fail_if (ltb region_data_size 4) value_out_of_bounds
          ok (none, data_offset + region_data_size))
        else (do
          fail_if (ltb (sub64 end_offset data_offset) 9) value_out_of_bounds
          name_size ← read_uint8 data_bytes (data_offset + 8)
          let unpadded = 9 + name_size + 2 + file_type_size io_handle
          let entry_data_size = unpadded + padding_size unpadded
          fail_if (ltb entry_data_size 6 || ltb (sub64 end_offset data_offset) entry_data_size)
              value_out_of_bounds
          inode_number ← read_uint64 data_bytes data_offset
          name ← slice data_bytes (data_offset + 9) name_size
          let entry : DirectoryEntry = record { inode_number = inode_number; name = name }
          ok (if is_ignored name then none else some entry, data_offset + entry_data_size))

module _ (lib : CdataArray DirectoryEntry) (io_handle : IoHandle) where
  open lib use {Array, append_entry}

  unfoldable pub append_read : Option DirectoryEntry → Array → Result Array
  append_read none entries_array = ok entries_array
  append_read (some entry) entries_array = or_fail (append_entry entries_array entry) append_failed

  -- The loop, on fuel.
  unfoldable pub read_block_entries : ℕ → List ℕ → ℕ → ℕ → Array → Result Array
  read_block_entries zero data_bytes end_offset data_offset entries_array =
      if ltb data_offset end_offset then exhausted else ok entries_array
  read_block_entries (suc fuel) data_bytes end_offset data_offset entries_array =
      if ltb data_offset end_offset
      then (do
        (entry, next_offset) ← read_entry io_handle data_bytes end_offset data_offset
        appended ← append_read entry entries_array
        read_block_entries fuel data_bytes end_offset next_offset appended)
      else ok entries_array

  unfoldable pub read_data : List ℕ → ℕ → Array → Result Array
  read_data data_bytes data_size entries_array = do
    fail_if (ltb data_size 8 || ltb int64_max data_size) value_out_of_bounds
    header ← read_directory_header data_bytes data_size
    end_offset ← entries_end header data_bytes data_size
    read_block_entries data_size data_bytes end_offset (entries_start header.format_version)
        entries_array

  -- `libfsxfs_block_directory_initialize` with the block size, and
  -- `libfsxfs_block_directory_read_file_io_handle`, as libfsxfs_directory.c calls them.
  unfoldable pub read_file_io_handle : FileIoHandle → ℕ → ℕ → Array → Result Array
  read_file_io_handle file block_size file_offset entries_array = do
    fail_if (block_size == 0 || ltb maximum_allocation_size block_size) value_out_of_bounds
    buffer ← read_buffer_at_offset file block_size file_offset
    read_data buffer block_size entries_array
