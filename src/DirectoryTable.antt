-- ===== src/DirectoryTable.antt =====
-- libfsxfs_directory_table_header.c and libfsxfs_directory_table.c: the entries of a small directory,
-- which stand in its inode. The size_t offset grows to data_size at most and cannot wrap around.
pub mod Safety
pub mod RoundTrip
pub mod Written
use libfsxfs.Prelude.{ℕ, zero, suc, ◌+◌, List, ◌==◌, ltb, ◌||◌, ◌&&◌, not, if◌then◌else◌}
use libfsxfs.Result.{
  Result, ok, value_out_of_bounds, unsupported_value, append_failed, ◌>>=◌, ◌>>◌, fail_if, or_fail,
}
use libfsxfs.Word.{int64_max, sub64}
use libfsxfs.Bytes.{slice, read_uint8, read_uint32, read_uint64}
use libfsxfs.Array.{CdataArray}
use libfsxfs.Handle.{IoHandle}
use libfsxfs.DirectoryEntry.{DirectoryEntry, file_type_size}

pub record DirectoryTableHeader : Type 0 where
  pub number_of_entries : ℕ
  pub inode_number_data_size : ℕ
  pub parent_inode_number : ℕ

-- An inode number of 4 or 8 bytes.
unfoldable pub read_inode_number : ℕ → List ℕ → ℕ → Result ℕ
read_inode_number inode_number_data_size data_bytes offset =
    if inode_number_data_size == 4
    then read_uint32 data_bytes offset
    else read_uint64 data_bytes offset

unfoldable pub read_header : List ℕ → ℕ → Result DirectoryTableHeader
read_header data_bytes data_size = do
  fail_if (ltb data_size 2 || ltb int64_max data_size) value_out_of_bounds
  number_of_32bit_entries ← read_uint8 data_bytes 0
  number_of_64bit_entries ← read_uint8 data_bytes 1
  fail_if (not (number_of_32bit_entries == 0) && not (number_of_64bit_entries == 0))
      unsupported_value
  let is_32bit = number_of_64bit_entries == 0
  fail_if (ltb data_size (if is_32bit then 6 else 10)) value_out_of_bounds
  let inode_number_data_size = if is_32bit then 4 else 8
  parent_inode_number ← read_inode_number inode_number_data_size data_bytes 2
  ok (record {
    number_of_entries = if is_32bit then number_of_32bit_entries else number_of_64bit_entries;
    inode_number_data_size = inode_number_data_size;
    parent_inode_number = parent_inode_number;
  })

module _ (lib : CdataArray DirectoryEntry) (io_handle : IoHandle) where
  open lib use {Array, append_entry}

  -- The loop, on the count of entries left.
  unfoldable pub read_entries : ℕ → ℕ → List ℕ → ℕ → ℕ → Array → Result Array
  read_entries zero inode_number_data_size data_bytes data_size data_offset entries_array =
      ok entries_array
  read_entries (suc n) inode_number_data_size data_bytes data_size data_offset entries_array = do
    fail_if (ltb (sub64 data_size data_offset) 1) value_out_of_bounds
    name_size ← read_uint8 data_bytes data_offset
    let entry_data_size = 3 + name_size + file_type_size io_handle + inode_number_data_size
    fail_if (ltb (sub64 data_size data_offset) entry_data_size) value_out_of_bounds
    name ← slice data_bytes (data_offset + 3) name_size
    inode_number ←
        read_inode_number inode_number_data_size data_bytes
          (data_offset + (3 + name_size + file_type_size io_handle))
    appended ←
        or_fail (append_entry entries_array (record { inode_number = inode_number; name = name }))
          append_failed
    read_entries n inode_number_data_size data_bytes data_size (data_offset + entry_data_size)
        appended

  unfoldable pub read_data : List ℕ → ℕ → Array → Result (DirectoryTableHeader × Array)
  read_data data_bytes data_size entries_array = do
    fail_if (ltb data_size 2 || ltb int64_max data_size) value_out_of_bounds
    header ← read_header data_bytes data_size
    let data_offset = if header.inode_number_data_size == 4 then 6 else 10
    filled ←
        read_entries header.number_of_entries header.inode_number_data_size data_bytes data_size
          data_offset entries_array
    ok (header, filled)
