-- ===== src/Btree.antt =====
-- libfsxfs_btree_header.c and libfsxfs_btree_block.c: a block of a B+ tree, its header and its
-- records.
pub mod Records
use libfsxfs.Prelude.{ℕ, ◌*◌, Bool, List, [], ◌∷◌, ◌==◌, ltb, ◌||◌, ◌&&◌, not, if◌then◌else◌, drop}
use libfsxfs.Result.{Result, ok, value_out_of_bounds, unsupported_value, ◌>>=◌, ◌>>◌, fail_if}
use libfsxfs.Word.{int64_max, sub64}
use libfsxfs.Bytes.{slice, read_uint16}
use libfsxfs.Handle.{IoHandle, FileIoHandle, read_buffer_at_offset}

pub record BtreeHeader : Type 0 where
  pub signature : List ℕ
  pub level : ℕ
  pub number_of_records : ℕ

-- `sizeof` of the four header structures of fsxfs_btree.h.
unfoldable pub header_data_size : IoHandle → ℕ → ℕ
header_data_size io_handle block_number_data_size =
    if io_handle.format_version == 5
    then (if block_number_data_size == 8 then 72 else 56)
    else (if block_number_data_size == 8 then 24 else 16)

unfoldable pub read_header : IoHandle → List ℕ → ℕ → ℕ → Result BtreeHeader
read_header io_handle data_bytes data_size block_number_data_size = do
  fail_if (not (block_number_data_size == 4) && not (block_number_data_size == 8)) unsupported_value
  fail_if
      (ltb data_size (header_data_size io_handle block_number_data_size) || ltb int64_max data_size)
      value_out_of_bounds
  signature ← slice data_bytes 0 4
  level ← read_uint16 data_bytes 4
  number_of_records ← read_uint16 data_bytes 6
  ok (record { signature = signature; level = level; number_of_records = number_of_records })

-- `records_data` points behind the header.
pub record BtreeBlock : Type 0 where
  pub header : BtreeHeader
  pub records_data : List ℕ
  pub records_data_size : ℕ

unfoldable pub read_block_data : IoHandle → List ℕ → ℕ → ℕ → Result BtreeBlock
read_block_data io_handle data_bytes data_size block_number_data_size = do
  let size = header_data_size io_handle block_number_data_size
  fail_if (ltb data_size size || ltb int64_max data_size) value_out_of_bounds
  header ← read_header io_handle data_bytes size block_number_data_size
  ok (record {
    header = header;
    records_data = drop size data_bytes;
    records_data_size = sub64 data_size size;
  })

-- MEMORY_MAXIMUM_ALLOCATION_SIZE of common/memory.h.
abbrev pub maximum_allocation_size : ℕ
maximum_allocation_size = 128 * 1024 * 1024

-- `libfsxfs_btree_block_initialize` and `libfsxfs_btree_block_read_file_io_handle`, which always
-- follows it: a block of `block_size` bytes is allocated and read.
unfoldable pub read_block : IoHandle → FileIoHandle → ℕ → ℕ → Result BtreeBlock
read_block io_handle file block_number_data_size file_offset = do
  fail_if (io_handle.block_size == 0 || ltb maximum_allocation_size io_handle.block_size)
      value_out_of_bounds
  buffer ← read_buffer_at_offset file io_handle.block_size file_offset
  read_block_data io_handle buffer io_handle.block_size block_number_data_size
