-- ===== src/InodeInformation.antt =====
-- libfsxfs_inode_information.c: the inode information block of an allocation group.
use libfsxfs.Prelude.{ℕ, List, [], ◌∷◌, ◌==◌, ltb, leb, ◌||◌, not, if◌then◌else◌}
use libfsxfs.Result.{Result, ok, value_out_of_bounds, unsupported_value, ◌>>=◌, ◌>>◌, fail_if}
use libfsxfs.Word.{int64_max}
use libfsxfs.Bytes.{slice, read_uint32, same_bytes}
use libfsxfs.Handle.{IoHandle, FileIoHandle, read_buffer_at_offset}

pub record InodeInformation : Type 0 where
  pub inode_btree_root_block_number : ℕ
  pub inode_btree_depth : ℕ
  pub last_allocated_chunk : ℕ

unfoldable pub read_data : IoHandle → List ℕ → ℕ → Result InodeInformation
read_data io_handle data_bytes data_size = do
  let inode_information_data_size = if leb 5 io_handle.format_version then 80 else 40
  fail_if (ltb data_size inode_information_data_size || ltb int64_max data_size) value_out_of_bounds
  signature ← slice data_bytes 0 4
  fail_if (not (same_bytes signature (b'X' ∷ b'A' ∷ b'G' ∷ b'I' ∷ []))) unsupported_value
  format_version ← read_uint32 data_bytes 4
  inode_btree_root_block_number ← read_uint32 data_bytes 20
  inode_btree_depth ← read_uint32 data_bytes 24
  last_allocated_chunk ← read_uint32 data_bytes 32
  fail_if (not (format_version == 1)) unsupported_value
  ok (record {
    inode_btree_root_block_number = inode_btree_root_block_number;
    inode_btree_depth = inode_btree_depth;
    last_allocated_chunk = last_allocated_chunk;
  })

unfoldable pub read_file_io_handle : IoHandle → FileIoHandle → ℕ → Result InodeInformation
read_file_io_handle io_handle file file_offset = do
  buffer ← read_buffer_at_offset file 512 file_offset
  read_data io_handle buffer 512
