-- ===== src/DataHandle.antt =====
-- libfsxfs_buffer_data_handle.c and libfsxfs_block_data_handle.c: what libfdata calls to read a
-- segment of a data stream: of data in memory, or of the volume.
pub mod Chunks
use libfsxfs.Prelude.{
  ℕ, ◌+◌, ◌-◌, Bool, true, false, List, [], length, ◌==◌, ltb, leb, ◌&&◌, not, bit_and,
  if◌then◌else◌, Option, none, some, replicate,
}
use libfsxfs.Result.{
  Result, ok, fault, value_out_of_bounds, invalid_value, value_exceeds_maximum, seek_failed,
  read_failed, ◌>>=◌, ◌>>◌, fail_if, or_fail,
}
use libfsxfs.Word.{int64_max, add64}
use libfsxfs.Bytes.{slice}
use libfsxfs.Handle.{FileIoHandle}

-- An off64_t stands as its 64 bits; it is negative where they are above INT64_MAX.
abbrev pub is_negative : ℕ → Bool
is_negative offset = ltb int64_max offset

-- libfsxfs_buffer_data_handle_t; a NULL pointer is none.
pub record BufferDataHandle : Type 0 where
  pub current_offset : ℕ
  pub data_bytes : Option (List ℕ)
  pub data_size : ℕ

abbrev pub is_null : Option (List ℕ) → Bool
is_null none = true
is_null (some bytes) = false

-- The bytes behind a pointer; a read through NULL is a fault.
abbrev pub pointed_slice : Option (List ℕ) → ℕ → ℕ → Result (List ℕ)
pointed_slice none offset size = fault
pointed_slice (some bytes) offset size = slice bytes offset size

unfoldable pub buffer_initialize : Option (List ℕ) → ℕ → Result BufferDataHandle
buffer_initialize data_bytes data_size = do
  fail_if (ltb 0 data_size && is_null data_bytes) invalid_value
  fail_if (ltb int64_max data_size) value_exceeds_maximum
  ok (record { current_offset = 0; data_bytes = data_bytes; data_size = data_size })

-- The bytes read, and the handle behind them.
unfoldable pub buffer_read_segment_data :
    BufferDataHandle → ℕ → ℕ → Result (List ℕ × BufferDataHandle)
buffer_read_segment_data data_handle segment_index segment_data_size = do
  fail_if (is_negative data_handle.current_offset) value_out_of_bounds
  fail_if (not (segment_index == 0)) value_out_of_bounds
  fail_if (ltb int64_max segment_data_size) value_exceeds_maximum
  let available = data_handle.data_size - data_handle.current_offset
  let read_size = if ltb segment_data_size available then segment_data_size else available
  if leb data_handle.data_size data_handle.current_offset then ok ([], data_handle) else (do
    segment_data ← pointed_slice data_handle.data_bytes data_handle.current_offset read_size
    ok (
      segment_data,
      record data_handle { current_offset = add64 data_handle.current_offset read_size },
    ))

unfoldable pub buffer_seek_segment_offset : BufferDataHandle → ℕ → ℕ → Result BufferDataHandle
buffer_seek_segment_offset data_handle segment_index segment_offset = do
  fail_if (not (segment_index == 0)) value_out_of_bounds
  fail_if (is_negative segment_offset) value_out_of_bounds
  ok (record data_handle { current_offset = segment_offset })

-- libbfio's position in the file, which these calls share, stands as an argument and a result.
-- LIBFDATA_RANGE_FLAG_IS_SPARSE is libfdata's.
unfoldable pub block_read_segment_data : ℕ → FileIoHandle → ℕ → ℕ → ℕ → Result (List ℕ × ℕ)
block_read_segment_data range_flag_is_sparse file position segment_data_size segment_flags = do
  fail_if (ltb int64_max segment_data_size) value_exceeds_maximum
  if not (bit_and segment_flags range_flag_is_sparse == 0)
      then ok (replicate segment_data_size 0, position)
      else (do
        segment_data ← or_fail (file segment_data_size position) read_failed
        ok (segment_data, add64 position (length segment_data)))

-- `seek_offset` is `libbfio_handle_seek_offset` from the start of the file.
unfoldable pub block_seek_segment_offset : (ℕ → Option ℕ) → ℕ → Result ℕ
block_seek_segment_offset seek_offset segment_offset = do
  fail_if (is_negative segment_offset) value_out_of_bounds
  or_fail (seek_offset segment_offset) seek_failed
