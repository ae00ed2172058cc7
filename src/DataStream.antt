-- ===== src/DataStream.antt =====
-- libfsxfs_data_stream.c: the data of a file as a stream that libfdata reads: of the data in the
-- inode, or of the extents of its data fork.
pub mod Mapped
pub mod Inline
use libfsxfs.Prelude.{
  ℕ, zero, suc, ◌+◌, ◌*◌, Bool, List, ◌==◌, ◌||◌, ◌&&◌, not, if◌then◌else◌, Option, none, some,
}
use libfsxfs.Result.{
  Result, ok, value_out_of_bounds, unsupported_value, initialize_failed, append_failed, set_failed,
  ◌>>=◌, ◌>>◌, fail_if, or_fail,
}
use libfsxfs.Word.{mul64}
use libfsxfs.Array.{CdataArray}
use libfsxfs.Stream.{FdataStream, Segment}
use libfsxfs.Handle.{IoHandle, block_offset}
use libfsxfs.Extent.{Extent}
use libfsxfs.Inode.{
  Inode, get_number_of_extents, get_extent_by_index, fork_type_inline_data, fork_type_extents,
  fork_type_btree,
}
use libfsxfs.DataHandle.{BufferDataHandle, buffer_initialize}

-- What the callbacks of a stream read: a buffer, or the volume, which needs no handle.
pub data DataHandle : Type 0 where
  buffer : BufferDataHandle → DataHandle
  blocks : DataHandle

abbrev pub segment_of : IoHandle → Extent → Segment
segment_of io_handle extent = record {
  offset = block_offset io_handle extent.physical_block_number;
  size = mul64 extent.number_of_blocks io_handle.block_size;
  flags = extent.range_flags;
}

module _ (lib : CdataArray Extent) (libfdata : FdataStream DataHandle) where
  open libfdata use {Stream, initialize, append_segment, set_mapped_size}

  unfoldable pub initialize_from_data : Option (List ℕ) → ℕ → Result Stream
  initialize_from_data data_bytes data_size = do
    data_handle ← buffer_initialize data_bytes data_size
    data_stream ← or_fail (initialize (buffer data_handle)) initialize_failed
    or_fail (append_segment data_stream (record { offset = 0; size = data_size; flags = 0 }))
        append_failed

  -- The loop, on the count of extents left.
  unfoldable pub append_extents : IoHandle → Inode lib → ℕ → ℕ → Stream → Result Stream
  append_extents io_handle inode zero extent_index data_stream = ok data_stream
  append_extents io_handle inode (suc n) extent_index data_stream = do
    extent ← get_extent_by_index lib inode.data_fork extent_index
    appended ← or_fail (append_segment data_stream (segment_of io_handle extent)) append_failed
    append_extents io_handle inode n (extent_index + 1) appended

  unfoldable pub initialize_from_extents : IoHandle → Inode lib → ℕ → Result Stream
  initialize_from_extents io_handle inode data_size = do
    fail_if (io_handle.allocation_group_size == 0) value_out_of_bounds
    fail_if (io_handle.block_size == 0) value_out_of_bounds
    data_stream ← or_fail (initialize blocks) initialize_failed
    number_of_extents ← get_number_of_extents lib inode.data_fork
    appended ← append_extents io_handle inode number_of_extents 0 data_stream
    or_fail (set_mapped_size appended data_size) set_failed

  unfoldable pub data_stream_initialize : IoHandle → Inode lib → ℕ → Result Stream
  data_stream_initialize io_handle inode data_size =
      let fork_type = inode.fields.fork_type in
      do
        fail_if
            (not (fork_type == fork_type_inline_data)
              && (not (fork_type == fork_type_extents) && not (fork_type == fork_type_btree)))
            unsupported_value
        if data_size == 0 || fork_type == fork_type_inline_data
            then initialize_from_data inode.data_fork.inline_data data_size
            else initialize_from_extents io_handle inode data_size
