-- ===== src/Tests/InodeRuns.antt =====
-- Inodes and data streams: runs of libfsxfs_inode.c, libfsxfs_data_stream.c and
-- libfsxfs_buffer_data_handle.c.
use libfsxfs.Prelude.{
  ℕ, ◌-◌, ◌/◌, ◌≡◌, ◌↔◌, refl, arith, true, List, [], ◌∷◌, ◌++◌, ◌==◌, ltb, ◌&&◌, ◌||◌, replicate,
  some, none, length, if◌then◌else◌,
}
use libfsxfs.Result.{ok, Ensures, ◌>>=◌}
use libfsxfs.Bytes.Encode.{be16, be64}
use libfsxfs.Array.{list_array}
use libfsxfs.Stream.{FdataStream, plain_stream, locate}
use libfsxfs.Handle.{IoHandle, FileIoHandle, read_buffer_at_offset}
use libfsxfs.Extent.{Extent}
use libfsxfs.Inode
use libfsxfs.Inode.{
  Inode, InodeFields, Fork, timestamp_of, is_positive, inline_fork, extents_fork, no_fork,
}
use libfsxfs.Inode.Times.{nanoseconds_of, timestamp_of_iff}
use libfsxfs.Inode.Read.{IsInode, HasData, read_file_io_handle-IsInode}
use libfsxfs.DataHandle.{BufferDataHandle, buffer_seek_segment_offset}
use libfsxfs.DataHandle.Chunks.{read_pieces, seek-read_pieces}
use libfsxfs.DataStream.{DataHandle, data_stream_initialize, initialize_from_extents}
use libfsxfs.DataStream.Mapped.{in_segment, extent_with, from_extents-locate}
use libfsxfs.DataStream.Inline.{IsInline, data_stream_initialize-IsInline}

-- 1969-12-31 23:59:58 and half a second.
timestamp_of_iff_example :
    (timestamp_of is_positive 0xfffffffe 500000000 ≡ nanoseconds_of 0xfffffffe 500000000)
    ↔ ((ltb 0 0xfffffffe && ltb 0xfffffffe 2147483648 || 500000000 == 0) ≡ true)
timestamp_of_iff_example = timestamp_of_iff 0xfffffffe 500000000 (omega arith) (omega arith)

abbrev volume : IoHandle
volume = record {
  format_version = 4;
  secondary_feature_flags = 0;
  block_size = 32;
  allocation_group_size = 256;
  inode_size = 256;
  directory_block_size = 32;
  number_of_relative_block_number_bits = 8;
  number_of_relative_inode_number_bits = 8;
}

-- An inode of version 2 with its data in it.
abbrev inode_bytes : ℕ → List ℕ → List ℕ
inode_bytes file_mode content =
    b'I'
    ∷ b'N'
    ∷ (be16 file_mode
        ++ (2
            ∷ 1
            ∷ (replicate 50 0
                ++ (be64 (length content)
                    ++ (replicate 36 0 ++ (content ++ replicate (156 - length content) 0))))))

abbrev content : List ℕ
content = b'h' ∷ b'e' ∷ b'l' ∷ b'l' ∷ b'o' ∷ []

abbrev file : FileIoHandle
file size offset = if offset == 512 then some (inode_bytes 0x81a4 content) else none

abbrev file_fields : InodeFields
file_fields = record {
  format_version = 2;
  file_mode = 0x81a4;
  owner_identifier = 0;
  group_identifier = 0;
  number_of_links = 0;
  access_time = 0;
  modification_time = 0;
  inode_change_time = 0;
  creation_time = 0;
  size = 5;
  fork_type = 1;
  number_of_data_extents = 0;
  data_fork_offset = 100;
  data_fork_size = 156;
  attributes_fork_type = 0;
  number_of_attributes_extents = 0;
  attributes_fork_offset = 0;
  attributes_fork_size = 0;
}

abbrev file_inode : Inode (list_array Extent)
file_inode = record {
  fields = file_fields;
  device_identifier = 0;
  data_fork = inline_fork (list_array Extent) (content ++ replicate 151 0);
  attributes_fork = no_fork (list_array Extent);
}

inode_read_run : Inode.read_file_io_handle (list_array Extent) volume file 256 512 ≡ ok file_inode
unfolding Inode.read_file_io_handle Inode.is_inode_size read_buffer_at_offset Inode.read_data
    Inode.read_timestamp Inode.timestamp_of Inode.read_number_of_links Inode.read_creation_time
    Inode.set_forks Inode.read_data_fork Inode.read_attributes_fork libfsxfs.Bytes.slice
    libfsxfs.Bytes.read_uint8 libfsxfs.Bytes.read_uint16 libfsxfs.Bytes.read_uint32
    libfsxfs.Bytes.read_uint64
inode_read_run = refl

read_file_io_handle-IsInode_example :
    Ensures
      (IsInode (list_array Extent) volume file 256)
      (Inode.read_file_io_handle (list_array Extent) volume file 256 512)
read_file_io_handle-IsInode_example =
    read_file_io_handle-IsInode (list_array Extent) volume file 256 512

file_inode-HasData : HasData (list_array Extent) volume file file_fields file_inode.data_fork
file_inode-HasData =
    ((λ inline. (content ++ replicate 151 0, refl, omega arith)), λ other. absurd (ground arith))

abbrev plain : FdataStream DataHandle
plain = plain_stream DataHandle

data_stream_initialize-IsInline_example :
    Ensures
      (IsInline (list_array Extent) plain 5)
      (data_stream_initialize (list_array Extent) plain volume file_inode 5)
data_stream_initialize-IsInline_example =
    data_stream_initialize-IsInline (list_array Extent) plain volume file file_inode
      file_inode-HasData refl

abbrev content_handle : BufferDataHandle
content_handle = record { current_offset = 0; data_bytes = some content; data_size = 5 }

seek-read_pieces_example :
    (buffer_seek_segment_offset content_handle 0 1 >>= λ moved_handle.
    read_pieces (2 ∷ 1 ∷ 7 ∷ []) moved_handle)
    ≡ ok (b'e' ∷ b'l' ∷ b'l' ∷ b'o' ∷ [], record content_handle { current_offset = 5 })
seek-read_pieces_example =
    seek-read_pieces content_handle content 1 (2 ∷ 1 ∷ 7 ∷ []) (refl, omega arith, omega arith)
      (omega arith) (omega arith, (omega arith, (omega arith, tt)))

-- Groups of 200 blocks.
abbrev short_groups : IoHandle
short_groups = record volume { allocation_group_size = 200 }

-- Two blocks at block 9 of group 1, and a sparse one at block 4 of group 0.
abbrev two_extents : List Extent
two_extents =
    record {
      logical_block_number = 0;
      physical_block_number = 265;
      number_of_blocks = 2;
      range_flags = 0;
    }
    ∷ record {
      logical_block_number = 2;
      physical_block_number = 4;
      number_of_blocks = 1;
      range_flags = 1;
    }
    ∷ []

abbrev extents_inode : Inode (list_array Extent)
extents_inode = record {
  fields = record file_fields { fork_type = 2; size = 90 };
  device_identifier = 0;
  data_fork = extents_fork (list_array Extent) two_extents;
  attributes_fork = no_fork (list_array Extent);
}

from_extents-locate_example :
    Ensures
      (λ data_stream.
        (FdataStream.mapped_size plain data_stream ≡ some 90)
        × ((offset : ℕ)
            → locate (FdataStream.segments plain data_stream) offset
              ≡ in_segment short_groups offset (extent_with two_extents (offset / 32))))
      (initialize_from_extents (list_array Extent) plain short_groups extents_inode 90)
from_extents-locate_example =
    from_extents-locate (list_array Extent) plain short_groups extents_inode two_extents 90 refl
      (omega arith) (omega arith) (refl, omega arith, (refl, omega arith, tt))
      (omega arith, (omega arith, tt))
      (
        record { group_fits = omega arith; end_fits = omega arith },
        (record { group_fits = omega arith; end_fits = omega arith }, tt),
      )

-- Byte 70 of the file is byte 6 of block 4, byte 40 byte 8 of the second block.
in_segment_run :
    (in_segment short_groups 70 (extent_with two_extents 2)
      ≡ some (record { offset = 128; size = 32; flags = 1 }, 6))
    × (in_segment short_groups 40 (extent_with two_extents 1)
        ≡ some (record { offset = 6688; size = 64; flags = 0 }, 40))
in_segment_run = (refl, refl)
