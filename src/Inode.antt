-- ===== src/Inode.antt =====
-- libfsxfs_inode.c: an inode of version 1, 2 or 3, its data fork and its attributes fork.
-- A timestamp is an int64_t, and stands as its 64 bits.
pub mod Times
pub mod Forks
pub mod Read
use libfsxfs.Prelude.{
  ℕ, ◌+◌, ◌-◌, ◌*◌, ◌/◌, ◌%◌, ◌≤◌, ◌<◌, Bool, true, false, List, [], ◌∷◌, ◌==◌, ltb, leb, ◌||◌,
  ◌&&◌, not, if◌then◌else◌, Option, none, some, drop,
}
use libfsxfs.Result.{
  Result, ok, value_out_of_bounds, unsupported_value, get_failed, invalid_value, initialize_failed,
  ◌>>=◌, ◌>>◌, fail_if, or_fail,
}
use libfsxfs.Word.{u16_mod, int64_max, add64, sub64, mul64, int_bits, shr, low_bits}
use libfsxfs.Bytes.{slice, read_uint8, read_uint16, read_uint32, read_uint64, same_bytes}
use libfsxfs.Array.{CdataArray}
use libfsxfs.Handle.{IoHandle, FileIoHandle, read_buffer_at_offset}
use libfsxfs.Extent.{Extent}
use libfsxfs.Extents.{read_list}
use libfsxfs.ExtentBtree.{get_extents_from_root_node, initial_maximum_depth}

-- LIBFSXFS_FORK_TYPE_DEVICE, _INLINE_DATA, _EXTENTS and _BTREE
abbrev pub fork_type_device : ℕ
fork_type_device = 0

abbrev pub fork_type_inline_data : ℕ
fork_type_inline_data = 1

abbrev pub fork_type_extents : ℕ
fork_type_extents = 2

abbrev pub fork_type_btree : ℕ
fork_type_btree = 3

-- LIBFSXFS_FILE_TYPE_DIRECTORY, and `file_mode & 0xf000`.
abbrev pub file_type_directory : ℕ
file_type_directory = 0x4000

abbrev pub file_type_of : ℕ → ℕ
file_type_of file_mode = file_mode % u16_mod / 4096 * 4096

-- The fields that `libfsxfs_inode_read_data` reads.
pub record InodeFields : Type 0 where
  pub format_version : ℕ
  pub file_mode : ℕ
  pub owner_identifier : ℕ
  pub group_identifier : ℕ
  pub number_of_links : ℕ
  pub access_time : ℕ
  pub modification_time : ℕ
  pub inode_change_time : ℕ
  pub creation_time : ℕ
  pub size : ℕ
  pub fork_type : ℕ
  pub number_of_data_extents : ℕ
  pub data_fork_offset : ℕ
  pub data_fork_size : ℕ
  pub attributes_fork_type : ℕ
  pub number_of_attributes_extents : ℕ
  pub attributes_fork_offset : ℕ
  pub attributes_fork_size : ℕ

-- `time > 0` where the time is signed, and for `access_time`, which is declared as unsigned.
abbrev pub is_positive : ℕ → Bool
is_positive time = ltb 0 time && leb time int64_max

abbrev pub is_nonzero : ℕ → Bool
is_nonzero time = ltb 0 time

-- The seconds are signed; the nanoseconds are added to a time `> 0`, and else subtracted.
unfoldable pub timestamp_of : (ℕ → Bool) → ℕ → ℕ → ℕ
timestamp_of is_above seconds nano_seconds =
    let time = mul64 (int_bits seconds) 1000000000 in
    if is_above time then add64 time nano_seconds else sub64 time nano_seconds

unfoldable pub read_timestamp : (ℕ → Bool) → List ℕ → ℕ → Result ℕ
read_timestamp is_above data_bytes offset = do
  seconds ← read_uint32 data_bytes offset
  nano_seconds ← read_uint32 data_bytes (offset + 4)
  ok (timestamp_of is_above seconds nano_seconds)

-- `sizeof( fsxfs_inode_v1_t )` and `sizeof( fsxfs_inode_v3_t )`
abbrev pub inode_data_size : ℕ → ℕ
inode_data_size format_version = if format_version == 3 then 176 else 100

-- The number of links stands elsewhere in version 1.
unfoldable pub read_number_of_links : ℕ → List ℕ → Result ℕ
read_number_of_links format_version data_bytes =
    if format_version == 1 then read_uint16 data_bytes 6 else read_uint32 data_bytes 16

unfoldable pub read_creation_time : ℕ → List ℕ → Result ℕ
read_creation_time format_version data_bytes =
    if format_version == 3 then read_timestamp is_positive data_bytes 144 else ok 0

-- The two forks behind the inode. The sizes and offsets are uint16_t.
unfoldable pub set_forks : ℕ → ℕ → InodeFields → Result InodeFields
set_forks header_size data_size inode =
    let data_fork_size = sub64 data_size header_size in
    let offset = inode.attributes_fork_offset in
    if ltb 0 offset
    then (do
      fail_if (leb data_fork_size offset) value_out_of_bounds
      let attributes_fork_offset = (offset + header_size) % u16_mod
      ok (record inode {
        data_fork_offset = header_size % u16_mod;
        data_fork_size = offset % u16_mod;
        attributes_fork_offset = attributes_fork_offset;
        attributes_fork_size = sub64 data_size attributes_fork_offset % u16_mod;
      }))
    else ok (record inode {
      data_fork_offset = header_size % u16_mod;
      data_fork_size = data_fork_size % u16_mod;
    })

unfoldable pub read_data : List ℕ → ℕ → Result InodeFields
read_data data_bytes data_size = do
  fail_if (ltb data_size 100 || ltb int64_max data_size) value_out_of_bounds
  format_version ← read_uint8 data_bytes 4
  fail_if (format_version == 3 && ltb data_size 176) value_out_of_bounds
  signature ← slice data_bytes 0 2
  fail_if (not (same_bytes signature (b'I' ∷ b'N' ∷ []))) unsupported_value
  file_mode ← read_uint16 data_bytes 2
  fork_type ← read_uint8 data_bytes 5
  number_of_links ← read_number_of_links format_version data_bytes
  owner_identifier ← read_uint32 data_bytes 8
  group_identifier ← read_uint32 data_bytes 12
  access_time ← read_timestamp is_nonzero data_bytes 32
  modification_time ← read_timestamp is_positive data_bytes 40
  inode_change_time ← read_timestamp is_positive data_bytes 48
  size ← read_uint64 data_bytes 56
  number_of_data_extents ← read_uint32 data_bytes 76
  number_of_attributes_extents ← read_uint16 data_bytes 80
  attributes_fork_offset ← read_uint8 data_bytes 82
  attributes_fork_type ← read_uint8 data_bytes 83
  fail_if (not (format_version == 1) && (not (format_version == 2) && not (format_version == 3)))
      unsupported_value
  creation_time ← read_creation_time format_version data_bytes
  inode ← set_forks (inode_data_size format_version) data_size (record {
    format_version = format_version;
    file_mode = file_mode;
    owner_identifier = owner_identifier;
    group_identifier = group_identifier;
    number_of_links = number_of_links;
    access_time = access_time;
    modification_time = modification_time;
    inode_change_time = inode_change_time;
    creation_time = creation_time;
    size = size;
    fork_type = fork_type;
    number_of_data_extents = number_of_data_extents;
    data_fork_offset = 0;
    data_fork_size = 0;
    attributes_fork_type = attributes_fork_type;
    number_of_attributes_extents = number_of_attributes_extents;
    attributes_fork_offset = attributes_fork_offset * 8;
    attributes_fork_size = 0;
  })
  fail_if (inode.fork_type == fork_type_inline_data && ltb inode.data_fork_size inode.size)
      value_out_of_bounds
  ok inode

-- `libfsxfs_inode_initialize` refuses other sizes.
unfoldable pub is_inode_size : ℕ → Bool
is_inode_size n = n == 256 || n == 512 || n == 1024 || n == 2048

-- The blocks of `size` bytes.
abbrev pub number_of_blocks_of : ℕ → ℕ → ℕ
number_of_blocks_of size block_size = size / block_size + (if size % block_size == 0 then 0 else 1)

-- What stands in a fork: a NULL pointer or array is none.
pub record Fork (Array : Type 0) : Type 0 where
  pub inline_data : Option (List ℕ)
  pub extents_array : Option Array

module _ (lib : CdataArray Extent) where
  open lib use {Array, initialize, get_number_of_entries, get_entry_by_index}

  pub record Inode : Type 0 where
    pub fields : InodeFields
    pub device_identifier : ℕ
    pub data_fork : Fork Array
    pub attributes_fork : Fork Array

  abbrev pub no_fork : Fork Array
  no_fork = record { inline_data = none; extents_array = none }

  abbrev pub inline_fork : List ℕ → Fork Array
  inline_fork bytes = record { inline_data = some bytes; extents_array = none }

  abbrev pub extents_fork : Array → Fork Array
  extents_fork extents = record { inline_data = none; extents_array = some extents }

  unfoldable pub read_extents_fork : List ℕ → ℕ → ℕ → ℕ → Bool → Result (Fork Array)
  read_extents_fork fork_bytes fork_size number_of_blocks number_of_extents add_sparse_extents = do
    empty ← or_fail initialize initialize_failed
    extents ←
        read_list lib empty number_of_blocks number_of_extents fork_bytes fork_size
          add_sparse_extents
    ok (extents_fork extents)

  unfoldable pub read_btree_fork :
      IoHandle → FileIoHandle → List ℕ → ℕ → ℕ → Bool → Result (Fork Array)
  read_btree_fork io_handle file fork_bytes fork_size number_of_blocks add_sparse_extents = do
    empty ← or_fail initialize initialize_failed
    extents ←
        get_extents_from_root_node lib io_handle file initial_maximum_depth number_of_blocks
          fork_bytes fork_size add_sparse_extents empty
    ok (extents_fork extents)

  unfoldable pub read_data_fork :
      IoHandle → FileIoHandle → InodeFields → List ℕ → Result (ℕ × Fork Array)
  read_data_fork io_handle file inode data_bytes =
      let fork_bytes = drop inode.data_fork_offset data_bytes in
      let number_of_blocks = number_of_blocks_of inode.size io_handle.block_size in
      let add_sparse_extents = not (file_type_of inode.file_mode == file_type_directory) in
      if inode.fork_type == fork_type_device
      then (do device_identifier ← read_uint32 fork_bytes 0; ok (device_identifier, no_fork))
      else if inode.fork_type == fork_type_inline_data
      then ok (0, inline_fork fork_bytes)
      else if inode.fork_type == fork_type_extents
      then (do
        fork ←
            read_extents_fork fork_bytes inode.data_fork_size number_of_blocks
              inode.number_of_data_extents add_sparse_extents
        ok (0, fork))
      else if inode.fork_type == fork_type_btree
      then (do
        fork ←
            read_btree_fork io_handle file fork_bytes inode.data_fork_size number_of_blocks
              add_sparse_extents
        ok (0, fork))
      else ok (0, no_fork)

  unfoldable pub read_attributes_fork :
      IoHandle → FileIoHandle → InodeFields → List ℕ → Result (Fork Array)
  read_attributes_fork io_handle file inode data_bytes =
      let fork_bytes = drop inode.attributes_fork_offset data_bytes in
      let fork_size = inode.attributes_fork_size in
      let number_of_blocks = number_of_blocks_of fork_size io_handle.block_size in
      if fork_size == 0
      then ok no_fork
      else if inode.attributes_fork_type == fork_type_inline_data
      then ok (inline_fork fork_bytes)
      else if inode.attributes_fork_type == fork_type_extents
          && ltb 0 inode.number_of_attributes_extents
      then read_extents_fork fork_bytes fork_size number_of_blocks
          inode.number_of_attributes_extents false
      else if inode.attributes_fork_type == fork_type_btree
      then read_btree_fork io_handle file fork_bytes fork_size number_of_blocks false
      else ok no_fork

  -- `libfsxfs_inode_initialize` with the inode size, and `libfsxfs_inode_read_file_io_handle`.
  unfoldable pub read_file_io_handle : IoHandle → FileIoHandle → ℕ → ℕ → Result Inode
  read_file_io_handle io_handle file inode_size file_offset = do
    fail_if (not (is_inode_size inode_size)) value_out_of_bounds
    fail_if (io_handle.block_size == 0) value_out_of_bounds
    buffer ← read_buffer_at_offset file inode_size file_offset
    inode ← read_data buffer inode_size
    (device_identifier, data_fork) ← read_data_fork io_handle file inode buffer
    attributes_fork ← read_attributes_fork io_handle file inode buffer
    ok (record {
      fields = inode;
      device_identifier = device_identifier;
      data_fork = data_fork;
      attributes_fork = attributes_fork;
    })

  -- The extents of a fork. libcdata refuses an array that is NULL.
  unfoldable pub get_number_of_extents : Fork Array → Result ℕ
  get_number_of_extents fork = do
    extents ← or_fail fork.extents_array get_failed
    ok (get_number_of_entries extents)

  unfoldable pub get_extent_by_index : Fork Array → ℕ → Result Extent
  get_extent_by_index fork extent_index = do
    extents ← or_fail fork.extents_array get_failed
    or_fail (get_entry_by_index extents extent_index) get_failed

  -- Only a version 3 inode has a creation time; none stands for a result of 0.
  unfoldable pub get_creation_time : Inode → Option ℕ
  get_creation_time inode =
      if inode.fields.format_version == 3 then some inode.fields.creation_time else none

  unfoldable pub get_device_identifier : Inode → Option ℕ
  get_device_identifier inode =
      if inode.fields.fork_type == fork_type_device then some inode.device_identifier else none

  -- The major and the minor device number.
  unfoldable pub get_device_number : Inode → Option (ℕ × ℕ)
  get_device_number inode =
      if inode.fields.fork_type == fork_type_device
      then some (shr inode.device_identifier 18, low_bits inode.device_identifier 18)
      else none
