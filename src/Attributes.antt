-- ===== src/Attributes.antt =====
-- libfsxfs_attributes.c, libfsxfs_attributes_leaf_block_header.c, and libfsxfs_file_system_block.c
-- with its header: the extended attributes of an inode, in the inode or in blocks of their own.
-- Where the source empties the array on an error, the error carries no array here: the callers free
-- it then.
pub mod Safety
pub mod Blocks
pub mod Values
use libfsxfs.Prelude.{
  ℕ, zero, suc, ◌+◌, ◌-◌, ◌*◌, ◌%◌, Bool, true, false, List, [], ◌==◌, ltb, leb, ◌||◌, ◌&&◌, not,
  bit_and, if◌then◌else◌, Option, none, some, drop,
}
use libfsxfs.Result.{
  Result, ok, err, exhausted, value_out_of_bounds, unsupported_value, invalid_value, get_failed,
  append_failed, initialize_failed, ◌>>=◌, ◌>>◌, fail_if, or_fail,
}
use libfsxfs.Word.{u16_mod, u32_mod, int64_max, add64, sub64, mul64}
use libfsxfs.Bytes.{read_uint8, read_uint16, read_uint32}
use libfsxfs.Array.{CdataArray}
use libfsxfs.Stream.{FdataStream, Segment}
use libfsxfs.Handle.{
  IoHandle, FileIoHandle, maximum_recursion_depth, block_offset, read_buffer_at_offset,
}
use libfsxfs.Btree.{maximum_allocation_size}
use libfsxfs.Extent.{Extent}
use libfsxfs.Extents.{end_block}
use libfsxfs.Inode.{
  Inode, Fork, get_number_of_extents, get_extent_by_index, fork_type_inline_data, fork_type_extents,
  fork_type_btree,
}
use libfsxfs.AttributesTable
use libfsxfs.AttributesTable.{AttributeValues, read_name, read_value}
use libfsxfs.DataStream.{DataHandle, blocks, segment_of, initialize_from_data}

-- `sizeof( fsxfs_file_system_block_header_v2_t )` and its v3.
abbrev pub block_header_size : IoHandle → ℕ
block_header_size io_handle = if io_handle.format_version == 5 then 56 else 12

-- libfsxfs_file_system_block_t: the data, and the signature of its header.
pub record FileSystemBlock : Type 0 where
  pub signature : ℕ
  pub block_data : List ℕ
  pub block_data_size : ℕ

unfoldable pub read_file_system_block_data : IoHandle → List ℕ → ℕ → Result FileSystemBlock
read_file_system_block_data io_handle data_bytes data_size = do
  fail_if (ltb data_size (block_header_size io_handle) || ltb int64_max data_size)
      value_out_of_bounds
  signature ← read_uint16 data_bytes 8
  ok (record { signature = signature; block_data = data_bytes; block_data_size = data_size })

unfoldable pub read_file_system_block : IoHandle → FileIoHandle → ℕ → Result FileSystemBlock
read_file_system_block io_handle file file_offset = do
  fail_if (io_handle.block_size == 0 || ltb maximum_allocation_size io_handle.block_size)
      value_out_of_bounds
  buffer ← read_buffer_at_offset file io_handle.block_size file_offset
  read_file_system_block_data io_handle buffer io_handle.block_size

abbrev pub leaf_header_size : IoHandle → ℕ
leaf_header_size io_handle = if io_handle.format_version == 5 then 24 else 20

abbrev pub branch_header_size : IoHandle → ℕ
branch_header_size io_handle = if io_handle.format_version == 5 then 8 else 4

-- `libfsxfs_attributes_leaf_block_header_read_data`: the number of entries.
unfoldable pub read_leaf_block_header : IoHandle → List ℕ → ℕ → Result ℕ
read_leaf_block_header io_handle data_bytes data_size = do
  fail_if (ltb data_size (leaf_header_size io_handle) || ltb int64_max data_size)
      value_out_of_bounds
  read_uint16 data_bytes 0

-- `( flags & 0x01 ) != 0`
abbrev pub is_local : ℕ → Bool
is_local flags = not (bit_and flags 1 == 0)

abbrev pub values_data_size : ℕ → ℕ
values_data_size flags = if is_local flags then 3 else 9

-- The value's block number, which is 0 for a value in the block, and its size.
unfoldable pub read_value_place : ℕ → List ℕ → ℕ → Result (ℕ × ℕ)
read_value_place flags data_bytes values_offset =
    if is_local flags then (do size ← read_uint16 data_bytes values_offset; ok (0, size)) else (do
      block_number ← read_uint32 data_bytes values_offset
      size ← read_uint32 data_bytes (values_offset + 4)
      ok (block_number, size))

-- The value of an attribute that is local. `values_offset` is a uint16_t.
unfoldable pub read_local_value : ℕ → List ℕ → ℕ → ℕ → ℕ → Result (Option (List ℕ))
read_local_value flags data_bytes data_size values_offset size =
    if is_local flags
    then (do
      fail_if (ltb (sub64 data_size values_offset) size) value_out_of_bounds
      read_value data_bytes values_offset size)
    else ok none

-- One attribute, from its entry in the table of the leaf block.
unfoldable pub read_leaf_entry : List ℕ → ℕ → ℕ → ℕ → Result AttributeValues
read_leaf_entry data_bytes data_size entries_end data_offset = do
  values_offset ← read_uint16 data_bytes (data_offset + 4)
  flags ← read_uint8 data_bytes (data_offset + 6)
  fail_if (ltb values_offset entries_end || leb data_size values_offset) value_out_of_bounds
  fail_if (ltb (sub64 data_size values_offset) (values_data_size flags)) value_out_of_bounds
  name_size ← read_uint8 data_bytes (values_offset + (values_data_size flags - 1))
  fail_if (ltb (sub64 (sub64 data_size values_offset) (values_data_size flags)) name_size)
      value_out_of_bounds
  (block_number, value_data_size) ← read_value_place flags data_bytes values_offset
  let name_offset = (values_offset + values_data_size flags) % u16_mod
  name ← read_name data_bytes name_offset name_size flags
  value_data ←
      read_local_value flags data_bytes data_size ((name_offset + name_size) % u16_mod)
        value_data_size
  ok (record {
    name = name;
    value_data_size = value_data_size;
    value_data = value_data;
    value_data_block_number = block_number;
  })

module _ (lib : CdataArray AttributeValues) (io_handle : IoHandle) where
  open lib use {Array, append_entry}

  -- The loop, on the count of entries left.
  unfoldable pub read_leaf_entries : ℕ → List ℕ → ℕ → ℕ → ℕ → Array → Result Array
  read_leaf_entries zero data_bytes data_size entries_end data_offset attributes = ok attributes
  read_leaf_entries (suc n) data_bytes data_size entries_end data_offset attributes = do
    values ← read_leaf_entry data_bytes data_size entries_end data_offset
    appended ← or_fail (append_entry attributes values) append_failed
    read_leaf_entries n data_bytes data_size entries_end (data_offset + 8) appended

  unfoldable pub read_leaf_values : List ℕ → ℕ → Array → Result Array
  read_leaf_values data_bytes data_size attributes = do
    fail_if (leb data_size (block_header_size io_handle)) value_out_of_bounds
    number_of_entries ←
        read_leaf_block_header io_handle (drop (block_header_size io_handle) data_bytes)
          (data_size - block_header_size io_handle)
    let data_offset = block_header_size io_handle + leaf_header_size io_handle
    fail_if (ltb (sub64 data_size data_offset) (8 * number_of_entries)) value_out_of_bounds
    read_leaf_entries number_of_entries data_bytes data_size (data_offset + 8 * number_of_entries)
        data_offset attributes

  -- `get_block` is the call for a sub block at `recursion_depth + 1`.
  unfoldable pub get_sub_blocks : (ℕ → Array → Result Array) → ℕ → List ℕ → ℕ → Array → Result Array
  get_sub_blocks get_block zero data_bytes data_offset attributes = ok attributes
  get_sub_blocks get_block (suc n) data_bytes data_offset attributes = do
    sub_block_number ← read_uint32 data_bytes (data_offset + 4)
    extended ← get_block sub_block_number attributes
    get_sub_blocks get_block n data_bytes (data_offset + 8) extended

  unfoldable pub read_branch_values : (ℕ → Array → Result Array) → List ℕ → ℕ → Array → Result Array
  read_branch_values get_block data_bytes data_size attributes = do
    let data_offset = block_header_size io_handle
    fail_if
        (leb data_size data_offset
          || ltb (sub64 data_size data_offset) (branch_header_size io_handle))
        value_out_of_bounds
    number_of_entries ← read_uint16 data_bytes data_offset
    let entries_offset = data_offset + branch_header_size io_handle
    fail_if (ltb (sub64 data_size entries_offset) (8 * number_of_entries)) value_out_of_bounds
    get_sub_blocks get_block number_of_entries data_bytes entries_offset attributes

-- The lookup of the extent with a block, on the count of extents left; none where the loop ends.
unfoldable pub find_extent :
    (extents_lib : CdataArray Extent)
    → Fork (CdataArray.Array extents_lib)
    → ℕ
    → ℕ
    → ℕ
    → Result (Option (ℕ × Extent))
find_extent extents_lib fork block_number zero extent_index = ok none
find_extent extents_lib fork block_number (suc n) extent_index = do
  extent ← get_extent_by_index extents_lib fork extent_index
  if leb extent.logical_block_number block_number && ltb block_number (end_block extent)
      then ok (some (extent_index, extent))
      else find_extent extents_lib fork block_number n (extent_index + 1)

unfoldable pub find_attributes_extent :
    (extents_lib : CdataArray Extent)
    → Fork (CdataArray.Array extents_lib)
    → ℕ
    → Result (ℕ × Extent)
find_attributes_extent extents_lib fork block_number = do
  number_of_extents ← get_number_of_extents extents_lib fork
  found ← find_extent extents_lib fork block_number number_of_extents 0
  or_fail found value_out_of_bounds

-- The offset of a block of an extent.
unfoldable pub block_in_extent : IoHandle → Extent → ℕ → ℕ
block_in_extent io_handle extent block_number =
    add64 (block_offset io_handle extent.physical_block_number)
      (mul64 (sub64 block_number extent.logical_block_number) io_handle.block_size)

module _ (lib : CdataArray AttributeValues) (extents_lib : CdataArray Extent) (io_handle : IoHandle)
    (file : FileIoHandle) where
  open lib use {Array}

  -- What is done with a block that was read, by its signature.
  unfoldable pub read_block_values :
      (ℕ → Array → Result Array) → FileSystemBlock → Array → Result Array
  read_block_values get_block block attributes =
      if block.signature == 0x3bee || block.signature == 0xfbee
      then read_leaf_values lib io_handle block.block_data block.block_data_size attributes
      else if block.signature == 0x3ebe || block.signature == 0xfebe
      then read_branch_values lib io_handle get_block block.block_data block.block_data_size
          attributes
      else err unsupported_value

  -- The first argument is the fuel.
  unfoldable pub get_from_block : ℕ → Inode extents_lib → ℕ → ℕ → Array → Result Array
  get_from_block zero inode block_number recursion_depth attributes = exhausted
  get_from_block (suc fuel) inode block_number recursion_depth attributes = do
    fail_if (ltb maximum_recursion_depth recursion_depth) value_out_of_bounds
    (extent_index, extent) ← find_attributes_extent extents_lib inode.attributes_fork block_number
    block ← read_file_system_block io_handle file (block_in_extent io_handle extent block_number)
    read_block_values
        (λ sub_block_number extended.
          get_from_block fuel inode sub_block_number (recursion_depth + 1) extended)
        block attributes

  -- The fuel is enough for a recursion depth of 0.
  abbrev pub block_fuel : ℕ
  block_fuel = 258

  unfoldable pub get_from_extents :
      Inode extents_lib → Option (CdataArray.Array extents_lib) → Array → Result Array
  get_from_extents inode none attributes = ok attributes
  get_from_extents inode (some extents) attributes = get_from_block block_fuel inode 0 0 attributes

  unfoldable pub get_from_inode : Inode extents_lib → Array → Result Array
  get_from_inode inode attributes =
      let fork_type = inode.fields.attributes_fork_type in
      do
        fail_if
            (not (fork_type == fork_type_inline_data)
              && (not (fork_type == fork_type_extents) && not (fork_type == fork_type_btree)))
            unsupported_value
        if fork_type == fork_type_inline_data
            then (do
              data_bytes ← or_fail inode.attributes_fork.inline_data invalid_value
              AttributesTable.read_data lib data_bytes inode.fields.attributes_fork_size attributes)
            else get_from_extents inode inode.attributes_fork.extents_array attributes

module _ (extents_lib : CdataArray Extent) (libfdata : FdataStream DataHandle)
    (io_handle : IoHandle) where
  open libfdata use {Stream, initialize, append_segment}

  -- The segment of an extent, cut to the size that is left.
  abbrev pub value_segment : Extent → ℕ → Segment
  value_segment extent remaining =
      let whole = segment_of io_handle extent in
      if ltb remaining whole.size then record whole { size = remaining } else whole

  -- The loop, on fuel. The extent that is read again is the one at `extent_index`.
  unfoldable pub append_value : ℕ → Inode extents_lib → ℕ → Extent → ℕ → Stream → Result Stream
  append_value zero inode extent_index extent remaining data_stream =
      if remaining == 0 then ok data_stream else exhausted
  append_value (suc fuel) inode extent_index extent remaining data_stream =
      if remaining == 0 then ok data_stream else (do
        let segment = value_segment extent remaining
        appended ← or_fail (append_segment data_stream segment) append_failed
        let left = (remaining + u32_mod - segment.size % u32_mod) % u32_mod
        next ←
            (if ltb 0 left
              then get_extent_by_index extents_lib inode.attributes_fork extent_index
              else ok extent)
        append_value fuel inode extent_index next left appended)

  -- `libfsxfs_attributes_get_value_data_stream`.
  unfoldable pub get_value_data_stream : Inode extents_lib → AttributeValues → Result Stream
  get_value_data_stream inode values =
      if values.value_data_block_number == 0
      then initialize_from_data extents_lib libfdata values.value_data values.value_data_size
      else (do
        (extent_index, extent) ←
            find_attributes_extent extents_lib inode.attributes_fork values.value_data_block_number
        fail_if (io_handle.format_version == 5) unsupported_value
        data_stream ← or_fail (initialize blocks) initialize_failed
        append_value values.value_data_size inode extent_index extent values.value_data_size
            data_stream)
