-- ===== src/InodeBtree.antt =====
-- libfsxfs_inode_btree.c with libfsxfs_inode_btree_record.c: the search for an inode in the B+ tree of
-- its allocation group. The block reads nest at most 258 deep, so that fuel is enough.
pub mod Tree
pub mod Search
pub mod Lookup
pub mod Number
pub mod Safety
use libfsxfs.Prelude.{
  ℕ, zero, suc, ◌+◌, ◌-◌, ◌*◌, ◌/◌, ◌%◌, Bool, true, false, List, [], ◌∷◌, ◌==◌, ltb, leb, ◌||◌,
  ◌&&◌, not, if◌then◌else◌, drop, Option, none, some,
}
use libfsxfs.Result.{
  Result, ok, err, exhausted, value_out_of_bounds, unsupported_value, get_failed, append_failed,
  ◌>>=◌, ◌>>◌, fail_if, or_fail,
}
use libfsxfs.Word.{u32_mod, int64_max, add64, sub64, mul64, add32, shr, low_bits, int_bits}
use libfsxfs.Bytes.{read_uint32, read_uint64, same_bytes}
use libfsxfs.Array.{CdataArray}
use libfsxfs.Handle.{IoHandle, FileIoHandle, maximum_recursion_depth}
use libfsxfs.Btree.{BtreeBlock, read_block}
use libfsxfs.InodeInformation
use libfsxfs.InodeInformation.{InodeInformation}

pub record InodeBtreeRecord : Type 0 where
  pub inode_number : ℕ
  pub number_of_unused_inodes : ℕ
  pub chunk_allocation_bitmap : ℕ

unfoldable pub read_record : List ℕ → ℕ → Result InodeBtreeRecord
read_record data_bytes data_size = do
  fail_if (ltb data_size 16 || ltb int64_max data_size) value_out_of_bounds
  inode_number ← read_uint32 data_bytes 0
  number_of_unused_inodes ← read_uint32 data_bytes 4
  chunk_allocation_bitmap ← read_uint64 data_bytes 8
  ok (record {
    inode_number = inode_number;
    number_of_unused_inodes = number_of_unused_inodes;
    chunk_allocation_bitmap = chunk_allocation_bitmap;
  })

-- The inode is one of the 64 of the record; their end is a uint32_t sum.
abbrev pub in_record : ℕ → ℕ → Bool
in_record number start = leb start number && ltb number (add32 start 64)

-- The loop over the records, on the count of records left.
unfoldable pub find_in_records : ℕ → List ℕ → ℕ → ℕ → Result Bool
find_in_records zero records_data records_data_offset inode_number = ok false
find_in_records (suc n) records_data records_data_offset inode_number = do
  r ← read_record (drop records_data_offset records_data) 16
  let rest = find_in_records n records_data (records_data_offset + 16) inode_number
  if in_record inode_number r.inode_number then ok true else rest

unfoldable pub get_inode_from_leaf_node : ℕ → List ℕ → ℕ → ℕ → Result Bool
get_inode_from_leaf_node number_of_records records_data records_data_size inode_number = do
  fail_if (records_data_size == 0 || ltb int64_max records_data_size) value_out_of_bounds
  fail_if (ltb (records_data_size / 16) number_of_records) value_out_of_bounds
  find_in_records number_of_records records_data 0 inode_number

-- The loop over the keys: the index of the first key behind the inode, or the number of keys.
unfoldable pub find_key : ℕ → List ℕ → ℕ → ℕ → ℕ → Result ℕ
find_key zero records_data records_data_offset relative_inode_number record_index = ok record_index
find_key (suc n) records_data records_data_offset relative_inode_number record_index = do
  key ← read_uint32 records_data records_data_offset
  let rest =
      find_key n records_data (records_data_offset + 4) relative_inode_number (record_index + 1)
  if ltb relative_inode_number key then ok record_index else rest

-- `get_node` is the call for the sub node of a relative block number.
unfoldable pub get_inode_from_branch_node : (ℕ → Result Bool) → ℕ → List ℕ → ℕ → ℕ → ℕ → Result Bool
get_inode_from_branch_node get_node number_of_records records_data records_data_size
      relative_inode_number recursion_depth =
    do
      fail_if (records_data_size == 0 || ltb int64_max records_data_size) value_out_of_bounds
      fail_if (ltb maximum_recursion_depth recursion_depth) value_out_of_bounds
      let number_of_key_value_pairs = records_data_size / 8
      fail_if (ltb number_of_key_value_pairs number_of_records) value_out_of_bounds
      record_index ← find_key number_of_records records_data 0 relative_inode_number 0
      if ltb 0 record_index && leb record_index number_of_records
          then (do
            relative_sub_block_number ←
                read_uint32 records_data ((number_of_key_value_pairs + record_index - 1) * 4)
            get_node relative_sub_block_number)
          else ok false

-- "IAB3" and "IABT".
abbrev pub block_signature : IoHandle → List ℕ
block_signature io_handle =
    b'I' ∷ b'A' ∷ b'B' ∷ (if io_handle.format_version == 5 then b'3' else b'T') ∷ []

module _ (io_handle : IoHandle) (file : FileIoHandle) (allocation_group_block_number : ℕ) where
  unfoldable pub get_inode_from_block : (ℕ → Result Bool) → BtreeBlock → ℕ → ℕ → Result Bool
  get_inode_from_block get_node block relative_inode_number recursion_depth = do
    fail_if (not (same_bytes block.header.signature (block_signature io_handle))) unsupported_value
    if block.header.level == 0
        then get_inode_from_leaf_node block.header.number_of_records block.records_data
            block.records_data_size relative_inode_number
        else get_inode_from_branch_node get_node block.header.number_of_records block.records_data
            block.records_data_size relative_inode_number recursion_depth

  -- The offset is in range behind the guards.
  abbrev pub node_offset : ℕ → ℕ
  node_offset relative_block_number =
      mul64 (add64 allocation_group_block_number relative_block_number) io_handle.block_size

  -- The first argument is the fuel.
  unfoldable pub get_inode_from_node : ℕ → ℕ → ℕ → ℕ → Result Bool
  get_inode_from_node zero relative_block_number relative_inode_number recursion_depth = exhausted
  get_inode_from_node (suc fuel) relative_block_number relative_inode_number recursion_depth = do
    fail_if (io_handle.block_size == 0) value_out_of_bounds
    fail_if (ltb (int64_max / io_handle.block_size) allocation_group_block_number)
        value_out_of_bounds
    fail_if
        (ltb (sub64 (int64_max / io_handle.block_size) allocation_group_block_number)
          relative_block_number)
        value_out_of_bounds
    block ← read_block io_handle file 4 (node_offset relative_block_number)
    get_inode_from_block
        (λ sub_block.
          get_inode_from_node fuel sub_block relative_inode_number (recursion_depth + 1))
        block relative_inode_number recursion_depth

-- Enough for a recursion depth of 0.
abbrev pub node_fuel : ℕ
node_fuel = 258

-- `libfsxfs_inode_btree_get_inode_by_number`: the offset of the inode in the volume, or none for a
-- result of 0. An index that is negative as an int is refused by the array.
unfoldable pub get_inode_by_number :
    (lib : CdataArray InodeInformation)
    → CdataArray.Array lib
    → IoHandle
    → FileIoHandle
    → ℕ
    → Result (Option ℕ)
get_inode_by_number lib inode_information_array io_handle file absolute_inode_number = do
  fail_if (io_handle.allocation_group_size == 0) value_out_of_bounds
  fail_if (io_handle.block_size == 0) value_out_of_bounds
  let bits = io_handle.number_of_relative_inode_number_bits
  let allocation_group_index = shr absolute_inode_number bits % u32_mod
  let relative_inode_number = low_bits absolute_inode_number bits
  fail_if (leb 2147483648 allocation_group_index) get_failed
  inode_information ←
      or_fail (lib.get_entry_by_index inode_information_array allocation_group_index) get_failed
  let group_block_number = mul64 allocation_group_index io_handle.allocation_group_size
  found ←
      get_inode_from_node io_handle file group_block_number node_fuel
        inode_information.inode_btree_root_block_number relative_inode_number 0
  if found
      then ok (
          some (
            add64 (mul64 group_block_number io_handle.block_size)
              (mul64 relative_inode_number io_handle.inode_size)))
      else ok none

-- The information of one group is read and appended.
unfoldable pub read_inode_information :
    (lib : CdataArray InodeInformation)
    → CdataArray.Array lib
    → IoHandle
    → FileIoHandle
    → ℕ
    → Result (CdataArray.Array lib)
read_inode_information lib inode_information_array io_handle file file_offset = do
  inode_information ← InodeInformation.read_file_io_handle io_handle file file_offset
  or_fail (lib.append_entry inode_information_array inode_information) append_failed
