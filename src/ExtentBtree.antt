-- ===== src/ExtentBtree.antt =====
-- libfsxfs_extent_btree.c: the extents of a file whose list does not fit its inode.
-- The block reads nest at most 257 deep, so that fuel is enough.
pub mod Nodes
pub mod Unique
pub mod Root
pub mod Leaves
use libfsxfs.Prelude.{
  ℕ, zero, suc, ◌+◌, ◌-◌, ◌*◌, ◌/◌, Bool, List, [], ◌∷◌, ◌==◌, ltb, leb, ◌||◌, not, if◌then◌else◌,
  drop,
}
use libfsxfs.Result.{
  Result, ok, err, exhausted, value_out_of_bounds, unsupported_value, ◌>>=◌, ◌>>◌, fail_if,
}
use libfsxfs.Word.{int64_max, sub64}
use libfsxfs.Bytes.{read_uint16, read_uint64, same_bytes}
use libfsxfs.Array.{CdataArray}
use libfsxfs.Handle.{IoHandle, FileIoHandle, maximum_recursion_depth, block_offset}
use libfsxfs.Btree.{BtreeBlock, read_block}
use libfsxfs.Extent.{Extent}
use libfsxfs.Extents

-- "BMA3" and "BMAP".
abbrev pub block_signature : IoHandle → List ℕ
block_signature io_handle =
    b'B' ∷ b'M' ∷ b'A' ∷ (if io_handle.format_version == 5 then b'3' else b'P') ∷ []

-- The fuel is enough for a recursion depth of 0.
abbrev pub node_fuel : ℕ
node_fuel = 257

-- `libfsxfs_extent_btree_initialize` clears `maximum_depth`, and nothing else sets it.
abbrev pub initial_maximum_depth : ℕ
initial_maximum_depth = 0

-- What the calls below share.
module _ (lib : CdataArray Extent) (io_handle : IoHandle) (file : FileIoHandle) where
  open lib use {Array}

  -- The second loop of the branch node; the first one reads keys for debug output only.
  -- `get_node` is the call for a sub node.
  unfoldable pub get_sub_nodes : (ℕ → Array → Result Array) → ℕ → List ℕ → ℕ → Array → Result Array
  get_sub_nodes get_node zero records_data records_data_offset extents = ok extents
  get_sub_nodes get_node (suc n) records_data records_data_offset extents = do
    sub_block_number ← read_uint64 records_data records_data_offset
    extended ← get_node sub_block_number extents
    get_sub_nodes get_node n records_data (records_data_offset + 8) extended

  -- `get_node` is the call for a sub node at `recursion_depth + 1`.
  unfoldable pub get_extents_from_branch_node :
      (ℕ → Array → Result Array) → ℕ → List ℕ → ℕ → ℕ → Array → Result Array
  get_extents_from_branch_node get_node number_of_records records_data records_data_size
        recursion_depth extents =
      do
        fail_if (records_data_size == 0 || ltb int64_max records_data_size) value_out_of_bounds
        fail_if (ltb maximum_recursion_depth recursion_depth) value_out_of_bounds
        let number_of_key_value_pairs = records_data_size / 16
        fail_if (ltb number_of_key_value_pairs number_of_records) value_out_of_bounds
        get_sub_nodes get_node number_of_records records_data (number_of_key_value_pairs * 8)
            extents

  -- A node that was read, of the level 0 or above it.
  unfoldable pub get_extents_from_block :
      (ℕ → Array → Result Array) → ℕ → Bool → BtreeBlock → ℕ → Array → Result Array
  get_extents_from_block get_node maximum_depth add_sparse_extents block recursion_depth extents =
      do
        fail_if (not (same_bytes block.header.signature (block_signature io_handle)))
            unsupported_value
        fail_if (ltb maximum_depth block.header.level) unsupported_value
        if block.header.level == 0
            then Extents.read_data lib extents block.header.number_of_records block.records_data
                block.records_data_size add_sparse_extents
            else get_extents_from_branch_node get_node block.header.number_of_records
                block.records_data block.records_data_size recursion_depth extents

  -- The first argument is the fuel, the second `extent_btree->maximum_depth`.
  unfoldable pub get_extents_from_node : ℕ → ℕ → Bool → ℕ → ℕ → Array → Result Array
  get_extents_from_node zero maximum_depth add_sparse_extents recursion_depth block_number extents =
      exhausted
  get_extents_from_node (suc fuel) maximum_depth add_sparse_extents recursion_depth block_number
        extents =
      do
        fail_if (io_handle.allocation_group_size == 0) value_out_of_bounds
        fail_if (io_handle.block_size == 0) value_out_of_bounds
        block ← read_block io_handle file 8 (block_offset io_handle block_number)
        get_extents_from_block
            (get_extents_from_node fuel maximum_depth add_sparse_extents (recursion_depth + 1))
            maximum_depth add_sparse_extents block recursion_depth extents

  unfoldable pub get_extents_from_root_node : ℕ → ℕ → List ℕ → ℕ → Bool → Array → Result Array
  get_extents_from_root_node maximum_depth number_of_blocks data_bytes data_size add_sparse_extents
        extents =
      do
        fail_if (ltb data_size 4 || ltb int64_max data_size) value_out_of_bounds
        level ← read_uint16 data_bytes 0
        number_of_records ← read_uint16 data_bytes 2
        fail_if (level == 0) unsupported_value
        filled ←
            get_extents_from_branch_node
              (get_extents_from_node node_fuel maximum_depth add_sparse_extents 1) number_of_records
              (drop 4 data_bytes) (sub64 data_size 4) 0 extents
        Extents.append_tail lib filled number_of_blocks add_sparse_extents
