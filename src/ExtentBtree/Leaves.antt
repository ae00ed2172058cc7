-- ===== src/ExtentBtree/Leaves.antt =====
-- What libfsxfs_extent_btree.c reads of a tree with the `maximum_depth` of 0 that
-- `libfsxfs_extent_btree_initialize` sets.
use libfsxfs.Prelude.{
  ℕ, zero, suc, ◌+◌, ◌-◌, ◌*◌, ◌/◌, ◌≤◌, ◌≡◌, arith, Bool, true, List, ltb, ◌||◌, ◌==◌, not, length,
  take, drop, length-drop, All,
}
use libfsxfs.Result.{
  Result, ok, Ensures, Ensures-bind, Ensures-bind_eq, Ensures-fail_if, Ensures-mono,
  value_out_of_bounds, unsupported_value,
}
use libfsxfs.Word.{int64_max, sub64_le}
use libfsxfs.Bytes.{be_value, same_bytes}
use libfsxfs.Bytes.Laws.{read_uint16_inside, read_uint64_inside}
use libfsxfs.Array.{CdataArray}
use libfsxfs.Handle.{IoHandle, FileIoHandle, maximum_recursion_depth, block_offset}
use libfsxfs.Btree.{BtreeBlock, read_block}
use libfsxfs.Btree.Records.{HasRecords, read_block-HasRecords}
use libfsxfs.Extent.{Extent}
use libfsxfs.Extents
use libfsxfs.Extents.Fill.{read_data-Extends}
use libfsxfs.Extents.Safety.{append_tail-IsTotal}
use libfsxfs.ExtentBtree.{
  block_signature, get_sub_nodes, get_extents_from_branch_node, get_extents_from_block,
  get_extents_from_node, get_extents_from_root_node, node_fuel, initial_maximum_depth,
}
use libfsxfs.ExtentBtree.Nodes.{blocks_at, sub_blocks}
use libfsxfs.ExtentBtree.Root.{root_sub_blocks}

module _ (lib : CdataArray Extent) (io : IoHandle) (file : FileIoHandle) where
  open lib use {Array}

  -- Block `k` can be read and is a leaf block.
  abbrev pub IsLeaf : ℕ → Type 0
  IsLeaf k =
      (b : BtreeBlock) × (read_block io file 8 (block_offset io k) ≡ ok b) × (b.header.level ≡ 0)

  -- `get_node` ends inside its buffers, and succeeds on leaf blocks only.
  abbrev RefusesBranches : (ℕ → Array → Result Array) → Type 0
  RefusesBranches get_node =
      (k : ℕ) (extents : Array) → Ensures (λ _. IsLeaf k) (get_node k extents)

  sub_nodes-leaves :
      (get_node : ℕ → Array → Result Array) (n : ℕ) (records_data : List ℕ) (offset : ℕ)
      (extents : Array)
      → RefusesBranches get_node
      → offset + 8 * n ≤ length records_data
      → Ensures
          (λ _. All IsLeaf (blocks_at n records_data offset))
          (get_sub_nodes lib io file get_node n records_data offset extents)
  unfolding get_sub_nodes
  sub_nodes-leaves get_node zero records_data offset extents refuses h = tt
  sub_nodes-leaves get_node (suc n) records_data offset extents refuses h =
      let k = be_value (take 8 (drop offset records_data)) in
      rw (read_uint64_inside records_data offset (omega arith)) (
        Ensures-bind (λ _. IsLeaf k) _ (get_node k extents) _ (refuses k extents)
          λ mid leaf.
            Ensures-mono (λ _. All IsLeaf (blocks_at n records_data (offset + 8))) _
              (get_sub_nodes lib io file get_node n records_data (offset + 8) mid)
              (sub_nodes-leaves get_node n records_data (offset + 8) mid refuses (omega arith))
              λ _ leaves. (leaf, leaves))

  branch_node-leaves :
      (get_node : ℕ → Array → Result Array) (n : ℕ) (records_data : List ℕ) (size depth : ℕ)
      (extents : Array)
      → size ≤ length records_data
      → RefusesBranches get_node
      → Ensures
          (λ _. All IsLeaf (sub_blocks n records_data size))
          (get_extents_from_branch_node lib io file get_node n records_data size depth extents)
  unfolding get_extents_from_branch_node
  branch_node-leaves get_node n records_data size depth extents h refuses =
      Ensures-fail_if _ (size == 0 || ltb int64_max size) value_out_of_bounds _ λ _.
        Ensures-fail_if _ (ltb maximum_recursion_depth depth) value_out_of_bounds _ λ _.
          Ensures-fail_if _ (ltb (size / 16) n) value_out_of_bounds _ λ room.
            sub_nodes-leaves get_node n records_data (size / 16 * 8) extents refuses (ground arith)

  block-leaves :
      (get_node : ℕ → Array → Result Array) (k : ℕ) (b : BtreeBlock) (depth : ℕ) (add_sparse : Bool)
      (extents : Array)
      → read_block io file 8 (block_offset io k) ≡ ok b
      → HasRecords b
      → Ensures
          (λ _. IsLeaf k)
          (get_extents_from_block lib io file get_node initial_maximum_depth add_sparse b depth
            extents)
  unfolding get_extents_from_block
  block-leaves get_node k b depth add_sparse extents e r =
      let n = b.header.number_of_records in
      Ensures-fail_if _ (not (same_bytes b.header.signature (block_signature io))) unsupported_value
        _
        λ _. Ensures-fail_if _ (ltb initial_maximum_depth b.header.level) unsupported_value _ λ low.
          let at_leaf : (b.header.level == 0) ≡ true = ground arith in
          rw at_leaf (
            Ensures-mono _ (λ _. IsLeaf k)
              (Extents.read_data lib extents n b.records_data b.records_data_size add_sparse)
              (read_data-Extends lib extents n b.records_data b.records_data_size add_sparse
                (omega (arith, r)))
              λ _ _. (b, e, ground arith))

  node-leaves :
      (fuel depth : ℕ) (add_sparse : Bool)
      → RefusesBranches
          (get_extents_from_node lib io file (suc fuel) initial_maximum_depth add_sparse depth)
  unfolding get_extents_from_node
  node-leaves fuel depth add_sparse k extents =
      Ensures-fail_if _ (io.allocation_group_size == 0) value_out_of_bounds _ λ _.
        Ensures-fail_if _ (io.block_size == 0) value_out_of_bounds _ λ _.
          Ensures-bind_eq HasRecords (λ _. IsLeaf k) (read_block io file 8 (block_offset io k)) _
            (read_block-HasRecords io file 8 (block_offset io k))
            λ b e r.
              block-leaves
                (get_extents_from_node lib io file fuel initial_maximum_depth add_sparse
                  (depth + 1))
                k b depth add_sparse extents e r

  -- With the maximum_depth of 0 that libfsxfs_extent_btree_initialize sets, and a size that is at
  -- most that of the data, libfsxfs_extent_btree_get_extents_from_root_node ends inside its
  -- buffers, and if it succeeds every sub block of the root can be read and is a leaf block: no
  -- tree of more than two levels is read.
  pub root_node-leaves :
      (number_of_blocks : ℕ) (data_bytes : List ℕ) (data_size : ℕ) (add_sparse : Bool)
      (extents : Array)
      → data_size ≤ length data_bytes
      → Ensures
          (λ _. All IsLeaf (root_sub_blocks data_bytes data_size))
          (get_extents_from_root_node lib io file initial_maximum_depth number_of_blocks data_bytes
            data_size add_sparse extents)
  unfolding get_extents_from_root_node
  root_node-leaves number_of_blocks data_bytes data_size add_sparse extents h =
      let ks = root_sub_blocks data_bytes data_size in
      Ensures-fail_if _ (ltb data_size 4 || ltb int64_max data_size) value_out_of_bounds _ λ fits.
        let size : 4 ≤ data_size = ground arith in
        let whole : data_size ≤ int64_max = ground arith in
        let n = be_value (take 2 (drop 2 data_bytes)) in
        rw
          (
            read_uint16_inside data_bytes 0 (omega arith),
            read_uint16_inside data_bytes 2 (omega arith),
            sub64_le data_size 4 size whole,
          )
          (Ensures-fail_if _ (be_value (take 2 data_bytes) == 0) unsupported_value _ λ _.
            Ensures-bind (λ _. All IsLeaf ks) _
              (get_extents_from_branch_node lib io file
                (get_extents_from_node lib io file node_fuel initial_maximum_depth add_sparse 1) n
                (drop 4 data_bytes) (data_size - 4) 0 extents)
              _
              (branch_node-leaves
                (get_extents_from_node lib io file node_fuel initial_maximum_depth add_sparse 1) n
                (drop 4 data_bytes) (data_size - 4) 0 extents
                (omega (arith, length-drop 4 data_bytes)) (node-leaves 256 1 add_sparse))
              λ filled leaves.
                Ensures-mono _ (λ _. All IsLeaf ks)
                  (Extents.append_tail lib filled number_of_blocks add_sparse)
                  (append_tail-IsTotal lib filled number_of_blocks add_sparse) λ _ _. leaves)
