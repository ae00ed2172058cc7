-- ===== src/ExtentBtree/Nodes.antt =====
-- The walk of the extent B+ tree against a description of the tree on disk.
use libfsxfs.Prelude.{
  ℕ, zero, suc, ◌+◌, ◌*◌, ◌/◌, ◌≤◌, ◌≡◌, ◌≢◌, sym, arith, Bool, List, [], ◌∷◌, ◌++◌, ltb, ◌||◌,
  ◌==◌, not, length, take, drop, Bool-cases, inl, inr, append-nil,
}
use libfsxfs.Result.{
  Result, ok, Ensures, Ensures-bind, Ensures-bind_eq, Ensures-fail_if, Ensures-mono,
  value_out_of_bounds, unsupported_value,
}
use libfsxfs.Word.{int64_max}
use libfsxfs.Bytes.{be_value, same_bytes}
use libfsxfs.Bytes.Laws.{read_uint64_inside}
use libfsxfs.Array.{CdataArray}
use libfsxfs.Handle.{IoHandle, FileIoHandle, maximum_recursion_depth, block_offset}
use libfsxfs.Btree.{BtreeBlock, read_block}
use libfsxfs.Btree.Records.{HasRecords, read_block-HasRecords}
use libfsxfs.Extent.{Extent}
use libfsxfs.Extents
use libfsxfs.Extents.Fill.{extents_at, Grows, Grows-trans, read_data-Extends}
use libfsxfs.ExtentBtree.{
  block_signature, get_sub_nodes, get_extents_from_branch_node, get_extents_from_block,
  get_extents_from_node,
}

-- The `n` 64-bit block numbers from an offset on.
abbrev pub blocks_at : ℕ → List ℕ → ℕ → List ℕ
blocks_at zero data_bytes offset = []
blocks_at (suc n) data_bytes offset =
    be_value (take 8 (drop offset data_bytes)) ∷ blocks_at n data_bytes (offset + 8)

-- The sub blocks of a branch node: they follow the keys, for which half of the records data is kept.
abbrev pub sub_blocks : ℕ → List ℕ → ℕ → List ℕ
sub_blocks number_of_records records_data records_data_size =
    blocks_at number_of_records records_data (records_data_size / 16 * 8)

-- The tree on disk: block `k` holds the extents `es`, and the blocks `ks` hold `es` together, in
-- their order.
mutual
  pub data NodeHas (io : IoHandle) (file : FileIoHandle) : ℕ → List Extent → Type 0 where
    leaf :
        (k : ℕ) (b : BtreeBlock)
        → read_block io file 8 (block_offset io k) ≡ ok b
        → b.header.level ≡ 0
        → NodeHas io file k (extents_at b.header.number_of_records b.records_data 0)
    branch :
        (k : ℕ) (b : BtreeBlock) (es : List Extent)
        → read_block io file 8 (block_offset io k) ≡ ok b
        → b.header.level ≢ 0
        → BlocksHave io file
            (sub_blocks b.header.number_of_records b.records_data b.records_data_size)
            es
        → NodeHas io file k es

  pub data BlocksHave (io : IoHandle) (file : FileIoHandle) : List ℕ → List Extent → Type 0 where
    no_blocks : BlocksHave io file [] []
    next_block :
        (k : ℕ) (ks : List ℕ) (xs ys : List Extent)
        → NodeHas io file k xs
        → BlocksHave io file ks ys
        → BlocksHave io file (k ∷ ks) (xs ++ ys)

module _ (lib : CdataArray Extent) (io : IoHandle) (file : FileIoHandle) (add_sparse : Bool) where
  open lib use {Array, entries}

  -- The array grows by the extents of node `k`, or of the blocks `ks`.
  abbrev pub GrowsByNode : ℕ → Array → Array → Type 0
  GrowsByNode k before after =
      (es : List Extent) × NodeHas io file k es
      × Grows add_sparse (entries before) es (entries after)

  abbrev pub GrowsByBlocks : List ℕ → Array → Array → Type 0
  GrowsByBlocks ks before after =
      (es : List Extent) × BlocksHave io file ks es
      × Grows add_sparse (entries before) es (entries after)

  get_sub_nodes-Grows :
      (get_node : ℕ → Array → Result Array)
      → ((k : ℕ) (extents : Array) → Ensures (GrowsByNode k extents) (get_node k extents))
      → (n : ℕ) (records_data : List ℕ) (offset : ℕ) (extents : Array)
      → offset + 8 * n ≤ length records_data
      → Ensures
          (GrowsByBlocks (blocks_at n records_data offset) extents)
          (get_sub_nodes lib io file get_node n records_data offset extents)
  unfolding get_sub_nodes
  get_sub_nodes-Grows get_node node zero records_data offset extents h =
      ([], no_blocks, sym (append-nil (entries extents)))
  get_sub_nodes-Grows get_node node (suc n) records_data offset extents h =
      let k = be_value (take 8 (drop offset records_data)) in
      let ks = blocks_at n records_data (offset + 8) in
      rw (read_uint64_inside records_data offset (omega arith)) (
        Ensures-bind (GrowsByNode k extents) (GrowsByBlocks (k ∷ ks) extents) (get_node k extents) _
          (node k extents)
          λ mid f.
            Ensures-mono (GrowsByBlocks ks mid) (GrowsByBlocks (k ∷ ks) extents)
              (get_sub_nodes lib io file get_node n records_data (offset + 8) mid)
              (get_sub_nodes-Grows get_node node n records_data (offset + 8) mid (omega arith))
              λ after g. (
                f.0 ++ g.0,
                next_block k ks f.0 g.0 f.1 g.1,
                Grows-trans add_sparse (entries extents) f.0 (entries mid) g.0 (entries after) f.2
                    g.2,
              ))

  pub branch_node-Grows :
      (get_node : ℕ → Array → Result Array) (n : ℕ) (records_data : List ℕ) (size depth : ℕ)
      (extents : Array)
      → size ≤ length records_data
      → (depth ≤ 256
          → (k : ℕ) (before : Array) → Ensures (GrowsByNode k before) (get_node k before))
      → Ensures
          (GrowsByBlocks (sub_blocks n records_data size) extents)
          (get_extents_from_branch_node lib io file get_node n records_data size depth extents)
  unfolding get_extents_from_branch_node
  branch_node-Grows get_node n records_data size depth extents h node =
      Ensures-fail_if _ (size == 0 || ltb int64_max size) value_out_of_bounds _ λ _.
        Ensures-fail_if _ (ltb maximum_recursion_depth depth) value_out_of_bounds _ λ shallow.
          Ensures-fail_if _ (ltb (size / 16) n) value_out_of_bounds _ λ room.
            get_sub_nodes-Grows get_node (node (ground arith)) n records_data (size / 16 * 8)
              extents (ground arith)

  block-Grows :
      (get_node : ℕ → Array → Result Array) (maximum_depth k : ℕ) (b : BtreeBlock) (depth : ℕ)
      (extents : Array)
      → read_block io file 8 (block_offset io k) ≡ ok b
      → HasRecords b
      → (depth ≤ 256
          → (j : ℕ) (before : Array) → Ensures (GrowsByNode j before) (get_node j before))
      → Ensures
          (GrowsByNode k extents)
          (get_extents_from_block lib io file get_node maximum_depth add_sparse b depth extents)
  unfolding get_extents_from_block
  block-Grows get_node maximum_depth k b depth extents e r node =
      let n = b.header.number_of_records in
      Ensures-fail_if _ (not (same_bytes b.header.signature (block_signature io))) unsupported_value
        _
        λ _. Ensures-fail_if _ (ltb maximum_depth b.header.level) unsupported_value _ λ _.
          elim (Bool-cases (b.header.level == 0)) [
            | inl at_leaf ↦ rw at_leaf (
                Ensures-mono _ (GrowsByNode k extents)
                  (Extents.read_data lib extents n b.records_data b.records_data_size add_sparse)
                  (read_data-Extends lib extents n b.records_data b.records_data_size add_sparse
                    (omega (arith, r)))
                  λ after g. (extents_at n b.records_data 0, leaf k b e (ground arith), g))
            | inr above ↦ rw above (
                Ensures-mono
                  (GrowsByBlocks (sub_blocks n b.records_data b.records_data_size) extents)
                  (GrowsByNode k extents)
                  (get_extents_from_branch_node lib io file get_node n b.records_data
                    b.records_data_size depth extents)
                  (branch_node-Grows get_node n b.records_data b.records_data_size depth extents
                    (omega (arith, r)) node)
                  λ after g. (g.0, branch k b g.0 e (ground arith) g.1, g.2))
          ]

  -- With 258 at most fuel + depth, and a depth of at most 257, the walk of a sub tree of the extent
  -- B+ tree ends inside its buffers whatever is in the blocks, also where they form a cycle; if it
  -- succeeds, the array grows by the extents of the tree in their order, with the gaps filled if
  -- asked for.
  pub node-Grows :
      (fuel maximum_depth depth k : ℕ) (extents : Array)
      → 258 ≤ fuel + depth
      → depth ≤ 257
      → Ensures
          (GrowsByNode k extents)
          (get_extents_from_node lib io file fuel maximum_depth add_sparse depth k extents)
  unfolding get_extents_from_node
  node-Grows zero maximum_depth depth k extents f d = absurd (omega arith)
  node-Grows (suc fuel) maximum_depth depth k extents f d =
      Ensures-fail_if _ (io.allocation_group_size == 0) value_out_of_bounds _ λ _.
        Ensures-fail_if _ (io.block_size == 0) value_out_of_bounds _ λ _.
          Ensures-bind_eq HasRecords (GrowsByNode k extents)
            (read_block io file 8 (block_offset io k)) _
            (read_block-HasRecords io file 8 (block_offset io k))
            λ b e r.
              block-Grows
                (get_extents_from_node lib io file fuel maximum_depth add_sparse (depth + 1))
                maximum_depth k b depth extents e r
                λ shallow j before.
                  node-Grows fuel maximum_depth (depth + 1) j before (omega arith) (omega arith)
