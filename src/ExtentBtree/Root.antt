-- ===== src/ExtentBtree/Root.antt =====
-- The extent B+ tree of a file, from its root in the inode.
use mathlib.Core.Path.{subst, sym}
use libfsxfs.Prelude.{
  ℕ, ◌-◌, ◌≤◌, ◌<◌, ◌≡◌, ◌∙◌, arith, true, List, [], ltb, ◌||◌, ◌==◌, length, take, drop,
  length-drop,
}
use libfsxfs.Result.{
  Ensures, Ensures-bind, Ensures-fail_if, Ensures-mono, value_out_of_bounds, unsupported_value,
}
use libfsxfs.Word.{int64_max, sub64_le, u32_mod}
use libfsxfs.Bytes.{be_value}
use libfsxfs.Bytes.Laws.{read_uint16_inside}
use libfsxfs.Array.{CdataArray}
use libfsxfs.Handle.{IoHandle, FileIoHandle}
use libfsxfs.Extent.{Extent}
use libfsxfs.Extents
use libfsxfs.Extents.Fill.{fill, ends-fill}
use libfsxfs.Extents.Contiguous.{Ascending, fill-Contiguous}
use libfsxfs.Extents.Tail.{Covers, append_tail-Covers}
use libfsxfs.ExtentBtree.Unique.{BlocksHave-unique}
use libfsxfs.ExtentBtree.{
  get_extents_from_branch_node, get_extents_from_node, get_extents_from_root_node, node_fuel,
}
use libfsxfs.ExtentBtree.Nodes.{
  BlocksHave, sub_blocks, branch_node-Grows, node-Grows, GrowsByBlocks,
}

-- The sub blocks of the root: its data are the level, the number of records, and the records.
abbrev pub root_sub_blocks : List ℕ → ℕ → List ℕ
root_sub_blocks data_bytes data_size =
    sub_blocks (be_value (take 2 (drop 2 data_bytes))) (drop 4 data_bytes) (data_size - 4)

module _ (lib : CdataArray Extent) (io : IoHandle) (file : FileIoHandle) where
  open lib use {Array, entries}

  -- If the sub blocks of the root hold the extents `es` on disk, these come in the order of their
  -- blocks, with no gap of 2 ^ 32 blocks, and the file has fewer than 2 ^ 32 blocks, then on an empty
  -- array, with sparse extents, the call ends inside its buffers. If it succeeds, the array's extents
  -- cover the blocks from 0 to `number_of_blocks`, or to the end of `es` if it is further, with no
  -- gap and no overlap.
  pub root_node-Covers :
      (maximum_depth number_of_blocks : ℕ) (data_bytes : List ℕ) (data_size : ℕ) (extents : Array)
      (es : List Extent)
      → entries extents ≡ []
      → data_size ≤ length data_bytes
      → number_of_blocks < u32_mod
      → BlocksHave io file (root_sub_blocks data_bytes data_size) es
      → Ascending 0 es
      → Ensures
          (λ after. Covers number_of_blocks es (entries after))
          (get_extents_from_root_node lib io file maximum_depth number_of_blocks data_bytes
            data_size true extents)
  unfolding get_extents_from_root_node
  root_node-Covers maximum_depth number_of_blocks data_bytes data_size extents es empty h small disk
        up =
      let ks = root_sub_blocks data_bytes data_size in
      Ensures-fail_if _ (ltb data_size 4 || ltb int64_max data_size) value_out_of_bounds _ λ fits.
        let size : 4 ≤ data_size = ground arith in
        let whole : data_size ≤ int64_max = ground arith in
        let n = be_value (take 2 (drop 2 data_bytes)) in
        rw
          (
            read_uint16_inside data_bytes 0 (omega arith),
            read_uint16_inside data_bytes 2 (omega arith),
            sub64_le data_size 4 size whole,
          )
          (Ensures-fail_if _ (be_value (take 2 data_bytes) == 0) unsupported_value _ λ _.
            Ensures-bind (GrowsByBlocks lib io file true ks extents) _
              (get_extents_from_branch_node lib io file
                (get_extents_from_node lib io file node_fuel maximum_depth true 1) n
                (drop 4 data_bytes) (data_size - 4) 0 extents)
              _
              (branch_node-Grows lib io file true
                (get_extents_from_node lib io file node_fuel maximum_depth true 1) n
                (drop 4 data_bytes) (data_size - 4) 0 extents
                (omega (arith, length-drop 4 data_bytes))
                λ _ k before.
                  node-Grows lib io file true node_fuel maximum_depth 1 k before (omega arith)
                    (omega arith))
              λ filled g.
                let same : es ≡ g.0 = BlocksHave-unique disk g.1 in
                let e : entries filled ≡ fill true 0 es =
                  subst (λ (x : List Extent). entries filled ≡ fill true 0 x) (sym same)
                    (rw empty at g.2) in
                Ensures-mono _ (λ after. Covers number_of_blocks es (entries after))
                  (Extents.append_tail lib filled number_of_blocks true)
                  (append_tail-Covers lib filled number_of_blocks small)
                  λ after k.
                    let c = k (rw e (fill-Contiguous 0 es up)) in
                    (c.0, c.1 ∙ rw (e, ends-fill true 0 es)))
