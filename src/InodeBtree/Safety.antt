-- ===== src/InodeBtree/Safety.antt =====
-- The search in an inode B+ tree on any bytes.
use libfsxfs.Prelude.{
  ℕ, zero, suc, ◌+◌, ◌-◌, ◌*◌, ◌/◌, ◌≤◌, arith, Bool, true, false, List, leb, ltb, ◌==◌, ◌||◌, ◌&&◌,
  not, length, length-drop, drop, take,
}
use libfsxfs.Result.{
  Result, ok, IsTotal, Ensures-bind, Ensures-fail_if, Ensures-if, value_out_of_bounds,
  unsupported_value,
}
use libfsxfs.Word.{int64_max, sub64}
use libfsxfs.Bytes.{be_value, same_bytes}
use libfsxfs.Bytes.Laws.{read_uint32_inside, read_uint64_inside}
use libfsxfs.Handle.{IoHandle, FileIoHandle, maximum_recursion_depth}
use libfsxfs.Btree.{read_block}
use libfsxfs.Btree.Records.{HasRecords, read_block-HasRecords}
use libfsxfs.InodeBtree.{
  block_signature, read_record, in_record, find_in_records, get_inode_from_leaf_node,
  get_inode_from_branch_node, get_inode_from_block, get_inode_from_node, node_offset,
}
use libfsxfs.InodeBtree.Tree.{values_at}
use libfsxfs.InodeBtree.Search.{find_key-position, position}

find_in_records-IsTotal :
    (n : ℕ) (records : List ℕ) (offset number : ℕ)
    → offset + 16 * n ≤ length records
    → IsTotal (find_in_records n records offset number)
unfolding find_in_records read_record
find_in_records-IsTotal zero records offset number h = tt
find_in_records-IsTotal (suc n) records offset number h =
    let part = drop offset records in
    let room : 16 ≤ length part = omega (arith, length-drop offset records) in
    let rest = find_in_records-IsTotal n records (offset + 16) number (omega arith) in
    rw
      (
        read_uint32_inside part 0 (omega arith),
        read_uint32_inside part 4 (omega arith),
        read_uint64_inside part 8 (omega arith),
      )
      (Ensures-if _ (in_record number (be_value (take 4 part))) (ok true) _ (λ _. tt) (λ _. rest))

leaf_node-IsTotal :
    (n : ℕ) (records : List ℕ) (size number : ℕ)
    → size ≤ length records
    → IsTotal (get_inode_from_leaf_node n records size number)
unfolding get_inode_from_leaf_node
leaf_node-IsTotal n records size number h =
    Ensures-fail_if _ (size == 0 || ltb int64_max size) value_out_of_bounds _ λ _.
      Ensures-fail_if _ (ltb (size / 16) n) value_out_of_bounds _
        λ room. find_in_records-IsTotal n records 0 number (ground arith)

branch_node-IsTotal :
    (get_node : ℕ → Result Bool) (n : ℕ) (records : List ℕ) (size number depth : ℕ)
    → size ≤ length records
    → (depth ≤ 256 → (k : ℕ) → IsTotal (get_node k))
    → IsTotal (get_inode_from_branch_node get_node n records size number depth)
unfolding get_inode_from_branch_node
branch_node-IsTotal get_node n records size number depth h node =
    let p = position number (values_at 4 n records 0) in
    Ensures-fail_if _ (size == 0 || ltb int64_max size) value_out_of_bounds _ λ _.
      Ensures-fail_if _ (ltb maximum_recursion_depth depth) value_out_of_bounds _ λ shallow.
        Ensures-fail_if _ (ltb (size / 8) n) value_out_of_bounds _ λ room.
          rw (find_key-position n records 0 number 0 (ground arith)) (
            Ensures-if _ (ltb 0 (0 + p) && leb (0 + p) n) _ (ok false)
              (λ inside.
                rw (read_uint32_inside records ((size / 8 + (0 + p) - 1) * 4) (ground arith))
                  (node (ground arith) _))
              (λ _. tt))

-- With 258 at most fuel + depth, and a depth of at most 257, the search in an inode B+ tree ends
-- inside its buffers whatever is in the blocks, also where they form a cycle: with a result or an
-- error.
pub node-IsTotal :
    (io : IoHandle) (file : FileIoHandle) (group fuel k number depth : ℕ)
    → 258 ≤ fuel + depth
    → depth ≤ 257
    → IsTotal (get_inode_from_node io file group fuel k number depth)
unfolding get_inode_from_node get_inode_from_block
node-IsTotal io file group zero k number depth f d = absurd (omega arith)
node-IsTotal io file group (suc fuel) k number depth f d =
    Ensures-fail_if _ (io.block_size == 0) value_out_of_bounds _ λ _.
      Ensures-fail_if _ (ltb (int64_max / io.block_size) group) value_out_of_bounds _ λ _.
        Ensures-fail_if _ (ltb (sub64 (int64_max / io.block_size) group) k) value_out_of_bounds _
          λ _.
            Ensures-bind HasRecords _ (read_block io file 4 (node_offset io file group k)) _
              (read_block-HasRecords io file 4 (node_offset io file group k))
              λ b r.
                Ensures-fail_if _ (not (same_bytes b.header.signature (block_signature io)))
                  unsupported_value _
                  λ _.
                    Ensures-if _ (b.header.level == 0) _ _
                      (λ _.
                        leaf_node-IsTotal b.header.number_of_records b.records_data
                          b.records_data_size number (omega (arith, r)))
                      (λ _.
                        branch_node-IsTotal
                          (λ j. get_inode_from_node io file group fuel j number (depth + 1))
                          b.header.number_of_records b.records_data b.records_data_size number depth
                          (omega (arith, r))
                          λ shallow j.
                            node-IsTotal io file group fuel j number (depth + 1) (omega arith)
                              (omega arith))
