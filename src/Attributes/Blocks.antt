-- ===== src/Attributes/Blocks.antt =====
-- The attributes in blocks, from the first block of the attributes fork on, on any data.
use libfsxfs.Prelude.{
  ℕ, zero, suc, ◌+◌, ◌≤◌, ◌≡◌, arith, false, ltb, ◌==◌, ◌||◌, ◌&&◌, not, Option, none, some,
}
use libfsxfs.Result.{
  Result, IsTotal, Ensures-bind, Ensures-if, Ensures-fail_if, value_out_of_bounds,
  unsupported_value,
}
use libfsxfs.Array.{CdataArray}
use libfsxfs.Handle.{IoHandle, FileIoHandle, maximum_recursion_depth}
use libfsxfs.Extent.{Extent}
use libfsxfs.Inode.{Inode, fork_type_inline_data, fork_type_extents, fork_type_btree}
use libfsxfs.AttributesTable.{AttributeValues}
use libfsxfs.Attributes.{
  FileSystemBlock, read_file_system_block, find_attributes_extent, block_in_extent,
  read_block_values, get_from_block, get_from_extents, get_from_inode,
}
use libfsxfs.Attributes.Safety.{
  HasBlockData, read_leaf_values-IsTotal, read_branch_values-IsTotal,
  read_file_system_block-HasBlockData, find_attributes_extent-IsTotal,
}

module _ (lib : CdataArray AttributeValues) (extents_lib : CdataArray Extent) (io : IoHandle)
    (file : FileIoHandle) where
  open lib use {Array}

  read_block_values-IsTotal :
      (get_block : ℕ → Array → Result Array) (b : FileSystemBlock) (attributes : Array)
      → ((k : ℕ) (before : Array) → IsTotal (get_block k before))
      → HasBlockData b
      → IsTotal (read_block_values lib extents_lib io file get_block b attributes)
  unfolding read_block_values
  read_block_values-IsTotal get_block b a block (h, m) =
      Ensures-if _ (b.signature == 0x3bee || b.signature == 0xfbee) _ _
        (λ _. read_leaf_values-IsTotal lib io b.block_data b.block_data_size a h m)
        λ _.
          Ensures-if _ (b.signature == 0x3ebe || b.signature == 0xfebe) _ _
            (λ _.
              read_branch_values-IsTotal lib io get_block b.block_data b.block_data_size a block h
                m)
            (λ _. tt)

  -- With 258 at most fuel + depth, reading the attributes of a block and of those under it ends
  -- inside its buffers whatever is in the blocks, also where they form a cycle: with a result or an
  -- error.
  pub get_from_block-IsTotal :
      (fuel : ℕ) (inode : Inode extents_lib) (block_number depth : ℕ) (attributes : Array)
      → 258 ≤ fuel + depth
      → depth ≤ 257
      → IsTotal (get_from_block lib extents_lib io file fuel inode block_number depth attributes)
  unfolding get_from_block
  get_from_block-IsTotal zero inode k depth a f d = absurd (omega arith)
  get_from_block-IsTotal (suc fuel) inode k depth a f d =
      let any : Array → Type 0 = λ _. Unit {0} in
      Ensures-fail_if any (ltb maximum_recursion_depth depth) value_out_of_bounds _ λ shallow.
        let next : depth + 1 ≤ 257 = ground arith in
        Ensures-bind (λ _. Unit {0}) any
          (find_attributes_extent extents_lib inode.attributes_fork k) _
          (find_attributes_extent-IsTotal extents_lib inode.attributes_fork k)
          λ (i, e) _.
            Ensures-bind HasBlockData any (read_file_system_block io file (block_in_extent io e k))
              _ (read_file_system_block-HasBlockData io file (block_in_extent io e k))
              λ b h.
                read_block_values-IsTotal
                  (λ j extended.
                    get_from_block lib extents_lib io file fuel inode j (depth + 1) extended)
                  b a
                  (λ j before.
                    get_from_block-IsTotal fuel inode j (depth + 1) before (omega arith) next)
                  h

  get_from_extents-IsTotal :
      (inode : Inode extents_lib) (o : Option (CdataArray.Array extents_lib)) (attributes : Array)
      → IsTotal (get_from_extents lib extents_lib io file inode o attributes)
  unfolding get_from_extents
  get_from_extents-IsTotal inode none a = tt
  get_from_extents-IsTotal inode (some extents) a =
      get_from_block-IsTotal 258 inode 0 0 a (omega arith) (omega arith)

  -- For an inode whose attributes are not in it, reading them ends inside its buffers, whatever the
  -- volume has: with a result or an error.
  pub get_from_inode-IsTotal :
      (inode : Inode extents_lib) (attributes : Array)
      → (inode.fields.attributes_fork_type == fork_type_inline_data) ≡ false
      → IsTotal (get_from_inode lib extents_lib io file inode attributes)
  unfolding get_from_inode
  get_from_inode-IsTotal inode a other =
      let t = inode.fields.attributes_fork_type in
      let any : Array → Type 0 = λ _. Unit {0} in
      Ensures-fail_if any
        (not (t == fork_type_inline_data)
          && (not (t == fork_type_extents) && not (t == fork_type_btree)))
        unsupported_value _
        λ _. rw other (get_from_extents-IsTotal inode inode.attributes_fork.extents_array a)
