-- ===== src/InodeBtree/Number.antt =====
-- `libfsxfs_inode_btree_get_inode_by_number` on a volume whose inode B+ trees are search trees.
use libfsxfs.Prelude.{
  ℕ, ◌+◌, ◌*◌, ◌%◌, ◌≤◌, ◌<◌, ◌≡◌, ◌∙◌, arith, List, none, some, get_elem?, if◌then◌else◌,
}
use libfsxfs.Result.{ok}
use libfsxfs.Word.{le_mul_pos, u32_mod, int64_max, shr, low_bits, mul64}
use libfsxfs.Array.{CdataArray}
use libfsxfs.Handle.{IoHandle, FileIoHandle}
use libfsxfs.InodeInformation.{InodeInformation}
use libfsxfs.InodeBtree.{get_inode_by_number, node_fuel}
use libfsxfs.InodeBtree.Tree.{contains, Tree}
use libfsxfs.InodeBtree.Lookup.{node_search}

-- The allocation group of an inode, its first block, and the inode's number in the group.
abbrev pub group_index : IoHandle → ℕ → ℕ
group_index io number = shr number io.number_of_relative_inode_number_bits

abbrev pub group_block : IoHandle → ℕ → ℕ
group_block io number = group_index io number * io.allocation_group_size

abbrev pub relative_number : IoHandle → ℕ → ℕ
relative_number io number = low_bits number io.number_of_relative_inode_number_bits

-- What the superblock's checks and the size of the volume give.
pub record IsVolume (io : IoHandle) (number : ℕ) : Type 0 where
  pub group_size_pos : 0 < io.allocation_group_size
  pub block_size_pos : 0 < io.block_size
  pub index_in_range : group_index io number < 2147483648
  pub group_in_range : group_block io number * io.block_size ≤ int64_max
  pub inode_in_range : relative_number io number * io.inode_size ≤ int64_max

module _ (lib : CdataArray InodeInformation) (io : IoHandle) (file : FileIoHandle) where
  open lib use {Array, entries, get_law}

  -- On a volume whose offsets are in range, if the inode information of the group is in the array, and
  -- its tree, of height 257 at most, is a search tree with the chunks `cs`, then the call succeeds: it
  -- gives the offset of the group plus the relative inode number times the inode size when one of the
  -- chunks has the inode, and that it is not there otherwise.
  pub get_inode_by_number_search :
      (information : Array) (number h : ℕ) (info : InodeInformation) (cs : List ℕ)
      → IsVolume io number
      → get_elem? (entries information) (group_index io number) ≡ some info
      → Tree io file (group_block io number) h info.inode_btree_root_block_number cs
      → h ≤ 257
      → get_inode_by_number lib information io file number
        ≡ ok (
            if contains (relative_number io number) cs
            then some
                (group_block io number * io.block_size + relative_number io number * io.inode_size)
            else none)
  unfolding get_inode_by_number
  get_inode_by_number_search information number h info cs v at t low =
      let index : group_index io number % u32_mod ≡ group_index io number =
        omega (arith, v.index_in_range) in
      let entry : lib.get_entry_by_index information (group_index io number) ≡ some info =
        get_law information (group_index io number) ∙ at in
      let within : group_block io number ≤ group_block io number * io.block_size =
        le_mul_pos (group_block io number) io.block_size v.block_size_pos in
      let group : mul64 (group_index io number) io.allocation_group_size ≡ group_block io number =
        omega (arith, v.group_in_range) in
      let found =
        node_search io file (group_block io number) (relative_number io number) h node_fuel
          info.inode_btree_root_block_number 0 t (omega arith) (omega arith) in
      rw (index, entry, group)
        (ground (
          arith, v.group_size_pos, v.block_size_pos, v.index_in_range, found, v.group_in_range,
          v.inode_in_range,
        ))
