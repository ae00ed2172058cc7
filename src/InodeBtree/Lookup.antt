-- ===== src/InodeBtree/Lookup.antt =====
-- The search for an inode, from its number to its offset in the volume.
use libfsxfs.Prelude.{
  ℕ, zero, suc, ◌+◌, ◌-◌, ◌*◌, ◌/◌, ◌≤◌, ◌<◌, ◌≡◌, refl, ap, ◌∙◌, arith, Bool, false, List, ltb,
  ◌==◌, All,
}
use native.Mathlib.Nat.{div-le_self}
use libfsxfs.Result.{Result, ok}
use libfsxfs.Word.{u32_mod, int64_max, sub64}
use libfsxfs.Bytes.{read_uint32}
use libfsxfs.Handle.{IoHandle, FileIoHandle}
use libfsxfs.Btree.{BtreeBlock}
use libfsxfs.InodeBtree.{
  find_key, get_inode_from_leaf_node, get_inode_from_branch_node, get_inode_from_block,
  get_inode_from_node,
}
use libfsxfs.InodeBtree.Tree.{
  chunks_of, keys_of, sub_blocks_of, contains, Reads, Tree, Forest, leaf, branch,
}
use libfsxfs.InodeBtree.Search.{
  position, position-le, find_key-position, read_value, find_in_records-contains, Forest-zero,
  Forest-Found,
}

fits_guard : (q group k : ℕ) → q ≤ int64_max → group + k ≤ q → ltb (sub64 q group) k ≡ false
fits_guard q group k h f = ground arith

module _ (io : IoHandle) (file : FileIoHandle) (group number : ℕ) where
  leaf_search :
      (k : ℕ) (b : BtreeBlock)
      → Reads io file group k 16 b
      → All (λ c. c + 64 < u32_mod) (chunks_of b)
      → get_inode_from_leaf_node b.header.number_of_records b.records_data b.records_data_size
          number
        ≡ ok (contains number (chunks_of b))
  unfolding get_inode_from_leaf_node
  leaf_search k b r a = ground (
    arith,
    r.has_data,
    r.data_in_range,
    r.has_size,
    r.has_room,
    find_in_records-contains b.header.number_of_records b.records_data 0 number
        (omega (arith, r.has_size, r.has_room)) a,
  )

  -- The guards of the block numbers pass.
  Reads-guard :
      (k size : ℕ) (b : BtreeBlock)
      → Reads io file group k size b
      → ((io.block_size == 0) ≡ false)
        × (ltb (int64_max / io.block_size) group ≡ false)
        × (ltb (sub64 (int64_max / io.block_size) group) k ≡ false)
  Reads-guard k size b r = (
    ground arith,
    ground arith,
    fits_guard (int64_max / io.block_size) group k (div-le_self int64_max io.block_size)
        r.block_in_range,
  )

  -- Below a branch: what the search for the sub node at the found index gives.
  branch_search :
      (h k depth : ℕ) (b : BtreeBlock) (cs : List ℕ) (get_node : ℕ → Result Bool)
      → Reads io file group k 8 b
      → Forest io file group h (keys_of b) (sub_blocks_of b) cs
      → depth ≤ 256
      → ((j : ℕ) (part : List ℕ)
          → Tree io file group h j part
          → get_node j ≡ ok (contains number part))
      → get_inode_from_branch_node get_node b.header.number_of_records b.records_data
          b.records_data_size number depth
        ≡ ok (contains number cs)
  unfolding get_inode_from_branch_node
  branch_search h k depth b cs get_node r f shallow node = go (position number (keys_of b)) refl
    where
      n : ℕ
      n = b.header.number_of_records

      at : find_key n b.records_data 0 number 0 ≡ ok (0 + position number (keys_of b))
      at = find_key-position n b.records_data 0 number 0 (omega (arith, r.has_size, r.has_room))

      go :
          (p : ℕ)
          → position number (keys_of b) ≡ p
          → get_inode_from_branch_node get_node n b.records_data b.records_data_size number depth
            ≡ ok (contains number cs)
      go zero e =
          let index : find_key n b.records_data 0 number 0 ≡ ok 0 = at ∙ ap ok (omega (arith, e)) in
          ground (arith, index, Forest-zero io file group number f e)
      go (suc i) e =
          let bound : suc i ≤ n = omega (arith, e, position-le number n b.records_data 0) in
          let index : find_key n b.records_data 0 number 0 ≡ ok (suc i) =
            at ∙ ap ok (omega (arith, e)) in
          let (j, part, is_at, t, same) = Forest-Found io file group number i f e in
          let (v, has, is_read) =
            read_value n i b.records_data (b.records_data_size / 8 * 4) (omega arith)
              (omega (arith, r.has_size, r.has_room)) in
          let offset : (b.records_data_size / 8 + suc i - 1) * 4
              ≡ b.records_data_size / 8 * 4 + 4 * i =
            omega arith in
          let sub : read_uint32 b.records_data ((b.records_data_size / 8 + suc i - 1) * 4) ≡ ok j =
            rw offset (is_read ∙ cc) in
          ground (arith, index, sub, bound, node j part t, same)

  -- On a search tree of height `h`, below the fuel and at most 257 with the depth, the search from its
  -- root returns, and finds exactly the inodes of the chunks of the tree.
  pub node_search :
      (h fuel k depth : ℕ) {cs : List ℕ}
      → Tree io file group h k cs
      → h < fuel
      → depth + h ≤ 257
      → get_inode_from_node io file group fuel k number depth ≡ ok (contains number cs)
  unfolding get_inode_from_node get_inode_from_block
  node_search h zero k depth t f d = absurd (omega arith)
  node_search h (suc fuel) k depth (leaf _ _ b r at_leaf a) f d =
      ground (arith, leaf_search k b r a, r.is_read, Reads-guard k 16 b r)
  node_search (suc h) (suc fuel) k depth (branch _ _ b cs r above forest) f d = ground (
    arith,
    branch_search h k depth b cs
        (λ sub_block. get_inode_from_node io file group fuel sub_block number (depth + 1)) r forest
        (omega arith) (λ j part t. node_search h fuel j (depth + 1) t (omega arith) (omega arith)),
    r.is_read,
    Reads-guard k 8 b r,
  )
