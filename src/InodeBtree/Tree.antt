-- ===== src/InodeBtree/Tree.antt =====
-- The inode B+ tree of an allocation group as it should be on disk: a search tree of chunks of 64
-- inodes each.
use libfsxfs.Prelude.{
  ℕ, zero, suc, ◌+◌, ◌*◌, ◌/◌, ◌≤◌, ◌<◌, ◌≡◌, ◌≢◌, Bool, true, false, List, [], ◌∷◌, ◌++◌, ltb, leb,
  ◌&&◌, ◌||◌, length, take, drop, All,
}
use libfsxfs.Result.{ok}
use libfsxfs.Word.{u32_mod, int64_max}
use libfsxfs.Bytes.{be_value, same_bytes}
use libfsxfs.Handle.{IoHandle, FileIoHandle}
use libfsxfs.Btree.{BtreeBlock, read_block}
use libfsxfs.InodeBtree.{block_signature, node_offset}

-- The `n` 32-bit values that stand `step` bytes apart.
abbrev pub values_at : ℕ → ℕ → List ℕ → ℕ → List ℕ
values_at step zero data_bytes offset = []
values_at step (suc n) data_bytes offset =
    be_value (take 4 (drop offset data_bytes)) ∷ values_at step n data_bytes (offset + step)

-- The first inodes of the records of a leaf, and the keys and sub blocks of a branch.
abbrev pub chunks_of : BtreeBlock → List ℕ
chunks_of b = values_at 16 b.header.number_of_records b.records_data 0

abbrev pub keys_of : BtreeBlock → List ℕ
keys_of b = values_at 4 b.header.number_of_records b.records_data 0

abbrev pub sub_blocks_of : BtreeBlock → List ℕ
sub_blocks_of b =
    values_at 4 b.header.number_of_records b.records_data (b.records_data_size / 8 * 4)

-- An inode is in one of the chunks of 64.
abbrev pub contains : ℕ → List ℕ → Bool
contains number [] = false
contains number (c ∷ cs) = (leb c number && ltb number (c + 64)) || contains number cs

-- Block `k` of the group can be read, is an inode B+ tree block, and has room for its records of
-- `size` bytes.
pub record Reads (io : IoHandle) (file : FileIoHandle) (group k size : ℕ) (b : BtreeBlock)
    : Type 0 where
  pub block_size_pos : 0 < io.block_size
  pub group_in_range : group ≤ int64_max / io.block_size
  pub block_in_range : group + k ≤ int64_max / io.block_size
  pub is_read : read_block io file 4 (node_offset io file group k) ≡ ok b
  pub is_signed : same_bytes b.header.signature (block_signature io) ≡ true
  pub has_data : 0 < b.records_data_size
  pub data_in_range : b.records_data_size ≤ int64_max
  pub has_size : b.records_data_size ≡ length b.records_data
  pub has_room : b.header.number_of_records ≤ b.records_data_size / size

-- Block `k` is the root of a tree of height `h` at most, with these chunks. In a branch each sub
-- tree has the chunks from its key on and before the next keys.
mutual
  pub data Tree (io : IoHandle) (file : FileIoHandle) (group : ℕ) : ℕ → ℕ → List ℕ → Type 0 where
    leaf :
        (h k : ℕ) (b : BtreeBlock)
        → Reads io file group k 16 b
        → b.header.level ≡ 0
        → All (λ c. c + 64 < u32_mod) (chunks_of b)
        → Tree io file group h k (chunks_of b)
    branch :
        (h k : ℕ) (b : BtreeBlock) (cs : List ℕ)
        → Reads io file group k 8 b
        → b.header.level ≢ 0
        → Forest io file group h (keys_of b) (sub_blocks_of b) cs
        → Tree io file group (suc h) k cs

  pub data Forest (io : IoHandle) (file : FileIoHandle) (group : ℕ)
      : ℕ → List ℕ → List ℕ → List ℕ → Type 0 where
    no_trees : (h : ℕ) → Forest io file group h [] [] []
    next_tree :
        (h key k : ℕ) (keys ks cs ds : List ℕ)
        → Tree io file group h k cs
        → All (λ c. key ≤ c) cs
        → All (λ next. All (λ c. c + 64 ≤ next) cs × (key ≤ next)) keys
        → Forest io file group h keys ks ds
        → Forest io file group h (key ∷ keys) (k ∷ ks) (cs ++ ds)
