-- ===== src/Tests/BtreeRuns.antt =====
-- The B+ trees: runs of libfsxfs_extent_btree.c and libfsxfs_inode_btree.c on small volumes.
use libfsxfs.Prelude.{
  All, ℕ, ◌/◌, ◌≤◌, ◌<◌, ◌≡◌, refl, arith, true, List, [], ◌∷◌, ◌++◌, ◌==◌, if◌then◌else◌, some,
  none, length, sym,
}
use libfsxfs.Result.{ok, err, unsupported_value, Ensures, IsTotal}
use libfsxfs.Bytes.Encode.{be16, be32, be64}
use libfsxfs.Array.{list_array}
use libfsxfs.Handle.{IoHandle, FileIoHandle, block_offset, read_buffer_at_offset}
use libfsxfs.Btree.{BtreeBlock, read_block, read_block_data, read_header, header_data_size}
use libfsxfs.Extent.{Extent}
use libfsxfs.Extent.Fields.{packed}
use libfsxfs.Extents.Tail.{Covers}
use libfsxfs.ExtentBtree.{get_extents_from_node, get_extents_from_root_node, initial_maximum_depth}
use libfsxfs.ExtentBtree.Nodes
use libfsxfs.ExtentBtree.Nodes.{BlocksHave, GrowsByNode, node-Grows}
use libfsxfs.ExtentBtree.Root.{root_sub_blocks, root_node-Covers}
use libfsxfs.ExtentBtree.Leaves.{IsLeaf, root_node-leaves}
use libfsxfs.InodeInformation.{InodeInformation}
use libfsxfs.InodeBtree.{get_inode_from_node, get_inode_by_number, node_offset}
use libfsxfs.InodeBtree.Tree.{contains, Reads, Tree, branch, leaf, next_tree, no_trees}
use libfsxfs.InodeBtree.Lookup.{node_search}
use libfsxfs.InodeBtree.Number.{get_inode_by_number_search}
use libfsxfs.InodeBtree.Safety.{node-IsTotal}

-- Blocks of 40 bytes: a block of the extent tree has room for one extent, or one key and sub block.
abbrev extent_volume : IoHandle
extent_volume = record {
  format_version = 4;
  secondary_feature_flags = 0;
  block_size = 40;
  allocation_group_size = 16;
  inode_size = 256;
  directory_block_size = 40;
  number_of_relative_block_number_bits = 4;
  number_of_relative_inode_number_bits = 8;
}

abbrev tree_extent : Extent
tree_extent = record {
  logical_block_number = 1;
  physical_block_number = 7;
  number_of_blocks = 2;
  range_flags = 0;
}

abbrev siblings : List ℕ
siblings = be64 0xffffffffffffffff

abbrev extent_block : ℕ → List ℕ → List ℕ
extent_block level record_bytes =
    b'B' ∷ b'M' ∷ b'A' ∷ b'P' ∷ (be16 level ++ be16 1 ++ siblings ++ siblings ++ record_bytes)

-- Block 2 is a leaf, and block 3 a branch above it.
abbrev extent_file : FileIoHandle
extent_file size offset =
    if offset == 80
    then some (extent_block 0 (packed tree_extent))
    else if offset == 120
    then some (extent_block 1 (be64 0 ++ be64 2))
    else none

abbrev root_bytes : ℕ → List ℕ
root_bytes block_number = be16 1 ++ be16 1 ++ be64 1 ++ be64 block_number

node-Grows_example :
    Ensures
      (GrowsByNode (list_array Extent) extent_volume extent_file true 2 [])
      (get_extents_from_node (list_array Extent) extent_volume extent_file 257 0 true 1 2 [])
node-Grows_example =
    node-Grows (list_array Extent) extent_volume extent_file true 257 0 1 2 [] (omega arith)
      (omega arith)

abbrev extent_leaf_block : BtreeBlock
extent_leaf_block = record {
  header = record { signature = b'B' ∷ b'M' ∷ b'A' ∷ b'P' ∷ []; level = 0; number_of_records = 1 };
  records_data = packed tree_extent;
  records_data_size = 16;
}

extent_leaf_run :
    read_block extent_volume extent_file 8 (block_offset extent_volume 2) ≡ ok extent_leaf_block
unfolding read_block read_buffer_at_offset read_block_data read_header header_data_size block_offset
    libfsxfs.Bytes.read_uint16 libfsxfs.Bytes.slice
extent_leaf_run = refl

root_blocks-BlocksHave :
    BlocksHave extent_volume extent_file (root_sub_blocks (root_bytes 2) 20) (tree_extent ∷ [])
unfolding libfsxfs.Extent.unpack
root_blocks-BlocksHave =
    Nodes.next_block 2 [] (tree_extent ∷ []) []
      (Nodes.leaf 2 extent_leaf_block extent_leaf_run refl) Nodes.no_blocks

root_node-Covers_example :
    Ensures
      (λ after. Covers 5 (tree_extent ∷ []) after)
      (get_extents_from_root_node
        (list_array Extent)
        extent_volume
        extent_file
        0
        5
        (root_bytes 2)
        20
        true
        [])
root_node-Covers_example =
    root_node-Covers (list_array Extent) extent_volume extent_file 0 5 (root_bytes 2) 20 []
      (tree_extent ∷ []) refl (omega arith) (omega arith) root_blocks-BlocksHave (ground arith)

abbrev branch_block : BtreeBlock
branch_block = record {
  header = record { signature = b'B' ∷ b'M' ∷ b'A' ∷ b'P' ∷ []; level = 1; number_of_records = 1 };
  records_data = be64 0 ++ be64 2;
  records_data_size = 16;
}

branch_block_run :
    read_block extent_volume extent_file 8 (block_offset extent_volume 3) ≡ ok branch_block
unfolding read_block read_buffer_at_offset read_block_data read_header header_data_size block_offset
    libfsxfs.Bytes.read_uint16 libfsxfs.Bytes.slice
branch_block_run = refl

root_node-leaves_example :
    Ensures
      (λ _.
        All
          (IsLeaf (list_array Extent) extent_volume extent_file)
          (root_sub_blocks (root_bytes 2) 20))
      (get_extents_from_root_node
        (list_array Extent)
        extent_volume
        extent_file
        initial_maximum_depth
        5
        (root_bytes 2)
        20
        true
        [])
root_node-leaves_example =
    root_node-leaves (list_array Extent) extent_volume extent_file 5 (root_bytes 2) 20 true []
      (omega arith)

-- The root of a tree of three levels, over the branch block 3, is refused.
three_levels_run :
    get_extents_from_root_node
      (list_array Extent)
      extent_volume
      extent_file
      initial_maximum_depth
      5
      (root_bytes 3)
      20
      true
      []
    ≡ err unsupported_value
unfolding get_extents_from_root_node get_extents_from_node
    libfsxfs.ExtentBtree.get_extents_from_branch_node libfsxfs.ExtentBtree.get_sub_nodes
    libfsxfs.ExtentBtree.get_extents_from_block read_block read_buffer_at_offset read_block_data
    read_header header_data_size block_offset libfsxfs.Bytes.read_uint16 libfsxfs.Bytes.read_uint64
    libfsxfs.Bytes.slice
three_levels_run = refl

-- Blocks of 32 bytes, in two groups of 16 blocks: a block of the inode tree has room for one
-- record, or two keys and sub blocks.
abbrev inode_volume : IoHandle
inode_volume = record extent_volume { block_size = 32 }

abbrev inode_block : ℕ → ℕ → List ℕ → List ℕ
inode_block level number_of_records record_bytes =
    b'I' ∷ b'A' ∷ b'B' ∷ b'T' ∷ (be16 level ++ be16 number_of_records ++ siblings ++ record_bytes)

abbrev chunk_bytes : ℕ → List ℕ
chunk_bytes start = be32 start ++ be32 0 ++ be64 0

-- The tree of the second group: its root, block 1 of the group, and the leaves 2 and 3.
abbrev inode_file : FileIoHandle
inode_file size offset =
    if offset == 544
    then some (inode_block 1 2 (be32 0 ++ be32 128 ++ be32 2 ++ be32 3))
    else if offset == 576
    then some (inode_block 0 1 (chunk_bytes 64))
    else if offset == 608
    then some (inode_block 0 1 (chunk_bytes 128))
    else none

abbrev inode_tree_block : ℕ → ℕ → List ℕ → BtreeBlock
inode_tree_block level number_of_records record_bytes = record {
  header = record {
    signature = b'I' ∷ b'A' ∷ b'B' ∷ b'T' ∷ [];
    level = level;
    number_of_records = number_of_records;
  };
  records_data = record_bytes;
  records_data_size = 16;
}

abbrev root_block : BtreeBlock
root_block = inode_tree_block 1 2 (be32 0 ++ be32 128 ++ be32 2 ++ be32 3)

abbrev leaf_block : ℕ → BtreeBlock
leaf_block start = inode_tree_block 0 1 (chunk_bytes start)

-- What the three blocks share.
tree_block-Reads :
    (k size level n : ℕ) (record_bytes : List ℕ)
    → k < 16
    → length record_bytes ≡ 16
    → n ≤ 16 / size
    → read_block inode_volume inode_file 4 (node_offset inode_volume inode_file 16 k)
      ≡ ok (inode_tree_block level n record_bytes)
    → Reads inode_volume inode_file 16 k size (inode_tree_block level n record_bytes)
tree_block-Reads k size level n record_bytes in_group whole room is_read = record {
  block_size_pos = omega arith;
  group_in_range = omega arith;
  block_in_range = omega arith;
  is_read = is_read;
  is_signed = refl;
  has_data = omega arith;
  data_in_range = omega arith;
  has_size = sym whole;
  has_room = room;
}

root_block-Reads : Reads inode_volume inode_file 16 1 8 root_block
unfolding read_block read_buffer_at_offset read_block_data read_header header_data_size
    libfsxfs.Bytes.read_uint16 libfsxfs.Bytes.slice
root_block-Reads =
    tree_block-Reads 1 8 1 2 (be32 0 ++ be32 128 ++ be32 2 ++ be32 3) (omega arith) refl
      (omega arith) refl

first_leaf-Reads : Reads inode_volume inode_file 16 2 16 (leaf_block 64)
unfolding read_block read_buffer_at_offset read_block_data read_header header_data_size
    libfsxfs.Bytes.read_uint16 libfsxfs.Bytes.slice
first_leaf-Reads = tree_block-Reads 2 16 0 1 (chunk_bytes 64) (omega arith) refl (omega arith) refl

second_leaf-Reads : Reads inode_volume inode_file 16 3 16 (leaf_block 128)
unfolding read_block read_buffer_at_offset read_block_data read_header header_data_size
    libfsxfs.Bytes.read_uint16 libfsxfs.Bytes.slice
second_leaf-Reads =
    tree_block-Reads 3 16 0 1 (chunk_bytes 128) (omega arith) refl (omega arith) refl

inode-Tree : Tree inode_volume inode_file 16 1 1 (64 ∷ 128 ∷ [])
inode-Tree = branch 0 1 root_block (64 ∷ 128 ∷ []) root_block-Reads (omega arith) (
    next_tree 0 0 2 (128 ∷ []) (3 ∷ []) (64 ∷ []) (128 ∷ [])
      (leaf 0 2 (leaf_block 64) first_leaf-Reads refl (ground arith)) (ground arith) (ground arith)
      (next_tree 0 128 3 [] [] (128 ∷ []) []
        (leaf 0 3 (leaf_block 128) second_leaf-Reads refl (ground arith)) (ground arith) tt
        (no_trees 0)))

-- Inode 130 of the group is in the second leaf.
node_search_example :
    get_inode_from_node inode_volume inode_file 16 258 1 130 0 ≡ ok (contains 130 (64 ∷ 128 ∷ []))
node_search_example =
    node_search inode_volume inode_file 16 130 1 258 1 0 inode-Tree (omega arith) (omega arith)

abbrev inode_information_array : List InodeInformation
inode_information_array =
    record { inode_btree_root_block_number = 9; inode_btree_depth = 1; last_allocated_chunk = 0 }
    ∷ record {
      inode_btree_root_block_number = 1;
      inode_btree_depth = 2;
      last_allocated_chunk = 128;
    }
    ∷ []

get_inode_by_number_search_example :
    get_inode_by_number
      (list_array InodeInformation)
      inode_information_array
      inode_volume
      inode_file
      386
    ≡ ok (some 33792)
get_inode_by_number_search_example =
    get_inode_by_number_search (list_array InodeInformation) inode_volume inode_file
      inode_information_array 386 1
      (record {
        inode_btree_root_block_number = 1;
        inode_btree_depth = 2;
        last_allocated_chunk = 128;
      })
      (64 ∷ 128 ∷ [])
      (record {
        group_size_pos = omega arith;
        block_size_pos = omega arith;
        index_in_range = omega arith;
        group_in_range = omega arith;
        inode_in_range = omega arith;
      })
      refl inode-Tree (omega arith)

node-IsTotal_example : IsTotal (get_inode_from_node inode_volume inode_file 16 258 1 300 0)
node-IsTotal_example =
    node-IsTotal inode_volume inode_file 16 258 1 300 0 (omega arith) (omega arith)
