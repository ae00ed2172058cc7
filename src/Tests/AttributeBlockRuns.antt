-- ===== src/Tests/AttributeBlockRuns.antt =====
-- Attributes in blocks: runs of libfsxfs_attributes.c.
use mathlib.Core.Path.{subst}
use mathlib.Core.Option.{some-injective}
use libfsxfs.Prelude.{
  ℕ, zero, suc, ◌≡◌, refl, arith, List, [], ◌∷◌, ◌++◌, ◌==◌, replicate, some, none, if◌then◌else◌,
}
use libfsxfs.Result.{ok, IsTotal}
use libfsxfs.Bytes.Encode.{be16, be32}
use libfsxfs.Array.{list_array}
use libfsxfs.Stream.{plain_stream}
use libfsxfs.Handle.{IoHandle, FileIoHandle}
use libfsxfs.Extent.{Extent}
use libfsxfs.Inode.{Inode, extents_fork, no_fork}
use libfsxfs.AttributesTable.{AttributeValues}
use libfsxfs.DataStream.{DataHandle}
use libfsxfs.Attributes
use libfsxfs.Attributes.{get_from_inode, get_value_data_stream}
use libfsxfs.Attributes.Blocks.{get_from_inode-IsTotal}
use libfsxfs.Attributes.Values.{has_block, SameExtents, get_value_data_stream-same}

abbrev volume : IoHandle
volume = record {
  format_version = 4;
  secondary_feature_flags = 0;
  block_size = 64;
  allocation_group_size = 16;
  inode_size = 256;
  directory_block_size = 64;
  number_of_relative_block_number_bits = 4;
  number_of_relative_inode_number_bits = 8;
}

-- A branch block with one sub block, and a leaf block with the attribute user.a.
abbrev branch_bytes : List ℕ
branch_bytes =
    replicate 8 0
    ++ (be16 0x3ebe
        ++ (replicate 2 0 ++ (be16 1 ++ (be16 1 ++ (be32 0 ++ (be32 1 ++ replicate 40 0))))))

abbrev leaf_bytes : List ℕ
leaf_bytes =
    replicate 8 0
    ++ (be16 0x3bee
        ++ (replicate 2 0
            ++ (be16 1
                ++ (replicate 18 0
                    ++ (be32 0
                        ++ (be16 40
                            ++ (1 ∷ 0 ∷ (be16 2 ++ (1 ∷ b'a' ∷ 7 ∷ 8 ∷ replicate 18 0)))))))))

-- The blocks 5 and 6.
abbrev file : FileIoHandle
file size offset =
    if offset == 320 then some branch_bytes else if offset == 384 then some leaf_bytes else none

abbrev attributes_extents : List Extent
attributes_extents =
    record {
      logical_block_number = 0;
      physical_block_number = 5;
      number_of_blocks = 4;
      range_flags = 0;
    }
    ∷ []

abbrev inode : Inode (list_array Extent)
inode = record {
  fields = record {
    format_version = 2;
    file_mode = 0x81a4;
    owner_identifier = 0;
    group_identifier = 0;
    number_of_links = 1;
    access_time = 0;
    modification_time = 0;
    inode_change_time = 0;
    creation_time = 0;
    size = 0;
    fork_type = 2;
    number_of_data_extents = 0;
    data_fork_offset = 100;
    data_fork_size = 136;
    attributes_fork_type = 2;
    number_of_attributes_extents = 1;
    attributes_fork_offset = 236;
    attributes_fork_size = 20;
  };
  device_identifier = 0;
  data_fork = no_fork (list_array Extent);
  attributes_fork = extents_fork (list_array Extent) attributes_extents;
}

get_from_inode-IsTotal_example :
    IsTotal (get_from_inode (list_array AttributeValues) (list_array Extent) volume file inode [])
get_from_inode-IsTotal_example =
    get_from_inode-IsTotal (list_array AttributeValues) (list_array Extent) volume file inode []
      refl

abbrev user_a : AttributeValues
user_a = record {
  name = b'u' ∷ b's' ∷ b'e' ∷ b'r' ∷ b'.' ∷ b'a' ∷ 0 ∷ [];
  value_data_size = 2;
  value_data = some (7 ∷ 8 ∷ []);
  value_data_block_number = 0;
}

get_from_inode_run :
    get_from_inode (list_array AttributeValues) (list_array Extent) volume file inode []
    ≡ ok (user_a ∷ [])
unfolding Attributes.get_from_inode Attributes.get_from_extents Attributes.get_from_block
    Attributes.find_attributes_extent Attributes.find_extent Attributes.block_in_extent
    Attributes.read_file_system_block Attributes.read_file_system_block_data
    Attributes.read_block_values Attributes.read_branch_values Attributes.get_sub_blocks
    Attributes.read_leaf_values Attributes.read_leaf_block_header Attributes.read_leaf_entries
    Attributes.read_leaf_entry Attributes.read_value_place Attributes.read_local_value
    libfsxfs.Inode.get_number_of_extents libfsxfs.Inode.get_extent_by_index
    libfsxfs.Handle.block_offset libfsxfs.Handle.read_buffer_at_offset
    libfsxfs.AttributesTable.read_name libfsxfs.AttributesTable.read_value
    libfsxfs.AttributesTable.name_prefix libfsxfs.Bytes.slice libfsxfs.Bytes.read_uint8
    libfsxfs.Bytes.read_uint16 libfsxfs.Bytes.read_uint32
get_from_inode_run = refl

abbrev remote_at : ℕ → AttributeValues
remote_at block_number = record {
  name = b'u' ∷ b's' ∷ b'e' ∷ b'r' ∷ b'.' ∷ b'b' ∷ 0 ∷ [];
  value_data_size = 60;
  value_data = none;
  value_data_block_number = block_number;
}

blocks-SameExtents : SameExtents attributes_extents 2 3
blocks-SameExtents e zero h =
    subst (λ (x : Extent). has_block x 2 ≡ has_block x 3) (some-injective _ _ h) refl
blocks-SameExtents e (suc i) h = absurd (let x : ⊥ = cc in x)

get_value_data_stream-same_example :
    get_value_data_stream (list_array Extent) (plain_stream DataHandle) volume inode (remote_at 2)
    ≡ get_value_data_stream (list_array Extent) (plain_stream DataHandle) volume inode (remote_at 3)
get_value_data_stream-same_example =
    get_value_data_stream-same (list_array Extent) (plain_stream DataHandle) volume inode
      attributes_extents (remote_at 2) (remote_at 3) refl (omega arith) (omega arith) refl
      blocks-SameExtents
