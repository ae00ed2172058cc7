-- ===== src/Tests/ExtentRuns.antt =====
-- Extents: runs of libfsxfs_extent.c, libfsxfs_extents.c and libfsxfs_extent_list.c.
use libfsxfs.Prelude.{ℕ, ◌≡◌, ◌≢◌, ◌↔◌, refl, arith, true, false, List, [], ◌∷◌, ◌++◌}
use libfsxfs.Result.{Succeeds, ok, Ensures}
use libfsxfs.Bytes.{IsByte}
use libfsxfs.Array.{list_array}
use libfsxfs.Handle.{IoHandle}
use libfsxfs.Extent
use libfsxfs.Extent.{Extent, ExtentValues, get_values}
use libfsxfs.Extent.Fields.{packed, read_data_roundtrip, read_data-ne-packed}
use libfsxfs.Extent.Range.{IsInRange, Fits, products, read_data-IsInRange, get_values_iff}
use libfsxfs.Extents
use libfsxfs.Extents.{read_list}
use libfsxfs.Extents.Fill.{extents_at, Extends}
use libfsxfs.Extents.Contiguous.{Contiguous}
use libfsxfs.Extents.Returns.{read_data-not-Contiguous, read_list-Succeeds}
use libfsxfs.Extents.Tail.{Covers, read_list-Covers, read_list-plain}

abbrev io_handle : IoHandle
io_handle = record {
  format_version = 4;
  secondary_feature_flags = 0;
  block_size = 4096;
  allocation_group_size = 16;
  inode_size = 256;
  directory_block_size = 4096;
  number_of_relative_block_number_bits = 4;
  number_of_relative_inode_number_bits = 8;
}

-- Blocks 2 to 4 of a file, unwritten.
abbrev first_extent : Extent
first_extent = record {
  logical_block_number = 2;
  physical_block_number = 1110;
  number_of_blocks = 3;
  range_flags = 1;
}

-- Blocks 10 to 16.
abbrev second_extent : Extent
second_extent = record {
  logical_block_number = 10;
  physical_block_number = 2000;
  number_of_blocks = 7;
  range_flags = 0;
}

-- At a physical block number of 44 bits.
abbrev far_extent : Extent
far_extent = record {
  logical_block_number = 0;
  physical_block_number = 8796093022720;
  number_of_blocks = 1;
  range_flags = 0;
}

-- Behind a gap of 2 ^ 32 blocks.
abbrev late_extent : Extent
late_extent = record {
  logical_block_number = 4294967296;
  physical_block_number = 9;
  number_of_blocks = 1;
  range_flags = 0;
}

abbrev list_bytes : List ℕ
list_bytes = packed first_extent ++ packed second_extent

read_data_roundtrip_example :
    Extent.read_data (packed first_extent ++ list_bytes) 16 ≡ ok first_extent
read_data_roundtrip_example =
    read_data_roundtrip first_extent list_bytes
      (record {
        logical_fits = omega arith;
        physical_fits = omega arith;
        blocks_fit = omega arith;
        flag_fits = omega arith;
      })
      (omega arith)

read_data-ne-packed_example : Extent.read_data (packed far_extent ++ []) 16 ≢ ok far_extent
read_data-ne-packed_example =
    read_data-ne-packed far_extent []
      (record {
        logical_fits = omega arith;
        physical_fits = omega arith;
        blocks_fit = omega arith;
        flag_fits = omega arith;
      })
      (omega arith)

read_data-IsInRange_example : Ensures IsInRange (Extent.read_data (packed second_extent) 16)
read_data-IsInRange_example =
    read_data-IsInRange (packed second_extent) 16 (ground arith) (omega arith)

get_values_iff_example :
    (get_values second_extent io_handle ≡ ok (products second_extent io_handle)) ↔ (
      Fits second_extent io_handle
      × (products second_extent io_handle ≡ products second_extent io_handle))
get_values_iff_example = get_values_iff second_extent io_handle (products second_extent io_handle)

read_data-not-Contiguous_example :
    Ensures
      (λ after. ¬ Contiguous 0 after)
      (Extents.read_data (list_array Extent) [] 1 (packed late_extent) 16 true)
unfolding Extent.unpack
read_data-not-Contiguous_example =
    read_data-not-Contiguous (list_array Extent) [] 0 (packed late_extent) 16 refl (omega arith)
      (ground arith)

read_list-Succeeds_example : Succeeds (read_list (list_array Extent) [] 20 2 list_bytes 32 true)
read_list-Succeeds_example =
    read_list-Succeeds (list_array Extent) (λ extents e. (_, refl)) [] 20 2 list_bytes 32 true
      (omega arith) (omega arith) (omega arith) (omega arith)

read_list-Covers_example :
    Ensures
      (λ after. Covers 20 (extents_at 2 list_bytes 0) after)
      (read_list (list_array Extent) [] 20 2 list_bytes 32 true)
unfolding Extent.unpack
read_list-Covers_example =
    read_list-Covers (list_array Extent) [] 20 2 list_bytes 32 refl (omega arith) (omega arith)
      (ground arith)

read_list-plain_example :
    Ensures
      (Extends (list_array Extent) [] (extents_at 2 list_bytes 0))
      (read_list (list_array Extent) [] 20 2 list_bytes 32 false)
read_list-plain_example = read_list-plain (list_array Extent) [] 20 2 list_bytes 32 (omega arith)

-- The list with its gaps filled: blocks 0 and 1, 5 to 9, and 17 to 19 are sparse.
read_list_run :
    read_list (list_array Extent) [] 20 2 list_bytes 32 true
    ≡ ok (
        Extents.sparse_extent 0 2
        ∷ first_extent
        ∷ Extents.sparse_extent 5 5
        ∷ second_extent
        ∷ Extents.sparse_extent 17 3
        ∷ [])
unfolding read_list Extents.read_data Extents.read_extents Extents.append Extents.append_gap
    Extents.append_tail Extents.get_last_extent Extents.grow_last Extent.read_data Extent.unpack
    libfsxfs.Bytes.read_uint64
read_list_run = refl
