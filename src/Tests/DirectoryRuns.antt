-- ===== src/Tests/DirectoryRuns.antt =====
-- Directories in blocks, and the search for a name: runs of libfsxfs_directory.c.
use libfsxfs.Prelude.{
  ℕ, ◌≡◌, ◌≢◌, refl, arith, false, List, [], ◌∷◌, ◌==◌, replicate, Option, some, none,
  if◌then◌else◌, All, inl,
}
use mathlib.Core.Option.{some-injective}
use mathlib.Core.Path.{subst}
use libfsxfs.Result.{ok, Ensures, IsTotal, Succeeds}
use libfsxfs.Bytes.{same_bytes}
use libfsxfs.Array.{list_array}
use libfsxfs.Handle.{IoHandle, FileIoHandle}
use libfsxfs.Extent.{Extent}
use libfsxfs.DirectoryEntry.{DirectoryEntry}
use libfsxfs.BlockDirectory.RoundTrip.{entry, free_region}
use libfsxfs.BlockDirectory.Written.{Frame, FrameFits, block_bytes}
use libfsxfs.Inode.{Inode, extents_fork, no_fork}
use libfsxfs.Directory
use libfsxfs.Directory.{Compare, less, equal, get_entry_by_name, read_blocks}
use libfsxfs.Directory.Blocks.{HasWholeBlocks, directory_offsets, read_all, directory_read-all}
use libfsxfs.Extents.Places.{IsPlaced}
use libfsxfs.Directory.Places.{block_places}
use libfsxfs.Directory.Names.{IsFirst, get_entry_by_name-IsFirst}
use libfsxfs.Directory.Safety.{read_blocks_never, directory_read-IsTotal}
use libfsxfs.Directory.Written.{Block, HasBlocks, all_listed, directory_roundtrip}

abbrev volume : IoHandle
volume = record {
  format_version = 4;
  secondary_feature_flags = 0;
  block_size = 64;
  allocation_group_size = 12;
  inode_size = 256;
  directory_block_size = 64;
  number_of_relative_block_number_bits = 4;
  number_of_relative_inode_number_bits = 8;
}

abbrev frame : Frame
frame = record {
  is_version_3 = false;
  has_footer = false;
  header_rest = replicate 12 0;
  hash_values = [];
  number_of_hash_values = 0;
  footer_rest = replicate 4 0;
}

frame-FrameFits : FrameFits frame
frame-FrameFits = record {
  header_size = refl;
  hash_size = refl;
  number_fits = omega arith;
  footer_size = refl;
}

abbrev entry_a : DirectoryEntry
entry_a = record { inode_number = 131; name = b'a' ∷ [] }

abbrev entry_bc : DirectoryEntry
entry_bc = record { inode_number = 132; name = b'b' ∷ b'c' ∷ [] }

-- A file, and 32 free bytes.
abbrev first_block : Block
first_block = record {
  frame = frame;
  items =
      entry entry_a
        (record { file_type = 0; padding = replicate 4 0; tag_upper = 0; tag_lower = 16 })
      ∷ free_region (replicate 28 0)
      ∷ [];
}

abbrev second_block : Block
second_block = record {
  frame = frame;
  items =
      free_region (replicate 28 0)
      ∷ entry entry_bc
          (record { file_type = 0; padding = replicate 3 0; tag_upper = 0; tag_lower = 48 })
      ∷ [];
}

-- Blocks 5 and 6 of group 1.
abbrev file : FileIoHandle
file size offset =
    if offset == 1088
    then some (block_bytes volume first_block.frame first_block.items)
    else if offset == 1152
    then some (block_bytes volume second_block.frame second_block.items)
    else none

-- The leaf block of the directory stands at the leaf offset.
abbrev directory_extents : List Extent
directory_extents =
    record {
      logical_block_number = 0;
      physical_block_number = 21;
      number_of_blocks = 2;
      range_flags = 0;
    }
    ∷ record {
      logical_block_number = 0x20000000;
      physical_block_number = 7;
      number_of_blocks = 1;
      range_flags = 0;
    }
    ∷ []

abbrev directory_inode : Inode (list_array Extent)
directory_inode = record {
  fields = record {
    format_version = 2;
    file_mode = 0x41ed;
    owner_identifier = 0;
    group_identifier = 0;
    number_of_links = 2;
    access_time = 0;
    modification_time = 0;
    inode_change_time = 0;
    creation_time = 0;
    size = 128;
    fork_type = 2;
    number_of_data_extents = 2;
    data_fork_offset = 100;
    data_fork_size = 156;
    attributes_fork_type = 2;
    number_of_attributes_extents = 0;
    attributes_fork_offset = 0;
    attributes_fork_size = 0;
  };
  device_identifier = 0;
  data_fork = extents_fork (list_array Extent) directory_extents;
  attributes_fork = no_fork (list_array Extent);
}

directory_extents-HasWholeBlocks : All (HasWholeBlocks volume 2) directory_extents
directory_extents-HasWholeBlocks = (
  (omega arith, omega arith, refl, omega arith),
  ((omega arith, omega arith, refl, omega arith), tt),
)

directory_extents-IsPlaced : All (IsPlaced volume) directory_extents
directory_extents-IsPlaced = (
  record { group_fits = omega arith; end_fits = omega arith },
  (record { group_fits = omega arith; end_fits = omega arith }, tt),
)

directory_offsets_run : directory_offsets volume directory_extents ≡ 1088 ∷ 1152 ∷ []
unfolding libfsxfs.Handle.block_offset
directory_offsets_run = refl

directory_read-all_example :
    Directory.read_file_io_handle
      (list_array DirectoryEntry)
      volume
      file
      (list_array Extent)
      2
      directory_inode
      []
    ≡ read_all
        (list_array DirectoryEntry)
        volume
        file
        (directory_offsets volume directory_extents)
        []
directory_read-all_example =
    directory_read-all (list_array DirectoryEntry) volume file (list_array Extent) 2 directory_inode
      directory_extents [] refl refl (inl refl) (omega arith) (omega arith) (omega arith)
      directory_extents-HasWholeBlocks

blocks-HasBlocks :
    HasBlocks volume file (block_places volume directory_extents) (first_block ∷ second_block ∷ [])
unfolding libfsxfs.DirectoryEntry.has_file_type
blocks-HasBlocks =
    (refl, refl, frame-FrameFits, ground arith, (refl, refl, frame-FrameFits, ground arith, tt))

directory_roundtrip_example :
    (after : List DirectoryEntry) × (Directory.read_file_io_handle
        (list_array DirectoryEntry)
        volume
        file
        (list_array Extent)
        2
        directory_inode
        []
      ≡ ok after)
    × (after ≡ all_listed (first_block ∷ second_block ∷ []))
directory_roundtrip_example =
    directory_roundtrip (list_array DirectoryEntry) (λ entries_array e. (_, refl)) volume file
      (list_array Extent) 2 directory_inode directory_extents (first_block ∷ second_block ∷ []) []
      refl refl (inl refl) (omega arith) (omega arith) (omega arith) refl
      directory_extents-HasWholeBlocks directory_extents-IsPlaced blocks-HasBlocks

all_listed_run : all_listed (first_block ∷ second_block ∷ []) ≡ entry_a ∷ entry_bc ∷ []
unfolding libfsxfs.BlockDirectory.is_ignored
all_listed_run = refl

-- Directory blocks of two blocks, and an extent of three.
read_blocks_never_example :
    read_blocks
      (list_array DirectoryEntry)
      (record volume { directory_block_size = 128 })
      file
      9
      320
      192
      []
    ≢ ok []
read_blocks_never_example =
    read_blocks_never (list_array DirectoryEntry) (record volume { directory_block_size = 128 })
      file 144115188075855872 9 320 192 [] [] (omega arith) refl (omega arith) (omega arith)

abbrev extents_of_directory :
    (extents : List Extent)
    → some directory_extents ≡ some extents
    → All (HasWholeBlocks volume 2) extents
extents_of_directory extents e =
    subst (All (HasWholeBlocks volume 2)) (some-injective _ _ e) directory_extents-HasWholeBlocks

directory_read-IsTotal_example : IsTotal (
    Directory.read_file_io_handle
      (list_array DirectoryEntry)
      volume
      file
      (list_array Extent)
      2
      directory_inode
      [])
directory_read-IsTotal_example =
    directory_read-IsTotal (list_array DirectoryEntry) volume file (list_array Extent) 2
      directory_inode [] ((λ inline. absurd (omega arith)), λ other. (directory_extents, refl))
      (omega arith) extents_of_directory

abbrev compare_exactly : List ℕ → List ℕ → Option Compare
compare_exactly string name = if same_bytes string name then some equal else some less

get_entry_by_name-IsFirst_example :
    Ensures
      (IsFirst
        (list_array DirectoryEntry)
        (compare_exactly (b'b' ∷ b'c' ∷ []))
        (entry_a ∷ entry_bc ∷ []))
      (get_entry_by_name
        (list_array DirectoryEntry)
        (compare_exactly (b'b' ∷ b'c' ∷ []))
        (entry_a ∷ entry_bc ∷ []))
    × (All
          (λ e. (c : Compare) × (compare_exactly (b'b' ∷ b'c' ∷ []) e.name ≡ some c))
          (entry_a ∷ entry_bc ∷ [])
        → Succeeds (
            get_entry_by_name
              (list_array DirectoryEntry)
              (compare_exactly (b'b' ∷ b'c' ∷ []))
              (entry_a ∷ entry_bc ∷ [])))
get_entry_by_name-IsFirst_example =
    get_entry_by_name-IsFirst (list_array DirectoryEntry) (compare_exactly (b'b' ∷ b'c' ∷ []))
      (entry_a ∷ entry_bc ∷ [])
