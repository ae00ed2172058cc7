-- ===== src/Tests/VolumeRuns.antt =====
-- A volume of two allocation groups: runs of libfsxfs_superblock.c and libfsxfs_volume.c.
use libfsxfs.Prelude.{
  ℕ, zero, suc, ◌<◌, ◌≡◌, refl, arith, List, [], ◌∷◌, ◌++◌, some, none, ◌==◌, if◌then◌else◌,
  get_elem?, Bool, true, false, ◌&&◌,
}
use libfsxfs.Result.{ok, err, read_failed, Ensures}
use libfsxfs.Bytes.Encode.{be16, be32, be64}
use libfsxfs.Array.{list_array}
use libfsxfs.Handle.{FileIoHandle, read_buffer_at_offset}
use libfsxfs.InodeInformation
use libfsxfs.InodeInformation.{InodeInformation}
use libfsxfs.InodeBtree
use libfsxfs.Superblock
use libfsxfs.Superblock.{Superblock}
use libfsxfs.Superblock.Supported.{IsSupported, superblock_read-IsSupported}
use libfsxfs.Volume.{io_handle_of, open_read, read_group, read_groups, read_information}
use libfsxfs.Volume.Skips.{search_first_group, open_read-skips_search}
use libfsxfs.Volume.Groups.{found_groups, group_information, open_read-found, open_read-get}

abbrev zeros : ℕ → List ℕ
zeros zero = []
zeros (suc n) = 0 ∷ zeros n

-- Blocks of 512 bytes, 5 to a group.
abbrev superblock_bytes : List ℕ
superblock_bytes =
    (b'X' ∷ b'F' ∷ b'S' ∷ b'B' ∷ [])
    ++ be32 512
    ++ be64 10
    ++ zeros 32
    ++ be64 3
    ++ be64 128
    ++ zeros 20
    ++ be32 5
    ++ be32 2
    ++ zeros 8
    ++ be16 4
    ++ be16 512
    ++ be16 256
    ++ be16 2
    ++ zeros 12
    ++ (9 ∷ 9 ∷ 8 ∷ 1 ∷ 3 ∷ [])
    ++ zeros 387

abbrev information_bytes : ℕ → List ℕ
information_bytes root =
    (b'X' ∷ b'A' ∷ b'G' ∷ b'I' ∷ [])
    ++ be32 1
    ++ zeros 12
    ++ be32 root
    ++ be32 1
    ++ zeros 4
    ++ be32 64
    ++ zeros 476

-- Each group has a superblock, and its information behind two sectors; `readable` says whether that of
-- the first group can be read.
abbrev volume_file : Bool → FileIoHandle
volume_file readable size offset =
    if offset == 0
    then some superblock_bytes
    else if offset == 2560
    then some superblock_bytes
    else if offset == 3584
    then some (information_bytes 4)
    else if readable && (offset == 1024)
    then some (information_bytes 3)
    else none

abbrev information_of : ℕ → InodeInformation
information_of root = record {
  inode_btree_root_block_number = root;
  inode_btree_depth = 1;
  last_allocated_chunk = 64;
}

abbrev read_superblock : Superblock
read_superblock = record {
  block_size = 512;
  number_of_blocks = 10;
  journal_block_number = 3;
  root_directory_inode_number = 128;
  allocation_group_size = 5;
  number_of_allocation_groups = 2;
  format_version = 4;
  feature_flags = 0;
  sector_size = 512;
  inode_size = 256;
  directory_block_size = 512;
  volume_label = zeros 12;
  secondary_feature_flags = 0;
  number_of_relative_block_number_bits = 3;
  number_of_relative_inode_number_bits = 4;
}

read_superblock_run : Superblock.read_file_io_handle (volume_file true) 0 ≡ ok read_superblock
unfolding Superblock.read_file_io_handle read_buffer_at_offset Superblock.read_data
    libfsxfs.Bytes.slice Superblock.read_fields libfsxfs.Bytes.read_uint32
    libfsxfs.Bytes.read_uint64 libfsxfs.Bytes.read_uint16 libfsxfs.Bytes.read_uint8
    Superblock.check_sizes Superblock.is_sector_size Superblock.directory_block_size_of
    Superblock.check_groups
read_superblock_run = refl

superblock_read-IsSupported_example :
    Ensures IsSupported (Superblock.read_file_io_handle (volume_file true) 2560)
superblock_read-IsSupported_example = superblock_read-IsSupported (volume_file true) 2560

-- The volume opens, also where the information of the first group is missing.
open_run :
    open_read (list_array InodeInformation) (volume_file true) []
    ≡ ok (read_superblock, information_of 3 ∷ information_of 4 ∷ [])
unfolding open_read read_group read_groups read_information InodeBtree.read_inode_information
    InodeInformation.read_file_io_handle InodeInformation.read_data Superblock.read_file_io_handle
    read_buffer_at_offset Superblock.read_data libfsxfs.Bytes.slice Superblock.read_fields
    libfsxfs.Bytes.read_uint32 libfsxfs.Bytes.read_uint64 libfsxfs.Bytes.read_uint16
    libfsxfs.Bytes.read_uint8 Superblock.check_sizes Superblock.is_sector_size
    Superblock.directory_block_size_of Superblock.check_groups
open_run = refl

open_skips_run :
    open_read (list_array InodeInformation) (volume_file false) []
    ≡ ok (read_superblock, information_of 4 ∷ [])
unfolding open_read read_group read_groups read_information InodeBtree.read_inode_information
    InodeInformation.read_file_io_handle InodeInformation.read_data Superblock.read_file_io_handle
    read_buffer_at_offset Superblock.read_data libfsxfs.Bytes.slice Superblock.read_fields
    libfsxfs.Bytes.read_uint32 libfsxfs.Bytes.read_uint64 libfsxfs.Bytes.read_uint16
    libfsxfs.Bytes.read_uint8 Superblock.check_sizes Superblock.is_sector_size
    Superblock.directory_block_size_of Superblock.check_groups
open_skips_run = refl

missing_run : group_information read_superblock (volume_file false) 0 ≡ err read_failed
unfolding InodeInformation.read_file_io_handle InodeInformation.read_data
    libfsxfs.Handle.read_buffer_at_offset libfsxfs.Bytes.slice libfsxfs.Bytes.read_uint32
missing_run = refl

first_group_run : group_information read_superblock (volume_file true) 0 ≡ ok (information_of 3)
unfolding InodeInformation.read_file_io_handle InodeInformation.read_data
    libfsxfs.Handle.read_buffer_at_offset libfsxfs.Bytes.slice libfsxfs.Bytes.read_uint32
first_group_run = refl

second_group_run :
    (readable : Bool)
    → group_information read_superblock (volume_file readable) 2560 ≡ ok (information_of 4)
unfolding InodeInformation.read_file_io_handle InodeInformation.read_data
    libfsxfs.Handle.read_buffer_at_offset libfsxfs.Bytes.slice libfsxfs.Bytes.read_uint32
second_group_run readable = refl

open_read-found_example :
    Ensures
      (λ v.
        IsSupported v.0
        × (0 < v.0.number_of_allocation_groups)
        × (v.1 ≡ found_groups v.0 (volume_file true) v.0.number_of_allocation_groups 0))
      (open_read (list_array InodeInformation) (volume_file true) [])
open_read-found_example =
    open_read-found (list_array InodeInformation) (λ information info. (_, refl)) (volume_file true)
      []

open_read-skips_search_example :
    (get_elem? (information_of 4 ∷ []) 0 ≡ some (information_of 4))
    × (InodeBtree.get_inode_by_number
          (list_array InodeInformation)
          (information_of 4 ∷ [])
          (io_handle_of read_superblock)
          (volume_file false)
          3
        ≡ search_first_group
            (io_handle_of read_superblock)
            (volume_file false)
            (information_of 4)
            3)
open_read-skips_search_example =
    open_read-skips_search (list_array InodeInformation) (λ information info. (_, refl))
      (volume_file false) [] (information_of 4 ∷ []) read_superblock (information_of 4) read_failed
      3 refl open_skips_run (omega arith) missing_run (second_group_run false) (omega arith)

only_first : (j : ℕ) → j < 1 → j ≡ 0
only_first j h = omega arith

open_read-get_example :
    get_elem? (information_of 3 ∷ information_of 4 ∷ []) 1 ≡ some (information_of 4)
open_read-get_example =
    open_read-get (list_array InodeInformation) (λ information info. (_, refl)) (volume_file true)
      [] (information_of 3 ∷ information_of 4 ∷ []) read_superblock 1 (information_of 4) refl
      open_run (omega arith)
      (λ j below. (information_of 3, rw (only_first j below) first_group_run))
      (second_group_run true)
