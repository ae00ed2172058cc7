-- ===== src/Tests/BlockRuns.antt =====
-- Block directories: runs of libfsxfs_block_directory.c.
use libfsxfs.Prelude.{ℕ, ◌≡◌, refl, arith, List, [], ◌∷◌, ◌++◌, true, false}
use libfsxfs.Result.{ok, IsTotal}
use libfsxfs.Bytes.Encode.{be16, be64}
use libfsxfs.Array.{list_array}
use libfsxfs.Handle.{IoHandle}
use libfsxfs.DirectoryEntry.{DirectoryEntry}
use libfsxfs.BlockDirectory
use libfsxfs.BlockDirectory.RoundTrip.{Item, entry, free_region, listed}
use libfsxfs.BlockDirectory.Safety.{block_read_data-IsTotal}
use libfsxfs.BlockDirectory.Written.{Frame, block_bytes, block_read_data_roundtrip}

abbrev io_handle : IoHandle
io_handle = record {
  format_version = 4;
  secondary_feature_flags = 0;
  block_size = 64;
  allocation_group_size = 16;
  inode_size = 256;
  directory_block_size = 64;
  number_of_relative_block_number_bits = 4;
  number_of_relative_inode_number_bits = 8;
}

abbrev zeros_12 : List ℕ
zeros_12 = 0 ∷ 0 ∷ 0 ∷ 0 ∷ 0 ∷ 0 ∷ 0 ∷ 0 ∷ 0 ∷ 0 ∷ 0 ∷ 0 ∷ []

abbrev one_block : Frame
one_block = record {
  is_version_3 = false;
  has_footer = true;
  header_rest = zeros_12;
  hash_values = be64 7;
  number_of_hash_values = 1;
  footer_rest = 0 ∷ 0 ∷ 0 ∷ 0 ∷ [];
}

-- The directory itself, a free region, and a file.
abbrev items : List Item
items =
    entry (record { inode_number = 128; name = b'.' ∷ [] })
      (record { file_type = 0; padding = 0 ∷ 0 ∷ 0 ∷ 0 ∷ []; tag_upper = 0; tag_lower = 16 })
    ∷ free_region (0 ∷ 0 ∷ 0 ∷ 0 ∷ [])
    ∷ entry (record { inode_number = 131; name = b'a' ∷ b'b' ∷ [] })
        (record { file_type = 0; padding = 0 ∷ 0 ∷ 0 ∷ []; tag_upper = 0; tag_lower = 40 })
    ∷ []

-- A free region of 65535 bytes goes beyond the data.
abbrev long_region_bytes : List ℕ
long_region_bytes = b'X' ∷ b'D' ∷ b'2' ∷ b'D' ∷ (zeros_12 ++ (be16 65535 ++ be16 65535))

block_read_data-IsTotal_example :
    IsTotal (BlockDirectory.read_data (list_array DirectoryEntry) io_handle long_region_bytes 20 [])
block_read_data-IsTotal_example =
    block_read_data-IsTotal (list_array DirectoryEntry) io_handle long_region_bytes 20 []
      (omega arith)

block_read_data_roundtrip_example :
    (after : List DirectoryEntry) × (BlockDirectory.read_data
        (list_array DirectoryEntry)
        io_handle
        (block_bytes io_handle one_block items)
        72
        []
      ≡ ok after)
    × (after ≡ listed items)
unfolding libfsxfs.DirectoryEntry.has_file_type
block_read_data_roundtrip_example =
    block_read_data_roundtrip (list_array DirectoryEntry) (λ entries_array e. (_, refl)) io_handle
      one_block items []
      (record {
        header_size = refl;
        hash_size = refl;
        number_fits = omega arith;
        footer_size = refl;
      })
      (ground arith) (omega arith)

listed_run : listed items ≡ record { inode_number = 131; name = b'a' ∷ b'b' ∷ [] } ∷ []
unfolding BlockDirectory.is_ignored
listed_run = refl
