-- ===== src/Tests/TableRuns.antt =====
-- Directory tables: runs of libfsxfs_directory_table.c.
use libfsxfs.Prelude.{ℕ, ◌≡◌, refl, arith, List, [], ◌∷◌, inl}
use libfsxfs.Result.{ok}
use libfsxfs.Array.{list_array}
use libfsxfs.Handle.{IoHandle}
use libfsxfs.DirectoryEntry.{DirectoryEntry}
use libfsxfs.DirectoryTable
use libfsxfs.DirectoryTable.{DirectoryTableHeader}
use libfsxfs.DirectoryTable.RoundTrip.{Extra, names_of}
use libfsxfs.DirectoryTable.Written.{table_bytes, table_read_data_roundtrip}

abbrev io_handle : IoHandle
io_handle = record {
  format_version = 5;
  secondary_feature_flags = 0;
  block_size = 4096;
  allocation_group_size = 16;
  inode_size = 512;
  directory_block_size = 4096;
  number_of_relative_block_number_bits = 4;
  number_of_relative_inode_number_bits = 8;
}

abbrev two_entries : List (DirectoryEntry × Extra)
two_entries =
    (
      record { inode_number = 131; name = b'a' ∷ [] },
      record { tag_upper = 0; tag_lower = 96; file_type = 1 },
    )
    ∷ (
      record { inode_number = 132; name = b'b' ∷ b'c' ∷ [] },
      record { tag_upper = 0; tag_lower = 112; file_type = 2 },
    )
    ∷ []

-- The second entry has a name size of 200, which goes beyond the data.
abbrev torn_bytes : List ℕ
torn_bytes = 2 ∷ 0 ∷ 0 ∷ 0 ∷ 0 ∷ 128 ∷ 1 ∷ 0 ∷ 96 ∷ b'a' ∷ 1 ∷ 0 ∷ 0 ∷ 0 ∷ 131 ∷ 200 ∷ []

abbrev two_entries_header : DirectoryTableHeader
two_entries_header = record {
  number_of_entries = 2;
  inode_number_data_size = 4;
  parent_inode_number = 128;
}

table_read_data_roundtrip_example :
    (after : List DirectoryEntry) × (DirectoryTable.read_data
        (list_array DirectoryEntry)
        io_handle
        (table_bytes io_handle 4 128 two_entries)
        25
        []
      ≡ ok (two_entries_header, after))
    × (after ≡ names_of two_entries)
unfolding libfsxfs.DirectoryEntry.has_file_type
table_read_data_roundtrip_example =
    table_read_data_roundtrip (list_array DirectoryEntry) (λ entries_array e. (_, refl)) io_handle 4
      128 two_entries [] (inl (refl, omega arith)) (omega arith, λ wide. absurd (omega arith))
      (ground arith) (omega arith)
