-- ===== src/Tests/FileEntryRuns.antt =====
-- File entries: a run of libfsxfs_file_entry.c on the small volume of the paths.
use libfsxfs.Prelude.{
  arith, ◌/◌, ◌^◌, ◌⊎◌, ◌↔◌, ℕ, ◌≡◌, refl, List, [], ◌∷◌, ◌++◌, length, some, none,
}
use libfsxfs.Result.{ok}
use libfsxfs.Bytes.Encode.{be16}
use libfsxfs.Array.{list_array}
use libfsxfs.Stream.{plain_stream}
use libfsxfs.Extent.{Extent, ExtentValues}
use libfsxfs.Handle.{IoHandle}
use libfsxfs.Inode.{Inode, get_extent_by_index}
use libfsxfs.DirectoryEntry.{DirectoryEntry}
use libfsxfs.AttributesTable.{AttributeValues}
use libfsxfs.DataStream.{DataHandle, segment_of}
use libfsxfs.FileEntry
use libfsxfs.FileEntry.{
  FileLibraries, get_number_of_sub_file_entries, get_number_of_extended_attributes,
  file_entry_get_extent_by_index,
}
use libfsxfs.FileEntry.Caches.{
  Steps, no_steps, more_steps, counts_entries, counts_attributes, first, number_of_entries,
  number_of_attributes, count-Steps,
}
use libfsxfs.FileEntry.Extents.{extent_offset_iff}
use libfsxfs.Tests.PathRuns.{volume, directory_of, file, libs, file_system}

abbrev file_libs : FileLibraries
file_libs = record {
  file_system_libraries = libs;
  attributes = list_array AttributeValues;
  streams = plain_stream DataHandle;
  read_stream = λ stream size offset. none;
}

-- A directory with one entry and one extended attribute, both in the inode.
abbrev table : List ℕ
table = directory_of 64 65 (b'd' ∷ [])

abbrev attribute_table : List ℕ
attribute_table = be16 10 ++ (1 ∷ 0 ∷ 1 ∷ 2 ∷ 0 ∷ b'a' ∷ 7 ∷ 8 ∷ [])

abbrev inode : Inode (list_array Extent)
inode = record {
  fields = record {
    format_version = 2;
    file_mode = 0x41ed;
    owner_identifier = 0;
    group_identifier = 0;
    number_of_links = 1;
    access_time = 0;
    modification_time = 0;
    inode_change_time = 0;
    creation_time = 0;
    size = length table;
    fork_type = 1;
    number_of_data_extents = 0;
    data_fork_offset = 100;
    data_fork_size = 136;
    attributes_fork_type = 1;
    number_of_attributes_extents = 0;
    attributes_fork_offset = 236;
    attributes_fork_size = length attribute_table;
  };
  device_identifier = 0;
  data_fork = record { inline_data = some table; extents_array = none };
  attributes_fork = record { inline_data = some attribute_table; extents_array = none };
}

abbrev fresh : FileEntry.FileEntry file_libs
fresh = record {
  inode_number = 64;
  inode = inode;
  directory_entry = none;
  extended_attributes_array = none;
  directory = none;
  data_size = 0;
  data_stream = none;
  symbolic_link_data = none;
}

abbrev with_entries : FileEntry.FileEntry file_libs
with_entries = record fresh {
  directory = some (record { inode_number = 65; name = b'd' ∷ [] } ∷ []);
}

counts_entries_run :
    get_number_of_sub_file_entries file_libs file_system volume file fresh
    ≡ ok (some 1, with_entries)
unfolding get_number_of_sub_file_entries FileEntry.with_directory FileEntry.get_directory
    libfsxfs.FileSystem.read_directory libfsxfs.Directory.read_file_io_handle
    libfsxfs.DirectoryTable.read_data libfsxfs.DirectoryTable.read_header
    libfsxfs.DirectoryTable.read_entries libfsxfs.DirectoryTable.read_inode_number
    libfsxfs.DirectoryEntry.has_file_type libfsxfs.Bytes.slice libfsxfs.Bytes.read_uint8
    libfsxfs.Bytes.read_uint16 libfsxfs.Bytes.read_uint32 libfsxfs.Bytes.read_uint64
counts_entries_run = refl

abbrev with_attributes : FileEntry.FileEntry file_libs
with_attributes = record with_entries {
  extended_attributes_array = some (
      record {
        name = b'u' ∷ b's' ∷ b'e' ∷ b'r' ∷ b'.' ∷ b'a' ∷ 0 ∷ [];
        value_data_size = 2;
        value_data = some (7 ∷ 8 ∷ []);
        value_data_block_number = 0;
      }
      ∷ []);
}

counts_attributes_run :
    get_number_of_extended_attributes file_libs file_system volume file with_entries
    ≡ ok (some 1, with_attributes)
unfolding get_number_of_extended_attributes FileEntry.with_attributes
    FileEntry.get_extended_attributes FileEntry.read_attributes_of_inode
    libfsxfs.Attributes.get_from_inode libfsxfs.AttributesTable.read_data
    libfsxfs.AttributesTable.read_attributes libfsxfs.AttributesTable.read_name
    libfsxfs.AttributesTable.read_value libfsxfs.AttributesTable.name_prefix libfsxfs.Bytes.slice
    libfsxfs.Bytes.read_uint8 libfsxfs.Bytes.read_uint16 libfsxfs.Bytes.read_uint32
counts_attributes_run = refl

abbrev two_steps : Steps file_libs file_system volume file fresh with_attributes
two_steps =
    more_steps fresh with_entries with_attributes
      (more_steps fresh fresh with_entries (no_steps fresh)
        (counts_entries fresh with_entries (some 1) counts_entries_run))
      (counts_attributes with_entries with_attributes (some 1) counts_attributes_run)

count-Steps_example :
    (first file_libs file_system volume file
        (get_number_of_sub_file_entries file_libs file_system volume file with_attributes)
      ≡ number_of_entries file_libs file_system volume file inode)
    × (first file_libs file_system volume file
          (get_number_of_extended_attributes file_libs file_system volume file with_attributes)
        ≡ number_of_attributes file_libs file_system volume file inode)
count-Steps_example =
    count-Steps file_libs file_system volume file fresh with_attributes (refl, refl) two_steps

-- A volume with groups of 1000 blocks, whose block numbers have 10 bits, and a file with an extent at
-- block 5 of group 1.
abbrev short_groups : IoHandle
short_groups = record volume { allocation_group_size = 1000 }

abbrev extent : Extent
extent = record {
  logical_block_number = 0;
  physical_block_number = 1029;
  number_of_blocks = 2;
  range_flags = 0;
}

abbrev with_extent : FileEntry.FileEntry file_libs
with_extent = record fresh {
  inode = record inode {
    data_fork = record { inline_data = none; extents_array = some (extent ∷ []) };
  };
}

abbrev given : ExtentValues
given = record { extent_offset = 32928; extent_size = 64; extent_flags = 0 }

extent_run :
    file_entry_get_extent_by_index file_libs file_system short_groups file with_extent 0 ≡ ok given
unfolding file_entry_get_extent_by_index libfsxfs.Inode.get_extent_by_index
    libfsxfs.Extent.get_values
extent_run = refl

found_run : get_extent_by_index (list_array Extent) with_extent.inode.data_fork 0 ≡ ok extent
unfolding get_extent_by_index
found_run = refl

extent_offset_iff_example : (given.extent_offset ≡ (segment_of short_groups extent).offset) ↔ (
    (extent.physical_block_number / 2 ^ short_groups.number_of_relative_block_number_bits ≡ 0)
    ⊎ (short_groups.allocation_group_size ≡ 2 ^ short_groups.number_of_relative_block_number_bits))
extent_offset_iff_example =
    extent_offset_iff file_libs file_system short_groups file with_extent 0 extent given found_run
      extent_run (record { groups_fit = omega arith; group_small = omega arith })
