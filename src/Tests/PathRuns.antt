-- ===== src/Tests/PathRuns.antt =====
-- Paths: runs of libfsxfs_file_system.c on a small volume.
use libfsxfs.Prelude.{
  ℕ, ◌+◌, ◌-◌, ◌*◌, ◌≤◌, ◌≡◌, refl, arith, List, [], ◌∷◌, ◌++◌, ◌==◌, replicate, length, get_elem?,
  Option, some, none, if◌then◌else◌, All,
}
use libfsxfs.Result.{ok, Ensures, ◌>>=◌}
use libfsxfs.Bytes.{same_bytes}
use libfsxfs.Bytes.Encode.{be16, be32, be64}
use libfsxfs.Array.{list_array}
use libfsxfs.Handle.{IoHandle, FileIoHandle}
use libfsxfs.Extent.{Extent}
use libfsxfs.DirectoryEntry.{DirectoryEntry}
use libfsxfs.DirectoryTable.Written.{table_bytes}
use libfsxfs.InodeInformation.{InodeInformation}
use libfsxfs.Directory.{Compare, less, equal}
use libfsxfs.FileSystem
use libfsxfs.FileSystem.{
  Libraries, Unicode, Found, must_get, get_inode_by_number, get_directory_entry_by_path,
}
use libfsxfs.FileSystem.Paths.{CopiesAscii, IsName, path_of, without_separator}
use libfsxfs.FileSystem.Resolve.{resolve, path-resolve, relative_path}
use libfsxfs.FileSystem.Inodes.{IsFound, get_inode_by_number-IsFound}

abbrev pub volume : IoHandle
volume = record {
  format_version = 4;
  secondary_feature_flags = 0;
  block_size = 32;
  allocation_group_size = 1024;
  inode_size = 256;
  directory_block_size = 32;
  number_of_relative_block_number_bits = 10;
  number_of_relative_inode_number_bits = 13;
}

-- An inode of version 2 with its data in it.
abbrev pub inode_bytes : ℕ → List ℕ → List ℕ
inode_bytes file_mode content =
    b'I'
    ∷ b'N'
    ∷ (be16 file_mode
        ++ (2
            ∷ 1
            ∷ (replicate 50 0
                ++ (be64 (length content)
                    ++ (replicate 36 0 ++ (content ++ replicate (156 - length content) 0))))))

-- The table of a directory with one entry.
abbrev pub directory_of : ℕ → ℕ → List ℕ → List ℕ
directory_of parent inode_number name = table_bytes volume 4 parent (
    (
      record { inode_number = inode_number; name = name },
      record { tag_upper = 0; tag_lower = 96; file_type = 0 },
    )
    ∷ [])

-- The root directory 64 has the directory d, 65, and that has the file a, 66. Block 1 says that the
-- inodes from 64 on are there.
abbrev pub file : FileIoHandle
file size offset =
    if offset == 32
    then some (
        b'I'
        ∷ b'A'
        ∷ b'B'
        ∷ b'T'
        ∷ (be16 0 ++ be16 1 ++ be64 0xffffffffffffffff ++ be32 64 ++ be32 0 ++ be64 0))
    else if offset == 64 * 256
    then some (inode_bytes 0x41ed (directory_of 64 65 (b'd' ∷ [])))
    else if offset == 65 * 256
    then some (inode_bytes 0x41ed (directory_of 64 66 (b'a' ∷ [])))
    else if offset == 66 * 256
    then some (inode_bytes 0x81a4 (b'h' ∷ b'i' ∷ []))
    else none

abbrev pub libs : Libraries
libs = record {
  informations = list_array InodeInformation;
  extents = list_array Extent;
  directory_entries = list_array DirectoryEntry;
  blocks_fuel = 0;
}

abbrev pub file_system : FileSystem.FileSystem libs
file_system = record {
  inode_information_array =
      record { inode_btree_root_block_number = 1; inode_btree_depth = 1; last_allocated_chunk = 64 }
      ∷ [];
  root_directory_inode_number = 64;
}

-- Strings of ASCII characters.
abbrev copy_ascii : Option ℕ → ℕ → Option (ℕ × ℕ)
copy_ascii none i = none
copy_ascii (some c) i = some (c, i + 1)

abbrev ascii : Unicode
ascii = record {
  copy_character = λ string i. copy_ascii (get_elem? string i) i;
  compare_string = λ string name. if same_bytes string name then some equal else some less;
}

ascii-CopiesAscii : CopiesAscii ascii
ascii-CopiesAscii string i c h k = rw h

abbrev names : List (List ℕ)
names = (b'd' ∷ []) ∷ (b'a' ∷ []) ∷ []

names-IsName : All IsName names
names-IsName = ground arith

path-resolve_example :
    get_directory_entry_by_path libs file_system volume file ascii (b'/' ∷ b'd' ∷ b'/' ∷ b'a' ∷ [])
    ≡ (must_get libs file_system volume file (get_inode_by_number libs file_system volume file 64)
        >>= λ inode.
            resolve libs file_system volume file ascii names
              (some (record { inode_number = 64; inode = inode; directory_entry = none })))
path-resolve_example =
    path-resolve libs file_system volume file ascii ascii-CopiesAscii names names-IsName
      (omega arith)

relative_path_example :
    (2 ≤ length (without_separator names)
      → get_directory_entry_by_path libs file_system volume file ascii (without_separator names)
        ≡ get_directory_entry_by_path libs file_system volume file ascii (path_of names))
    × (length (without_separator names) ≡ 1
        → get_directory_entry_by_path libs file_system volume file ascii (without_separator names)
          ≡ get_directory_entry_by_path libs file_system volume file ascii [])
relative_path_example =
    relative_path libs file_system volume file ascii ascii-CopiesAscii names names-IsName
      (omega arith)

get_inode_by_number-IsFound_example :
    Ensures (IsFound libs volume file) (get_inode_by_number libs file_system volume file 66)
get_inode_by_number-IsFound_example = get_inode_by_number-IsFound libs file_system volume file 66

abbrev number_and_entry : Option (Found libs) → Option (ℕ × Option DirectoryEntry)
number_and_entry none = none
number_and_entry (some found) = some (found.inode_number, found.directory_entry)

path_run :
    (get_directory_entry_by_path libs file_system volume file ascii (b'/' ∷ b'd' ∷ b'/' ∷ b'a' ∷ [])
      >>= λ found. ok (number_and_entry found))
    ≡ ok (some (66, some (record { inode_number = 66; name = b'a' ∷ [] })))
unfolding get_directory_entry_by_path get_inode_by_number FileSystem.read_found
    FileSystem.read_directory FileSystem.find_segment_end FileSystem.find_segment FileSystem.follow
    FileSystem.walk libfsxfs.InodeBtree.get_inode_by_number libfsxfs.InodeBtree.get_inode_from_node
    libfsxfs.InodeBtree.get_inode_from_block libfsxfs.InodeBtree.get_inode_from_leaf_node
    libfsxfs.InodeBtree.find_in_records libfsxfs.InodeBtree.read_record libfsxfs.Btree.read_block
    libfsxfs.Btree.read_block_data libfsxfs.Btree.read_header libfsxfs.Btree.header_data_size
    libfsxfs.Handle.read_buffer_at_offset libfsxfs.Inode.read_file_io_handle
    libfsxfs.Inode.is_inode_size libfsxfs.Inode.read_data libfsxfs.Inode.read_timestamp
    libfsxfs.Inode.timestamp_of libfsxfs.Inode.read_number_of_links
    libfsxfs.Inode.read_creation_time libfsxfs.Inode.set_forks libfsxfs.Inode.read_data_fork
    libfsxfs.Inode.read_attributes_fork libfsxfs.Directory.read_file_io_handle
    libfsxfs.Directory.compare_entry libfsxfs.Directory.find_entry
    libfsxfs.Directory.get_entry_by_name libfsxfs.DirectoryTable.read_data
    libfsxfs.DirectoryTable.read_header libfsxfs.DirectoryTable.read_entries
    libfsxfs.DirectoryTable.read_inode_number libfsxfs.DirectoryEntry.has_file_type
    libfsxfs.Bytes.slice libfsxfs.Bytes.read_uint8 libfsxfs.Bytes.read_uint16
    libfsxfs.Bytes.read_uint32 libfsxfs.Bytes.read_uint64
path_run = refl
