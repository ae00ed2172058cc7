-- ===== src/FileSystem.antt =====
-- libfsxfs_file_system.c: an inode by its number, and the entry and the inode of a path.
-- Where the source prepares its results, the result of 0 is none, and NULL for a directory entry is
-- none too.
pub mod Paths
pub mod Resolve
pub mod Inodes
use libfsxfs.Prelude.{
  ℕ, zero, suc, ◌+◌, Bool, true, false, List, [], ◌∷◌, length, take, drop, ◌==◌, ltb, ◌||◌, not,
  if◌then◌else◌, Option, none, some,
}
use libfsxfs.Result.{
  Result, ok, exhausted, value_out_of_bounds, value_exceeds_maximum, get_failed, copy_failed,
  initialize_failed, ◌>>=◌, ◌>>◌, fail_if, or_fail,
}
use libfsxfs.Word.{u32_mod, int64_max, sub64}
use libfsxfs.Array.{CdataArray}
use libfsxfs.Handle.{IoHandle, FileIoHandle}
use libfsxfs.Extent.{Extent}
use libfsxfs.InodeInformation.{InodeInformation}
use libfsxfs.InodeBtree
use libfsxfs.Inode
use libfsxfs.Inode.{Inode}
use libfsxfs.DirectoryEntry.{DirectoryEntry}
use libfsxfs.Directory
use libfsxfs.Directory.{Compare, get_entry_by_name}

-- LIBFSXFS_SEPARATOR
abbrev pub separator : ℕ
separator = b'/'

-- The libraries that the calls below pass on, and the fuel for the blocks of an extent of a
-- directory.
pub record Libraries : Type 1 where
  pub informations : CdataArray InodeInformation
  pub extents : CdataArray Extent
  pub directory_entries : CdataArray DirectoryEntry
  pub blocks_fuel : ℕ

-- What stands for libuna: the character at an index of a string and the index behind it, and the
-- comparison of a string with a name; none stands for -1. The strings are of bytes for UTF-8, and
-- of 16-bit values for UTF-16.
pub record Unicode : Type 0 where
  pub copy_character : List ℕ → ℕ → Option (ℕ × ℕ)
  pub compare_string : List ℕ → List ℕ → Option Compare

module _ (libs : Libraries) where
  -- libfsxfs_file_system_t; the array is that of its inode B+ tree.
  pub record FileSystem : Type 0 where
    pub inode_information_array : CdataArray.Array libs.informations
    pub root_directory_inode_number : ℕ

  -- What a path leads to.
  pub record Found : Type 0 where
    pub inode_number : ℕ
    pub inode : Inode libs.extents
    pub directory_entry : Option DirectoryEntry

  module _ (file_system : FileSystem) (io_handle : IoHandle) (file : FileIoHandle) where
    -- `if( ... != 1 )`, where 0 ends the caller too.
    abbrev pub must_get {ℓ} : {A : Type ℓ} → Result (Option A) → Result A
    must_get result = do found ← result; or_fail found get_failed

    unfoldable pub read_found : Option ℕ → Result (Option (Inode libs.extents))
    read_found none = ok none
    read_found (some file_offset) = do
      inode ← Inode.read_file_io_handle libs.extents io_handle file io_handle.inode_size file_offset
      ok (some inode)

    unfoldable pub get_inode_by_number : ℕ → Result (Option (Inode libs.extents))
    get_inode_by_number inode_number = do
      fail_if (io_handle.inode_size == 0) value_out_of_bounds
      fail_if (inode_number == 0 || not (ltb inode_number u32_mod)) value_out_of_bounds
      file_offset ←
          InodeBtree.get_inode_by_number libs.informations file_system.inode_information_array
            io_handle file inode_number
      read_found file_offset

    -- The entries of the directory of an inode.
    unfoldable pub read_directory :
        Inode libs.extents → Result (CdataArray.Array libs.directory_entries)
    read_directory inode = do
      entries_array ← or_fail (CdataArray.initialize libs.directory_entries) initialize_failed
      Directory.read_file_io_handle libs.directory_entries io_handle file libs.extents
          libs.blocks_fuel inode entries_array

    module _ (unicode : Unicode) where
      open unicode use {copy_character, compare_string}

      -- The inner loop, on fuel: the index behind the segment, and 1 where a separator was passed.
      unfoldable pub find_segment_end : ℕ → List ℕ → ℕ → Result (ℕ × ℕ)
      find_segment_end zero string string_index =
          if ltb string_index (length string) then exhausted else ok (string_index, 0)
      find_segment_end (suc fuel) string string_index =
          if ltb string_index (length string)
          then (do
            (character, next_index) ← or_fail (copy_character string string_index) copy_failed
            if character == separator || character == 0
                then ok (next_index, 1)
                else find_segment_end fuel string next_index)
          else ok (string_index, 0)

      -- A segment of no characters is not looked for.
      unfoldable pub find_segment :
          List ℕ → CdataArray.Array libs.directory_entries → Result (Option DirectoryEntry)
      find_segment segment entries_array =
          if length segment == 0
          then ok none
          else get_entry_by_name libs.directory_entries (compare_string segment) entries_array

      -- The inode of an entry that was found.
      unfoldable pub follow : Option DirectoryEntry → Result (Option Found)
      follow none = ok none
      follow (some directory_entry) = do
        inode ← must_get (get_inode_by_number directory_entry.inode_number)
        ok (
            some (record {
              inode_number = directory_entry.inode_number;
              inode = inode;
              directory_entry = some directory_entry;
            }))

      -- The loop over the segments, on fuel.
      unfoldable pub walk : ℕ → List ℕ → ℕ → Option Found → Result (Option Found)
      walk fuel string string_index none = ok none
      walk zero string string_index (some found) =
          if ltb string_index (length string) then exhausted else ok (some found)
      walk (suc fuel) string string_index (some found) =
          if ltb string_index (length string)
          then (do
            entries_array ← read_directory found.inode
            (next_index, separators) ← find_segment_end (length string) string string_index
            let segment_length = sub64 next_index (string_index + separators)
            directory_entry ←
                find_segment (take segment_length (drop string_index string)) entries_array
            next ← follow directory_entry
            walk fuel string next_index next)
          else ok (some found)

      -- A leading separator is ignored.
      abbrev pub first_index : List ℕ → ℕ
      first_index [] = 0
      first_index (c ∷ cs) = if c == separator then 1 else 0

      -- `libfsxfs_file_system_get_directory_entry_by_utf8_path` and its twin for UTF-16.
      unfoldable pub get_directory_entry_by_path : List ℕ → Result (Option Found)
      get_directory_entry_by_path string = do
        fail_if (ltb int64_max (length string)) value_exceeds_maximum
        inode ← must_get (get_inode_by_number file_system.root_directory_inode_number)
        let root : Found = record {
          inode_number = file_system.root_directory_inode_number;
          inode = inode;
          directory_entry = none;
        }
        if length string == 0 || length string == 1
            then ok (some root)
            else walk (length string) string (first_index string) (some root)
