-- ===== src/FileEntry.antt =====
-- libfsxfs_file_entry.c: a file or directory, which reads its directory, its extended attributes and
-- its symbolic link target when they are first asked for, and keeps them. The lock around each call is
-- left out. A call that fails gives no file entry: the code's is then as it was before the call, or
-- has read its directory.
pub mod Caches
pub mod Extents
use libfsxfs.Prelude.{
  ℕ, zero, suc, ◌+◌, Bool, true, false, List, length, ◌==◌, ltb, ◌||◌, not, if◌then◌else◌, Option,
  none, some,
}
use libfsxfs.Result.{
  Result, ok, value_out_of_bounds, invalid_value, value_already_set, get_failed, read_failed,
  initialize_failed, generic_error, ◌>>=◌, ◌>>◌, fail_if, or_fail,
}
use libfsxfs.Array.{CdataArray}
use libfsxfs.Stream.{FdataStream}
use libfsxfs.Handle.{IoHandle, FileIoHandle}
use libfsxfs.Btree.{maximum_allocation_size}
use libfsxfs.Extent.{ExtentValues, get_values}
use libfsxfs.Inode.{Inode, get_extent_by_index, file_type_of, file_type_directory}
use libfsxfs.DirectoryEntry.{DirectoryEntry}
use libfsxfs.Directory.{Compare, is_equal, directory_get_entry_by_index}
use libfsxfs.AttributesTable.{AttributeValues}
use libfsxfs.Attributes.{get_from_inode}
use libfsxfs.DataStream.{DataHandle, data_stream_initialize}
use libfsxfs.FileSystem.{Libraries, FileSystem, get_inode_by_number, read_directory}

-- LIBFSXFS_FILE_TYPE_REGULAR_FILE and _SYMBOLIC_LINK
abbrev pub file_type_regular_file : ℕ
file_type_regular_file = 0x8000

abbrev pub file_type_symbolic_link : ℕ
file_type_symbolic_link = 0xa000

-- The libraries that a file entry calls besides those of a file system.
pub record FileLibraries : Type 1 where
  pub file_system_libraries : Libraries
  pub attributes : CdataArray AttributeValues
  pub streams : FdataStream DataHandle
  -- `libfdata_stream_read_buffer_at_offset`: the bytes of a size at an offset, none for -1.
  pub read_stream : FdataStream.Stream streams → ℕ → ℕ → Option (List ℕ)

-- The test of a pointer for NULL.
abbrev pub is_none {ℓ} : {A : Type ℓ} → Option A → Bool
is_none none = true
is_none (some a) = false

module _ (libs : FileLibraries) where
  open libs use {file_system_libraries, attributes, streams, read_stream}

  -- libfsxfs_internal_file_entry_t, whose first three pointers are the parameters below.
  pub record FileEntry : Type 0 where
    pub inode_number : ℕ
    pub inode : Inode file_system_libraries.extents
    pub directory_entry : Option DirectoryEntry
    pub extended_attributes_array : Option (CdataArray.Array attributes)
    pub directory : Option (CdataArray.Array file_system_libraries.directory_entries)
    pub data_size : ℕ
    pub data_stream : Option (FdataStream.Stream streams)
    pub symbolic_link_data : Option (List ℕ)

  module _ (file_system : FileSystem file_system_libraries) (io_handle : IoHandle)
      (file : FileIoHandle) where
    abbrev pub has_type : Inode file_system_libraries.extents → ℕ → Bool
    has_type inode file_type = file_type_of inode.fields.file_mode == file_type

    unfoldable pub file_entry_initialize :
        ℕ → Inode file_system_libraries.extents → Option DirectoryEntry → Result FileEntry
    file_entry_initialize inode_number inode directory_entry =
        let entry : FileEntry = record {
          inode_number = inode_number;
          inode = inode;
          directory_entry = directory_entry;
          extended_attributes_array = none;
          directory = none;
          data_size = 0;
          data_stream = none;
          symbolic_link_data = none;
        } in
        if has_type inode file_type_regular_file || has_type inode file_type_symbolic_link
        then (do
          data_stream ←
              data_stream_initialize file_system_libraries.extents streams io_handle inode
                inode.fields.size
          ok (record entry { data_size = inode.fields.size; data_stream = some data_stream }))
        else ok entry

    unfoldable pub get_directory : FileEntry → Result FileEntry
    get_directory entry = do
      fail_if (not (is_none entry.directory)) value_already_set
      if has_type entry.inode file_type_directory
          then (do
            directory ← read_directory file_system_libraries file_system io_handle file entry.inode
            ok (record entry { directory = some directory }))
          else ok entry

    -- `if( internal_file_entry->directory == NULL )`
    unfoldable pub with_directory : FileEntry → Result FileEntry
    with_directory entry = if is_none entry.directory then get_directory entry else ok entry

    abbrev pub count_of :
        {E : Type 0} (lib : CdataArray E) → Option (CdataArray.Array lib) → Option ℕ
    count_of lib none = none
    count_of lib (some entries_array) = some (CdataArray.get_number_of_entries lib entries_array)

    -- The number stays unset for a file that is no directory: none.
    unfoldable pub get_number_of_sub_file_entries : FileEntry → Result (Option ℕ × FileEntry)
    get_number_of_sub_file_entries entry = do
      opened ← with_directory entry
      ok (count_of file_system_libraries.directory_entries opened.directory, opened)

    unfoldable pub get_sub_file_entry_by_index : ℕ → FileEntry → Result (FileEntry × FileEntry)
    get_sub_file_entry_by_index sub_file_entry_index entry = do
      opened ← with_directory entry
      directory ← or_fail opened.directory invalid_value
      sub_directory_entry ←
          directory_get_entry_by_index file_system_libraries.directory_entries directory
            sub_file_entry_index
      found ←
          get_inode_by_number file_system_libraries file_system io_handle file
            sub_directory_entry.inode_number
      inode ← or_fail found read_failed
      sub_file_entry ←
          file_entry_initialize sub_directory_entry.inode_number inode (some sub_directory_entry)
      ok (sub_file_entry, opened)

    -- The attributes of an inode, read into an array that was initialized.
    unfoldable pub read_attributes_of_inode :
        Inode file_system_libraries.extents → Result (CdataArray.Array attributes)
    read_attributes_of_inode inode = do
      empty ← or_fail (CdataArray.initialize attributes) initialize_failed
      get_from_inode attributes file_system_libraries.extents io_handle file inode empty

    unfoldable pub get_extended_attributes : FileEntry → Result FileEntry
    get_extended_attributes entry = do
      fail_if (not (is_none entry.extended_attributes_array)) value_already_set
      extended_attributes_array ← read_attributes_of_inode entry.inode
      ok (record entry { extended_attributes_array = some extended_attributes_array })

    unfoldable pub with_attributes : FileEntry → Result FileEntry
    with_attributes entry =
        if is_none entry.extended_attributes_array then get_extended_attributes entry else ok entry

    unfoldable pub get_number_of_extended_attributes : FileEntry → Result (Option ℕ × FileEntry)
    get_number_of_extended_attributes entry = do
      read ← with_attributes entry
      ok (count_of attributes read.extended_attributes_array, read)

    unfoldable pub get_symbolic_link_data : FileEntry → Result FileEntry
    get_symbolic_link_data entry = do
      fail_if (not (is_none entry.symbolic_link_data)) value_already_set
      if has_type entry.inode file_type_symbolic_link
          then (do
            fail_if (entry.data_size == 0 || ltb maximum_allocation_size entry.data_size)
                value_out_of_bounds
            data_stream ← or_fail entry.data_stream read_failed
            symbolic_link_data ← or_fail (read_stream data_stream entry.data_size 0) read_failed
            fail_if (not (length symbolic_link_data == entry.data_size)) read_failed
            ok (record entry { symbolic_link_data = some symbolic_link_data }))
          else ok entry

    unfoldable pub file_entry_get_extent_by_index : FileEntry → ℕ → Result ExtentValues
    file_entry_get_extent_by_index entry extent_index = do
      extent ← get_extent_by_index file_system_libraries.extents entry.inode.data_fork extent_index
      get_values extent io_handle
