-- ===== src/Lib.antt =====
-- libfsxfs, a library to read the X File System (XFS): the readers of its on-disk structures, and what
-- makes them correct.
--
-- A volume has a superblock per allocation group. The inode information of a group points to an
-- inode B+ tree, which gives the place of an inode. An inode holds the extents of its data, as a
-- list or as the root of an extent B+ tree, or the data itself, for a small directory a table of its
-- entries. A directory in extents has its entries in blocks. A path is followed from the root
-- directory: the inode's directory, the entry with the name, its inode. The data of a file is a stream
-- of segments, one for each extent.
--
-- Prelude, Result, Word, Bits: shared names, the results of the calls, and machine words.
-- Bytes: the big-endian reads of common/byte_stream.h on a buffer, where a read behind the end is a
--   `fault`. Bytes/Encode writes the numbers, Bytes/Cursor follows bytes that are known.
-- Array: libcdata_array as an interface, with the list as the instance that shows it can be met.
-- Handle: libfsxfs/libfsxfs_io_handle.h, and a file read through libbfio as a function. Handle/Places
--   says where the format has a block, apart from the expression in the code.
-- Extent, Extents: libfsxfs/libfsxfs_extent.c, libfsxfs_extents.c and libfsxfs_extent_list.c.
-- Btree: libfsxfs/libfsxfs_btree_header.c and libfsxfs_btree_block.c.
-- ExtentBtree: libfsxfs/libfsxfs_extent_btree.c.
-- InodeInformation, InodeBtree: libfsxfs/libfsxfs_inode_information.c, libfsxfs_inode_btree.c and
--   libfsxfs_inode_btree_record.c.
-- DirectoryEntry, DirectoryTable: libfsxfs/libfsxfs_directory_entry.c, libfsxfs_directory_table.c and
--   libfsxfs_directory_table_header.c.
-- BlockDirectory: libfsxfs/libfsxfs_block_directory.c, libfsxfs_block_directory_header.c and
--   libfsxfs_block_directory_footer.c.
-- Superblock, Volume: libfsxfs/libfsxfs_superblock.c and the opening of a volume in
--   libfsxfs_volume.c, with a function of libfsxfs_file_system.c.
-- AttributesTable: libfsxfs/libfsxfs_attributes_table.c, libfsxfs_attributes_table_header.c and the
--   setters of libfsxfs_attribute_values.c.
-- Inode: libfsxfs/libfsxfs_inode.c. Inode/Times is about its timestamps, Inode/Forks and Inode/Read
--   about its forks.
-- Stream: libfdata_stream as an interface. DataHandle, DataStream: libfsxfs/libfsxfs_data_stream.c,
--   libfsxfs_buffer_data_handle.c and libfsxfs_block_data_handle.c.
-- Directory: libfsxfs/libfsxfs_directory.c.
-- FileSystem: libfsxfs/libfsxfs_file_system.c. It finds an inode through InodeBtree, reads it through
--   Inode, and follows a path through Directory.
-- Attributes: libfsxfs/libfsxfs_attributes.c, libfsxfs_attributes_leaf_block_header.c,
--   libfsxfs_file_system_block.c and libfsxfs_file_system_block_header.c. It reads the attributes that
--   stand in an inode through AttributesTable.
-- FileEntry: libfsxfs/libfsxfs_file_entry.c, as far as it reads and keeps. It reads through FileSystem,
--   Directory, Attributes and DataStream. FileEntry/Caches is about what it keeps,
--   FileEntry/Extents about the extents that it gives.
-- Tests: runs on small inputs.
--
-- A C function is a function of the same name without its libfsxfs_ prefix into `Result`: `ok` is a
-- return of 1 with the outputs, `err` a return of -1, `fault` a read outside a buffer, and
-- `exhausted` no outcome of the code. A library array that a function fills is passed in and
-- returned. On an error the code empties it or its caller does, and the model returns none.
-- The recursion of the B+ trees and of the attributes' blocks runs on fuel, 257 and 258 calls deep from
-- their roots: the code stops
-- at a recursion depth of 256, and the theorems that these searches end show that it is enough. The loop
-- over a block directory has as much fuel as there are bytes; each entry takes at least 4. The loop
-- over the directory blocks of an extent has the fuel that its caller gives, one for each block, since
-- it does not end for an extent that holds no whole number of them. A path has as much fuel as it has
-- characters.
-- Numbers have the width of their C types: where a sum or product can wrap around, `% 2 ^ w` is
-- written out (Word). size_t has 64 bits.
--
-- Not modelled: checks for NULL pointers and structures that are set already (but those of a
-- file entry), failures to allocate a
-- structure, debug output, the conversion of names (libuna), the streams of libfdata, the rest of
-- the API around the readers (volume, file entry and extended attribute) with its locks, and the tools
-- and bindings.
pub mod Prelude
pub mod Result
pub mod Word
pub mod Bytes
pub mod Array
pub mod FileEntry
pub mod FileSystem
pub mod Handle
pub mod Extent
pub mod Bits
pub mod Extents
pub mod Btree
pub mod ExtentBtree
pub mod InodeInformation
pub mod InodeBtree
pub mod DataHandle
pub mod DataStream
pub mod Directory
pub mod DirectoryEntry
pub mod DirectoryTable
pub mod Tests
pub mod BlockDirectory
pub mod Stream
pub mod Superblock
pub mod Volume
pub mod Attributes
pub mod AttributesTable
pub mod Inode
