-- ===== src/Directory/Written.antt =====
-- A directory that is written in blocks is read back.
use libfsxfs.Prelude.{
  ℕ, ◌≤◌, ◌<◌, ◌≡◌, refl, sym, ap, ◌∙◌, arith, true, false, List, [], ◌∷◌, ◌++◌, length, All, some,
  ltb, ◌==◌, ◌||◌, ◌⊎◌, append-nil, append_assoc,
}
use libfsxfs.Result.{ok}
use libfsxfs.Array.{CdataArray, HasMemory}
use libfsxfs.Handle.{IoHandle, FileIoHandle, read_buffer_at_offset}
use libfsxfs.Btree.{maximum_allocation_size}
use libfsxfs.Extent.{Extent}
use libfsxfs.DirectoryEntry.{DirectoryEntry}
use libfsxfs.BlockDirectory
use libfsxfs.BlockDirectory.RoundTrip.{Item, ItemFits, listed}
use libfsxfs.BlockDirectory.Written.{Frame, FrameFits, block_bytes, block_read_data_roundtrip}
use libfsxfs.Inode.{Inode, fork_type_extents, fork_type_btree, file_type_directory, file_type_of}
use libfsxfs.Directory.{read_file_io_handle}
use libfsxfs.Directory.Blocks.{HasWholeBlocks, read_all, directory_read-all}
use libfsxfs.Extents.Places.{IsPlaced}
use libfsxfs.Directory.Places.{block_places, block_places-offsets}

-- What stands in a block of a directory.
pub record Block : Type 0 where
  pub frame : Frame
  pub items : List Item

-- The file has at these places the directory blocks that are written.
abbrev pub HasBlocks : IoHandle → FileIoHandle → List ℕ → List Block → Type 0
HasBlocks io file [] [] = Unit {0}
HasBlocks io file [] (b ∷ bs) = ⊥
HasBlocks io file (o ∷ os) [] = ⊥
HasBlocks io file (o ∷ os) (b ∷ bs) =
    (file io.directory_block_size o ≡ some (block_bytes io b.frame b.items))
    × (length (block_bytes io b.frame b.items) ≡ io.directory_block_size)
    × FrameFits b.frame
    × All (ItemFits io) b.items
    × HasBlocks io file os bs

-- The entries of all blocks.
abbrev pub all_listed : List Block → List DirectoryEntry
all_listed [] = []
all_listed (b ∷ bs) = listed b.items ++ all_listed bs

module _ (lib : CdataArray DirectoryEntry) (memory : HasMemory lib) (io : IoHandle)
    (file : FileIoHandle) where
  open lib use {Array, entries}

  read_block_back :
      (o : ℕ) (b : Block) (a : Array)
      → 0 < io.block_size
      → io.block_size ≤ maximum_allocation_size
      → file io.block_size o ≡ some (block_bytes io b.frame b.items)
      → length (block_bytes io b.frame b.items) ≡ io.block_size
      → FrameFits b.frame
      → All (ItemFits io) b.items
      → (after : Array) × (BlockDirectory.read_file_io_handle lib io file io.block_size o a
          ≡ ok after)
        × (entries after ≡ entries a ++ listed b.items)
  unfolding BlockDirectory.read_file_io_handle read_buffer_at_offset
  read_block_back o b a pos small there size f g =
      let guard : (io.block_size == 0 || ltb maximum_allocation_size io.block_size) ≡ false =
        ground arith in
      let full : (length (block_bytes io b.frame b.items) == io.block_size) ≡ true = ground arith in
      let back = block_read_data_roundtrip lib memory io b.frame b.items a f g (omega arith) in
      (back.0, rw (guard, there, full) (rw size at back.1), back.2)

  read_all_back :
      (os : List ℕ) (bs : List Block) (a : Array)
      → 0 < io.block_size
      → io.block_size ≤ maximum_allocation_size
      → io.directory_block_size ≡ io.block_size
      → HasBlocks io file os bs
      → (after : Array) × (read_all lib io file os a ≡ ok after)
        × (entries after ≡ entries a ++ all_listed bs)
  read_all_back [] [] a pos small same h = (a, refl, sym (append-nil (entries a)))
  read_all_back [] (b ∷ bs) a pos small same h = absurd h
  read_all_back (o ∷ os) [] a pos small same h = absurd h
  read_all_back (o ∷ os) (b ∷ bs) a pos small same (there, size, f, g, h) =
      let first =
        read_block_back o b a pos small (sym (ap (λ n. file n o) same) ∙ there) (size ∙ same) f g in
      let rest = read_all_back os bs first.0 pos small same h in
      (
        rest.0,
        rw first.1 rest.1,
        rest.2 ∙ rw first.2 (append_assoc (entries a) (listed b.items) (all_listed bs)),
      )

  -- On a volume where a directory block is one file system block, of at most 128 MiB and not empty,
  -- and the allocation groups are not empty: if the extents of a directory, in the list or the B+
  -- tree of its inode, are in the volume, with group indexes below 2^31 and ends below 2^63, at
  -- places in the file below 2^63, with no more blocks each than the fuel, and the blocks of those
  -- in front of the leaf offset are written, where the format has them, with any entries and free
  -- regions that fit the format, then the directory is read back: where memory does not run out,
  -- libfsxfs_directory_read_file_io_handle succeeds and appends the entries of all these blocks but
  -- . and .., in order, to those of the array.
  pub directory_roundtrip :
      (extents_lib : CdataArray Extent) (fuel : ℕ) (inode : Inode extents_lib)
      (extents : CdataArray.Array extents_lib) (bs : List Block) (entries_array : Array)
      → inode.data_fork.extents_array ≡ some extents
      → file_type_of inode.fields.file_mode ≡ file_type_directory
      → (inode.fields.fork_type ≡ fork_type_extents) ⊎ (inode.fields.fork_type ≡ fork_type_btree)
      → 0 < io.allocation_group_size
      → 0 < io.block_size
      → io.block_size ≤ maximum_allocation_size
      → io.directory_block_size ≡ io.block_size
      → All (HasWholeBlocks io fuel) (extents_lib.entries extents)
      → All (IsPlaced io) (extents_lib.entries extents)
      → HasBlocks io file (block_places io (extents_lib.entries extents)) bs
      → (after : Array) × (read_file_io_handle lib io file extents_lib fuel inode entries_array
          ≡ ok after)
        × (entries after ≡ entries entries_array ++ all_listed bs)
  directory_roundtrip extents_lib fuel inode extents bs a e mode fork group pos small same whole
        places h =
      let es = extents_lib.entries extents in
      let offsets = block_places-offsets io fuel es pos whole places in
      let back = read_all_back (block_places io es) bs a pos small same h in
      (
        back.0,
        directory_read-all lib io file extents_lib fuel inode extents a e mode fork group pos
              (omega (arith, same)) whole
            ∙ rw offsets back.1,
        back.2,
      )
