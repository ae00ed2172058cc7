-- ===== src/Directory/Blocks.antt =====
-- The blocks of a directory in the order in which they are read, for extents that hold whole
-- directory blocks.
use libfsxfs.Prelude.{
  ℕ, zero, suc, ◌+◌, ◌*◌, ◌/◌, ◌≤◌, ◌<◌, ◌≡◌, refl, sym, ◌∙◌, arith, true, false, List, [], ◌∷◌,
  ◌++◌, length, drop, get_elem?_lt, drop-at, drop-all, All, some, ltb, leb, ◌==◌, ◌&&◌, not,
  Bool-cases, inl, inr, if◌then◌else◌, ◌⊎◌,
}
use libfsxfs.Result.{Result, ok, ◌>>=◌, bind_same, bind_assoc}
use libfsxfs.Word.{int64_max, u64_mod, add64, sub64, mul64, guard_iff}
use libfsxfs.Array.{CdataArray}
use libfsxfs.Handle.{IoHandle, FileIoHandle, block_offset}
use libfsxfs.Extent.{Extent}
use libfsxfs.DirectoryEntry.{DirectoryEntry}
use libfsxfs.BlockDirectory
use libfsxfs.Inode.{
  Inode, fork_type_inline_data, fork_type_extents, fork_type_btree, file_type_directory,
  file_type_of,
}
use libfsxfs.Inode.Forks.{number_of_extents_of, extent_by_index_of}
use libfsxfs.Directory.{directory_leaf_offset, read_blocks, read_extents, read_file_io_handle}

-- The offsets of `n` directory blocks that follow one another.
abbrev pub block_offsets : IoHandle → ℕ → ℕ → List ℕ
block_offsets io zero offset = []
block_offsets io (suc n) offset = offset ∷ block_offsets io n (add64 offset io.directory_block_size)

-- The directory blocks of an extent.
abbrev pub blocks_in : IoHandle → Extent → ℕ
blocks_in io e = e.number_of_blocks * io.block_size / io.directory_block_size

-- The extents before the first that starts at or behind the leaf offset.
abbrev pub directory_offsets : IoHandle → List Extent → List ℕ
directory_offsets io [] = []
directory_offsets io (e ∷ es) =
    if leb directory_leaf_offset (e.logical_block_number * io.block_size)
    then []
    else block_offsets io (blocks_in io e) (block_offset io e.physical_block_number)
      ++ directory_offsets io es

-- The extent holds whole directory blocks, no more than the fuel, and its place in the file is in
-- range.
abbrev pub HasWholeBlocks : IoHandle → ℕ → Extent → Type 0
HasWholeBlocks io fuel e =
    (e.logical_block_number * io.block_size ≤ int64_max)
    × (e.number_of_blocks * io.block_size < u64_mod)
    × (blocks_in io e * io.directory_block_size ≡ e.number_of_blocks * io.block_size)
    × (blocks_in io e ≤ fuel)

module _ (lib : CdataArray DirectoryEntry) (io : IoHandle) (file : FileIoHandle) where
  open lib use {Array}

  -- The blocks at these offsets, read one behind the other.
  abbrev pub read_all : List ℕ → Array → Result Array
  read_all [] entries_array = ok entries_array
  read_all (offset ∷ offsets) entries_array = do
    filled ← BlockDirectory.read_file_io_handle lib io file io.block_size offset entries_array
    read_all offsets filled

  read_all-append :
      (xs ys : List ℕ) (entries_array : Array)
      → read_all (xs ++ ys) entries_array ≡ (read_all xs entries_array >>= read_all ys)
  read_all-append [] ys a = refl
  read_all-append (x ∷ xs) ys a =
      let first = BlockDirectory.read_file_io_handle lib io file io.block_size x a in
      bind_same first _ _ (read_all-append xs ys)
      ∙ sym (bind_assoc first (read_all xs) (read_all ys))

  read_blocks-all :
      (n fuel offset : ℕ) (entries_array : Array)
      → 0 < io.directory_block_size
      → n * io.directory_block_size < u64_mod
      → n ≤ fuel
      → read_blocks lib io file fuel offset (n * io.directory_block_size) entries_array
        ≡ read_all (block_offsets io n offset) entries_array
  unfolding read_blocks
  read_blocks-all zero zero offset a pos small f =
      let z : 0 * io.directory_block_size ≡ 0 = omega arith in rw z
  read_blocks-all zero (suc fuel) offset a pos small f =
      let z : 0 * io.directory_block_size ≡ 0 = omega arith in rw z
  read_blocks-all (suc n) zero offset a pos small f = absurd (omega arith)
  read_blocks-all (suc n) (suc fuel) offset a pos small f =
      let d = io.directory_block_size in
      let next : suc n * d ≡ n * d + d = omega arith in
      let more : ((suc n * d) == 0) ≡ false = ground (arith, next) in
      let rest : sub64 (suc n * d) d ≡ n * d = omega (arith, next) in
      rw (more, rest)
        (bind_same (BlockDirectory.read_file_io_handle lib io file io.block_size offset a) _ _
          λ b. read_blocks-all n fuel (add64 offset d) b pos (omega (arith, next)) (omega arith))

  module _ (extents_lib : CdataArray Extent) where
    pub read_extents-all :
        (fuel : ℕ) (inode : Inode extents_lib) (extents : CdataArray.Array extents_lib) (n i : ℕ)
        (entries_array : Array)
        → inode.data_fork.extents_array ≡ some extents
        → i + n ≡ length (extents_lib.entries extents)
        → 0 < io.block_size
        → 0 < io.directory_block_size
        → All (HasWholeBlocks io fuel) (drop i (extents_lib.entries extents))
        → read_extents lib io file extents_lib fuel inode n i entries_array
          ≡ read_all (directory_offsets io (drop i (extents_lib.entries extents))) entries_array
    unfolding read_extents
    read_extents-all fuel inode extents zero i a e h pos dpos whole =
        rw (drop-all i (extents_lib.entries extents) (omega arith))
    read_extents-all fuel inode extents (suc n) i a e h pos dpos whole =
        let es = extents_lib.entries extents in
        let step = get_elem?_lt es i (omega arith) in
        let x = step.0 in
        let here = drop-at i es x step.1 in
        let (fits, rest) = rw here at whole in
        let guard : ltb (int64_max / io.block_size) x.logical_block_number ≡ false =
          (guard_iff x.logical_block_number io.block_size int64_max pos).1 fits.0 in
        let place : mul64 x.logical_block_number io.block_size
            ≡ x.logical_block_number * io.block_size =
          omega (arith, fits.0) in
        let size : mul64 x.number_of_blocks io.block_size
            ≡ blocks_in io x * io.directory_block_size =
          omega (arith, fits.1, fits.2) in
        let start = block_offset io x.physical_block_number in
        rw (extent_by_index_of extents_lib inode.data_fork extents i x e step.1, guard, place, here)
          (elim (Bool-cases (leb directory_leaf_offset (x.logical_block_number * io.block_size))) [
            | inl behind ↦ rw behind
            | inr before ↦
                rw
                  (
                    before,
                    size,
                    read_blocks-all (blocks_in io x) fuel start a dpos
                        (omega (arith, fits.1, fits.2)) fits.3,
                  )
                  (bind_same (read_all (block_offsets io (blocks_in io x) start) a) _ _ (λ b.
                      read_extents-all fuel inode extents n (i + 1) b e (omega arith) pos dpos rest)
                    ∙ sym (
                        read_all-append (block_offsets io (blocks_in io x) start)
                          (directory_offsets io (drop (i + 1) es)) a))
          ])

    -- For the inode of a directory whose extents hold whole directory blocks, libfsxfs reads the
    -- blocks of the extents in front of the leaf offset, in their order, and nothing else.
    pub directory_read-all :
        (fuel : ℕ) (inode : Inode extents_lib) (extents : CdataArray.Array extents_lib)
        (entries_array : Array)
        → inode.data_fork.extents_array ≡ some extents
        → file_type_of inode.fields.file_mode ≡ file_type_directory
        → (inode.fields.fork_type ≡ fork_type_extents) ⊎ (inode.fields.fork_type ≡ fork_type_btree)
        → 0 < io.allocation_group_size
        → 0 < io.block_size
        → 0 < io.directory_block_size
        → All (HasWholeBlocks io fuel) (extents_lib.entries extents)
        → read_file_io_handle lib io file extents_lib fuel inode entries_array
          ≡ read_all (directory_offsets io (extents_lib.entries extents)) entries_array
    unfolding read_file_io_handle
    directory_read-all fuel inode extents a e mode fork group pos dpos whole =
        let t = inode.fields.fork_type in
        let g : (io.allocation_group_size == 0) ≡ false = ground arith in
        let b : (io.block_size == 0) ≡ false = ground arith in
        let directory : (file_type_of inode.fields.file_mode == file_type_directory) ≡ true =
          rw mode refl in
        let inline : (t == fork_type_inline_data) ≡ false = ground arith in
        let supported : (not (t == fork_type_extents) && not (t == fork_type_btree)) ≡ false =
          ground arith in
        let n = extents_lib.get_number_of_entries extents in
        rw
          (
            g,
            b,
            directory,
            inline,
            supported,
            number_of_extents_of extents_lib inode.data_fork extents e,
          )
          (read_extents-all fuel inode extents n 0 a e
            (omega (arith, extents_lib.number_law extents)) pos dpos whole)
