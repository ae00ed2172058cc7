-- ===== src/Directory/Safety.antt =====
-- The reading of a directory on any data, and of extents that do not hold whole directory blocks.
use native.Mathlib.Nat.{add-mod_right, add-mul-mod_self_right, zero-mod}
use libfsxfs.Prelude.{
  ℕ, zero, suc, ◌+◌, ◌-◌, ◌*◌, ◌%◌, ◌<◌, ◌≡◌, ◌≢◌, sym, ap, ◌∙◌, arith, false, List, [], ◌∷◌,
  length, All, some, ltb, ◌==◌, ◌&&◌, ◌||◌, not, Bool-cases, inl, inr, ◌⊎◌,
}
use libfsxfs.Result.{
  Result, ok, err, fault, exhausted, IsTotal, Ensures-bind, Ensures-if, Ensures-fail_if, ◌>>=◌,
  value_out_of_bounds, unsupported_value,
}
use libfsxfs.Word.{u64_mod, add64, sub64}
use libfsxfs.Array.{CdataArray}
use libfsxfs.Handle.{IoHandle, FileIoHandle, read_buffer_at_offset}
use libfsxfs.Btree.{maximum_allocation_size}
use libfsxfs.Btree.Records.{read_buffer-length}
use libfsxfs.Extent.{Extent}
use libfsxfs.DirectoryEntry.{DirectoryEntry}
use libfsxfs.DirectoryTable
use libfsxfs.DirectoryTable.Safety.{table_read_data-IsTotal}
use libfsxfs.BlockDirectory
use libfsxfs.BlockDirectory.Safety.{block_read_data-IsTotal}
use libfsxfs.Inode.{
  Inode, Fork, fork_type_inline_data, fork_type_extents, fork_type_btree, file_type_directory,
  file_type_of,
}
use libfsxfs.Inode.Forks.{number_of_extents_of}
use libfsxfs.Inode.Read.{HasData}
use libfsxfs.Directory.{read_blocks, read_file_io_handle}
use libfsxfs.Directory.Blocks.{HasWholeBlocks, directory_offsets, read_all, read_extents-all}

-- What goes on to no result gives none.
never-bind :
    {A B : Type 0} (m : Result A) (f : A → Result B) (r : B)
    → ((a : A) → f a ≢ ok r)
    → (m >>= f) ≢ ok r
never-bind (ok a) f r h = h a
never-bind (err e) f r h = λ p. cc
never-bind fault f r h = λ p. cc
never-bind exhausted f r h = λ p. cc

nonzero : (s d : ℕ) → s % d ≢ 0 → (s == 0) ≡ false
nonzero s d h = elim (Bool-cases (s == 0)) [
  | inl z ↦ let e : s ≡ 0 = ground arith in absurd (h (rw e (zero-mod d)))
  | inr n ↦ n
]

is_of_extents :
    (t : ℕ)
    → (t == fork_type_inline_data) ≡ false
    → (not (t == fork_type_inline_data)
        && (not (t == fork_type_extents) && not (t == fork_type_btree)))
      ≡ false
    → (t ≡ fork_type_extents) ⊎ (t ≡ fork_type_btree)
is_of_extents t other known = ground arith

-- The size left has the same remainder.
size_left : (d p s : ℕ) → 0 < d → suc p * d ≡ u64_mod → s < u64_mod → sub64 s d % d ≡ s % d
size_left d p s pos whole small = elim (Bool-cases (ltb s d)) [
  | inl below ↦
      let wrapped : sub64 s d ≡ s + p * d = ground (arith, whole) in
      rw wrapped (add-mul-mod_self_right s p d)
  | inr above ↦
      let left : sub64 s d ≡ s - d = ground arith in
      let back : s - d + d ≡ s = ground arith in
      let same = add-mod_right (s - d) d in rw left (sym (rw back at same))
]

module _ (lib : CdataArray DirectoryEntry) (io : IoHandle) (file : FileIoHandle) where
  open lib use {Array}

  -- For a directory block size that is a power of 2, or divides 2 ^ 64 at all, the blocks of an
  -- extent whose size is no multiple of it never give a result, whatever the fuel: the size wraps
  -- below 0 and the reading goes on behind the extent.
  pub read_blocks_never :
      (p fuel offset extent_size : ℕ) (before after : Array)
      → 0 < io.directory_block_size
      → p * io.directory_block_size ≡ u64_mod
      → extent_size < u64_mod
      → extent_size % io.directory_block_size ≢ 0
      → read_blocks lib io file fuel offset extent_size before ≢ ok after
  unfolding read_blocks
  read_blocks_never zero fuel offset s a r pos whole small left = absurd (omega arith)
  read_blocks_never (suc p) zero offset s a r pos whole small left =
      let more = nonzero s io.directory_block_size left in rw more λ e. cc
  read_blocks_never (suc p) (suc fuel) offset s a r pos whole small left =
      let d = io.directory_block_size in
      let more = nonzero s d left in
      let kept = size_left d p s pos whole small in
      rw more (
        never-bind (BlockDirectory.read_file_io_handle lib io file io.block_size offset a) _ r λ b.
          read_blocks_never (suc p) fuel (add64 offset d) (sub64 s d) b r pos whole (omega arith)
            λ z. left (sym kept ∙ z))

  block_file-IsTotal :
      (offset : ℕ) (entries_array : Array)
      → IsTotal (BlockDirectory.read_file_io_handle lib io file io.block_size offset entries_array)
  unfolding BlockDirectory.read_file_io_handle
  block_file-IsTotal o a =
      Ensures-fail_if _ (io.block_size == 0 || ltb maximum_allocation_size io.block_size)
        value_out_of_bounds _
        λ _.
          Ensures-bind (λ buffer. length buffer ≡ io.block_size) _
            (read_buffer_at_offset file io.block_size o) _ (read_buffer-length file io.block_size o)
            λ buffer e. block_read_data-IsTotal lib io buffer io.block_size a (omega (arith, e))

  read_all-IsTotal :
      (offsets : List ℕ) (entries_array : Array)
      → IsTotal (read_all lib io file offsets entries_array)
  read_all-IsTotal [] a = tt
  read_all-IsTotal (o ∷ os) a =
      Ensures-bind (λ _. Unit {0}) (λ _. Unit {0})
        (BlockDirectory.read_file_io_handle lib io file io.block_size o a) _
        (block_file-IsTotal o a) λ b _. read_all-IsTotal os b

  -- Reading the directory of an inode that was read ends inside its buffers, whatever is in the
  -- blocks, where the extents hold whole directory blocks, no more than the fuel: with a result or
  -- an error.
  pub directory_read-IsTotal :
      (extents_lib : CdataArray Extent) (fuel : ℕ) (inode : Inode extents_lib)
      (entries_array : Array)
      → HasData extents_lib io file inode.fields inode.data_fork
      → 0 < io.directory_block_size
      → ((extents : CdataArray.Array extents_lib)
          → inode.data_fork.extents_array ≡ some extents
          → All (HasWholeBlocks io fuel) (extents_lib.entries extents))
      → IsTotal (read_file_io_handle lib io file extents_lib fuel inode entries_array)
  unfolding read_file_io_handle
  directory_read-IsTotal extents_lib fuel inode a has dpos whole =
      let t = inode.fields.fork_type in
      let any = λ (x : Array). Unit {0} in
      Ensures-fail_if any (io.allocation_group_size == 0) value_out_of_bounds _ λ _.
        Ensures-fail_if any (io.block_size == 0) value_out_of_bounds _ λ pos.
          Ensures-if any (not (file_type_of inode.fields.file_mode == file_type_directory)) _ _
            (λ _. tt)
            λ _.
              Ensures-fail_if any
                (not (t == fork_type_inline_data)
                  && (not (t == fork_type_extents) && not (t == fork_type_btree)))
                unsupported_value _
                λ known.
                  Ensures-if any (t == fork_type_inline_data) _ _
                    (λ inline.
                      let d = has.0 (ground arith) in
                      rw d.1 (
                        Ensures-bind (λ _. Unit {0}) any
                          (DirectoryTable.read_data lib io d.0 inode.fields.size a) _
                          (table_read_data-IsTotal lib io d.0 inode.fields.size a d.2) λ _ _. tt))
                    λ other.
                      let x = has.1 (is_of_extents t other known) in
                      let es = extents_lib.entries x.0 in
                      let e : inode.data_fork.extents_array ≡ some x.0 =
                        ap (λ (f : Fork (CdataArray.Array extents_lib)). f.extents_array) x.1 in
                      rw (number_of_extents_of extents_lib inode.data_fork x.0 e) (
                        rw
                          (read_extents-all lib io file extents_lib fuel inode x.0
                            (extents_lib.get_number_of_entries x.0) 0 a e
                            (omega (arith, extents_lib.number_law x.0)) (ground arith) dpos
                            (whole x.0 e))
                          (read_all-IsTotal (directory_offsets io es) a))
