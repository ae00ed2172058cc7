-- ===== src/FileEntry/Extents.antt =====
-- The extents that a file entry gives, next to the places that its data stream reads.
use native.Mathlib.Nat.{eq-zero-or-pos, div-add-mod', mul-div_cancel, mul-div_cancel_left}
use libfsxfs.Prelude.{
  ℕ, ◌+◌, ◌*◌, ◌/◌, ◌%◌, ◌^◌, ◌≤◌, ◌<◌, ◌≡◌, sym, ap, ◌∙◌, arith, ◌⊎◌, inl, inr, ◌↔◌,
}
use libfsxfs.Result.{Result, ok, ◌>>=◌}
use libfsxfs.Word.{int64_max}
use libfsxfs.Handle.{IoHandle, FileIoHandle, block_offset}
use libfsxfs.Handle.Places.{unwrapped}
use libfsxfs.Extent.{Extent, ExtentValues, get_values}
use libfsxfs.Extent.Range.{get_values_iff}
use libfsxfs.Inode.{get_extent_by_index}
use libfsxfs.DataStream.{segment_of}
use libfsxfs.FileSystem.{FileSystem}
use libfsxfs.FileEntry.{FileLibraries, FileEntry, file_entry_get_extent_by_index}

-- A group has no more blocks than a relative block number has values, and its index fits an int.
pub record SplitsBlocks (io : IoHandle) (block_number : ℕ) : Type 0 where
  pub groups_fit : io.allocation_group_size ≤ 2 ^ io.number_of_relative_block_number_bits
  pub group_small : block_number / 2 ^ io.number_of_relative_block_number_bits < 2147483648

-- The arithmetic, of a group `q` of `a` blocks and of `p` block numbers, and a block `r` in it.
group_le : (q a p r bs : ℕ) → a ≤ p → (q * a + r) * bs ≤ (q * p + r) * bs
group_le q a p r bs h = grind arith

group_iff : (q a p r bs : ℕ) → 0 < bs → ((q * p + r) * bs ≡ (q * a + r) * bs) ↔ ((q ≡ 0) ⊎ (a ≡ p))
group_iff q a p r bs h = (
  (λ e.
      let unscaled : q * p + r ≡ q * a + r =
        sym (mul-div_cancel (q * p + r) h) ∙ ap (λ n. n / bs) e ∙ mul-div_cancel (q * a + r) h in
      elim (eq-zero-or-pos q) [
        | inl z ↦ inl z
        | inr k ↦
            let same : q * p ≡ q * a = omega arith in
            inr
              (sym (mul-div_cancel_left a k) ∙ ap (λ n. n / q) (sym same) ∙ mul-div_cancel_left p k)
      ]),
  λ c. elim c [
    | inl z ↦ let unscaled : q * p + r ≡ q * a + r = rw z (omega arith) in ap (λ n. n * bs) unscaled
    | inr e ↦ rw e
  ],
)

-- For an extent that a file entry gives, where an allocation group has no more blocks than a relative
-- block number has values, and the index of the extent's group is below 2^31: the offset given is that
-- of the segment that the file's data stream reads for the extent exactly when the extent is in the first
-- group, or a group has as many blocks as a relative block number has values.
pub extent_offset_iff :
    (libs : FileLibraries) (file_system : FileSystem libs.file_system_libraries) (io : IoHandle)
    (file : FileIoHandle) (entry : FileEntry libs) (index : ℕ) (e : Extent) (v : ExtentValues)
    → get_extent_by_index libs.file_system_libraries.extents entry.inode.data_fork index ≡ ok e
    → file_entry_get_extent_by_index libs file_system io file entry index ≡ ok v
    → SplitsBlocks io e.physical_block_number
    → (v.extent_offset ≡ (segment_of io e).offset) ↔ (
        (e.physical_block_number / 2 ^ io.number_of_relative_block_number_bits ≡ 0)
        ⊎ (io.allocation_group_size ≡ 2 ^ io.number_of_relative_block_number_bits))
unfolding file_entry_get_extent_by_index block_offset
extent_offset_iff libs file_system io file entry index e v found given s =
    let p = 2 ^ io.number_of_relative_block_number_bits in
    let q = e.physical_block_number / p in
    let r = e.physical_block_number % p in
    let a = io.allocation_group_size in
    let bs = io.block_size in
    let values : get_values e io ≡ ok v =
      sym (ap (λ (x : Result Extent). x >>= λ extent. get_values extent io) found) ∙ given in
    let (fits, same) = (get_values_iff e io v).0 values in
    let split : q * p + r ≡ e.physical_block_number = div-add-mod' e.physical_block_number p in
    let offset : v.extent_offset ≡ (q * p + r) * bs =
      ap (λ (w : ExtentValues). w.extent_offset) same ∙ ap (λ n. n * bs) (sym split) in
    let bounded : (q * a + r) * bs ≤ int64_max =
      let le = group_le q a p r bs s.groups_fit in
      let scaled : (q * p + r) * bs ≡ e.physical_block_number * bs = ap (λ n. n * bs) split in
      let fit = fits.offset_fits in omega arith in
    let place : (segment_of io e).offset ≡ (q * a + r) * bs =
      unwrapped q a r bs s.group_small fits.block_size_pos bounded in
    let iff = group_iff q a p r bs fits.block_size_pos in
    ((λ h. iff.0 (sym offset ∙ h ∙ place)), λ c. offset ∙ iff.1 c ∙ sym place)
