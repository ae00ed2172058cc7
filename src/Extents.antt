-- ===== src/Extents.antt =====
-- libfsxfs_extents.c and libfsxfs_extent_list.c: a run of packed extents read onto the end of an
-- array, with a sparse extent for each gap between them, and one behind the last of them.
-- Where the source empties the array on an error, the error carries no array here: the callers
-- of these functions empty or free it too, and read nothing of it.
pub mod Fill
pub mod Contiguous
pub mod Tail
pub mod Places
pub mod Safety
pub mod Returns
use libfsxfs.Prelude.{
  ℕ, zero, suc, ◌+◌, ◌-◌, ◌/◌, ◌%◌, Bool, true, false, List, ◌==◌, ltb, ◌||◌, ◌&&◌, not, bit_and,
  if◌then◌else◌, Option, none, some, drop,
}
use libfsxfs.Result.{
  Result, ok, value_out_of_bounds, append_failed, get_failed, ◌>>=◌, ◌>>◌, fail_if, or_fail,
}
use libfsxfs.Word.{u32_mod, int64_max, add64, sub64, add32}
use libfsxfs.Array.{CdataArray}
use libfsxfs.Extent
use libfsxfs.Extent.{Extent, extent_flag_is_sparse}

-- The block behind an extent, a uint64_t sum.
abbrev pub end_block : Extent → ℕ
end_block e = add64 e.logical_block_number e.number_of_blocks

-- `last_extent`, and its index for the write through it.
abbrev pub LastExtent : Type 0
LastExtent = Option (ℕ × Extent)

abbrev pub end_of_last : LastExtent → ℕ
end_of_last none = 0
end_of_last (some (i, e)) = end_block e

-- The sparse extent of `number_of_blocks` blocks, of which a uint32_t holds the lowest 32 bits.
abbrev pub sparse_extent : ℕ → ℕ → Extent
sparse_extent logical_block_number number_of_blocks = record {
  logical_block_number = logical_block_number;
  physical_block_number = 0;
  number_of_blocks = number_of_blocks % u32_mod;
  range_flags = extent_flag_is_sparse;
}

module _ (lib : CdataArray Extent) where
  open lib use {Array, get_number_of_entries, get_entry_by_index, append_entry, write_entry}

  unfoldable pub get_last_extent : Array → Result LastExtent
  get_last_extent extents =
      let n = get_number_of_entries extents in
      if n == 0
      then ok none
      else (do e ← or_fail (get_entry_by_index extents (n - 1)) get_failed; ok (some (n - 1, e)))

  unfoldable pub append : Array → Extent → Result Array
  append extents e = or_fail (append_entry extents e) append_failed

  -- The gap in front of extent `e`.
  unfoldable pub append_gap : Bool → ℕ → Extent → Array → Result Array
  append_gap add_sparse_extents logical_block_number e extents =
      if add_sparse_extents && ltb logical_block_number e.logical_block_number
      then append extents
          (sparse_extent logical_block_number (sub64 e.logical_block_number logical_block_number))
      else ok extents

  -- The loop, on the count of extents left.
  unfoldable pub read_extents : ℕ → List ℕ → ℕ → Bool → ℕ → Array → Result Array
  read_extents zero data_bytes data_offset add_sparse_extents logical_block_number extents =
      ok extents
  read_extents (suc n) data_bytes data_offset add_sparse_extents logical_block_number extents = do
    e ← Extent.read_data (drop data_offset data_bytes) 16
    filled ← append_gap add_sparse_extents logical_block_number e extents
    appended ← append filled e
    read_extents n data_bytes (data_offset + 16) add_sparse_extents (end_block e) appended

  unfoldable pub read_data : Array → ℕ → List ℕ → ℕ → Bool → Result Array
  read_data extents number_of_extents data_bytes data_size add_sparse_extents = do
    fail_if (data_size == 0 || ltb int64_max data_size) value_out_of_bounds
    fail_if (ltb (data_size / 16) number_of_extents) value_out_of_bounds
    last_extent ← get_last_extent extents
    read_extents number_of_extents data_bytes 0 add_sparse_extents (end_of_last last_extent) extents

  -- `( last_extent == NULL ) || ( ( last_extent->range_flags & IS_SPARSE ) == 0 )`
  abbrev pub needs_sparse : LastExtent → Bool
  needs_sparse none = true
  needs_sparse (some (i, e)) = bit_and e.range_flags extent_flag_is_sparse == 0

  -- `last_extent->number_of_blocks += missing`, a uint32_t.
  unfoldable pub grow_last : LastExtent → ℕ → Array → Array
  grow_last none missing extents = extents
  grow_last (some (i, e)) missing extents =
      write_entry extents i (record e { number_of_blocks = add32 e.number_of_blocks missing })

  -- `append_entry` gives the sparse extent the index behind the entries that were there.
  -- What follows the extents, up to `number_of_blocks`. The extent B+ tree has the same code.
  unfoldable pub append_tail : Array → ℕ → Bool → Result Array
  append_tail extents number_of_blocks add_sparse_extents = do
    last_extent ← get_last_extent extents
    let logical_block_number = end_of_last last_extent
    let missing = sub64 number_of_blocks logical_block_number
    if add_sparse_extents && ltb logical_block_number number_of_blocks
        then (if needs_sparse last_extent
            then (do
              appended ← append extents (sparse_extent logical_block_number 0)
              let new_last =
                  some (get_number_of_entries extents, sparse_extent logical_block_number 0)
              ok (grow_last new_last missing appended))
            else ok (grow_last last_extent missing extents))
        else ok extents

  -- `libfsxfs_extent_list_read_data`
  unfoldable pub read_list : Array → ℕ → ℕ → List ℕ → ℕ → Bool → Result Array
  read_list extents number_of_blocks number_of_extents data_bytes data_size add_sparse_extents = do
    filled ← read_data extents number_of_extents data_bytes data_size add_sparse_extents
    append_tail filled number_of_blocks add_sparse_extents
