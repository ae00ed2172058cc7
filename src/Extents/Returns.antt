-- ===== src/Extents/Returns.antt =====
-- When `libfsxfs_extent_list_read_data` succeeds, and when its result has a hole.
use libfsxfs.Prelude.{
  ℕ, zero, suc, ◌+◌, ◌*◌, ◌/◌, ◌≤◌, ◌<◌, ◌≡◌, arith, Bool, true, false, List, [], ◌∷◌, ltb, ◌&&◌,
  ◌||◌, ◌==◌, Bool-cases, inl, inr, length, length-drop, drop, last_cases,
}
use libfsxfs.Result.{Ensures, Ensures-mono, Succeeds, Succeeds->>=}
use libfsxfs.Word.{u32_mod, int64_max}
use libfsxfs.Array.{CdataArray, HasMemory}
use libfsxfs.Extent.{Extent, unpack}
use libfsxfs.Extents.{
  end_of_last, get_last_extent, append, append_gap, read_extents, read_data, append_tail, read_list,
  needs_sparse, sparse_extent,
}
use libfsxfs.Extents.Fill.{
  extent_at, extents_at, fill, read_data-Extends, read_extent_data, get_last_extent_nil,
  get_last_extent_end,
}
use libfsxfs.Extents.Contiguous.{Contiguous, fill-not-Contiguous}

module _ (lib : CdataArray Extent) where
  open lib use {Array, entries}

  -- If the first extent of the data starts at block 2 ^ 32 or behind it, then
  -- `libfsxfs_extents_read_data` with sparse extents, on an empty array, reads nothing behind the data,
  -- and the extents it gives do not cover the blocks from 0 on: the number of blocks of the sparse
  -- extent in front is cut to 32 bits.
  pub read_data-not-Contiguous :
      (extents : Array) (n : ℕ) (data_bytes : List ℕ) (data_size : ℕ)
      → entries extents ≡ []
      → data_size ≤ length data_bytes
      → u32_mod ≤ (extent_at (drop 0 data_bytes)).logical_block_number
      → Ensures
          (λ after. ¬ Contiguous 0 (entries after))
          (read_data lib extents (suc n) data_bytes data_size true)
  unfolding unpack
  read_data-not-Contiguous extents n data_bytes data_size empty h far =
      let first = extent_at (drop 0 data_bytes) in
      let more = extents_at n data_bytes 16 in
      Ensures-mono _ (λ after. ¬ Contiguous 0 (entries after))
        (read_data lib extents (suc n) data_bytes data_size true)
        (read_data-Extends lib extents (suc n) data_bytes data_size true h)
        λ after f.
          let e : entries after ≡ fill true 0 (first ∷ more) = rw empty at f in
          rw e (fill-not-Contiguous 0 first more (omega arith) (omega (arith, far)))

module _ (lib : CdataArray Extent) (memory : HasMemory lib) where
  open lib use {Array, entries}

  append-Succeeds : (extents : Array) (e : Extent) → Succeeds (append lib extents e)
  unfolding append
  append-Succeeds extents e = let (b, appended) = memory extents e in rw appended tt

  append_gap-Succeeds :
      (add_sparse : Bool) (start : ℕ) (e : Extent) (extents : Array)
      → Succeeds (append_gap lib add_sparse start e extents)
  unfolding append_gap
  append_gap-Succeeds add_sparse start e extents =
      elim (Bool-cases (add_sparse && ltb start e.logical_block_number)) [
        | inl yes_gap ↦ rw yes_gap (append-Succeeds extents _)
        | inr no_gap ↦ rw no_gap tt
      ]

  read_extents-Succeeds :
      (n : ℕ) (data_bytes : List ℕ) (offset : ℕ) (add_sparse : Bool) (start : ℕ) (extents : Array)
      → offset + 16 * n ≤ length data_bytes
      → Succeeds (read_extents lib n data_bytes offset add_sparse start extents)
  unfolding read_extents
  read_extents-Succeeds zero data_bytes offset add_sparse start extents h = tt
  read_extents-Succeeds (suc n) data_bytes offset add_sparse start extents h =
      let e = extent_at (drop offset data_bytes) in
      rw (read_extent_data (drop offset data_bytes) (omega (arith, length-drop offset data_bytes)))
        (Succeeds->>= (append_gap lib add_sparse start e extents) _
          (append_gap-Succeeds add_sparse start e extents)
          λ filled. Succeeds->>= (append lib filled e) _ (append-Succeeds filled e) λ appended.
            read_extents-Succeeds n data_bytes (offset + 16) add_sparse _ appended (omega arith))

  get_last_extent-Succeeds : (extents : Array) → Succeeds (get_last_extent lib extents)
  get_last_extent-Succeeds extents = elim (last_cases (entries extents)) [
    | inl e ↦ rw (get_last_extent_nil lib extents e) tt
    | inr (xs, x, e) ↦ rw (get_last_extent_end lib extents xs x e) tt
  ]

  append_tail-Succeeds :
      (extents : Array) (number_of_blocks : ℕ) (add_sparse : Bool)
      → Succeeds (append_tail lib extents number_of_blocks add_sparse)
  unfolding append_tail
  append_tail-Succeeds extents number_of_blocks add_sparse =
      Succeeds->>= (get_last_extent lib extents) _ (get_last_extent-Succeeds extents) λ last.
        elim (Bool-cases (add_sparse && ltb (end_of_last last) number_of_blocks)) [
          | inr long ↦ rw long tt
          | inl short ↦ rw short (elim (Bool-cases (needs_sparse lib last)) [
            | inl plain ↦ rw plain (
                Succeeds->>= (append lib extents (sparse_extent (end_of_last last) 0)) _
                  (append-Succeeds extents _) λ appended. tt)
            | inr sparse ↦ rw sparse tt
          ])
        ]

  -- `libfsxfs_extent_list_read_data` succeeds where memory does not run out, the size is that of the
  -- data or less, not 0 and no more than SSIZE_MAX, and the extents have room in it.
  pub read_list-Succeeds :
      (extents : Array) (number_of_blocks number_of_extents : ℕ) (data_bytes : List ℕ)
      (data_size : ℕ) (add_sparse : Bool)
      → data_size ≤ length data_bytes
      → 0 < data_size
      → data_size ≤ int64_max
      → 16 * number_of_extents ≤ data_size
      → Succeeds
          (read_list lib extents number_of_blocks number_of_extents data_bytes data_size add_sparse)
  unfolding read_list read_data
  read_list-Succeeds extents number_of_blocks n data_bytes data_size add_sparse h low high room =
      let in_range : (data_size == 0 || ltb int64_max data_size) ≡ false = ground arith in
      let has_room : ltb (data_size / 16) n ≡ false = ground arith in
      rw (in_range, has_room)
        (Succeeds->>= _ (λ filled. append_tail lib filled number_of_blocks add_sparse)
          (Succeeds->>= (get_last_extent lib extents) _ (get_last_extent-Succeeds extents) λ last.
            read_extents-Succeeds n data_bytes 0 add_sparse (end_of_last last) extents
              (omega arith))
          λ filled. append_tail-Succeeds filled number_of_blocks add_sparse)
