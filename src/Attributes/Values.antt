-- ===== src/Attributes/Values.antt =====
-- The data stream of an attribute whose value is in blocks of its own.
use libfsxfs.Prelude.{
  ℕ, zero, suc, ◌+◌, ◌<◌, ◌≡◌, refl, arith, Bool, false, List, length, leb, ltb, ◌&&◌, ◌==◌, some,
  get_elem?, get_elem?_lt,
}
use libfsxfs.Array.{CdataArray}
use libfsxfs.Stream.{FdataStream}
use libfsxfs.Handle.{IoHandle}
use libfsxfs.Extent.{Extent}
use libfsxfs.Extents.{end_block}
use libfsxfs.Inode.{Inode, Fork}
use libfsxfs.Inode.Forks.{number_of_extents_of, extent_by_index_of}
use libfsxfs.AttributesTable.{AttributeValues}
use libfsxfs.DataStream.{DataHandle}
use libfsxfs.Attributes.{find_extent, find_attributes_extent, get_value_data_stream}

-- The extent has the block.
abbrev pub has_block : Extent → ℕ → Bool
has_block e k = leb e.logical_block_number k && ltb k (end_block e)

-- Two blocks that the same extents have.
abbrev pub SameExtents : List Extent → ℕ → ℕ → Type 0
SameExtents es j k = (e : Extent) (i : ℕ) → get_elem? es i ≡ some e → has_block e j ≡ has_block e k

module _ (extents_lib : CdataArray Extent) (libfdata : FdataStream DataHandle) (io : IoHandle) where
  find_extent-same :
      (fork : Fork (CdataArray.Array extents_lib)) (extents : CdataArray.Array extents_lib)
      (j k n i : ℕ)
      → fork.extents_array ≡ some extents
      → i + n ≡ length (extents_lib.entries extents)
      → SameExtents (extents_lib.entries extents) j k
      → find_extent extents_lib fork j n i ≡ find_extent extents_lib fork k n i
  unfolding find_extent
  find_extent-same fork extents j k zero i e h same = refl
  find_extent-same fork extents j k (suc n) i e h same =
      let step = get_elem?_lt (extents_lib.entries extents) i (omega arith) in
      let x = step.0 in
      rw (
        extent_by_index_of extents_lib fork extents i x e step.1,
        same x i step.1,
        find_extent-same fork extents j k n (i + 1) e (omega arith) same,
      )

  -- Two values in blocks of their own, of the same size and at blocks of the same extent, are given
  -- the same data stream: the block inside the extent is not regarded.
  pub get_value_data_stream-same :
      (inode : Inode extents_lib) (extents : CdataArray.Array extents_lib) (a b : AttributeValues)
      → inode.attributes_fork.extents_array ≡ some extents
      → 0 < a.value_data_block_number
      → 0 < b.value_data_block_number
      → a.value_data_size ≡ b.value_data_size
      → SameExtents
          (extents_lib.entries extents)
          a.value_data_block_number
          b.value_data_block_number
      → get_value_data_stream extents_lib libfdata io inode a
        ≡ get_value_data_stream extents_lib libfdata io inode b
  unfolding get_value_data_stream find_attributes_extent
  get_value_data_stream-same inode extents a b e p q size same =
      let remote_a : (a.value_data_block_number == 0) ≡ false = ground arith in
      let remote_b : (b.value_data_block_number == 0) ≡ false = ground arith in
      let n = extents_lib.get_number_of_entries extents in
      let found =
        find_extent-same inode.attributes_fork extents a.value_data_block_number
          b.value_data_block_number n 0 e (omega (arith, extents_lib.number_law extents)) same in
      rw (
        remote_a,
        remote_b,
        number_of_extents_of extents_lib inode.attributes_fork extents e,
        found,
        size,
      )
