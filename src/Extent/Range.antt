-- ===== src/Extent/Range.antt =====
-- Bounds: what `libfsxfs_extent_read_data` reads is in range, and the products of
-- `libfsxfs_extent_get_values` do not wrap around.
use libfsxfs.Prelude.{
  ℕ, ◌-◌, ◌*◌, ◌≤◌, ◌<◌, ◌≡◌, ap, sym, ◌∙◌, arith, List, All, length, ◌↔◌, ltb, ◌||◌,
}
use libfsxfs.Bits.{bit_or-le}
use libfsxfs.Result.{ok, Ensures, Ensures-bind, Ensures-fail_if, value_out_of_bounds}
use libfsxfs.Word.{guard_iff, int64_max, u64_mod, shr, low_bits}
use libfsxfs.Bytes.{IsByte, read_uint64}
use libfsxfs.Bytes.Laws.{read_uint64_bound}
use libfsxfs.Handle.{IoHandle}
use libfsxfs.Extent.{Extent, ExtentValues, unpack, read_data, get_values}

pub record IsInRange (e : Extent) : Type 0 where
  pub logical_in_range : e.logical_block_number < 18014398509481984
  pub physical_in_range : e.physical_block_number < 8796093022720
  pub blocks_in_range : e.number_of_blocks < 2097152
  pub flags_in_range : e.range_flags ≤ 1

pub unpack-IsInRange : (upper lower : ℕ) → lower < u64_mod → IsInRange (unpack upper lower)
unfolding unpack
unpack-IsInRange upper lower h = ground (arith, bit_or-le (shr lower 21) (low_bits upper 9))

-- On 16 bytes or more the read ends inside them, and if it succeeds the extent is in range.
pub read_data-IsInRange :
    (data_bytes : List ℕ) (data_size : ℕ)
    → All IsByte data_bytes
    → 16 ≤ length data_bytes
    → Ensures IsInRange (read_data data_bytes data_size)
unfolding read_data
read_data-IsInRange data_bytes data_size b h =
    Ensures-fail_if IsInRange (ltb data_size 16 || ltb int64_max data_size) value_out_of_bounds _
      λ _.
        Ensures-bind (λ v. v < u64_mod) IsInRange (read_uint64 data_bytes 0) _
          (read_uint64_bound data_bytes 0 b (omega arith))
          λ upper _.
            Ensures-bind (λ v. v < u64_mod) IsInRange (read_uint64 data_bytes 8) _
              (read_uint64_bound data_bytes 8 b (omega arith))
              λ lower k. unpack-IsInRange upper lower k

-- The extent ends inside what an off64_t and a size64_t hold.
pub record Fits (e : Extent) (io : IoHandle) : Type 0 where
  pub block_size_pos : 0 < io.block_size
  pub offset_fits : e.physical_block_number * io.block_size ≤ int64_max
  pub size_fits : e.number_of_blocks * io.block_size < u64_mod

abbrev pub products : Extent → IoHandle → ExtentValues
products e io = record {
  extent_offset = e.physical_block_number * io.block_size;
  extent_size = e.number_of_blocks * io.block_size;
  extent_flags = e.range_flags;
}

get_values_of_Fits : (e : Extent) (io : IoHandle) → Fits e io → get_values e io ≡ ok (products e io)
unfolding get_values
get_values_of_Fits e io f = ground (
  arith,
  (guard_iff e.physical_block_number io.block_size int64_max f.block_size_pos).1 f.offset_fits,
  (guard_iff e.number_of_blocks io.block_size (u64_mod - 1) f.block_size_pos).1
      (omega (arith, f.size_fits)),
)

Fits-of_get_values :
    (e : Extent) (io : IoHandle) (v : ExtentValues) → get_values e io ≡ ok v → Fits e io
unfolding get_values
Fits-of_get_values e io v h =
    let pos : 0 < io.block_size = ground arith in
    record {
      block_size_pos = pos;
      offset_fits =
          (guard_iff e.physical_block_number io.block_size int64_max pos).0 (ground arith);
      size_fits =
          let q = (guard_iff e.number_of_blocks io.block_size (u64_mod - 1) pos).0 (ground arith) in
          omega arith;
    }

-- `get_values` succeeds exactly when the block size is not 0 and the extent's offset and size fit
-- their types, and then the values are the true products.
pub get_values_iff :
    (e : Extent) (io : IoHandle) (v : ExtentValues)
    → (get_values e io ≡ ok v) ↔ (Fits e io × (v ≡ products e io))
get_values_iff e io v = (
  (λ h. let f = Fits-of_get_values e io v h in (f, cc (h, get_values_of_Fits e io f))),
  λ p. get_values_of_Fits e io p.0 ∙ ap ok (sym p.1),
)
