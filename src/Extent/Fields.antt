-- ===== src/Extent/Fields.antt =====
-- What `libfsxfs_extent_read_data` makes of the 128 bits of a packed extent, laid out as the
-- format documentation has it: from the highest bit down 1 flag, 54 bits of logical block number,
-- 52 bits of physical block number and 21 bits of number of blocks.
use mathlib.Core.Path.{ap₂}
use libfsxfs.Prelude.{ℕ, ◌+◌, ◌*◌, ◌/◌, ◌%◌, ◌≤◌, ◌<◌, ◌≡◌, ◌≢◌, arith, List, ◌++◌, ◌∙◌, ap, sym}
use libfsxfs.Bits.{bit_or-le, bit_or-zero}
use libfsxfs.Result.{ok}
use libfsxfs.Bytes.Encode.{be64, be_value-be64}
use libfsxfs.Bytes.Laws.{read_uint64_inside}
use libfsxfs.Extent.{Extent, unpack, read_data}

abbrev pub upper_half : Extent → ℕ
upper_half e =
    e.range_flags * 9223372036854775808
    + e.logical_block_number * 512
    + e.physical_block_number / 8796093022208

abbrev pub lower_half : Extent → ℕ
lower_half e = e.physical_block_number % 8796093022208 * 2097152 + e.number_of_blocks

abbrev pub packed : Extent → List ℕ
packed e = be64 (upper_half e) ++ be64 (lower_half e)

-- The fields fit their bits. `range_flags` has one flag, IS_SPARSE, for the documented bit.
pub record IsPackable (e : Extent) : Type 0 where
  pub logical_fits : e.logical_block_number < 18014398509481984
  pub physical_fits : e.physical_block_number < 4503599627370496
  pub blocks_fit : e.number_of_blocks < 2097152
  pub flag_fits : e.range_flags ≤ 1

-- The 16 bytes are there, so `read_data` gives the fields of the two halves.
pub read_data-packed :
    (e : Extent) (rest : List ℕ)
    → IsPackable e
    → read_data (packed e ++ rest) 16 ≡ ok (unpack (upper_half e) (lower_half e))
unfolding read_data
read_data-packed e rest p =
    let up : upper_half e < 18446744073709551616 = omega arith in
    let low : lower_half e < 18446744073709551616 = omega arith in
    rw
      (
        read_uint64_inside (packed e ++ rest) 0 (omega arith),
        read_uint64_inside (packed e ++ rest) 8 (omega arith),
      )
      (ap₂ (λ (u l : ℕ). ok (unpack u l)) (be_value-be64 (upper_half e) up)
        (be_value-be64 (lower_half e) low))

-- An extent whose fields fit their bits, with a physical block number below 2 ^ 43, that is packed as
-- documented is read back.
pub read_data_roundtrip :
    (e : Extent) (rest : List ℕ)
    → IsPackable e
    → e.physical_block_number < 8796093022208
    → read_data (packed e ++ rest) 16 ≡ ok e
unfolding unpack
read_data_roundtrip e rest p below =
    read_data-packed e rest p ∙ ap ok (ground (arith, bit_or-zero e.physical_block_number))

-- A packed extent whose fields fit their bits and whose physical block number is 2 ^ 43 + 512 or more
-- is read as another extent: the upper 9 bits of the number are joined in unshifted.
pub read_data-ne-packed :
    (e : Extent) (rest : List ℕ)
    → IsPackable e
    → 8796093022720 ≤ e.physical_block_number
    → read_data (packed e ++ rest) 16 ≢ ok e
unfolding unpack
read_data-ne-packed e rest p above h =
    let read : ok (unpack (upper_half e) (lower_half e)) ≡ ok e =
      sym (read_data-packed e rest p) ∙ h in
    ground (arith, read, bit_or-le (lower_half e / 2097152) (upper_half e % 512))
