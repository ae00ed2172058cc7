-- ===== src/Superblock/Supported.antt =====
-- What a superblock that was accepted satisfies.
use native.Mathlib.Numerals.{unary_clauses}
use libfsxfs.Prelude.{
  ℕ, zero, suc, ◌+◌, ◌-◌, ◌*◌, ◌/◌, ◌^◌, ◌≤◌, ◌<◌, ◌≡◌, arith, [], ◌∷◌, List, [], ◌∷◌, length, ◌==◌,
  ltb, leb, ◌||◌, ◌&&◌, not, ◌⊎◌, bit_and, take, drop,
}
use libfsxfs.Result.{
  ok, Ensures, IsTotal, Ensures-bind, Ensures-fail_if, Ensures-if, value_out_of_bounds,
  unsupported_value,
}
use libfsxfs.Word.{int64_max, u32_mod, guard_iff, le_mul_pos}
use libfsxfs.Bytes.{be_value, same_bytes}
use libfsxfs.Bytes.Laws.{
  slice_inside, read_uint8_inside, read_uint16_inside, read_uint32_inside, read_uint64_inside,
}
use libfsxfs.Handle.{FileIoHandle, read_buffer_at_offset}
use libfsxfs.Btree.Records.{read_buffer-length}
use libfsxfs.Superblock.{
  Superblock, uint32_max, supported_feature_flags, is_sector_size, directory_block_size_of,
  check_sizes, check_groups, read_fields, read_data, read_file_io_handle,
}

-- The values that the rest of the library counts on: no division by 0, and relative numbers whose
-- masks fit an int.
pub record IsSupported (s : Superblock) : Type 0 where
  pub version_supported : (s.format_version ≡ 4) ⊎ (s.format_version ≡ 5)
  pub block_size_bounds : (512 ≤ s.block_size) × (s.block_size ≤ 65536)
  pub sector_size_bounds : (512 ≤ s.sector_size) × (s.sector_size ≤ 16384)
  pub inode_size_bounds : (256 ≤ s.inode_size) × (s.inode_size ≤ 2048)
  pub group_size_bounds : (5 ≤ s.allocation_group_size) × (s.allocation_group_size ≤ 2147483647)
  pub directory_block_bounds :
      (s.block_size ≤ s.directory_block_size) × (s.directory_block_size < u32_mod)
  pub block_bits_bounds :
      (1 ≤ s.number_of_relative_block_number_bits)
      × (s.number_of_relative_block_number_bits < s.number_of_relative_inode_number_bits)
  pub inode_bits_bounds : s.number_of_relative_inode_number_bits ≤ 31

record HasSizes (s : Superblock) : Type 0 where
  version_ok : (s.format_version ≡ 4) ⊎ (s.format_version ≡ 5)
  block_ok : (512 ≤ s.block_size) × (s.block_size ≤ 65536)
  sector_ok : (512 ≤ s.sector_size) × (s.sector_size ≤ 16384)
  inode_ok : (256 ≤ s.inode_size) × (s.inode_size ≤ 2048)

check_sizes-HasSizes : (s : Superblock) → Ensures (λ _. HasSizes s) (check_sizes s)
unfolding check_sizes is_sector_size
check_sizes-HasSizes s =
    Ensures-fail_if (λ _. HasSizes s) (not (s.format_version == 4) && not (s.format_version == 5))
      unsupported_value _
      λ version.
        Ensures-fail_if (λ _. HasSizes s)
          (not (bit_and s.feature_flags (uint32_max - supported_feature_flags) == 0))
          unsupported_value _
          λ _.
            Ensures-fail_if (λ _. HasSizes s) (ltb s.block_size 512 || ltb 65536 s.block_size)
              unsupported_value _
              λ block.
                Ensures-fail_if (λ _. HasSizes s) (not (is_sector_size s.sector_size))
                  unsupported_value _
                  λ sector.
                    Ensures-fail_if (λ _. HasSizes s)
                      (ltb s.inode_size 256 || ltb 2048 s.inode_size) unsupported_value (ok tt)
                      λ inode. record {
                        version_ok = ground arith;
                        block_ok = ground arith;
                        sector_ok = ground arith;
                        inode_ok = ground arith;
                      }

-- A power of 2 is positive.
pow2-pos : (n : ℕ) → 0 < 2 ^ n
pow2-pos zero = omega arith
pow2-pos (suc n) = let h = pow2-pos n in simp unary_clauses (omega arith)

directory_block_size_of-bounds :
    (block_size log2 : ℕ)
    → 512 ≤ block_size
    → block_size ≤ 65536
    → Ensures (λ d. (block_size ≤ d) × (d < u32_mod)) (directory_block_size_of block_size log2)
unfolding directory_block_size_of
directory_block_size_of-bounds block_size log2 low high =
    Ensures-if _ (log2 == 0) (ok block_size) _ (λ _. (omega arith, omega arith))
      λ _. Ensures-fail_if _ (leb 32 log2) unsupported_value _ λ _.
        Ensures-fail_if _ (ltb (uint32_max / block_size) (2 ^ log2)) unsupported_value
          (ok (2 ^ log2 * block_size))
          λ g.
            let p : 2 ^ log2 * block_size ≤ uint32_max =
              (guard_iff (2 ^ log2) block_size uint32_max (omega arith)).0 g in
            (
              let q = le_mul_pos block_size (2 ^ log2) (pow2-pos log2) in omega (arith, q),
              omega (arith, p),
            )

record HasGroups (size size_log2 inodes_log2 : ℕ) : Type 0 where
  size_ok : (5 ≤ size) × (size ≤ 2147483647)
  bits_ok : (1 ≤ size_log2) × (1 ≤ inodes_log2)
  sum_ok : size_log2 + inodes_log2 ≤ 31

check_groups-HasGroups :
    (size size_log2 inodes inodes_log2 : ℕ)
    → Ensures
        (λ _. HasGroups size size_log2 inodes_log2)
        (check_groups size size_log2 inodes inodes_log2)
unfolding check_groups
check_groups-HasGroups size size_log2 inodes inodes_log2 =
    Ensures-fail_if (λ _. HasGroups size size_log2 inodes_log2) (ltb size 5 || ltb 2147483647 size)
      unsupported_value _
      λ group.
        Ensures-fail_if (λ _. HasGroups size size_log2 inodes_log2)
          (size_log2 == 0 || ltb 31 size_log2) unsupported_value _
          λ blocks.
            Ensures-fail_if (λ _. HasGroups size size_log2 inodes_log2)
              (inodes_log2 == 0 || ltb (32 - size_log2) inodes_log2) unsupported_value _
              λ per_block.
                Ensures-fail_if (λ _. HasGroups size size_log2 inodes_log2)
                  (size_log2 + inodes_log2 == 0 || leb 32 (size_log2 + inodes_log2))
                  unsupported_value _
                  λ sum.
                    Ensures-fail_if (λ _. HasGroups size size_log2 inodes_log2)
                      (not (2 ^ inodes_log2 == inodes)) unsupported_value (ok tt)
                      λ _. record {
                        size_ok = ground arith;
                        bits_ok = ground arith;
                        sum_ok = ground arith;
                      }

read_fields-IsTotal :
    (data_bytes : List ℕ) → 208 ≤ length data_bytes → IsTotal (read_fields data_bytes)
unfolding read_fields
read_fields-IsTotal data_bytes h =
    rw
      (
        read_uint32_inside data_bytes 4 (omega arith),
        read_uint64_inside data_bytes 8 (omega arith),
        read_uint64_inside data_bytes 48 (omega arith),
        read_uint64_inside data_bytes 56 (omega arith),
        read_uint32_inside data_bytes 84 (omega arith),
        read_uint32_inside data_bytes 88 (omega arith),
        read_uint16_inside data_bytes 100 (omega arith),
        read_uint16_inside data_bytes 102 (omega arith),
        read_uint16_inside data_bytes 104 (omega arith),
        slice_inside data_bytes 108 12 (omega arith),
        read_uint32_inside data_bytes 200 (omega arith),
      )
      tt

superblock_read_data-IsSupported :
    (data_bytes : List ℕ) (data_size : ℕ)
    → data_size ≤ length data_bytes
    → Ensures IsSupported (read_data data_bytes data_size)
unfolding read_data
superblock_read_data-IsSupported data_bytes data_size h =
    Ensures-fail_if _ (ltb data_size 208 || ltb int64_max data_size) value_out_of_bounds _ λ g.
      let enough : 208 ≤ length data_bytes = ground arith in
      rw
        (
          slice_inside data_bytes 0 4 (omega arith),
          read_uint16_inside data_bytes 106 (omega arith),
          read_uint8_inside data_bytes 123 (omega arith),
          read_uint8_inside data_bytes 124 (omega arith),
          read_uint8_inside data_bytes 192 (omega arith),
        )
        (Ensures-fail_if _
          (not (same_bytes (take 4 (drop 0 data_bytes)) (b'X' ∷ b'F' ∷ b'S' ∷ b'B' ∷ [])))
          unsupported_value _
          λ _.
            Ensures-bind (λ _. Unit {0}) _ (read_fields data_bytes) _
              (read_fields-IsTotal data_bytes enough)
              λ s _.
                Ensures-bind (λ _. HasSizes s) _ (check_sizes s) _ (check_sizes-HasSizes s)
                  λ _ sizes.
                    Ensures-bind (λ d. (s.block_size ≤ d) × (d < u32_mod)) _
                      (directory_block_size_of s.block_size
                        (be_value (take 1 (drop 192 data_bytes))))
                      _
                      (directory_block_size_of-bounds s.block_size
                        (be_value (take 1 (drop 192 data_bytes))) sizes.block_ok.0 sizes.block_ok.1)
                      λ d d_ok.
                        Ensures-bind
                          (λ _.
                            HasGroups s.allocation_group_size
                              (be_value (take 1 (drop 124 data_bytes)))
                              (be_value (take 1 (drop 123 data_bytes))))
                          _
                          (check_groups s.allocation_group_size
                            (be_value (take 1 (drop 124 data_bytes)))
                            (be_value (take 2 (drop 106 data_bytes)))
                            (be_value (take 1 (drop 123 data_bytes))))
                          _
                          (check_groups-HasGroups s.allocation_group_size
                            (be_value (take 1 (drop 124 data_bytes)))
                            (be_value (take 2 (drop 106 data_bytes)))
                            (be_value (take 1 (drop 123 data_bytes))))
                          λ _ groups. record {
                            version_supported = sizes.version_ok;
                            block_size_bounds = sizes.block_ok;
                            sector_size_bounds = sizes.sector_ok;
                            inode_size_bounds = sizes.inode_ok;
                            group_size_bounds = groups.size_ok;
                            directory_block_bounds = d_ok;
                            block_bits_bounds =
                                (omega (arith, groups.bits_ok), omega (arith, groups.bits_ok));
                            inode_bits_bounds = omega (arith, groups.sum_ok);
                          })

-- Reading a superblock from a file ends inside the buffer, with an error or with a superblock whose
-- format version is 4 or 5, whose block, sector, inode, group and directory block sizes are in
-- bounds, and whose relative block numbers have at least 1 bit and fewer than its relative inode
-- numbers, which have at most 31.
pub superblock_read-IsSupported :
    (file : FileIoHandle) (file_offset : ℕ)
    → Ensures IsSupported (read_file_io_handle file file_offset)
unfolding read_file_io_handle
superblock_read-IsSupported file file_offset =
    Ensures-bind (λ b. length b ≡ 512) IsSupported (read_buffer_at_offset file 512 file_offset) _
      (read_buffer-length file 512 file_offset)
      λ buffer whole. superblock_read_data-IsSupported buffer 512 (omega (arith, whole))
