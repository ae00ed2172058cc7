-- ===== src/Btree/Records.antt =====
-- The records of a block that was read: as many bytes as the block says.
use libfsxfs.Prelude.{ℕ, ◌≤◌, ◌≡◌, arith, List, length, length-drop, ltb, ◌||◌, ◌==◌, not, ◌&&◌}
use libfsxfs.Result.{
  Ensures, IsTotal, Ensures-bind, Ensures-fail_if, value_out_of_bounds, unsupported_value,
  read_failed, or_fail, or_fail-IsTotal,
}
use libfsxfs.Word.{int64_max}
use libfsxfs.Bytes.Laws.{slice_inside, read_uint16_inside}
use libfsxfs.Handle.{IoHandle, FileIoHandle, read_buffer_at_offset}
use libfsxfs.Btree.{
  BtreeBlock, header_data_size, read_header, read_block_data, read_block, maximum_allocation_size,
}

-- 16 to 72 bytes.
header_data_size_bounds :
    (io : IoHandle) (n : ℕ) → (16 ≤ header_data_size io n) × (header_data_size io n ≤ 72)
unfolding header_data_size
header_data_size_bounds io n = ground arith

read_header-IsTotal :
    (io : IoHandle) (data_bytes : List ℕ) (data_size n : ℕ)
    → data_size ≤ length data_bytes
    → IsTotal (read_header io data_bytes data_size n)
unfolding read_header
read_header-IsTotal io data_bytes data_size n h =
    Ensures-fail_if _ (not (n == 4) && not (n == 8)) unsupported_value _ λ _.
      Ensures-fail_if _ (ltb data_size (header_data_size io n) || ltb int64_max data_size)
        value_out_of_bounds _
        λ g.
          let size : 16 ≤ length data_bytes = ground (arith, header_data_size_bounds io n) in
          rw
            (
              slice_inside data_bytes 0 4 (omega arith),
              read_uint16_inside data_bytes 4 (omega arith),
              read_uint16_inside data_bytes 6 (omega arith),
            )
            tt

abbrev pub HasRecords : BtreeBlock → Type 0
HasRecords b = b.records_data_size ≡ length b.records_data

read_block_data-HasRecords :
    (io : IoHandle) (data_bytes : List ℕ) (data_size n : ℕ)
    → length data_bytes ≡ data_size
    → Ensures HasRecords (read_block_data io data_bytes data_size n)
unfolding read_block_data
read_block_data-HasRecords io data_bytes data_size n e =
    let size = header_data_size io n in
    Ensures-fail_if _ (ltb data_size size || ltb int64_max data_size) value_out_of_bounds _ λ g.
      Ensures-bind _ _ (read_header io data_bytes size n) _
        (read_header-IsTotal io data_bytes size n (ground arith))
        λ header _. ground (arith, length-drop size data_bytes)

-- What a read of `size` bytes gives has that many.
pub read_buffer-length :
    (file : FileIoHandle) (size offset : ℕ)
    → Ensures (λ buffer. length buffer ≡ size) (read_buffer_at_offset file size offset)
unfolding read_buffer_at_offset
read_buffer-length file size offset =
    Ensures-bind (λ _. Unit {0}) _ (or_fail (file size offset) read_failed) _
      (or_fail-IsTotal (file size offset) read_failed)
      λ buffer _. Ensures-fail_if _ (not (length buffer == size)) read_failed _ λ g. ground arith

-- Reading a block ends inside its buffers, and gives as many record bytes as it says.
pub read_block-HasRecords :
    (io : IoHandle) (file : FileIoHandle) (n file_offset : ℕ)
    → Ensures HasRecords (read_block io file n file_offset)
unfolding read_block
read_block-HasRecords io file n file_offset =
    Ensures-fail_if _ (io.block_size == 0 || ltb maximum_allocation_size io.block_size)
      value_out_of_bounds _
      λ _.
        Ensures-bind _ _ (read_buffer_at_offset file io.block_size file_offset) _
          (read_buffer-length file io.block_size file_offset)
          λ buffer e. read_block_data-HasRecords io buffer io.block_size n e
