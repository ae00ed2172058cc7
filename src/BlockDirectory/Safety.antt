-- ===== src/BlockDirectory/Safety.antt =====
-- Reading a block directory of any bytes.
use libfsxfs.Prelude.{
  ℕ, zero, suc, ◌+◌, ◌-◌, ◌*◌, ◌/◌, ◌≤◌, ◌<◌, ◌≡◌, arith, List, length, take, drop, ◌==◌, ltb, ◌||◌,
  ◌&&◌, not, if◌then◌else◌, Option, none, some, length-drop,
}
use libfsxfs.Result.{
  ok, Ensures, IsTotal, Ensures-bind, Ensures-fail_if, Ensures-if, or_fail-IsTotal,
  value_out_of_bounds, append_failed, unsupported_value, exhausted,
}
use libfsxfs.Word.{int64_max, sub64, sub64_le}
use libfsxfs.Bytes.{be_value}
use libfsxfs.Bytes.Laws.{
  slice_inside, read_uint8_inside, read_uint16_inside, read_uint32_inside, read_uint64_inside,
}
use libfsxfs.Array.{CdataArray}
use libfsxfs.Handle.{IoHandle}
use libfsxfs.DirectoryEntry.{DirectoryEntry, file_type_size}
use libfsxfs.BlockDirectory.{
  BlockDirectoryHeader, version_of_signature, entries_start, read_directory_header, read_footer,
  entries_end, padding_size, read_entry, append_read, read_block_entries, read_data,
}

read_directory_header-IsTotal :
    (data_bytes : List ℕ) (data_size : ℕ)
    → data_size ≤ length data_bytes
    → IsTotal (read_directory_header data_bytes data_size)
unfolding read_directory_header
read_directory_header-IsTotal data_bytes data_size h =
    Ensures-fail_if _ (ltb data_size 4 || ltb int64_max data_size) value_out_of_bounds _ λ g.
      let signature = take 4 (drop 0 data_bytes) in
      rw (slice_inside data_bytes 0 4 (ground arith)) (
        Ensures-fail_if _
          (ltb data_size (
            if version_of_signature signature == 0
            then data_size
            else entries_start (version_of_signature signature)))
          value_out_of_bounds _
          λ _.
            Ensures-fail_if _
              (not (version_of_signature signature == 2)
                && not (version_of_signature signature == 3))
              unsupported_value _ λ _. tt)

entries_end-le :
    (header : BlockDirectoryHeader) (data_bytes : List ℕ) (data_size : ℕ)
    → data_size ≤ length data_bytes
    → 8 ≤ data_size
    → data_size ≤ int64_max
    → Ensures (λ e. e ≤ data_size) (entries_end header data_bytes data_size)
unfolding entries_end read_footer
entries_end-le header data_bytes data_size h low m =
    Ensures-if _ header.has_footer _ (ok data_size)
      (λ _.
        let last = drop (data_size - 8) data_bytes in
        let e : sub64 data_size 8 ≡ data_size - 8 = omega arith in
        rw (e, read_uint32_inside last 0 (omega (arith, length-drop (data_size - 8) data_bytes)))
          (Ensures-fail_if (λ x. x ≤ data_size)
            (ltb (sub64 (sub64 data_size 0) 8 / 8) (be_value (take 4 (drop 0 last))))
            value_out_of_bounds (ok (sub64 data_size (8 + be_value (take 4 (drop 0 last)) * 8)))
            λ fits. ground arith))
      (λ _. omega arith)

module _ (io : IoHandle) where
  -- The offset moves on by at least 4.
  read_entry-moves :
      (data_bytes : List ℕ) (end_offset offset : ℕ)
      → end_offset ≤ length data_bytes
      → end_offset ≤ int64_max
      → offset < end_offset
      → Ensures (λ r. offset + 4 ≤ r.1) (read_entry io data_bytes end_offset offset)
  unfolding read_entry
  read_entry-moves data_bytes end_offset offset h m o =
      rw (sub64_le end_offset offset (omega arith) m) (
        Ensures-fail_if _ (ltb (end_offset - offset) 4) value_out_of_bounds _ λ four.
          rw
            (
              read_uint16_inside data_bytes offset (ground arith),
              read_uint16_inside data_bytes (offset + 2) (ground arith),
            )
            (Ensures-if _ (be_value (take 2 (drop offset data_bytes)) == 0xffff) _ _
              (λ _.
                let size = be_value (take 2 (drop (offset + 2) data_bytes)) in
                Ensures-fail_if _ (ltb size 4) value_out_of_bounds (ok (none, offset + size))
                  λ g. ground arith)
              (λ _. Ensures-fail_if _ (ltb (end_offset - offset) 9) value_out_of_bounds _ λ nine.
                let n = be_value (take 1 (drop (offset + 8) data_bytes)) in
                let unpadded = 9 + n + 2 + file_type_size io in
                rw (read_uint8_inside data_bytes (offset + 8) (ground arith)) (
                  Ensures-fail_if _
                    (ltb (unpadded + padding_size unpadded) 6
                      || ltb (end_offset - offset) (unpadded + padding_size unpadded))
                    value_out_of_bounds _
                    λ room.
                      let fits : offset + unpadded ≤ end_offset = ground arith in
                      rw
                        (
                          read_uint64_inside data_bytes offset (omega arith),
                          slice_inside data_bytes (offset + 9) n (omega arith),
                        )
                        (omega arith)))))

module _ (lib : CdataArray DirectoryEntry) (io : IoHandle) where
  open lib use {Array, append_entry}

  append_read-IsTotal :
      (entry : Option DirectoryEntry) (entries_array : Array)
      → IsTotal (append_read lib io entry entries_array)
  unfolding append_read
  append_read-IsTotal none entries_array = tt
  append_read-IsTotal (some entry) entries_array =
      or_fail-IsTotal (append_entry entries_array entry) append_failed

  read_block_entries-IsTotal :
      (fuel : ℕ) (data_bytes : List ℕ) (end_offset offset : ℕ) (entries_array : Array)
      → end_offset ≤ length data_bytes
      → end_offset ≤ int64_max
      → end_offset ≤ offset + 4 * fuel
      → IsTotal (read_block_entries lib io fuel data_bytes end_offset offset entries_array)
  unfolding read_block_entries
  read_block_entries-IsTotal zero data_bytes end_offset offset entries_array h m f =
      Ensures-if _ (ltb offset end_offset) exhausted (ok entries_array) (λ g. absurd (ground arith))
        (λ _. tt)
  read_block_entries-IsTotal (suc fuel) data_bytes end_offset offset entries_array h m f =
      Ensures-if _ (ltb offset end_offset) _ (ok entries_array)
        (λ g.
          Ensures-bind (λ r. offset + 4 ≤ r.1) _ (read_entry io data_bytes end_offset offset) _
            (read_entry-moves io data_bytes end_offset offset h m (ground arith))
            λ r moved.
              Ensures-bind (λ _. Unit {0}) _ (append_read lib io r.0 entries_array) _
                (append_read-IsTotal r.0 entries_array)
                λ appended _.
                  read_block_entries-IsTotal fuel data_bytes end_offset r.1 appended h m
                    (omega arith))
        (λ _. tt)

  -- Where the size is at most that of the bytes, reading a block directory ends inside them, whatever
  -- they are: with a result or an error.
  pub block_read_data-IsTotal :
      (data_bytes : List ℕ) (data_size : ℕ) (entries_array : Array)
      → data_size ≤ length data_bytes
      → IsTotal (read_data lib io data_bytes data_size entries_array)
  unfolding read_data
  block_read_data-IsTotal data_bytes data_size entries_array h =
      Ensures-fail_if _ (ltb data_size 8 || ltb int64_max data_size) value_out_of_bounds _ λ g.
        Ensures-bind (λ _. Unit {0}) _ (read_directory_header data_bytes data_size) _
          (read_directory_header-IsTotal data_bytes data_size h)
          λ header _.
            Ensures-bind (λ e. e ≤ data_size) _ (entries_end header data_bytes data_size) _
              (entries_end-le header data_bytes data_size h (ground arith) (ground arith))
              λ end_offset e.
                read_block_entries-IsTotal data_size data_bytes end_offset
                  (entries_start header.format_version) entries_array (omega arith) (ground arith)
                  (omega arith)
