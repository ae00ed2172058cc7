-- ===== src/DirectoryTable/Safety.antt =====
-- Reading a directory table of any bytes.
use libfsxfs.Prelude.{
  ℕ, zero, suc, ◌+◌, ◌-◌, ◌≤◌, ◌≡◌, refl, arith, List, length, take, drop, ◌==◌, ltb, ◌||◌, ◌&&◌,
  not, if◌then◌else◌, ◌⊎◌, inl, inr, Bool-cases,
}
use libfsxfs.Result.{
  Ensures, IsTotal, Ensures-bind, Ensures-fail_if, or_fail-IsTotal, or_fail, value_out_of_bounds,
  unsupported_value, append_failed,
}
use libfsxfs.Word.{int64_max, sub64_le}
use libfsxfs.Bytes.{be_value}
use libfsxfs.Bytes.Laws.{slice_inside, read_uint8_inside, read_uint32_inside, read_uint64_inside}
use libfsxfs.Array.{CdataArray}
use libfsxfs.Handle.{IoHandle}
use libfsxfs.DirectoryEntry.{DirectoryEntry, file_type_size}
use libfsxfs.DirectoryTable.{
  DirectoryTableHeader, read_inode_number, read_header, read_entries, read_data,
}

read_inode_number-IsTotal :
    (size : ℕ) (data_bytes : List ℕ) (offset : ℕ)
    → (size ≡ 4) ⊎ (size ≡ 8)
    → offset + size ≤ length data_bytes
    → IsTotal (read_inode_number size data_bytes offset)
unfolding read_inode_number
read_inode_number-IsTotal size data_bytes offset (inl e) h =
    rw (e, read_uint32_inside data_bytes offset (omega arith)) tt
read_inode_number-IsTotal size data_bytes offset (inr e) h =
    rw (e, read_uint64_inside data_bytes offset (omega arith)) tt

-- The inode numbers of a table are all of 4 or all of 8 bytes, and the header fits the data.
pub record IsHeader (data_size : ℕ) (h : DirectoryTableHeader) : Type 0 where
  pub number_width : (h.inode_number_data_size ≡ 4) ⊎ (h.inode_number_data_size ≡ 8)
  pub header_fits : (if h.inode_number_data_size == 4 then 6 else 10) ≤ data_size

read_header-IsHeader :
    (data_bytes : List ℕ) (data_size : ℕ)
    → data_size ≤ length data_bytes
    → Ensures (IsHeader data_size) (read_header data_bytes data_size)
unfolding read_header
read_header-IsHeader data_bytes data_size h =
    Ensures-fail_if _ (ltb data_size 2 || ltb int64_max data_size) value_out_of_bounds _ λ g.
      let two : 2 ≤ data_size = ground arith in
      let a = be_value (take 1 (drop 0 data_bytes)) in
      let b = be_value (take 1 (drop 1 data_bytes)) in
      rw
        (read_uint8_inside data_bytes 0 (omega arith), read_uint8_inside data_bytes 1 (omega arith))
        (Ensures-fail_if _ (not (a == 0) && not (b == 0)) unsupported_value _ λ _.
          elim (Bool-cases (b == 0)) [
            | inl narrow ↦ rw narrow (
                Ensures-fail_if _ (ltb data_size 6) value_out_of_bounds _ λ fits.
                  Ensures-bind (λ _. Unit {0}) _ (read_inode_number 4 data_bytes 2) _
                    (read_inode_number-IsTotal 4 data_bytes 2 (inl refl) (ground arith))
                    λ parent _. record { number_width = inl refl; header_fits = ground arith })
            | inr wide ↦ rw wide (
                Ensures-fail_if _ (ltb data_size 10) value_out_of_bounds _ λ fits.
                  Ensures-bind (λ _. Unit {0}) _ (read_inode_number 8 data_bytes 2) _
                    (read_inode_number-IsTotal 8 data_bytes 2 (inr refl) (ground arith))
                    λ parent _. record { number_width = inr refl; header_fits = ground arith })
          ])

module _ (lib : CdataArray DirectoryEntry) (io : IoHandle) where
  open lib use {Array, append_entry}

  read_entries-IsTotal :
      (n width : ℕ) (data_bytes : List ℕ) (data_size offset : ℕ) (entries_array : Array)
      → (width ≡ 4) ⊎ (width ≡ 8)
      → data_size ≤ length data_bytes
      → data_size ≤ int64_max
      → offset ≤ data_size
      → IsTotal (read_entries lib io n width data_bytes data_size offset entries_array)
  unfolding read_entries
  read_entries-IsTotal zero width data_bytes data_size offset entries_array w h m o = tt
  read_entries-IsTotal (suc n) width data_bytes data_size offset entries_array w h m o =
      rw (sub64_le data_size offset o m) (
        Ensures-fail_if _ (ltb (data_size - offset) 1) value_out_of_bounds _ λ one.
          let size = be_value (take 1 (drop offset data_bytes)) in
          let entry_size = 3 + size + file_type_size io + width in
          rw (read_uint8_inside data_bytes offset (ground arith)) (
            Ensures-fail_if _ (ltb (data_size - offset) entry_size) value_out_of_bounds _ λ room.
              let fits : offset + entry_size ≤ data_size = ground arith in
              rw (slice_inside data_bytes (offset + 3) size (omega arith)) (
                Ensures-bind (λ _. Unit {0}) _
                  (read_inode_number width data_bytes (offset + (3 + size + file_type_size io))) _
                  (read_inode_number-IsTotal width data_bytes
                    (offset + (3 + size + file_type_size io)) w (omega arith))
                  λ number _.
                    Ensures-bind (λ _. Unit {0}) _
                      (or_fail (append_entry entries_array _) append_failed) _
                      (or_fail-IsTotal (append_entry entries_array _) append_failed)
                      λ appended _.
                        read_entries-IsTotal n width data_bytes data_size (offset + entry_size)
                          appended w h m fits)))

  -- Where the size is at most that of the bytes, reading a table ends inside them, whatever they are.
  pub table_read_data-IsTotal :
      (data_bytes : List ℕ) (data_size : ℕ) (entries_array : Array)
      → data_size ≤ length data_bytes
      → IsTotal (read_data lib io data_bytes data_size entries_array)
  unfolding read_data
  table_read_data-IsTotal data_bytes data_size entries_array h =
      Ensures-fail_if _ (ltb data_size 2 || ltb int64_max data_size) value_out_of_bounds _ λ g.
        Ensures-bind (IsHeader data_size) _ (read_header data_bytes data_size) _
          (read_header-IsHeader data_bytes data_size h)
          λ header i.
            Ensures-bind (λ _. Unit {0}) _
              (read_entries lib io header.number_of_entries header.inode_number_data_size data_bytes
                data_size (if header.inode_number_data_size == 4 then 6 else 10) entries_array)
              _
              (read_entries-IsTotal header.number_of_entries header.inode_number_data_size
                data_bytes data_size (if header.inode_number_data_size == 4 then 6 else 10)
                entries_array i.number_width h (ground arith) i.header_fits)
              λ filled _. tt
