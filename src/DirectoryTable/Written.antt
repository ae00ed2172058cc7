-- ===== src/DirectoryTable/Written.antt =====
-- The whole directory table, from its header to its last entry, is read back.
use libfsxfs.Prelude.{
  ℕ, ◌+◌, ◌≤◌, ◌<◌, ◌≡◌, refl, sym, arith, List, [], ◌∷◌, ◌++◌, length, length-append, append-nil,
  ◌==◌, if◌then◌else◌, inl, inr, All,
}
use libfsxfs.Result.{ok}
use libfsxfs.Word.{int64_max}
use libfsxfs.Bytes.Encode.{be32, be64}
use libfsxfs.Bytes.Cursor.{At, At-next, At-move, read_uint8-At}
use libfsxfs.Array.{CdataArray, HasMemory}
use libfsxfs.Handle.{IoHandle}
use libfsxfs.DirectoryEntry.{DirectoryEntry}
use libfsxfs.DirectoryTable.{read_inode_number, read_header, read_data}
use libfsxfs.DirectoryTable.RoundTrip.{
  Extra, number_bytes, entries_bytes, names_of, FitsWidth, EntryFits, length-number_bytes,
  read_number-At, read_entries_back,
}

-- The number of entries stands in the first byte for 4-byte inode numbers, in the second for
-- 8-byte ones; the other byte is 0.
abbrev pub count_bytes : ℕ → ℕ → List ℕ
count_bytes width n = if width == 4 then n ∷ 0 ∷ [] else 0 ∷ n ∷ []

abbrev pub table_bytes : IoHandle → ℕ → ℕ → List (DirectoryEntry × Extra) → List ℕ
table_bytes io width parent es =
    count_bytes width (length es) ++ (number_bytes width parent ++ entries_bytes io width es)

-- Both counts 0 mean 4-byte numbers, so a table of 8-byte ones has an entry.
abbrev pub CountFits : ℕ → ℕ → Type 0
CountFits width n = (n < 256) × (width ≡ 8 → 0 < n)

read_header_back :
    (width parent n : ℕ) (rest : List ℕ) (size : ℕ)
    → FitsWidth width parent
    → CountFits width n
    → 2 + width ≤ size
    → size ≤ int64_max
    → read_header (count_bytes width n ++ (number_bytes width parent ++ rest)) size
      ≡ ok (record {
        number_of_entries = n;
        inode_number_data_size = width;
        parent_inode_number = parent;
      })
unfolding read_header read_inode_number
read_header_back width parent n rest size (inl (w, f)) c room m =
    let bytes : List ℕ = n ∷ 0 ∷ (be32 parent ++ rest) in
    rw
      (
        w,
        read_uint8-At bytes 0 n _ (record { inside = omega arith; stands = refl }),
        read_uint8-At bytes 1 0 _ (record { inside = omega arith; stands = refl }),
        read_number-At bytes 2 4 parent rest (inl (refl, f))
            (record { inside = omega arith; stands = refl }),
      )
      (ground (arith, w))
read_header_back width parent n rest size (inr (w, f)) c room m =
    let bytes : List ℕ = 0 ∷ n ∷ (be64 parent ++ rest) in
    rw
      (
        w,
        read_uint8-At bytes 0 0 _ (record { inside = omega arith; stands = refl }),
        read_uint8-At bytes 1 n _ (record { inside = omega arith; stands = refl }),
        read_number-At bytes 2 8 parent rest (inr (refl, f))
            (record { inside = omega arith; stands = refl }),
      )
      (ground (arith, w))

length-count_bytes : (width n : ℕ) → length (count_bytes width n) ≡ 2
length-count_bytes width n = ground arith

module _ (lib : CdataArray DirectoryEntry) (memory : HasMemory lib) (io : IoHandle) where
  open lib use {Array, entries}

  -- A table that is written with at most 255 entries, at least one if the inode numbers have 8 bytes,
  -- whose names have at most 255 bytes and whose inode numbers fit their 4 or 8 bytes, is read back:
  -- where memory does not run out, the call succeeds, returns the header as written, and appends the
  -- entries in order to those of the array.
  pub table_read_data_roundtrip :
      (width parent : ℕ) (es : List (DirectoryEntry × Extra)) (entries_array : Array)
      → FitsWidth width parent
      → CountFits width (length es)
      → All (EntryFits width) es
      → length (table_bytes io width parent es) ≤ int64_max
      → (after : Array) × (read_data lib io
            (table_bytes io width parent es)
            (length (table_bytes io width parent es))
            entries_array
          ≡ ok (
            record {
              number_of_entries = length es;
              inode_number_data_size = width;
              parent_inode_number = parent;
            },
            after,
          ))
        × (entries after ≡ entries entries_array ++ names_of es)
  unfolding read_data
  table_read_data_roundtrip width parent es entries_array f c g m =
      let size = length (table_bytes io width parent es) in
      let more = entries_bytes io width es in
      let count_len = length-count_bytes width (length es) in
      let number_len = length-number_bytes width parent f in
      let total : size ≡ 2 + width + length more = omega (
        arith,
        count_len,
        number_len,
        length-append (count_bytes width (length es)) (number_bytes width parent ++ more),
        length-append (number_bytes width parent) more,
      ) in
      let header =
        read_header_back width parent (length es) more size f c (omega (arith, total)) m in
      let at_count : At (table_bytes io width parent es) 0 (count_bytes width (length es))
          (number_bytes width parent ++ more) =
        record { inside = omega arith; stands = refl } in
      let at_entries =
        At-move
          (At-next _ _ (number_bytes width parent) _
            (At-next _ 0 (count_bytes width (length es)) _ at_count (number_bytes width parent) more
              refl)
            more [] (sym (append-nil more)))
          (2 + width) (omega (arith, count_len, number_len)) in
      let (after, done, ends) =
        read_entries_back lib memory io width es (table_bytes io width parent es) [] size
          (2 + width) entries_array g at_entries (omega (arith, total)) m in
      let start : (if width == 4 then 6 else 10) ≡ 2 + width = ground (arith, f) in
      (after, rw (header, start, done) (ground (arith, total)), ends)
