-- ===== src/DirectoryTable/RoundTrip.antt =====
-- A directory table that is written as the format has it is read back.
use libfsxfs.Prelude.{
  ℕ, ◌+◌, ◌-◌, ◌≤◌, ◌<◌, ◌≡◌, refl, sym, arith, List, [], ◌∷◌, ◌++◌, length, length-append,
  append_assoc, append-nil, ◌==◌, if◌then◌else◌, ◌⊎◌, inl, inr, All,
}
use libfsxfs.Result.{ok}
use libfsxfs.Word.{int64_max, sub64, sub64_le}
use libfsxfs.Bytes.Encode.{be32, be64}
use libfsxfs.Bytes.Cursor.{
  At, At-next, At-split, At-move, slice_at, read_uint8-At, read_uint32-At, read_uint64-At,
}
use libfsxfs.Array.{CdataArray, HasMemory}
use libfsxfs.Handle.{IoHandle}
use libfsxfs.DirectoryEntry.{DirectoryEntry, has_file_type, file_type_size}
use libfsxfs.DirectoryTable.{read_inode_number, read_entries}

-- What an entry has on disk beside the name and the inode number.
pub record Extra : Type 0 where
  pub tag_upper : ℕ
  pub tag_lower : ℕ
  pub file_type : ℕ

abbrev pub number_bytes : ℕ → ℕ → List ℕ
number_bytes width number = if width == 4 then be32 number else be64 number

abbrev pub type_bytes : IoHandle → Extra → List ℕ
type_bytes io x = if has_file_type io then x.file_type ∷ [] else []

abbrev pub entry_bytes : IoHandle → ℕ → DirectoryEntry × Extra → List ℕ
entry_bytes io width (e, x) =
    length e.name
    ∷ x.tag_upper
    ∷ x.tag_lower
    ∷ (e.name ++ (type_bytes io x ++ number_bytes width e.inode_number))

abbrev pub entries_bytes : IoHandle → ℕ → List (DirectoryEntry × Extra) → List ℕ
entries_bytes io width [] = []
entries_bytes io width (e ∷ es) = entry_bytes io width e ++ entries_bytes io width es

abbrev pub names_of : List (DirectoryEntry × Extra) → List DirectoryEntry
names_of [] = []
names_of ((e, x) ∷ es) = e ∷ names_of es

-- The inode number fits its 4 or 8 bytes.
abbrev pub FitsWidth : ℕ → ℕ → Type 0
FitsWidth width number =
    ((width ≡ 4) × (number < 4294967296)) ⊎ ((width ≡ 8) × (number < 18446744073709551616))

abbrev pub EntryFits : ℕ → DirectoryEntry × Extra → Type 0
EntryFits width (e, x) = (length e.name < 256) × FitsWidth width e.inode_number

pub length-number_bytes :
    (width number : ℕ) → FitsWidth width number → length (number_bytes width number) ≡ width
length-number_bytes width number f = ground arith

length-type_bytes : (io : IoHandle) (x : Extra) → length (type_bytes io x) ≡ file_type_size io
length-type_bytes io x = ground arith

pub read_number-At :
    (data_bytes : List ℕ) (offset width number : ℕ) (rest : List ℕ)
    → FitsWidth width number
    → At data_bytes offset (number_bytes width number) rest
    → read_inode_number width data_bytes offset ≡ ok number
unfolding read_inode_number
read_number-At data_bytes offset width number rest (inl (w, f)) a =
    rw w (read_uint32-At data_bytes offset number rest f (rw w at a))
read_number-At data_bytes offset width number rest (inr (w, f)) a =
    rw w (read_uint64-At data_bytes offset number rest f (rw w at a))

module _ (lib : CdataArray DirectoryEntry) (memory : HasMemory lib) (io : IoHandle) where
  open lib use {Array, entries, append_entry, append_law}

  -- The loop reads the entries back, from the bytes at its offset.
  pub read_entries_back :
      (width : ℕ) (es : List (DirectoryEntry × Extra)) (data_bytes rest : List ℕ)
      (data_size offset : ℕ) (entries_array : Array)
      → All (EntryFits width) es
      → At data_bytes offset (entries_bytes io width es) rest
      → offset + length (entries_bytes io width es) ≤ data_size
      → data_size ≤ int64_max
      → (after : Array) × (read_entries lib io
            (length es)
            width
            data_bytes
            data_size
            offset
            entries_array
          ≡ ok after)
        × (entries after ≡ entries entries_array ++ names_of es)
  unfolding read_entries
  read_entries_back width [] data_bytes rest data_size offset entries_array f a s m =
      (entries_array, refl, sym (append-nil (entries entries_array)))
  read_entries_back width ((e, x) ∷ es) data_bytes rest data_size offset entries_array f a s m =
      let n = length e.name in
      let ty = type_bytes io x in
      let num = number_bytes width e.inode_number in
      let more = entries_bytes io width es in
      let prefix : List ℕ = n ∷ x.tag_upper ∷ x.tag_lower ∷ [] in
      let type_len = length-type_bytes io x in
      let num_len = length-number_bytes width e.inode_number f.0.1 in
      let o = offset + (3 + n + file_type_size io) in
      let at_prefix =
        At-split a prefix (e.name ++ (ty ++ (num ++ (more ++ rest)))) (simp append_assoc) in
      let at_name =
        At-next data_bytes offset prefix _ at_prefix e.name (ty ++ (num ++ (more ++ rest))) refl in
      let at_type = At-next data_bytes _ e.name _ at_name ty (num ++ (more ++ rest)) refl in
      let at_num =
        At-move (At-next data_bytes _ ty _ at_type num (more ++ rest) refl) o
          (omega (arith, type_len)) in
      let at_more =
        At-move (At-next data_bytes o num _ at_num more rest refl)
          (offset + (3 + n + file_type_size io + width)) (omega (arith, num_len)) in
      let size : length (entry_bytes io width (e, x)) ≡ 3 + n + file_type_size io + width =
        omega (arith, length-append e.name (ty ++ num), length-append ty num, type_len, num_len) in
      let room : offset + (3 + n + file_type_size io + width) + length more ≤ data_size =
        omega (arith, s, size, length-append (entry_bytes io width (e, x)) more) in
      let (b, appended) = memory entries_array e in
      let (after, done, ends) =
        read_entries_back width es data_bytes rest data_size
          (offset + (3 + n + file_type_size io + width)) b f.1 at_more room m in
      let bytes_left : sub64 data_size offset ≡ data_size - offset =
        sub64_le data_size offset (omega arith) m in
      (
        after,
        rw
            (
              bytes_left,
              read_uint8-At data_bytes offset n _ (At-split at_prefix (n ∷ []) _ refl),
              slice_at data_bytes (offset + 3) e.name _ at_name,
              read_number-At data_bytes o width e.inode_number _ f.0.1 at_num,
              appended,
            )
            (ground (arith, done)),
        rw (ends, append_law entries_array b e appended)
            (append_assoc (entries entries_array) (e ∷ []) (names_of es)),
      )
