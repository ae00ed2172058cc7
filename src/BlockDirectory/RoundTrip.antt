-- ===== src/BlockDirectory/RoundTrip.antt =====
-- The entries and free regions of a block directory that are written as the format has them are
-- read back.
use libfsxfs.Prelude.{
  ℕ, zero, suc, ◌+◌, ◌/◌, ◌%◌, ◌≤◌, ◌<◌, ◌≡◌, refl, sym, ap, ◌∙◌, arith, List, [], ◌∷◌, ◌++◌,
  length, length-append, append_assoc, append-nil, ltb, if◌then◌else◌, All, Option, some, none,
  Bool-cases, inl, inr, drop, true,
}
use libfsxfs.Result.{ok}
use libfsxfs.Word.{int64_max, sub64_le}
use libfsxfs.Bytes.Encode.{be16, be64}
use libfsxfs.Bytes.Cursor.{
  At, At-next, At-split, At-move, slice_at, read_uint8-At, read_uint16-At, read_uint64-At,
}
use libfsxfs.Array.{CdataArray, HasMemory}
use libfsxfs.Handle.{IoHandle}
use libfsxfs.DirectoryEntry.{DirectoryEntry, has_file_type, file_type_size}
use libfsxfs.BlockDirectory.{padding_size, is_ignored, read_entry, append_read, read_block_entries}

-- What an entry has on disk beside the name and the inode number.
pub record Trailer : Type 0 where
  pub file_type : ℕ
  pub padding : List ℕ
  pub tag_upper : ℕ
  pub tag_lower : ℕ

-- A free region has its content behind the tag 0xffff and its size.
pub data Item : Type 0 where
  entry : DirectoryEntry → Trailer → Item
  free_region : List ℕ → Item

abbrev pub trailer_bytes : IoHandle → Trailer → List ℕ
trailer_bytes io t =
    (if has_file_type io then t.file_type ∷ [] else [])
    ++ (t.padding ++ (t.tag_upper ∷ t.tag_lower ∷ []))

abbrev pub item_bytes : IoHandle → Item → List ℕ
item_bytes io (entry e t) = be64 e.inode_number ++ (length e.name ∷ (e.name ++ trailer_bytes io t))
item_bytes io (free_region content) = 0xff ∷ 0xff ∷ (be16 (4 + length content) ++ content)

abbrev pub items_bytes : IoHandle → List Item → List ℕ
items_bytes io [] = []
items_bytes io (i ∷ is) = item_bytes io i ++ items_bytes io is

-- The inode number does not begin with the tag of a free region, and the padding is that of the
-- entry.
abbrev pub ItemFits : IoHandle → Item → Type 0
ItemFits io (entry e t) =
    (length e.name < 256)
    × (e.inode_number < 18446462598732840960)
    × (length t.padding ≡ padding_size (9 + length e.name + 2 + file_type_size io))
ItemFits io (free_region content) = 4 + length content < 65536

-- The entry that is kept of an item: "." and ".." are not.
abbrev pub kept : Item → Option DirectoryEntry
kept (entry e t) = if is_ignored e.name then none else some e
kept (free_region content) = none

abbrev pub kept_list : Option DirectoryEntry → List DirectoryEntry
kept_list none = []
kept_list (some e) = e ∷ []

abbrev pub listed : List Item → List DirectoryEntry
listed [] = []
listed (i ∷ is) = kept_list (kept i) ++ listed is

pub item_bytes-pos : (io : IoHandle) (i : Item) → 0 < length (item_bytes io i)
item_bytes-pos io (entry e t) = omega arith
item_bytes-pos io (free_region content) = omega arith

length-trailer_bytes :
    (io : IoHandle) (t : Trailer)
    → length (trailer_bytes io t) ≡ file_type_size io + length t.padding + 2
length-trailer_bytes io t = elim (Bool-cases (has_file_type io)) [
  | inl typed ↦ rw typed (omega (arith, length-append t.padding (t.tag_upper ∷ t.tag_lower ∷ [])))
  | inr plain ↦ rw plain (omega (arith, length-append t.padding (t.tag_upper ∷ t.tag_lower ∷ [])))
]

module _ (io : IoHandle) (data_bytes : List ℕ) (offset end_offset : ℕ)
    (m : end_offset ≤ int64_max) where
  read_free_region :
      (content rest : List ℕ)
      → 4 + length content < 65536
      → At data_bytes offset (item_bytes io (free_region content)) rest
      → offset + (4 + length content) ≤ end_offset
      → read_entry io data_bytes end_offset offset ≡ ok (none, offset + (4 + length content))
  unfolding read_entry
  read_free_region content rest f a room =
      let size = be16 (4 + length content) in
      let at_tag = At-split a (be16 65535) (size ++ (content ++ rest)) refl in
      let at_size = At-next data_bytes offset (be16 65535) _ at_tag size (content ++ rest) refl in
      rw
        (
          sub64_le end_offset offset (omega arith) m,
          read_uint16-At data_bytes offset 65535 _ (omega arith) at_tag,
          read_uint16-At data_bytes (offset + 2) (4 + length content) _ f at_size,
        )
        (ground arith)

  read_named_entry :
      (e : DirectoryEntry) (t : Trailer) (rest : List ℕ)
      → ItemFits io (entry e t)
      → At data_bytes offset (item_bytes io (entry e t)) rest
      → offset + length (item_bytes io (entry e t)) ≤ end_offset
      → read_entry io data_bytes end_offset offset
        ≡ ok (kept (entry e t), offset + length (item_bytes io (entry e t)))
  unfolding read_entry
  read_named_entry e t rest f a room =
      let n = length e.name in
      let tail = trailer_bytes io t in
      let number = e.inode_number in
      let upper = number / 281474976710656 in
      let split : number / 72057594037927936 % 256 ≡ upper / 256 % 256 = omega arith in
      let more : List ℕ = n ∷ (e.name ++ (tail ++ rest)) in
      let whole : item_bytes io (entry e t) ++ rest ≡ be64 number ++ more =
        ap (λ (r : List ℕ). be64 number ++ (n ∷ r)) (append_assoc e.name tail rest) in
      let at_number = At-split a (be64 number) more whole in
      let at_upper =
        At-split at_number (be16 upper) (drop 2 (be64 number) ++ more)
          (ap (λ (b : ℕ). b ∷ (drop 1 (be64 number) ++ more)) split) in
      let at_size = At-next data_bytes offset (be64 number) _ at_number (n ∷ []) _ refl in
      let at_name =
        At-move (At-next data_bytes (offset + 8) (n ∷ []) _ at_size e.name (tail ++ rest) refl)
          (offset + 9) (omega arith) in
      let size : length (item_bytes io (entry e t)) ≡ 9 + n + length tail =
        omega (arith, length-append e.name tail) in
      let tail_size = length-trailer_bytes io t in
      rw
        (
          sub64_le end_offset offset (omega (arith, size)) m,
          read_uint16-At data_bytes offset upper _ (omega (arith, f.1)) at_upper,
          read_uint8-At data_bytes (offset + 8) n _ at_size,
          read_uint64-At data_bytes offset number _ (omega (arith, f.1)) at_number,
          slice_at data_bytes (offset + 9) e.name _ at_name,
        )
        (ground (arith, size, tail_size, f.2, f.1))

  read_item :
      (i : Item) (rest : List ℕ)
      → ItemFits io i
      → At data_bytes offset (item_bytes io i) rest
      → offset + length (item_bytes io i) ≤ end_offset
      → read_entry io data_bytes end_offset offset ≡ ok (kept i, offset + length (item_bytes io i))
  read_item (entry e t) rest f a room = read_named_entry e t rest f a room
  read_item (free_region content) rest f a room =
      read_free_region content rest f a (omega (arith, room))
      ∙ ap (λ (k : ℕ). ok (none, k)) (omega arith)

module _ (lib : CdataArray DirectoryEntry) (memory : HasMemory lib) (io : IoHandle) where
  open lib use {Array, entries, append_law}

  append_kept :
      (o : Option DirectoryEntry) (entries_array : Array)
      → (b : Array) × (append_read lib io o entries_array ≡ ok b)
        × (entries b ≡ entries entries_array ++ kept_list o)
  unfolding append_read
  append_kept none entries_array = (entries_array, refl, sym (append-nil (entries entries_array)))
  append_kept (some e) entries_array =
      let (b, appended) = memory entries_array e in
      (b, rw appended, append_law entries_array b e appended)

  -- The loop reads the items back, up to the end offset.
  pub read_items_back :
      (items : List Item) (fuel : ℕ) (data_bytes rest : List ℕ) (offset end_offset : ℕ)
      (entries_array : Array)
      → All (ItemFits io) items
      → At data_bytes offset (items_bytes io items) rest
      → offset + length (items_bytes io items) ≡ end_offset
      → end_offset ≤ int64_max
      → length items ≤ fuel
      → (after : Array) × (read_block_entries lib io fuel data_bytes end_offset offset entries_array
          ≡ ok after)
        × (entries after ≡ entries entries_array ++ listed items)
  unfolding read_block_entries
  read_items_back [] zero data_bytes rest offset end_offset entries_array f a s m long =
      (entries_array, ground (arith, s), sym (append-nil (entries entries_array)))
  read_items_back [] (suc fuel) data_bytes rest offset end_offset entries_array f a s m long =
      (entries_array, ground (arith, s), sym (append-nil (entries entries_array)))
  read_items_back (i ∷ is) zero data_bytes rest offset end_offset entries_array f a s m long =
      absurd (omega (arith, long))
  read_items_back (i ∷ is) (suc fuel) data_bytes rest offset end_offset entries_array f a s m long =
      let bytes = item_bytes io i in
      let more = items_bytes io is in
      let size = length-append bytes more in
      let at_item = At-split a bytes (more ++ rest) (append_assoc bytes more rest) in
      let at_more = At-next data_bytes offset bytes _ at_item more rest refl in
      let is_read =
        read_item io data_bytes offset end_offset m i (more ++ rest) f.0 at_item
          (omega (arith, s, size)) in
      let inside : ltb offset end_offset ≡ true = ground (arith, item_bytes-pos io i, s, size) in
      let (b, appended, grown) = append_kept (kept i) entries_array in
      let (after, done, ends) =
        read_items_back is fuel data_bytes rest (offset + length bytes) end_offset b f.1 at_more
          (omega (arith, s, size)) m (omega (arith, long)) in
      (
        after,
        rw (inside, is_read, appended) done,
        rw (ends, grown) (append_assoc (entries entries_array) (kept_list (kept i)) (listed is)),
      )
