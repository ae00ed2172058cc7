-- ===== src/BlockDirectory/Written.antt =====
-- A whole block directory, from its header to its footer, is read back.
use libfsxfs.Prelude.{
  ℕ, ◌+◌, ◌*◌, ◌≤◌, ◌<◌, ◌≡◌, refl, sym, ap, ◌∙◌, arith, Bool, true, false, List, [], ◌∷◌, ◌++◌,
  length, length-append, append_assoc, append-nil, if◌then◌else◌, All, drop, drop-append,
  Bool-cases, inl, inr,
}
use mathlib.Core.Path.{subst}
use libfsxfs.Result.{ok}
use libfsxfs.Word.{int64_max, sub64}
use libfsxfs.Bytes.{slice, read_uint32}
use libfsxfs.Bytes.Encode.{be32}
use libfsxfs.Bytes.Cursor.{At, At-next, At-move, slice_at, read_uint32-At}
use libfsxfs.Array.{CdataArray, HasMemory}
use libfsxfs.Handle.{IoHandle}
use libfsxfs.DirectoryEntry.{DirectoryEntry}
use libfsxfs.BlockDirectory.{
  BlockDirectoryHeader, version_of_signature, has_footer_signature, entries_start,
  read_directory_header, read_footer, entries_end, read_data,
}
use libfsxfs.BlockDirectory.RoundTrip.{
  Item, item_bytes, item_bytes-pos, items_bytes, ItemFits, listed, read_items_back,
}

-- The versions 2 and 3 of the format, with a footer (a directory of one block) or without.
abbrev pub signature_of : Bool → Bool → List ℕ
signature_of false true = b'X' ∷ b'D' ∷ b'2' ∷ b'B' ∷ []
signature_of false false = b'X' ∷ b'D' ∷ b'2' ∷ b'D' ∷ []
signature_of true true = b'X' ∷ b'D' ∷ b'B' ∷ b'3' ∷ []
signature_of true false = b'X' ∷ b'D' ∷ b'D' ∷ b'3' ∷ []

-- What stands beside the entries: the header behind its signature, and the hash values and the
-- unused half of the footer.
pub record Frame : Type 0 where
  pub is_version_3 : Bool
  pub has_footer : Bool
  pub header_rest : List ℕ
  pub hash_values : List ℕ
  pub number_of_hash_values : ℕ
  pub footer_rest : List ℕ

pub record FrameFits (r : Frame) : Type 0 where
  pub header_size : 4 + length r.header_rest ≡ (if r.is_version_3 then 64 else 16)
  pub hash_size : length r.hash_values ≡ r.number_of_hash_values * 8
  pub number_fits : r.number_of_hash_values < 4294967296
  pub footer_size : length r.footer_rest ≡ 4

abbrev pub end_bytes : Frame → List ℕ
end_bytes r =
    if r.has_footer then r.hash_values ++ (be32 r.number_of_hash_values ++ r.footer_rest) else []

abbrev pub block_bytes : IoHandle → Frame → List Item → List ℕ
block_bytes io r items =
    signature_of r.is_version_3 r.has_footer
    ++ (r.header_rest ++ (items_bytes io items ++ end_bytes r))

abbrev pub header_of : Frame → BlockDirectoryHeader
header_of r = record { format_version = if r.is_version_3 then 3 else 2; has_footer = r.has_footer }

version_back : (v f : Bool) → version_of_signature (signature_of v f) ≡ (if v then 3 else 2)
unfolding version_of_signature
version_back true true = refl
version_back true false = refl
version_back false true = refl
version_back false false = refl

footer_back : (v f : Bool) → has_footer_signature (signature_of v f) ≡ f
unfolding has_footer_signature
footer_back true true = refl
footer_back true false = refl
footer_back false true = refl
footer_back false false = refl

length-signature_of : (v f : Bool) → length (signature_of v f) ≡ 4
length-signature_of true true = refl
length-signature_of true false = refl
length-signature_of false true = refl
length-signature_of false false = refl

directory_header_back :
    (r : Frame) (rest : List ℕ) (size : ℕ)
    → (if r.is_version_3 then 64 else 16) ≤ size
    → size ≤ int64_max
    → read_directory_header (signature_of r.is_version_3 r.has_footer ++ rest) size
      ≡ ok (header_of r)
unfolding read_directory_header
directory_header_back r rest size room m =
    let signature = signature_of r.is_version_3 r.has_footer in
    let at_start : At (signature ++ rest) 0 signature rest = record {
      inside = omega arith;
      stands = refl;
    } in
    let len = length-signature_of r.is_version_3 r.has_footer in
    let is_read : slice (signature ++ rest) 0 4 ≡ ok signature =
      subst (λ (k : ℕ). slice (signature ++ rest) 0 k ≡ ok signature) len
        (slice_at (signature ++ rest) 0 signature rest at_start) in
    rw (is_read, version_back r.is_version_3 r.has_footer, footer_back r.is_version_3 r.has_footer)
      (ground arith)

items-le : (io : IoHandle) (items : List Item) → length items ≤ length (items_bytes io items)
items-le io [] = omega arith
items-le io (i ∷ is) = omega (
  arith,
  items-le io is,
  item_bytes-pos io i,
  length-append (item_bytes io i) (items_bytes io is),
)

-- The end of the entries, from the footer or from the size.
entries_end_back :
    (r : Frame) (before : List ℕ) (size : ℕ)
    → FrameFits r
    → size ≡ length (before ++ end_bytes r)
    → size ≤ int64_max
    → entries_end (header_of r) (before ++ end_bytes r) size ≡ ok (length before)
unfolding entries_end read_footer
entries_end_back r before size f s m = elim (Bool-cases r.has_footer) [
  | inr plain ↦ let s' = rw plain at s in rw plain (ap ok (s' ∙ ap length (append-nil before)))
  | inl footer ↦
      let n = r.number_of_hash_values in
      let foot = be32 n ++ r.footer_rest in
      let s' : size ≡ length (before ++ (r.hash_values ++ foot)) = rw footer at s in
      let total : size ≡ length before + n * 8 + 8 = omega (
        arith,
        s',
        length-append before (r.hash_values ++ foot),
        length-append r.hash_values foot,
        f.hash_size,
        f.footer_size,
      ) in
      let at_foot : sub64 size 8 ≡ length (before ++ r.hash_values) =
        omega (arith, total, length-append before r.hash_values, f.hash_size) in
      let dropped : drop (sub64 size 8) (before ++ (r.hash_values ++ foot)) ≡ foot = rw at_foot (
        ap (drop (length (before ++ r.hash_values))) (sym (append_assoc before r.hash_values foot))
        ∙ drop-append (before ++ r.hash_values) foot) in
      let number : read_uint32 foot 0 ≡ ok n =
        read_uint32-At foot 0 n r.footer_rest f.number_fits
          (record { inside = omega arith; stands = refl }) in
      rw (footer, dropped, number) (ground (arith, total))
]

module _ (lib : CdataArray DirectoryEntry) (memory : HasMemory lib) (io : IoHandle) where
  open lib use {Array, entries}

  -- A block directory of either version, with a footer or without, that is written with any entries
  -- and free regions that fit the format is read back: where memory does not run out, the call
  -- succeeds and appends the entries but "." and "..", in order, to those of the array.
  pub block_read_data_roundtrip :
      (r : Frame) (items : List Item) (entries_array : Array)
      → FrameFits r
      → All (ItemFits io) items
      → length (block_bytes io r items) ≤ int64_max
      → (after : Array) × (read_data lib io
            (block_bytes io r items)
            (length (block_bytes io r items))
            entries_array
          ≡ ok after)
        × (entries after ≡ entries entries_array ++ listed items)
  unfolding read_data
  block_read_data_roundtrip r items entries_array f g m =
      let signature = signature_of r.is_version_3 r.has_footer in
      let written = items_bytes io items in
      let bytes = block_bytes io r items in
      let size = length bytes in
      let before = signature ++ (r.header_rest ++ written) in
      let start : ℕ = if r.is_version_3 then 64 else 16 in
      let shape : bytes ≡ before ++ end_bytes r =
        ap (λ (x : List ℕ). signature ++ x) (sym (append_assoc r.header_rest written (end_bytes r)))
        ∙ sym (append_assoc signature (r.header_rest ++ written) (end_bytes r)) in
      let head : length before ≡ start + length written = omega (
        arith,
        length-signature_of r.is_version_3 r.has_footer,
        length-append signature (r.header_rest ++ written),
        length-append r.header_rest written,
        f.header_size,
      ) in
      let total : size ≡ length before + length (end_bytes r) =
        ap length shape ∙ length-append before (end_bytes r) in
      let low : 16 ≤ start = ground arith in
      let header =
        directory_header_back r (r.header_rest ++ (written ++ end_bytes r)) size
          (omega (arith, total, head)) m in
      let is_end : entries_end (header_of r) bytes size ≡ ok (length before) =
        subst (λ (x : List ℕ). entries_end (header_of r) x size ≡ ok (length before)) (sym shape)
          (entries_end_back r before size f (ap length shape) m) in
      let at_signature : At bytes 0 signature (r.header_rest ++ (written ++ end_bytes r)) = record {
        inside = omega arith;
        stands = refl;
      } in
      let at_header =
        At-next bytes 0 signature _ at_signature r.header_rest (written ++ end_bytes r) refl in
      let at_items =
        At-move (At-next bytes _ r.header_rest _ at_header written (end_bytes r) refl) start
          (omega (arith, length-signature_of r.is_version_3 r.has_footer, f.header_size)) in
      let is_start : entries_start (if r.is_version_3 then 3 else 2) ≡ start = ground arith in
      let (after, done, ends) =
        read_items_back lib memory io items size bytes (end_bytes r) start (length before)
          entries_array g at_items (sym head) (omega (arith, total, m))
          (omega (arith, total, head, items-le io items)) in
      (after, rw (header, is_end, is_start) (ground (arith, done, total, head, low)), ends)
