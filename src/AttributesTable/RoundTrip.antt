-- ===== src/AttributesTable/RoundTrip.antt =====
-- An attributes table that is written as the format has it is read back.
use libfsxfs.Prelude.{
  ℕ, suc, Option, none, some, ◌+◌, ◌≤◌, ◌<◌, ◌≡◌, refl, sym, arith, false, List, [], ◌∷◌, ◌++◌,
  length, length-append, append_assoc, append-nil, ◌==◌, All,
}
use libfsxfs.Result.{ok}
use libfsxfs.Word.{int64_max, sub64_le}
use libfsxfs.Bytes.Encode.{be16}
use libfsxfs.Bytes.Cursor.{At, At-next, At-split, At-move, slice_at, read_uint8-At, read_uint16-At}
use libfsxfs.Array.{CdataArray, HasMemory}
use libfsxfs.AttributesTable.{
  AttributeValues, name_prefix, read_name, read_value, read_attributes, read_data,
}

-- An attribute on disk.
pub record Attribute : Type 0 where
  pub flags : ℕ
  pub name : List ℕ
  pub value_data : List ℕ

abbrev pub attribute_bytes : Attribute → List ℕ
attribute_bytes a = length a.name ∷ length a.value_data ∷ a.flags ∷ (a.name ++ a.value_data)

abbrev pub attributes_bytes : List Attribute → List ℕ
attributes_bytes [] = []
attributes_bytes (x ∷ xs) = attribute_bytes x ++ attributes_bytes xs

-- The header has the size of the table and the number of attributes.
abbrev pub table_bytes : List Attribute → List ℕ
table_bytes xs = be16 (4 + length (attributes_bytes xs)) ++ (length xs ∷ 0 ∷ attributes_bytes xs)

-- The sizes fit a byte, the name is not empty, and the flags say a prefix.
pub record AttributeFits (a : Attribute) : Type 0 where
  pub name_fits : (0 < length a.name) × (length a.name < 256)
  pub value_fits : length a.value_data < 256
  pub prefix : List ℕ
  pub has_prefix : name_prefix a.flags ≡ ok prefix

-- An empty value is not set.
abbrev pub value_of : List ℕ → Option (List ℕ)
value_of [] = none
value_of (b ∷ bs) = some (b ∷ bs)

-- The values of the attributes, their names with prefix and end of string.
abbrev pub values_of : (xs : List Attribute) → All AttributeFits xs → List AttributeValues
values_of [] f = []
values_of (x ∷ xs) f =
    record {
      name = f.0.prefix ++ (x.name ++ (0 ∷ []));
      value_data_size = length x.value_data;
      value_data = value_of x.value_data;
      value_data_block_number = 0;
    }
    ∷ values_of xs f.1

read_value-At :
    (data_bytes : List ℕ) (offset : ℕ) (value rest : List ℕ)
    → At data_bytes offset value rest
    → read_value data_bytes offset (length value) ≡ ok (value_of value)
unfolding read_value
read_value-At data_bytes offset [] rest a = refl
read_value-At data_bytes offset (b ∷ bs) rest a =
    let is_there : (suc (length bs) == 0) ≡ false = ground arith in
    rw (is_there, slice_at data_bytes offset (b ∷ bs) rest a)

read_name-At :
    (data_bytes : List ℕ) (offset flags : ℕ) (name rest prefix : List ℕ)
    → 0 < length name
    → name_prefix flags ≡ ok prefix
    → At data_bytes offset name rest
    → read_name data_bytes offset (length name) flags ≡ ok (prefix ++ (name ++ (0 ∷ [])))
unfolding read_name
read_name-At data_bytes offset flags name rest prefix some_name p a =
    let is_there : (length name == 0) ≡ false = ground arith in
    rw (is_there, p, slice_at data_bytes offset name rest a)

module _ (lib : CdataArray AttributeValues) (memory : HasMemory lib) where
  open lib use {Array, entries, append_law}

  read_attributes_back :
      (xs : List Attribute) (data_bytes rest : List ℕ) (data_size offset : ℕ) (attributes : Array)
      (f : All AttributeFits xs)
      → At data_bytes offset (attributes_bytes xs) rest
      → offset + length (attributes_bytes xs) ≤ data_size
      → data_size ≤ int64_max
      → (after : Array) × (read_attributes lib (length xs) data_bytes data_size offset attributes
          ≡ ok after)
        × (entries after ≡ entries attributes ++ values_of xs f)
  unfolding read_attributes
  read_attributes_back [] data_bytes rest data_size offset attributes f a s m =
      (attributes, refl, sym (append-nil (entries attributes)))
  read_attributes_back (x ∷ xs) data_bytes rest data_size offset attributes f a s m =
      let n = length x.name in
      let v = length x.value_data in
      let more = attributes_bytes xs in
      let at_sizes =
        At-split a (n ∷ v ∷ x.flags ∷ []) (x.name ++ (x.value_data ++ (more ++ rest)))
          (simp append_assoc) in
      let at_value_size =
        At-next data_bytes offset (n ∷ []) _
          (At-split at_sizes (n ∷ []) (v ∷ x.flags ∷ (x.name ++ (x.value_data ++ (more ++ rest))))
            refl)
          (v ∷ []) (x.flags ∷ (x.name ++ (x.value_data ++ (more ++ rest)))) refl in
      let at_flags =
        At-move
          (At-next data_bytes (offset + 1) (v ∷ []) _ at_value_size (x.flags ∷ [])
            (x.name ++ (x.value_data ++ (more ++ rest))) refl)
          (offset + 2) (omega arith) in
      let at_name =
        At-next data_bytes offset (n ∷ v ∷ x.flags ∷ []) _ at_sizes x.name
          (x.value_data ++ (more ++ rest)) refl in
      let at_value =
        At-next data_bytes (offset + 3) x.name _ at_name x.value_data (more ++ rest) refl in
      let at_more = At-next data_bytes (offset + 3 + n) x.value_data _ at_value more rest refl in
      let size : length (attribute_bytes x) ≡ 3 + n + v =
        omega (arith, length-append x.name x.value_data) in
      let room : offset + 3 + n + v + length more ≤ data_size =
        omega (arith, s, size, length-append (attribute_bytes x) more) in
      let value : AttributeValues = record {
        name = f.0.prefix ++ (x.name ++ (0 ∷ []));
        value_data_size = length x.value_data;
        value_data = value_of x.value_data;
        value_data_block_number = 0;
      } in
      let (b, appended) = memory attributes value in
      let (after, done, ends) =
        read_attributes_back xs data_bytes rest data_size (offset + 3 + n + v) b f.1 at_more room
          m in
      (
        after,
        rw
            (
              sub64_le data_size 3 (omega (arith, room)) m,
              read_uint8-At data_bytes offset n _ (At-split at_sizes (n ∷ []) _ refl),
              sub64_le data_size (offset + 3 + n) (omega (arith, room)) m,
              read_uint8-At data_bytes (offset + 1) v _ at_value_size,
              read_uint8-At data_bytes (offset + 2) x.flags _ at_flags,
              read_name-At data_bytes (offset + 3) x.flags x.name _ f.0.prefix f.0.name_fits.0
                  f.0.has_prefix at_name,
              read_value-At data_bytes (offset + 3 + n) x.value_data _ at_value,
              appended,
            )
            (ground (arith, done, room)),
        rw (ends, append_law attributes b value appended)
            (append_assoc (entries attributes) (value ∷ []) (values_of xs f.1)),
      )

  -- An attributes table that is written with any attributes, at most 255 of them and less than 64 KiB
  -- together, whose names are not empty, whose names and values have at most 255 bytes and whose flags say a prefix, is read
  -- back: where memory does not run out, the call succeeds, and appends the attributes in order,
  -- their names with prefix and end of string, to those of the array.
  pub attributes_read_data_roundtrip :
      (xs : List Attribute) (attributes : Array) (f : All AttributeFits xs)
      → length xs < 256
      → length (table_bytes xs) < 65536
      → (after : Array) × (read_data lib (table_bytes xs) (length (table_bytes xs)) attributes
          ≡ ok after)
        × (entries after ≡ entries attributes ++ values_of xs f)
  unfolding read_data
  attributes_read_data_roundtrip xs attributes f count small =
      let bytes = table_bytes xs in
      let more = attributes_bytes xs in
      let size = length bytes in
      let at_size : At bytes 0 (be16 (4 + length more)) (length xs ∷ 0 ∷ more) = record {
        inside = omega arith;
        stands = refl;
      } in
      let at_count : At bytes 2 (length xs ∷ []) (0 ∷ more) =
        At-next bytes 0 (be16 (4 + length more)) _ at_size (length xs ∷ []) (0 ∷ more) refl in
      let at_attributes : At bytes 4 more [] = record {
        inside = omega arith;
        stands = sym (append-nil more);
      } in
      let (after, done, ends) =
        read_attributes_back xs bytes [] size 4 attributes f at_attributes (omega arith)
          (omega (arith, small)) in
      (
        after,
        rw
            (
              read_uint16-At bytes 0 (4 + length more) _ (omega (arith, small)) at_size,
              read_uint8-At bytes 2 (length xs) _ at_count,
            )
            (ground (arith, done, small)),
        ends,
      )
