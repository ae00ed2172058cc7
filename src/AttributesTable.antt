-- ===== src/AttributesTable.antt =====
-- libfsxfs_attributes_table_header.c, libfsxfs_attributes_table.c, and the setters of
-- libfsxfs_attribute_values.c: the extended attributes that stand in an inode.
pub mod RoundTrip
pub mod Bounds
use libfsxfs.Prelude.{
  ℕ, zero, suc, Option, none, some, ◌+◌, ◌-◌, List, [], ◌∷◌, ◌++◌, ◌==◌, ltb, ◌||◌, if◌then◌else◌,
  bit_and,
}
use libfsxfs.Result.{
  Result, ok, err, value_out_of_bounds, unsupported_value, append_failed, ◌>>=◌, ◌>>◌, fail_if,
  or_fail,
}
use libfsxfs.Word.{int64_max, sub64}
use libfsxfs.Bytes.{slice, read_uint8, read_uint16}
use libfsxfs.Array.{CdataArray}

-- The name has its prefix and its end of string, and is empty where it is not set. A value that is not
-- set is NULL, none.
pub record AttributeValues : Type 0 where
  pub name : List ℕ
  pub value_data_size : ℕ
  pub value_data : Option (List ℕ)
  pub value_data_block_number : ℕ

-- "user.", "trusted." and "secure."
unfoldable pub name_prefix : ℕ → Result (List ℕ)
name_prefix flags =
    if bit_and flags 0x7e == 0
    then ok (b'u' ∷ b's' ∷ b'e' ∷ b'r' ∷ b'.' ∷ [])
    else if bit_and flags 0x7e == 2
    then ok (b't' ∷ b'r' ∷ b'u' ∷ b's' ∷ b't' ∷ b'e' ∷ b'd' ∷ b'.' ∷ [])
    else if bit_and flags 0x7e == 4
    then ok (b's' ∷ b'e' ∷ b'c' ∷ b'u' ∷ b'r' ∷ b'e' ∷ b'.' ∷ [])
    else err unsupported_value

-- `libfsxfs_attribute_values_set_name`, which is called for a name that is not empty.
unfoldable pub read_name : List ℕ → ℕ → ℕ → ℕ → Result (List ℕ)
read_name data_bytes data_offset name_size flags = if name_size == 0 then ok [] else (do
  prefix ← name_prefix flags
  name ← slice data_bytes data_offset name_size
  ok (prefix ++ (name ++ (0 ∷ []))))

-- `libfsxfs_attribute_values_set_value_data`, called likewise.
unfoldable pub read_value : List ℕ → ℕ → ℕ → Result (Option (List ℕ))
read_value data_bytes data_offset value_data_size =
    if value_data_size == 0
    then ok none
    else (do value_data ← slice data_bytes data_offset value_data_size; ok (some value_data))

module _ (lib : CdataArray AttributeValues) where
  open lib use {Array, append_entry}

  -- The loop, on the count of attributes left. The name size is compared with the size of the data.
  unfoldable pub read_attributes : ℕ → List ℕ → ℕ → ℕ → Array → Result Array
  read_attributes zero data_bytes data_size data_offset attributes = ok attributes
  read_attributes (suc n) data_bytes data_size data_offset attributes = do
    fail_if (ltb (sub64 data_size 3) data_offset) value_out_of_bounds
    name_size ← read_uint8 data_bytes data_offset
    fail_if (ltb (sub64 data_size 3) name_size) value_out_of_bounds
    value_data_size ← read_uint8 data_bytes (data_offset + 1)
    flags ← read_uint8 data_bytes (data_offset + 2)
    name ← read_name data_bytes (data_offset + 3) name_size flags
    let value_offset = data_offset + 3 + name_size
    fail_if (ltb (sub64 data_size value_offset) value_data_size) value_out_of_bounds
    value_data ← read_value data_bytes value_offset value_data_size
    appended ←
        or_fail
          (append_entry attributes (record {
            name = name;
            value_data_size = value_data_size;
            value_data = value_data;
            value_data_block_number = 0;
          }))
          append_failed
    read_attributes n data_bytes data_size (value_offset + value_data_size) appended

  unfoldable pub read_data : List ℕ → ℕ → Array → Result Array
  read_data data_bytes data_size attributes = do
    fail_if (ltb data_size 2 || ltb int64_max data_size) value_out_of_bounds
    fail_if (ltb data_size 4 || ltb int64_max data_size) value_out_of_bounds
    table_data_size ← read_uint16 data_bytes 0
    number_of_entries ← read_uint8 data_bytes 2
    fail_if (ltb table_data_size 4 || ltb data_size table_data_size) value_out_of_bounds
    fail_if (ltb data_size 3) value_out_of_bounds
    read_attributes number_of_entries data_bytes data_size 4 attributes
