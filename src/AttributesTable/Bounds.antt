-- ===== src/AttributesTable/Bounds.antt =====
-- A name that goes beyond the data is not refused.
use libfsxfs.Prelude.{
  ℕ, suc, ◌+◌, ◌≤◌, ◌<◌, ◌≡◌, refl, arith, List, ◌∷◌, ◌++◌, length, leb, ◌==◌, false,
}
use libfsxfs.Result.{ok, fault}
use libfsxfs.Word.{int64_max, sub64}
use libfsxfs.Bytes.{slice}
use libfsxfs.Bytes.Encode.{be16}
use libfsxfs.Bytes.Cursor.{read_uint8-At, read_uint16-At}
use libfsxfs.Array.{CdataArray}
use libfsxfs.AttributesTable.{AttributeValues, name_prefix, read_name, read_attributes, read_data}

read_name_outside :
    (data_bytes : List ℕ) (offset n flags : ℕ) (prefix : List ℕ)
    → name_prefix flags ≡ ok prefix
    → length data_bytes < offset + n
    → 0 < n
    → read_name data_bytes offset n flags ≡ fault
unfolding read_name slice
read_name_outside data_bytes offset n flags prefix p outside some_name =
    let is_there : (n == 0) ≡ false = ground arith in
    let not_inside : leb (offset + n) (length data_bytes) ≡ false = ground arith in
    rw (is_there, p, not_inside) refl

module _ (lib : CdataArray AttributeValues) where
  open lib use {Array}

  -- If the first attribute of a table has flags that say a prefix, and a name size that is more than
  -- what is left behind the attribute's 3 bytes, but at most 4 bytes more, then the call reads the
  -- name behind the end of the data.
  pub attributes_read_data_outside :
      (size count unknown name_size value_size flags : ℕ) (rest prefix : List ℕ)
      (attributes : Array)
      → 4 ≤ size
      → size ≤ 7 + length rest
      → size < 65536
      → 7 + length rest ≤ int64_max
      → name_prefix flags ≡ ok prefix
      → length rest < name_size
      → name_size ≤ 4 + length rest
      → read_data lib
          (be16 size ++ (suc count ∷ unknown ∷ name_size ∷ value_size ∷ flags ∷ rest))
          (7 + length rest)
          attributes
        ≡ fault
  unfolding read_data read_attributes
  attributes_read_data_outside size count unknown n value_size flags rest prefix attributes low
        inside small m p outside passed =
      let bytes : List ℕ = be16 size ++ (suc count ∷ unknown ∷ n ∷ value_size ∷ flags ∷ rest) in
      let is_total : sub64 (7 + length rest) 3 ≡ 4 + length rest = omega (arith, m) in
      rw
        (
          read_uint16-At bytes 0 size _ small (record { inside = omega arith; stands = refl }),
          read_uint8-At bytes 2 (suc count) _ (record { inside = omega arith; stands = refl }),
          read_uint8-At bytes 4 n _ (record { inside = omega arith; stands = refl }),
          read_uint8-At bytes 5 value_size _ (record { inside = omega arith; stands = refl }),
          read_uint8-At bytes 6 flags _ (record { inside = omega arith; stands = refl }),
          read_name_outside bytes 7 n flags prefix p (omega (arith, outside))
              (omega (arith, outside)),
          is_total,
        )
        (ground arith)
