-- ===== src/Tests/AttributeRuns.antt =====
-- Attributes tables: runs of libfsxfs_attributes_table.c.
use libfsxfs.Prelude.{ℕ, ◌≡◌, refl, arith, List, [], ◌∷◌, ◌++◌, All}
use libfsxfs.Result.{ok, fault}
use libfsxfs.Bytes.Encode.{be16}
use libfsxfs.Array.{list_array}
use libfsxfs.AttributesTable
use libfsxfs.AttributesTable.{AttributeValues, name_prefix}
use libfsxfs.AttributesTable.RoundTrip.{
  Attribute, AttributeFits, values_of, table_bytes, attributes_read_data_roundtrip,
}
use libfsxfs.AttributesTable.Bounds.{attributes_read_data_outside}

abbrev user_prefix : List ℕ
user_prefix = b'u' ∷ b's' ∷ b'e' ∷ b'r' ∷ b'.' ∷ []

abbrev trusted_prefix : List ℕ
trusted_prefix = b't' ∷ b'r' ∷ b'u' ∷ b's' ∷ b't' ∷ b'e' ∷ b'd' ∷ b'.' ∷ []

user_run : name_prefix 0 ≡ ok user_prefix
unfolding name_prefix
user_run = refl

trusted_run : name_prefix 2 ≡ ok trusted_prefix
unfolding name_prefix
trusted_run = refl

abbrev two_attributes : List Attribute
two_attributes =
    record { flags = 0; name = b'a' ∷ []; value_data = 7 ∷ 8 ∷ [] }
    ∷ record { flags = 2; name = b'b' ∷ b'c' ∷ []; value_data = [] }
    ∷ []

two_attributes-AttributeFits : All AttributeFits two_attributes
two_attributes-AttributeFits = (
  record {
    name_fits = (omega arith, omega arith);
    value_fits = omega arith;
    prefix = user_prefix;
    has_prefix = user_run;
  },
  (
    record {
      name_fits = (omega arith, omega arith);
      value_fits = omega arith;
      prefix = trusted_prefix;
      has_prefix = trusted_run;
    },
    tt,
  ),
)

attributes_read_data_roundtrip_example :
    (after : List AttributeValues) × (AttributesTable.read_data
        (list_array AttributeValues)
        (table_bytes two_attributes)
        15
        []
      ≡ ok after)
    × (after ≡ values_of two_attributes two_attributes-AttributeFits)
attributes_read_data_roundtrip_example =
    attributes_read_data_roundtrip (list_array AttributeValues) (λ attributes e. (_, refl))
      two_attributes [] two_attributes-AttributeFits (omega arith) (omega arith)

-- Two bytes are left for a name of 5.
attributes_read_data_outside_example :
    AttributesTable.read_data
      (list_array AttributeValues)
      (be16 9 ++ (1 ∷ 0 ∷ 5 ∷ 0 ∷ 0 ∷ b'a' ∷ b'b' ∷ []))
      9
      []
    ≡ fault
attributes_read_data_outside_example =
    attributes_read_data_outside (list_array AttributeValues) 9 0 0 5 0 0 (b'a' ∷ b'b' ∷ [])
      user_prefix [] (omega arith) (omega arith) (omega arith) (omega arith) user_run (omega arith)
      (omega arith)
