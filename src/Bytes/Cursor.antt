-- ===== src/Bytes/Cursor.antt =====
-- Reads at an offset where the bytes that follow are known.
use mathlib.Core.Path.{subst}
use libfsxfs.Prelude.{
  drop-drop, ℕ, ◌+◌, ◌≤◌, ◌<◌, ◌≡◌, ap, ◌∙◌, arith, List, [], ◌∷◌, ◌++◌, length, drop,
  length-append, length-drop, take-append, drop-append,
}
use libfsxfs.Result.{ok}
use libfsxfs.Bytes.{slice, be_value, read_be, read_uint8, read_uint16, read_uint32, read_uint64}
use libfsxfs.Bytes.Laws.{
  slice_inside, read_uint8_inside, read_uint16_inside, read_uint32_inside, read_uint64_inside,
}
use libfsxfs.Bytes.Encode.{be16, be32, be64, be_value-be16, be_value-be32, be_value-be64}

-- `part` stands at the offset.
pub record At (data_bytes : List ℕ) (offset : ℕ) (part rest : List ℕ) : Type 0 where
  pub inside : offset ≤ length data_bytes
  pub stands : drop offset data_bytes ≡ part ++ rest

module _ (data_bytes : List ℕ) (offset : ℕ) (part rest : List ℕ)
    (a : At data_bytes offset part rest) where
  pub At_room : offset + length part ≤ length data_bytes
  At_room =
      omega (
        arith,
        a.inside,
        ap length a.stands,
        length-drop offset data_bytes,
        length-append part rest,
      )

  pub slice_at : slice data_bytes offset (length part) ≡ ok part
  slice_at =
      slice_inside data_bytes offset (length part) At_room
      ∙ rw a.stands (ap ok (take-append part rest))

  pub read_be_at : read_be (length part) data_bytes offset ≡ ok (be_value part)
  unfolding read_be
  read_be_at = rw slice_at

  -- What stands behind it.
  pub At-next :
      (next more : List ℕ) → rest ≡ next ++ more → At data_bytes (offset + length part) next more
  At-next next more e = record {
    inside = At_room;
    stands = drop-drop offset (length part) data_bytes ∙ rw a.stands (drop-append part rest ∙ e);
  }

-- The number that stands at the offset.
module _ (data_bytes : List ℕ) (offset : ℕ) where
  pub read_uint8-At :
      (b : ℕ) (rest : List ℕ)
      → At data_bytes offset (b ∷ []) rest
      → read_uint8 data_bytes offset ≡ ok b
  read_uint8-At b rest a =
      read_uint8_inside data_bytes offset (At_room data_bytes offset (b ∷ []) rest a)
      ∙ rw a.stands (ap ok (omega arith))

  pub read_uint16-At :
      (n : ℕ) (rest : List ℕ)
      → n < 65536
      → At data_bytes offset (be16 n) rest
      → read_uint16 data_bytes offset ≡ ok n
  read_uint16-At n rest h a =
      read_uint16_inside data_bytes offset (At_room data_bytes offset (be16 n) rest a)
      ∙ rw a.stands (ap ok (be_value-be16 n h))

  pub read_uint32-At :
      (n : ℕ) (rest : List ℕ)
      → n < 4294967296
      → At data_bytes offset (be32 n) rest
      → read_uint32 data_bytes offset ≡ ok n
  read_uint32-At n rest h a =
      read_uint32_inside data_bytes offset (At_room data_bytes offset (be32 n) rest a)
      ∙ rw a.stands (ap ok (be_value-be32 n h))

  pub read_uint64-At :
      (n : ℕ) (rest : List ℕ)
      → n < 18446744073709551616
      → At data_bytes offset (be64 n) rest
      → read_uint64 data_bytes offset ≡ ok n
  read_uint64-At n rest h a =
      read_uint64_inside data_bytes offset (At_room data_bytes offset (be64 n) rest a)
      ∙ rw a.stands (ap ok (be_value-be64 n h))

module _ {data_bytes : List ℕ} {offset : ℕ} {part rest : List ℕ}
    (a : At data_bytes offset part rest) where
  -- The same bytes, split elsewhere, or at an offset that is written otherwise.
  pub At-split : (p r : List ℕ) → part ++ rest ≡ p ++ r → At data_bytes offset p r
  At-split p r e = record { inside = a.inside; stands = a.stands ∙ e }

  pub At-move : (o : ℕ) → offset ≡ o → At data_bytes o part rest
  At-move o e = subst (λ (k : ℕ). At data_bytes k part rest) e a
