-- ===== src/Bytes/Encode.antt =====
-- Big-endian encoders, to state round trips.
use libfsxfs.Prelude.{ℕ, ◌/◌, ◌%◌, ◌<◌, ◌≡◌, arith, List, [], ◌∷◌}
use libfsxfs.Bytes.{be_value}

abbrev pub be16 : ℕ → List ℕ
be16 v = (v / 256 % 256) ∷ (v % 256) ∷ []

abbrev pub be32 : ℕ → List ℕ
be32 v = (v / 16777216 % 256) ∷ (v / 65536 % 256) ∷ (v / 256 % 256) ∷ (v % 256) ∷ []

abbrev pub be64 : ℕ → List ℕ
be64 v =
    (v / 72057594037927936 % 256)
    ∷ (v / 281474976710656 % 256)
    ∷ (v / 1099511627776 % 256)
    ∷ (v / 4294967296 % 256)
    ∷ be32 v

pub be_value-be16 : (v : ℕ) → v < 65536 → be_value (be16 v) ≡ v
be_value-be16 v h = omega arith

pub be_value-be32 : (v : ℕ) → v < 4294967296 → be_value (be32 v) ≡ v
be_value-be32 v h = omega arith

pub be_value-be64 : (v : ℕ) → v < 18446744073709551616 → be_value (be64 v) ≡ v
be_value-be64 v h = omega arith
