-- ===== src/Bytes.antt =====
-- Reads of a byte buffer: `data[ i ]`, a copy of a range, and the byte_stream_copy_to_*_big_endian
-- macros of common/byte_stream.h. A buffer is the list of the bytes from a pointer to the end
-- of its allocation; a read past that end is a fault.
pub mod Laws
pub mod Encode
pub mod Cursor
use libfsxfs.Prelude.{
  ℕ, zero, suc, ◌+◌, ◌*◌, ◌<◌, Bool, List, [], ◌∷◌, leb, ◌==◌, ◌&&◌, true, false, if◌then◌else◌,
  length, take, drop,
}
use libfsxfs.Result.{Result, ok, fault, ◌>>=◌}

abbrev pub IsByte : ℕ → Type 0
IsByte b = b < 256

-- The `size` bytes at `data[ offset ]`.
unfoldable pub slice : List ℕ → ℕ → ℕ → Result (List ℕ)
slice data_bytes offset size =
    if leb (offset + size) (length data_bytes)
    then ok (take size (drop offset data_bytes))
    else fault

-- `value <<= 8; value |= byte` for each byte.
abbrev pub be_from : ℕ → List ℕ → ℕ
be_from value [] = value
be_from value (b ∷ bs) = be_from (value * 256 + b) bs

abbrev pub be_value : List ℕ → ℕ
be_value bs = be_from 0 bs

unfoldable pub read_be : ℕ → List ℕ → ℕ → Result ℕ
read_be size data_bytes offset = do bs ← slice data_bytes offset size; ok (be_value bs)

-- `data[ offset ]`
unfoldable pub read_uint8 : List ℕ → ℕ → Result ℕ
unfolding read_be slice
read_uint8 data_bytes offset = read_be 1 data_bytes offset

unfoldable pub read_uint16 : List ℕ → ℕ → Result ℕ
unfolding read_be slice
read_uint16 data_bytes offset = read_be 2 data_bytes offset

unfoldable pub read_uint32 : List ℕ → ℕ → Result ℕ
unfolding read_be slice
read_uint32 data_bytes offset = read_be 4 data_bytes offset

unfoldable pub read_uint64 : List ℕ → ℕ → Result ℕ
unfolding read_be slice
read_uint64 data_bytes offset = read_be 8 data_bytes offset

-- `memory_compare( ..., size ) == 0` on two copies.
abbrev pub same_bytes : List ℕ → List ℕ → Bool
same_bytes [] [] = true
same_bytes (x ∷ xs) (y ∷ ys) = x == y && same_bytes xs ys
same_bytes [] (y ∷ ys) = false
same_bytes (x ∷ xs) [] = false
