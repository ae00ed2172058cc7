-- ===== src/Bytes/Laws.antt =====
-- Reads inside the buffer succeed, and what they give is in range.
use libfsxfs.Prelude.{
  ℕ, ◌+◌, ◌*◌, ◌^◌, ◌≤◌, ◌<◌, ◌≡◌, arith, List, [], ◌∷◌, length, take, drop, All, All-take,
  All-drop, length-take, length-drop,
}
use native.Mathlib.Nat.{pow-suc}
use libfsxfs.Bytes.{
  IsByte, slice, be_from, be_value, read_be, read_uint8, read_uint16, read_uint32, read_uint64,
}
use libfsxfs.Result.{ok, Ensures, IsTotal}

module _ (data_bytes : List ℕ) (offset size : ℕ) (inside : offset + size ≤ length data_bytes) where
  pub slice_inside : slice data_bytes offset size ≡ ok (take size (drop offset data_bytes))
  unfolding slice
  slice_inside = ground arith

  pub length-slice : length (take size (drop offset data_bytes)) ≡ size
  length-slice =
      omega (arith, length-take size (drop offset data_bytes), length-drop offset data_bytes)

  pub read_be_inside :
      read_be size data_bytes offset ≡ ok (be_value (take size (drop offset data_bytes)))
  unfolding read_be
  read_be_inside = rw slice_inside

-- A value of `n` bytes on top of `value`.
be_from-lt :
    (bs : List ℕ) (value bound : ℕ)
    → All IsByte bs
    → value < bound
    → be_from value bs < bound * 256 ^ length bs
be_from-lt [] value bound h k = omega arith
be_from-lt (b ∷ bs) value bound (hb, hbs) k =
    rw (pow-suc 256 (length bs))
      (omega (arith, be_from-lt bs (value * 256 + b) (bound * 256) hbs (omega arith)))

-- Of a buffer of bytes, a read of `size` bytes inside it is below 256 ^ size.
pub be_value-lt :
    (data_bytes : List ℕ) (offset size : ℕ)
    → All IsByte data_bytes
    → offset + size ≤ length data_bytes
    → be_value (take size (drop offset data_bytes)) < 256 ^ size
be_value-lt data_bytes offset size h inside =
    let part = take size (drop offset data_bytes) in
    let all = All-take IsByte size (drop offset data_bytes) (All-drop IsByte offset data_bytes h) in
    let e = length-slice data_bytes offset size inside in
    let bound : be_value part < 256 ^ length part =
      omega (arith, be_from-lt part 0 1 all (omega arith)) in
    rw e at bound

-- A read of `size` bytes inside a buffer of bytes gives a value below 256 ^ size.
pub read_be_bound :
    (data_bytes : List ℕ) (offset size : ℕ)
    → All IsByte data_bytes
    → offset + size ≤ length data_bytes
    → Ensures (λ v. v < 256 ^ size) (read_be size data_bytes offset)
read_be_bound data_bytes offset size h inside =
    rw (read_be_inside data_bytes offset size inside) (be_value-lt data_bytes offset size h inside)

-- Inside the buffer a read ends, whatever the bytes.
pub read_be-IsTotal :
    (data_bytes : List ℕ) (offset size : ℕ)
    → offset + size ≤ length data_bytes
    → IsTotal (read_be size data_bytes offset)
read_be-IsTotal data_bytes offset size inside = rw (read_be_inside data_bytes offset size inside) tt

-- The same for each width that the code reads.
module _ (data_bytes : List ℕ) (offset : ℕ) where
  pub read_uint8_inside :
      offset + 1 ≤ length data_bytes
      → read_uint8 data_bytes offset ≡ ok (be_value (take 1 (drop offset data_bytes)))
  unfolding read_uint8
  read_uint8_inside h = read_be_inside data_bytes offset 1 h

  pub read_uint16_inside :
      offset + 2 ≤ length data_bytes
      → read_uint16 data_bytes offset ≡ ok (be_value (take 2 (drop offset data_bytes)))
  unfolding read_uint16
  read_uint16_inside h = read_be_inside data_bytes offset 2 h

  pub read_uint32_inside :
      offset + 4 ≤ length data_bytes
      → read_uint32 data_bytes offset ≡ ok (be_value (take 4 (drop offset data_bytes)))
  unfolding read_uint32
  read_uint32_inside h = read_be_inside data_bytes offset 4 h

  pub read_uint64_inside :
      offset + 8 ≤ length data_bytes
      → read_uint64 data_bytes offset ≡ ok (be_value (take 8 (drop offset data_bytes)))
  unfolding read_uint64
  read_uint64_inside h = read_be_inside data_bytes offset 8 h

  pub read_uint8_bound :
      All IsByte data_bytes
      → offset + 1 ≤ length data_bytes
      → Ensures (λ v. v < 256) (read_uint8 data_bytes offset)
  unfolding read_uint8
  read_uint8_bound b h = read_be_bound data_bytes offset 1 b h

  pub read_uint16_bound :
      All IsByte data_bytes
      → offset + 2 ≤ length data_bytes
      → Ensures (λ v. v < 65536) (read_uint16 data_bytes offset)
  unfolding read_uint16
  read_uint16_bound b h = read_be_bound data_bytes offset 2 b h

  pub read_uint32_bound :
      All IsByte data_bytes
      → offset + 4 ≤ length data_bytes
      → Ensures (λ v. v < 4294967296) (read_uint32 data_bytes offset)
  unfolding read_uint32
  read_uint32_bound b h = read_be_bound data_bytes offset 4 b h

  pub read_uint64_bound :
      All IsByte data_bytes
      → offset + 8 ≤ length data_bytes
      → Ensures (λ v. v < 18446744073709551616) (read_uint64 data_bytes offset)
  unfolding read_uint64
  read_uint64_bound b h = read_be_bound data_bytes offset 8 b h
