-- ===== src/DataHandle/Chunks.antt =====
-- Reads of data in memory, one behind the other.
use Prim.Native.Nat.{min}
use libfsxfs.Prelude.{
  ℕ, ◌+◌, ◌-◌, ◌%◌, ◌≤◌, ◌≡◌, sym, arith, List, [], ◌∷◌, ◌++◌, ltb, leb, length, length-append,
  length-take, length-drop, take, drop, All, if◌then◌else◌, some, Bool-cases, false, inl, inr,
  drop-drop, take-drop-take, take-append_next,
}
use libfsxfs.Result.{Result, ok, ◌>>=◌}
use libfsxfs.Word.{int64_max, u64_mod}
use libfsxfs.Bytes.Laws.{slice_inside}
use libfsxfs.DataHandle.{
  BufferDataHandle, is_negative, buffer_read_segment_data, buffer_seek_segment_offset,
}

-- The handle has all the bytes of its size behind its pointer.
abbrev pub Holds : BufferDataHandle → List ℕ → Type 0
Holds h bytes =
    (h.data_bytes ≡ some bytes) × (h.data_size ≤ length bytes) × (h.data_size ≤ int64_max)

-- What a read of `n` bytes at the position gives.
abbrev pub read_at : BufferDataHandle → List ℕ → ℕ → List ℕ
read_at h bytes n = take n (drop h.current_offset (take h.data_size bytes))

abbrev pub moved : BufferDataHandle → ℕ → BufferDataHandle
moved h n = record h { current_offset = h.current_offset + n }

read-at :
    (h : BufferDataHandle) (bytes : List ℕ) (n : ℕ)
    → Holds h bytes
    → h.current_offset ≤ int64_max
    → n ≤ int64_max
    → buffer_read_segment_data h 0 n ≡ ok (read_at h bytes n, moved h (length (read_at h bytes n)))
unfolding buffer_read_segment_data
read-at h bytes n (e, size, small) low m =
    let o = h.current_offset in
    let s = h.data_size in
    let shape = take-drop-take n o s bytes in
    let size_of : length (take (min n (s - o)) (drop o bytes)) ≡ min n (s - o) =
      omega (arith, length-take (min n (s - o)) (drop o bytes), length-drop o bytes) in
    let guard : is_negative o ≡ false = ground arith in
    let small_read : ltb int64_max n ≡ false = ground arith in
    elim (Bool-cases (leb s o)) [
      | inl behind ↦
          let none_left : min n (s - o) ≡ 0 = ground arith in
          let stays : o + 0 ≡ o = omega arith in
          rw (guard, small_read, behind, shape, none_left, stays)
      | inr inside ↦
          let count : (if ltb n (s - o) then n else s - o) ≡ min n (s - o) = ground arith in
          let place : o + min n (s - o) ≤ length bytes = ground arith in
          let no_wrap : (o + min n (s - o)) % u64_mod ≡ o + min n (s - o) = ground arith in
          rw (
            guard,
            small_read,
            inside,
            count,
            e,
            slice_inside bytes o (min n (s - o)) place,
            no_wrap,
            shape,
            size_of,
          )
    ]

-- A caller that reads pieces of these sizes, one behind the other.
abbrev pub read_pieces : List ℕ → BufferDataHandle → Result (List ℕ × BufferDataHandle)
read_pieces [] h = ok ([], h)
read_pieces (n ∷ ns) h = do
  (xs, after) ← buffer_read_segment_data h 0 n
  (ys, last) ← read_pieces ns after
  ok (xs ++ ys, last)

abbrev pub sum : List ℕ → ℕ
sum [] = 0
sum (n ∷ ns) = n + sum ns

-- Reading pieces of any sizes gives the same bytes, and the same handle, as one read of them all.
pub read_pieces-at :
    (ns : List ℕ) (h : BufferDataHandle) (bytes : List ℕ)
    → Holds h bytes
    → h.current_offset ≤ int64_max
    → All (λ n. n ≤ int64_max) ns
    → read_pieces ns h ≡ ok (read_at h bytes (sum ns), moved h (length (read_at h bytes (sum ns))))
read_pieces-at [] h bytes holds low small =
    let e : h.current_offset + 0 ≡ h.current_offset = omega arith in rw e
read_pieces-at (n ∷ ns) h bytes holds low (small, smalls) =
    let d = drop h.current_offset (take h.data_size bytes) in
    let k = length (take n d) in
    let after = moved h k in
    let next : drop after.current_offset (take h.data_size bytes) ≡ drop k d =
      drop-drop h.current_offset k (take h.data_size bytes) in
    let still : h.current_offset + k ≤ int64_max = omega (
      arith,
      length-take n d,
      length-drop h.current_offset (take h.data_size bytes),
      length-take h.data_size bytes,
      holds.2,
    ) in
    let joined = take-append_next n (sum ns) d in
    let rest = take (sum ns) (drop k d) in
    let total : length (take (n + sum ns) d) ≡ k + length rest =
      rw (sym joined) (length-append (take n d) rest) in
    let place : h.current_offset + (k + length rest) ≡ h.current_offset + k + length rest =
      omega arith in
    rw (
      read-at h bytes n holds low small,
      read_pieces-at ns after bytes holds still smalls,
      next,
      total,
      place,
      joined,
    )

-- A handle for data of `data_size` bytes that are there, moved to an offset, gives from there the
-- same bytes in pieces of any sizes: those of the data from the offset on, at most as many as asked.
pub seek-read_pieces :
    (h : BufferDataHandle) (bytes : List ℕ) (offset : ℕ) (ns : List ℕ)
    → Holds h bytes
    → offset ≤ int64_max
    → All (λ n. n ≤ int64_max) ns
    → (buffer_seek_segment_offset h 0 offset >>= λ moved_handle. read_pieces ns moved_handle)
      ≡ ok (
        take (sum ns) (drop offset (take h.data_size bytes)),
        record h {
          current_offset = offset + length (take (sum ns) (drop offset (take h.data_size bytes)));
        },
      )
unfolding buffer_seek_segment_offset
seek-read_pieces h bytes offset ns holds low small =
    let guard : is_negative offset ≡ false = ground arith in
    rw guard (read_pieces-at ns (record h { current_offset = offset }) bytes holds low small)
