-- ===== src/DataStream/Inline.antt =====
-- The data stream of an inode whose data stand in it.
use libfsxfs.Prelude.{
  ℕ, ◌≤◌, ◌≡◌, refl, ◌∙◌, arith, List, [], ◌∷◌, ltb, ◌&&◌, ◌||◌, ◌==◌, not, some, length,
}
use libfsxfs.Result.{
  Ensures, Ensures-bind, Ensures-fail_if, Ensures-or_fail, or_fail, Ensures-if, invalid_value,
  value_exceeds_maximum, initialize_failed, append_failed, unsupported_value,
}
use libfsxfs.Word.{int64_max}
use libfsxfs.Array.{CdataArray}
use libfsxfs.Stream.{FdataStream, Segment}
use libfsxfs.Handle.{IoHandle, FileIoHandle}
use libfsxfs.Extent.{Extent}
use libfsxfs.Inode.{Inode, fork_type_inline_data, fork_type_extents, fork_type_btree}
use libfsxfs.Inode.Read.{HasData}
use libfsxfs.DataHandle.{BufferDataHandle, buffer_initialize, is_null}
use libfsxfs.DataHandle.Chunks.{Holds}
use libfsxfs.DataStream.{DataHandle, buffer, initialize_from_data, data_stream_initialize}

buffer_initialize-Holds :
    (bytes : List ℕ) (n : ℕ)
    → n ≤ length bytes
    → Ensures (λ h. (h.data_size ≡ n) × Holds h bytes) (buffer_initialize (some bytes) n)
unfolding buffer_initialize
buffer_initialize-Holds bytes n h =
    let P : BufferDataHandle → Type 0 = λ x. (x.data_size ≡ n) × Holds x bytes in
    Ensures-fail_if P (ltb 0 n && is_null (some bytes)) invalid_value _ λ _.
      Ensures-fail_if P (ltb int64_max n) value_exceeds_maximum _
        λ small. (refl, (refl, h, ground arith))

module _ (lib : CdataArray Extent) (libfdata : FdataStream DataHandle) where
  open libfdata use {Stream, segments, handle}

  -- One segment, of a buffer that has all its bytes.
  abbrev pub IsInline : ℕ → Stream → Type 0
  IsInline data_size s =
      (bytes : List ℕ) × (h : BufferDataHandle) × (handle s ≡ buffer h)
      × (h.data_size ≡ data_size)
      × Holds h bytes
      × (segments s ≡ record { offset = 0; size = data_size; flags = 0 } ∷ [])

  from_data-IsInline :
      (bytes : List ℕ) (n : ℕ)
      → n ≤ length bytes
      → Ensures (IsInline n) (initialize_from_data lib libfdata (some bytes) n)
  unfolding initialize_from_data
  from_data-IsInline bytes n h =
      let P = IsInline n in
      let whole : Segment = record { offset = 0; size = n; flags = 0 } in
      Ensures-bind (λ x. (x.data_size ≡ n) × Holds x bytes) P (buffer_initialize (some bytes) n) _
        (buffer_initialize-Holds bytes n h)
        λ x k.
          Ensures-bind (λ s. (handle s ≡ buffer x) × (segments s ≡ [])) P
            (or_fail (libfdata.initialize (buffer x)) initialize_failed) _
            (Ensures-or_fail _ (libfdata.initialize (buffer x)) initialize_failed
              λ s p. let l = libfdata.initialize_law (buffer x) s p in (l.0, l.1))
            λ s f. Ensures-or_fail P (libfdata.append_segment s whole) append_failed λ t p.
              let l = libfdata.append_law s t whole p in
              (bytes, x, l.0 ∙ f.0, k.0, k.1, rw f.1 at l.1)

  -- For an inode whose data fork was read in the inode, the data stream of the inode's size has one
  -- segment, of a buffer that has all the bytes of that size: no read of it leaves the buffer.
  pub data_stream_initialize-IsInline :
      (io : IoHandle) (file : FileIoHandle) (inode : Inode lib)
      → HasData lib io file inode.fields inode.data_fork
      → inode.fields.fork_type ≡ fork_type_inline_data
      → Ensures
          (IsInline inode.fields.size)
          (data_stream_initialize lib libfdata io inode inode.fields.size)
  unfolding data_stream_initialize
  data_stream_initialize-IsInline io file inode has inline =
      let P = IsInline inode.fields.size in
      let t = inode.fields.fork_type in
      let d = has.0 inline in
      Ensures-fail_if P
        (not (t == fork_type_inline_data)
          && (not (t == fork_type_extents) && not (t == fork_type_btree)))
        unsupported_value _
        λ _.
          Ensures-if P (inode.fields.size == 0 || t == fork_type_inline_data) _ _
            (λ _. rw d.1 (from_data-IsInline d.0 inode.fields.size d.2))
            λ other. absurd (ground arith)
