-- ===== src/DataStream/Mapped.antt =====
-- What a data stream of extents maps: each byte of the file to its byte in the volume.
use native.Mathlib.Nat.{le-div_iff_mul-le, add-mul, mul-le-mul}
use libfsxfs.Prelude.{
  ℕ, zero, suc, ◌+◌, ◌-◌, ◌*◌, ◌/◌, ◌≤◌, ◌<◌, ◌≡◌, refl, sym, ◌∙◌, arith, List, [], ◌∷◌, ◌++◌, map,
  ltb, leb, ◌&&◌, ◌==◌, true, Bool-cases, inl, inr, All, Option, none, some, if◌then◌else◌, length,
  drop, get_elem?_lt, drop-at, drop-all, append-nil, append_assoc,
}
use libfsxfs.Result.{
  Ensures, Ensures-bind, Ensures-fail_if, Ensures-mono, Ensures-or_fail, or_fail,
  value_out_of_bounds, append_failed, initialize_failed, set_failed,
}
use libfsxfs.Word.{u32_mod, mul64}
use libfsxfs.Array.{CdataArray}
use libfsxfs.Stream.{FdataStream, Segment, locate}
use libfsxfs.Handle.{IoHandle}
use libfsxfs.Handle.Places.{place_of, block_offset-place}
use libfsxfs.Extent.{Extent}
use libfsxfs.Extents.{end_block}
use libfsxfs.Extents.Places.{IsPlaced}
use libfsxfs.Extents.Contiguous.{Contiguous}
use libfsxfs.Inode.{Inode}
use libfsxfs.Inode.Forks.{number_of_extents_of, extent_by_index_of}
use libfsxfs.DataStream.{DataHandle, blocks, segment_of, append_extents, initialize_from_extents}

-- The extent with a logical block.
abbrev pub extent_with : List Extent → ℕ → Option Extent
extent_with [] k = none
extent_with (e ∷ es) k =
    if leb e.logical_block_number k && ltb k (e.logical_block_number + e.number_of_blocks)
    then some e
    else extent_with es k

-- The bytes of the volume that an extent stands for, with its flags.
abbrev pub placed : IoHandle → Extent → Segment
placed io e = record {
  offset = place_of io e.physical_block_number;
  size = e.number_of_blocks * io.block_size;
  flags = e.range_flags;
}

-- These bytes for an extent, and the offset in them of a byte of the file.
abbrev pub in_segment : IoHandle → ℕ → Option Extent → Option (Segment × ℕ)
in_segment io o none = none
in_segment io o (some e) = some (placed io e, o - e.logical_block_number * io.block_size)

-- The uint32_t of an extent's blocks.
abbrev pub CountsBlocks : Extent → Type 0
CountsBlocks e = e.number_of_blocks < u32_mod

-- The byte at `o` stands behind the `l` first blocks, and in the `n` blocks behind them or not.
in_blocks :
    (bs l n o : ℕ)
    → 0 < bs
    → l * bs ≤ o
    → (leb l (o / bs) && ltb (o / bs) (l + n)) ≡ ltb (o - l * bs) (n * bs)
in_blocks bs l n o pos h =
    let split : (l + n) * bs ≡ l * bs + n * bs = add-mul l n bs in
    let low : l ≤ o / bs = (le-div_iff_mul-le pos).1 h in
    let high = le-div_iff_mul-le {x = l + n} {y = o} pos in ground arith

locate-extents :
    (io : IoHandle) (es : List Extent) (start o : ℕ)
    → 0 < io.block_size
    → io.block_size ≤ 65536
    → Contiguous start es
    → All CountsBlocks es
    → All (IsPlaced io) es
    → start * io.block_size ≤ o
    → locate (map (segment_of io) es) (o - start * io.block_size)
      ≡ in_segment io o (extent_with es (o / io.block_size))
locate-extents io [] start o pos small c counts places h = refl
locate-extents io (e ∷ es) start o pos small c (count, counts) (place, places) h =
    let bs = io.block_size in
    let l = e.logical_block_number in
    let n = e.number_of_blocks in
    let at : l ≡ start = c.0 in
    let behind : l * bs ≤ o = rw at h in
    let area : n * bs ≤ u32_mod * 65536 =
      let few : n ≤ u32_mod = omega arith in mul-le-mul few small in
    let no_wrap : mul64 n bs ≡ n * bs = omega arith in
    let next : end_block e ≡ l + n = omega (arith, c.1) in
    let split : (l + n) * bs ≡ l * bs + n * bs = add-mul l n bs in
    elim (Bool-cases (ltb (o - l * bs) (n * bs))) [
      | inl inside ↦
          let test : ltb (o - l * bs) (mul64 n bs) ≡ true = rw no_wrap inside in
          let offset = block_offset-place io e.physical_block_number n pos place in
          rw (in_blocks bs l n o pos behind, sym at, inside, test, offset, no_wrap)
      | inr outside ↦
          let further : (l + n) * bs ≤ o = ground arith in
          let from : o - l * bs - n * bs ≡ o - (l + n) * bs = omega arith in
          let rest =
            locate-extents io es (end_block e) o pos small c.2 counts places (rw next further) in
          rw (in_blocks bs l n o pos behind, sym at, no_wrap, outside, from) (rw next at rest)
    ]

module _ (lib : CdataArray Extent) (libfdata : FdataStream DataHandle) (io : IoHandle) where
  open libfdata use {Stream, segments, mapped_size, handle}

  -- The stream `after` is `before` with these segments behind it.
  abbrev pub Extended : Stream → List Segment → Stream → Type 0
  Extended before xs after =
      (handle after ≡ handle before) × (segments after ≡ segments before ++ xs)

  append_extents-Extended :
      (inode : Inode lib) (extents : CdataArray.Array lib) (n i : ℕ) (data_stream : Stream)
      → inode.data_fork.extents_array ≡ some extents
      → i + n ≡ length (lib.entries extents)
      → Ensures
          (Extended data_stream (map (segment_of io) (drop i (lib.entries extents))))
          (append_extents lib libfdata io inode n i data_stream)
  unfolding append_extents
  append_extents-Extended inode extents zero i s e h =
      rw (drop-all i (lib.entries extents) (omega arith)) (refl, sym (append-nil (segments s)))
  append_extents-Extended inode extents (suc n) i s e h =
      let step = get_elem?_lt (lib.entries extents) i (omega arith) in
      let x = segment_of io step.0 in
      let rest = map (segment_of io) (drop (i + 1) (lib.entries extents)) in
      let here = drop-at i (lib.entries extents) step.0 step.1 in
      rw (extent_by_index_of lib inode.data_fork extents i step.0 e step.1, here)
        (Ensures-bind (Extended s (x ∷ [])) (Extended s (x ∷ rest))
          (or_fail (libfdata.append_segment s x) append_failed) _
          (Ensures-or_fail (Extended s (x ∷ [])) (libfdata.append_segment s x) append_failed
            λ t p. let l = libfdata.append_law s t x p in (l.0, l.1))
          λ mid f.
            Ensures-mono (Extended mid rest) (Extended s (x ∷ rest))
              (append_extents lib libfdata io inode n (i + 1) mid)
              (append_extents-Extended inode extents n (i + 1) mid e (omega arith))
              λ after g. (g.0 ∙ f.0, g.1 ∙ rw f.1 (append_assoc (segments s) (x ∷ []) rest)))

  -- What a data stream of the extents `es` is.
  abbrev pub Maps : List Extent → ℕ → Stream → Type 0
  Maps es data_size s =
      (handle s ≡ blocks) × (segments s ≡ map (segment_of io) es) × (mapped_size s ≡ some data_size)

  from_extents-Maps :
      (inode : Inode lib) (extents : CdataArray.Array lib) (data_size : ℕ)
      → inode.data_fork.extents_array ≡ some extents
      → Ensures
          (Maps (lib.entries extents) data_size)
          (initialize_from_extents lib libfdata io inode data_size)
  unfolding initialize_from_extents
  from_extents-Maps inode extents n e =
      let es = lib.entries extents in
      let P = Maps es n in
      let m = lib.get_number_of_entries extents in
      Ensures-fail_if P (io.allocation_group_size == 0) value_out_of_bounds _ λ _.
        Ensures-fail_if P (io.block_size == 0) value_out_of_bounds _ λ _.
          Ensures-bind (λ s. (handle s ≡ blocks) × (segments s ≡ [])) P
            (or_fail (libfdata.initialize blocks) initialize_failed) _
            (Ensures-or_fail _ (libfdata.initialize blocks) initialize_failed
              λ s p. let l = libfdata.initialize_law blocks s p in (l.0, l.1))
            λ s f. rw (number_of_extents_of lib inode.data_fork extents e) (
              Ensures-bind (Extended s (map (segment_of io) es)) P
                (append_extents lib libfdata io inode m 0 s) _
                (append_extents-Extended inode extents m 0 s e
                  (omega (arith, lib.number_law extents)))
                λ t g. Ensures-or_fail P (libfdata.set_mapped_size t n) set_failed λ last p.
                  let l = libfdata.set_mapped_law t last n p in
                  (l.0 ∙ g.0 ∙ f.0, l.1 ∙ rw f.1 at g.1, l.2))

  -- If the extents of an inode cover blocks from 0 on with no gap and no overlap, with fewer than
  -- 2^32 blocks each, on a volume whose block size is from 1 to 65536, and are in the volume, with
  -- group indexes below 2^31 and ends below 2^63, then a data stream that
  -- libfsxfs_data_stream_initialize_from_extents makes has the size asked for as its mapped size,
  -- and finds each byte of the file in the extent with its block: in a segment with the flags of
  -- the extent, which starts where the volume has the block of the group that the extent starts at,
  -- and ends with the extent, as far from its start as the byte is from the extent's start in the
  -- file. For a byte behind the extents there is none.
  pub from_extents-locate :
      (inode : Inode lib) (extents : CdataArray.Array lib) (data_size : ℕ)
      → inode.data_fork.extents_array ≡ some extents
      → 0 < io.block_size
      → io.block_size ≤ 65536
      → Contiguous 0 (lib.entries extents)
      → All CountsBlocks (lib.entries extents)
      → All (IsPlaced io) (lib.entries extents)
      → Ensures
          (λ data_stream.
            (mapped_size data_stream ≡ some data_size)
            × ((offset : ℕ)
                → locate (segments data_stream) offset
                  ≡ in_segment io offset
                      (extent_with (lib.entries extents) (offset / io.block_size))))
          (initialize_from_extents lib libfdata io inode data_size)
  from_extents-locate inode extents n e pos small c counts places =
      Ensures-mono (Maps (lib.entries extents) n) _
        (initialize_from_extents lib libfdata io inode n) (from_extents-Maps inode extents n e)
        λ s m. (
          m.2,
          λ o.
              let start : o - 0 * io.block_size ≡ o = omega arith in
              let mapped =
                locate-extents io (lib.entries extents) 0 o pos small c counts places
                  (omega arith) in
              rw m.1 (rw start at mapped),
        )
