-- ===== src/Extents/Tail.antt =====
-- The extent list of a file as a whole: its extents cover the logical blocks up to
-- `number_of_blocks`.
use mathlib.Core.Path.{subst}
use libfsxfs.Prelude.{
  ℕ, ◌≤◌, ◌<◌, ◌≡◌, refl, sym, ◌∙◌, arith, true, false, List, [], ◌∷◌, ◌++◌, ltb, Bool-cases, inl,
  inr, length, set-append_end, last_cases, bit_and, some, ◌==◌,
}
use Prim.Native.Nat.{max}
use libfsxfs.Result.{◌>>=◌, ok, Ensures, Ensures-bind, Ensures-mono}
use libfsxfs.Word.{u32_mod, sub64, add32}
use libfsxfs.Array.{CdataArray}
use libfsxfs.Extent.{Extent, extent_flag_is_sparse}
use libfsxfs.Extents.{
  end_block, sparse_extent, get_last_extent, append, read_data, read_list, append_tail, grow_last,
}
use libfsxfs.Extents.Fill.{
  fill, ends, ends-fill, ends-append, extents_at, Extends, append-Extends, get_last_extent_nil,
  get_last_extent_end, get_last_extent-Ensures, fill-false, read_data-Extends,
}
use libfsxfs.Extents.Contiguous.{
  Contiguous, Ascending, fill-Contiguous, Contiguous-append, Contiguous-init,
}

-- The extents cover the blocks from 0 to `number_of_blocks`, or to their own end if it is further.
abbrev pub Covers : ℕ → List Extent → List Extent → Type 0
Covers number_of_blocks before xs =
    Contiguous 0 xs × (ends 0 xs ≡ max (ends 0 before) number_of_blocks)

grown : Extent → ℕ → Extent
grown e missing = record e { number_of_blocks = add32 e.number_of_blocks missing }

-- One extent behind `xs`, which ends at `start`, grown to reach `number_of_blocks`.
Covers-grown :
    (xs : List Extent) (before : List Extent) (e : Extent) (start number_of_blocks : ℕ)
    → number_of_blocks < u32_mod
    → Contiguous 0 (xs ++ (e ∷ []))
    → ends 0 before ≡ start
    → end_block e ≡ start
    → start < number_of_blocks
    → Covers number_of_blocks before (xs ++ (grown e (sub64 number_of_blocks start) ∷ []))
unfolding grown
Covers-grown xs before e start number_of_blocks small c b s short =
    let i = Contiguous-init 0 xs e c in
    let e' = grown e (sub64 number_of_blocks start) in
    (Contiguous-append 0 xs e' i.0 i.1 (omega arith), ends-append 0 xs e' ∙ omega (arith, b))

module _ (lib : CdataArray Extent) where
  open lib use {Array, entries, number_law, write_law}

  -- A write to the entry behind `xs`.
  grow_last-entries :
      (extents : Array) (xs : List Extent) (e : Extent) (missing : ℕ)
      → entries extents ≡ xs ++ (e ∷ [])
      → entries (grow_last lib (some (length xs, e)) missing extents) ≡ xs ++ (grown e missing ∷ [])
  unfolding grow_last grown
  grow_last-entries extents xs e missing h =
      write_law extents (length xs) _ ∙ rw h (set-append_end xs e _)

  -- A sparse extent is appended at `start`, the end of the entries, and grown.
  append_grown-Covers :
      (extents : Array) (start number_of_blocks : ℕ)
      → number_of_blocks < u32_mod
      → ends 0 (entries extents) ≡ start
      → start < number_of_blocks
      → Ensures
          (λ after.
            Contiguous 0 (entries extents)
            → Covers number_of_blocks (entries extents) (entries after))
          (append lib extents (sparse_extent start 0) >>= λ appended. ok (
            grow_last lib
              (some (lib.get_number_of_entries extents, sparse_extent start 0))
              (sub64 number_of_blocks start)
              appended))
  append_grown-Covers extents start number_of_blocks small s short =
      let e = sparse_extent start 0 in
      let xs = entries extents in
      Ensures-bind (Extends lib extents (e ∷ [])) _ (append lib extents e) _
        (append-Extends lib extents e)
        λ appended a.
          rw (number_law extents, grow_last-entries appended xs e (sub64 number_of_blocks start) a)
            (λ c.
              Covers-grown xs xs e start number_of_blocks small
                (Contiguous-append 0 xs e c (sym s) (omega arith)) s (omega arith) short)

  append_tail_end-Covers :
      (extents : Array) (xs : List Extent) (e : Extent) (number_of_blocks : ℕ)
      → number_of_blocks < u32_mod
      → entries extents ≡ xs ++ (e ∷ [])
      → Ensures
          (λ after.
            Contiguous 0 (entries extents)
            → Covers number_of_blocks (entries extents) (entries after))
          (append_tail lib extents number_of_blocks true)
  unfolding append_tail
  append_tail_end-Covers extents xs e number_of_blocks small h =
      let s : ends 0 (entries extents) ≡ end_block e = rw h (ends-append 0 xs e) in
      rw (get_last_extent_end lib extents xs e h)
        (elim (Bool-cases (ltb (end_block e) number_of_blocks)) [
          | inr long ↦ rw long (λ c. (c, ground (arith, s)))
          | inl short ↦
              rw short (elim (Bool-cases (bit_and e.range_flags extent_flag_is_sparse == 0)) [
                | inl plain ↦ rw plain (
                    append_grown-Covers extents (end_block e) number_of_blocks small s
                      (ground arith))
                | inr sparse ↦
                    rw
                      (
                        sparse,
                        grow_last-entries extents xs e (sub64 number_of_blocks (end_block e)) h,
                      )
                      (λ c.
                        Covers-grown xs (entries extents) e (end_block e) number_of_blocks small
                          (subst (Contiguous 0) h c) s refl (ground arith))
              ])
        ])

  -- What `append_tail` does to extents that have no gap and no overlap.
  pub append_tail-Covers :
      (extents : Array) (number_of_blocks : ℕ)
      → number_of_blocks < u32_mod
      → Ensures
          (λ after.
            Contiguous 0 (entries extents)
            → Covers number_of_blocks (entries extents) (entries after))
          (append_tail lib extents number_of_blocks true)
  unfolding append_tail
  append_tail-Covers extents number_of_blocks small = elim (last_cases (entries extents)) [
    | inr (xs, e, h) ↦ append_tail_end-Covers extents xs e number_of_blocks small h
    | inl h ↦
        let s : ends 0 (entries extents) ≡ 0 = rw h in
        rw (get_last_extent_nil lib extents h) (elim (Bool-cases (ltb 0 number_of_blocks)) [
          | inr long ↦ rw long (λ c. (c, ground (arith, s)))
          | inl short ↦
              rw short (append_grown-Covers extents 0 number_of_blocks small s (ground arith))
        ])
  ]

  -- If the extents in the data come in the order of their blocks, no gap counts 2 ^ 32 blocks, and the
  -- file has fewer than 2 ^ 32, then `libfsxfs_extent_list_read_data` with sparse extents,
  -- on an empty array, reads nothing behind the data, and the extents it gives cover the blocks
  -- from 0 to `number_of_blocks`, or to the end of the last extent if it is further, with no gap
  -- and no overlap.
  pub read_list-Covers :
      (extents : Array) (number_of_blocks number_of_extents : ℕ) (data_bytes : List ℕ)
      (data_size : ℕ)
      → entries extents ≡ []
      → data_size ≤ length data_bytes
      → number_of_blocks < u32_mod
      → Ascending 0 (extents_at number_of_extents data_bytes 0)
      → Ensures
          (λ after.
            Covers number_of_blocks (extents_at number_of_extents data_bytes 0) (entries after))
          (read_list lib extents number_of_blocks number_of_extents data_bytes data_size true)
  unfolding read_list
  read_list-Covers extents number_of_blocks number_of_extents data_bytes data_size empty h small
        up =
      let es = extents_at number_of_extents data_bytes 0 in
      Ensures-bind _ _ (read_data lib extents number_of_extents data_bytes data_size true) _
        (read_data-Extends lib extents number_of_extents data_bytes data_size true h)
        λ filled f.
          let e : entries filled ≡ fill true 0 es = rw empty at f in
          Ensures-mono _ (λ after. Covers number_of_blocks es (entries after))
            (append_tail lib filled number_of_blocks true)
            (append_tail-Covers filled number_of_blocks small)
            λ after g.
              let k = g (rw e (fill-Contiguous 0 es up)) in (k.0, k.1 ∙ rw (e, ends-fill true 0 es))

  -- Without sparse extents, where the size is at most that of the data, the call reads nothing behind
  -- them, and if it succeeds it appends exactly the extents in the data, whatever their order.
  pub read_list-plain :
      (extents : Array) (number_of_blocks number_of_extents : ℕ) (data_bytes : List ℕ)
      (data_size : ℕ)
      → data_size ≤ length data_bytes
      → Ensures
          (Extends lib extents (extents_at number_of_extents data_bytes 0))
          (read_list lib extents number_of_blocks number_of_extents data_bytes data_size false)
  unfolding read_list append_tail
  read_list-plain extents number_of_blocks number_of_extents data_bytes data_size h =
      let es = extents_at number_of_extents data_bytes 0 in
      Ensures-bind _ _ (read_data lib extents number_of_extents data_bytes data_size false) _
        (read_data-Extends lib extents number_of_extents data_bytes data_size false h)
        λ filled f.
          Ensures-bind _ _ (get_last_extent lib filled) _ (get_last_extent-Ensures lib filled)
            λ last s. rw (fill-false (ends 0 (entries extents)) es) at f
