-- ===== src/Extents/Contiguous.antt =====
-- Extents that cover the logical blocks from `start` on with no gap and no overlap, and the effect
-- of `libfsxfs_extents_read_data`'s sparse extents on it.
use libfsxfs.Prelude.{
  ℕ, ◌+◌, ◌-◌, ◌≤◌, ◌<◌, ◌≡◌, refl, arith, true, List, [], ◌∷◌, ◌++◌, ltb, Bool-cases, inl, inr,
}
use libfsxfs.Word.{u32_mod, u64_mod}
use libfsxfs.Extent.{Extent}
use libfsxfs.Extents.{end_block}
use libfsxfs.Extents.Fill.{fill, ends}

abbrev pub Contiguous : ℕ → List Extent → Type 0
Contiguous start [] = Unit {0}
Contiguous start (e ∷ es) =
    (e.logical_block_number ≡ start)
    × (e.logical_block_number + e.number_of_blocks < u64_mod)
    × Contiguous (end_block e) es

-- The extents come in the order of their blocks, and no gap between them is larger than a
-- uint32_t counts.
abbrev pub Ascending : ℕ → List Extent → Type 0
Ascending start [] = Unit {0}
Ascending start (e ∷ es) =
    (start ≤ e.logical_block_number)
    × (e.logical_block_number - start < u32_mod)
    × (e.logical_block_number + e.number_of_blocks < u64_mod)
    × Ascending (end_block e) es

-- For extents that come in the order of their blocks from `start` on, with no gap of 2 ^ 32 blocks,
-- the extents with the sparse ones between them cover the blocks from `start` on with no gap and no
-- overlap.
pub fill-Contiguous :
    (start : ℕ) (es : List Extent) → Ascending start es → Contiguous start (fill true start es)
fill-Contiguous start [] h = tt
fill-Contiguous start (e ∷ es) h =
    let rest = fill-Contiguous (end_block e) es h.3 in
    elim (Bool-cases (ltb start e.logical_block_number)) [
      | inl behind ↦ rw behind (refl, ground arith, (ground arith, h.2, rest))
      | inr at_start ↦ rw at_start (ground arith, h.2, rest)
    ]

-- If the first extent starts 2 ^ 32 blocks or more behind `start`, the extents with the sparse ones do
-- not cover the blocks from `start` on: the sparse extent's number of blocks is cut.
pub fill-not-Contiguous :
    (start : ℕ) (e : Extent) (es : List Extent)
    → e.logical_block_number < u64_mod
    → start + u32_mod ≤ e.logical_block_number
    → ¬ Contiguous start (fill true start (e ∷ es))
fill-not-Contiguous start e es fits far h =
    let behind : ltb start e.logical_block_number ≡ true = ground arith in
    let c = rw behind at h in absurd (omega (arith, c.2.0))

pub Contiguous-append :
    (start : ℕ) (xs : List Extent) (e : Extent)
    → Contiguous start xs
    → e.logical_block_number ≡ ends start xs
    → e.logical_block_number + e.number_of_blocks < u64_mod
    → Contiguous start (xs ++ (e ∷ []))
Contiguous-append start [] e c at_end fits = (at_end, fits, tt)
Contiguous-append start (x ∷ xs) e c at_end fits =
    (c.0, c.1, Contiguous-append (end_block x) xs e c.2 at_end fits)

pub Contiguous-init :
    (start : ℕ) (xs : List Extent) (e : Extent)
    → Contiguous start (xs ++ (e ∷ []))
    → Contiguous start xs
      × (e.logical_block_number ≡ ends start xs)
      × (e.logical_block_number + e.number_of_blocks < u64_mod)
Contiguous-init start [] e c = (tt, c.0, c.1)
Contiguous-init start (x ∷ xs) e c =
    let r = Contiguous-init (end_block x) xs e c.2 in ((c.0, c.1, r.0), r.1, r.2)
