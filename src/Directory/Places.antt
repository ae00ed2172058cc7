-- ===== src/Directory/Places.antt =====
-- The places of the blocks of a directory, as the format has them, and the offsets that the code
-- computes for them.
use libfsxfs.Prelude.{
  ℕ, zero, suc, ◌+◌, ◌*◌, ◌≤◌, ◌<◌, ◌≡◌, refl, arith, List, [], ◌∷◌, ◌++◌, leb, if◌then◌else◌, All,
}
use libfsxfs.Word.{int64_max, add64}
use libfsxfs.Handle.{IoHandle}
use libfsxfs.Handle.Places.{place_of, block_offset-place}
use libfsxfs.Extent.{Extent}
use libfsxfs.Extents.Places.{IsPlaced}
use libfsxfs.Directory.{directory_leaf_offset}
use libfsxfs.Directory.Blocks.{HasWholeBlocks, blocks_in, block_offsets, directory_offsets}

-- The places of `n` directory blocks that follow one another.
abbrev pub places_from : IoHandle → ℕ → ℕ → List ℕ
places_from io zero place = []
places_from io (suc n) place = place ∷ places_from io n (place + io.directory_block_size)

-- The places of the blocks that are in front of the leaf offset in the file.
abbrev pub block_places : IoHandle → List Extent → List ℕ
block_places io [] = []
block_places io (e ∷ es) =
    if leb directory_leaf_offset (e.logical_block_number * io.block_size)
    then []
    else places_from io (blocks_in io e) (place_of io e.physical_block_number) ++ block_places io es

places_from-offsets :
    (io : IoHandle) (n place : ℕ)
    → place + n * io.directory_block_size ≤ int64_max
    → block_offsets io n place ≡ places_from io n place
places_from-offsets io zero place h = refl
places_from-offsets io (suc n) place h =
    let d = io.directory_block_size in
    let split : suc n * d ≡ n * d + d = omega arith in
    let no_wrap : add64 place d ≡ place + d = omega (arith, split, h) in
    rw (no_wrap, places_from-offsets io n (place + d) (omega (arith, split, h)))

pub block_places-offsets :
    (io : IoHandle) (fuel : ℕ) (es : List Extent)
    → 0 < io.block_size
    → All (HasWholeBlocks io fuel) es
    → All (IsPlaced io) es
    → directory_offsets io es ≡ block_places io es
block_places-offsets io fuel [] pos whole places = refl
block_places-offsets io fuel (e ∷ es) pos (fits, whole) (place, places) =
    let start = block_offset-place io e.physical_block_number e.number_of_blocks pos place in
    let blocks =
      places_from-offsets io (blocks_in io e) (place_of io e.physical_block_number)
        (omega (arith, fits.2, place.end_fits)) in
    rw (start, blocks, block_places-offsets io fuel es pos whole places)
