-- ===== src/Extents/Places.antt =====
-- The extents of libfsxfs_extent.h that the volume can hold.
use libfsxfs.Handle.{IoHandle}
use libfsxfs.Handle.Places.{IsInVolume}
use libfsxfs.Extent.{Extent}

-- The extent is in the volume, its group's index below 2^31 and its end at most 2^63 - 1.
abbrev pub IsPlaced : IoHandle → Extent → Type 0
IsPlaced io e = IsInVolume io e.physical_block_number e.number_of_blocks
