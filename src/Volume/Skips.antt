-- ===== src/Volume/Skips.antt =====
-- Where the inode information of the first allocation group of a volume cannot be read.
use native.Mathlib.Nat.{div-eq_of_lt, mod-eq_of_lt}
use libfsxfs.Prelude.{
  ℕ, ◌^◌, ◌≤◌, ◌<◌, ◌≡◌, ◌∙◌, arith, [], get_elem?, some, none, Option, ◌==◌, false, if◌then◌else◌,
}
use libfsxfs.Result.{Result, Error, ok, err, ◌>>=◌, Ensures_of_ok}
use libfsxfs.Word.{mul64, add64, shr, low_bits}
use libfsxfs.Array.{CdataArray, HasMemory}
use libfsxfs.Handle.{IoHandle, FileIoHandle}
use libfsxfs.InodeInformation.{InodeInformation}
use libfsxfs.InodeBtree.{get_inode_by_number, get_inode_from_node, node_fuel}
use libfsxfs.Superblock.{Superblock}
use libfsxfs.Volume.{io_handle_of, group_data_size, open_read}
use libfsxfs.Volume.Groups.{group_information, open_read-found, open_read-skips}

-- The search for an inode of the first group in the tree that an inode information names, and the
-- place that it gives.
abbrev pub search_first_group : IoHandle → FileIoHandle → InodeInformation → ℕ → Result (Option ℕ)
search_first_group io file info number = do
  found ← get_inode_from_node io file 0 node_fuel info.inode_btree_root_block_number number 0
  if found then ok (some (mul64 number io.inode_size)) else ok none

module _ (lib : CdataArray InodeInformation) (file : FileIoHandle) where
  open lib use {Array, entries, get_law}

  first_group-search :
      (io : IoHandle) (all : Array) (info : InodeInformation) (number : ℕ)
      → 0 < io.allocation_group_size
      → 0 < io.block_size
      → number < 2 ^ io.number_of_relative_inode_number_bits
      → get_elem? (entries all) 0 ≡ some info
      → get_inode_by_number lib all io file number ≡ search_first_group io file info number
  unfolding get_inode_by_number
  first_group-search io all info number group pos small at =
      let g : (io.allocation_group_size == 0) ≡ false = ground arith in
      let b : (io.block_size == 0) ≡ false = ground arith in
      let index : shr number io.number_of_relative_inode_number_bits ≡ 0 = div-eq_of_lt small in
      let relative : low_bits number io.number_of_relative_inode_number_bits ≡ number =
        mod-eq_of_lt small in
      let entry : lib.get_entry_by_index all 0 ≡ some info = get_law all 0 ∙ at in
      let start : mul64 0 io.allocation_group_size ≡ 0 = omega arith in
      let place : add64 (mul64 0 io.block_size) (mul64 number io.inode_size)
          ≡ mul64 number io.inode_size =
        omega arith in
      rw (g, b, index, relative, entry, start, place)

module _ (lib : CdataArray InodeInformation) (memory : HasMemory lib) (file : FileIoHandle) where
  open lib use {Array, entries}

  -- If a volume of at least two allocation groups was opened with an empty array where memory does
  -- not run out, the information of its first allocation group cannot be read, but that of the
  -- second can, then the latter is the array's first entry, and
  -- libfsxfs_inode_btree_get_inode_by_number searches for an inode of the first group in the inode
  -- B+ tree of the second: as if the tree's block were one of the first group, with the place that
  -- a match has in the first group, or the error of that search.
  pub open_read-skips_search :
      (information all : Array) (s : Superblock) (info : InodeInformation) (e : Error) (number : ℕ)
      → entries information ≡ []
      → open_read lib file information ≡ ok (s, all)
      → 2 ≤ s.number_of_allocation_groups
      → group_information s file 0 ≡ err e
      → group_information s file (group_data_size (io_handle_of s)) ≡ ok info
      → number < 2 ^ s.number_of_relative_inode_number_bits
      → (get_elem? (entries all) 0 ≡ some info)
        × (get_inode_by_number lib all (io_handle_of s) file number
            ≡ search_first_group (io_handle_of s) file info number)
  open_read-skips_search information all s info e number empty opened two bad good small =
      let v =
        Ensures_of_ok _ (open_read lib file information)
          (open_read-found lib memory file information) opened in
      let first =
        open_read-skips lib memory file information all s info e empty opened two bad good in
      (
        first,
        first_group-search lib file (io_handle_of s) all info number
            (omega (arith, v.0.group_size_bounds)) (omega (arith, v.0.block_size_bounds)) small
            first,
      )
