-- ===== src/FileSystem/Inodes.antt =====
-- An inode by its number, on any data.
use libfsxfs.Prelude.{ℕ, ◌%◌, arith, leb, ltb, ◌==◌, ◌||◌, not, Option, none, some}
use libfsxfs.Result.{
  ok, Ensures, IsTotal, Ensures-bind, Ensures-if, Ensures-fail_if, or_fail, or_fail-IsTotal,
  get_failed, value_out_of_bounds,
}
use libfsxfs.Word.{u32_mod, shr, low_bits, mul64}
use libfsxfs.Array.{CdataArray}
use libfsxfs.Handle.{IoHandle, FileIoHandle}
use libfsxfs.InodeInformation.{InodeInformation}
use libfsxfs.InodeBtree
use libfsxfs.InodeBtree.{node_fuel, get_inode_from_node}
use libfsxfs.InodeBtree.Safety.{node-IsTotal}
use libfsxfs.Inode
use libfsxfs.Inode.{Inode}
use libfsxfs.Inode.Read.{IsInode, read_file_io_handle-IsInode}
use libfsxfs.FileSystem.{Libraries, FileSystem, read_found, get_inode_by_number}

inode_number-IsTotal :
    (lib : CdataArray InodeInformation) (informations : CdataArray.Array lib) (io : IoHandle)
    (file : FileIoHandle) (number : ℕ)
    → IsTotal (InodeBtree.get_inode_by_number lib informations io file number)
unfolding InodeBtree.get_inode_by_number
inode_number-IsTotal lib informations io file number =
    let any : Option ℕ → Type 0 = λ _. Unit {0} in
    let bits = io.number_of_relative_inode_number_bits in
    let index = shr number bits % u32_mod in
    let relative = low_bits number bits in
    let group = mul64 index io.allocation_group_size in
    Ensures-fail_if any (io.allocation_group_size == 0) value_out_of_bounds _ λ _.
      Ensures-fail_if any (io.block_size == 0) value_out_of_bounds _ λ _.
        Ensures-fail_if any (leb 2147483648 index) get_failed _ λ _.
          Ensures-bind (λ _. Unit {0}) any
            (or_fail (lib.get_entry_by_index informations index) get_failed) _
            (or_fail-IsTotal (lib.get_entry_by_index informations index) get_failed)
            λ information _.
              Ensures-bind (λ _. Unit {0}) any
                (get_inode_from_node io file group node_fuel
                  information.inode_btree_root_block_number relative 0)
                _
                (node-IsTotal io file group node_fuel information.inode_btree_root_block_number
                  relative 0 (omega arith) (omega arith))
                λ found _. Ensures-if any found _ (ok none) (λ _. tt) (λ _. tt)

-- What a search that gave an inode promises of it.
abbrev pub IsFound :
    (libs : Libraries) → IoHandle → FileIoHandle → Option (Inode libs.extents) → Type 0
IsFound libs io file none = Unit {0}
IsFound libs io file (some inode) = IsInode libs.extents io file io.inode_size inode

module _ (libs : Libraries) (file_system : FileSystem libs) (io : IoHandle)
    (file : FileIoHandle) where
  read_found-IsFound :
      (o : Option ℕ) → Ensures (IsFound libs io file) (read_found libs file_system io file o)
  unfolding read_found
  read_found-IsFound none = tt
  read_found-IsFound (some offset) =
      Ensures-bind (IsInode libs.extents io file io.inode_size) (IsFound libs io file)
        (Inode.read_file_io_handle libs.extents io file io.inode_size offset) _
        (read_file_io_handle-IsInode libs.extents io file io.inode_size offset) λ inode k. k

  -- The search for an inode by its number ends inside its buffers, whatever the volume has, with an
  -- error, with no inode, or with one whose forks stand in it as its sizes say.
  pub get_inode_by_number-IsFound :
      (inode_number : ℕ)
      → Ensures (IsFound libs io file) (get_inode_by_number libs file_system io file inode_number)
  unfolding get_inode_by_number
  get_inode_by_number-IsFound number =
      let P = IsFound libs io file in
      Ensures-fail_if P (io.inode_size == 0) value_out_of_bounds _ λ _.
        Ensures-fail_if P (number == 0 || not (ltb number u32_mod)) value_out_of_bounds _ λ _.
          Ensures-bind (λ _. Unit {0}) P
            (InodeBtree.get_inode_by_number libs.informations file_system.inode_information_array io
              file number)
            _
            (inode_number-IsTotal libs.informations file_system.inode_information_array io file
              number)
            λ o _. read_found-IsFound o
