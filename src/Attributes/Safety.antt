-- ===== src/Attributes/Safety.antt =====
-- The attributes of an inode on any data.
use libfsxfs.Prelude.{
  none, ℕ, zero, suc, ◌+◌, ◌-◌, ◌*◌, ◌%◌, ◌≤◌, ◌<◌, ◌≡◌, arith, List, [], ltb, leb, ◌==◌, ◌||◌,
  ◌&&◌, bit_and, length, length-drop, take, drop,
}
use libfsxfs.Result.{
  Result, ok, Ensures, IsTotal, Ensures-bind, Ensures-if, Ensures-fail_if, or_fail, or_fail-IsTotal,
  value_out_of_bounds, get_failed, append_failed,
}
use libfsxfs.Word.{u16_mod, int64_max, sub64}
use libfsxfs.Bytes.{be_value}
use libfsxfs.Bytes.Laws.{slice_inside, read_uint8_inside, read_uint16_inside, read_uint32_inside}
use libfsxfs.Array.{CdataArray}
use libfsxfs.Handle.{IoHandle, FileIoHandle, read_buffer_at_offset}
use libfsxfs.Btree.{maximum_allocation_size}
use libfsxfs.Btree.Records.{read_buffer-length}
use libfsxfs.Extent.{Extent}
use libfsxfs.Extents.{end_block}
use libfsxfs.Inode.{Fork, get_number_of_extents, get_extent_by_index}
use libfsxfs.AttributesTable.{AttributeValues, name_prefix, read_name, read_value}
use libfsxfs.Attributes.{
  FileSystemBlock, block_header_size, read_file_system_block_data, read_file_system_block,
  leaf_header_size, branch_header_size, read_leaf_block_header, is_local, values_data_size,
  read_value_place, read_local_value, read_leaf_entry, read_leaf_entries, read_leaf_values,
  get_sub_blocks, read_branch_values, find_extent, find_attributes_extent,
}

name_prefix-IsTotal : (flags : ℕ) → IsTotal (name_prefix flags)
unfolding name_prefix
name_prefix-IsTotal flags =
    Ensures-if _ (bit_and flags 0x7e == 0) _ _ (λ _. tt)
      λ _.
        Ensures-if _ (bit_and flags 0x7e == 2) _ _ (λ _. tt)
          λ _. Ensures-if _ (bit_and flags 0x7e == 4) _ _ (λ _. tt) (λ _. tt)

read_name-IsTotal :
    (bytes : List ℕ) (offset size flags : ℕ)
    → offset + size ≤ length bytes
    → IsTotal (read_name bytes offset size flags)
unfolding read_name
read_name-IsTotal bytes offset size flags h =
    Ensures-if _ (size == 0) (ok []) _ (λ _. tt)
      λ _.
        Ensures-bind (λ _. Unit {0}) _ (name_prefix flags) _ (name_prefix-IsTotal flags)
          λ prefix _. rw (slice_inside bytes offset size h) tt

read_value-IsTotal :
    (bytes : List ℕ) (offset size : ℕ)
    → offset + size ≤ length bytes
    → IsTotal (read_value bytes offset size)
unfolding read_value
read_value-IsTotal bytes offset size h =
    Ensures-if _ (size == 0) (ok none) _ (λ _. tt) λ _. rw (slice_inside bytes offset size h) tt

read_value_place-IsTotal :
    (flags : ℕ) (bytes : List ℕ) (offset : ℕ)
    → offset + values_data_size flags ≤ length bytes
    → IsTotal (read_value_place flags bytes offset)
unfolding read_value_place
read_value_place-IsTotal flags bytes offset h =
    Ensures-if _ (is_local flags) _ _ (λ e. rw (read_uint16_inside bytes offset (ground arith)) tt)
      (λ e.
        rw
          (
            read_uint32_inside bytes offset (ground arith),
            read_uint32_inside bytes (offset + 4) (ground arith),
          )
          tt)

read_local_value-IsTotal :
    (flags : ℕ) (bytes : List ℕ) (size offset n : ℕ)
    → size ≤ length bytes
    → size ≤ int64_max
    → offset ≤ size
    → IsTotal (read_local_value flags bytes size offset n)
unfolding read_local_value
read_local_value-IsTotal flags bytes size offset n h m k =
    Ensures-if _ (is_local flags) _ (ok none)
      (λ _.
        Ensures-fail_if _ (ltb (sub64 size offset) n) value_out_of_bounds _
          λ g. read_value-IsTotal bytes offset n (ground arith))
      (λ _. tt)

values_data_size_bounds : (flags : ℕ) → (3 ≤ values_data_size flags) × (values_data_size flags ≤ 9)
values_data_size_bounds flags = ground arith

read_leaf_entry-IsTotal :
    (bytes : List ℕ) (size entries_end offset : ℕ)
    → size ≤ length bytes
    → size ≤ int64_max
    → offset + 8 ≤ size
    → IsTotal (read_leaf_entry bytes size entries_end offset)
unfolding read_leaf_entry
read_leaf_entry-IsTotal bytes size entries_end offset h m room =
    let any : AttributeValues → Type 0 = λ _. Unit {0} in
    let start = be_value (take 2 (drop (offset + 4) bytes)) in
    let flags = be_value (take 1 (drop (offset + 6) bytes)) in
    let v = values_data_size flags in
    let bounds = values_data_size_bounds flags in
    rw
      (
        read_uint16_inside bytes (offset + 4) (omega arith),
        read_uint8_inside bytes (offset + 6) (omega arith),
      )
      (Ensures-fail_if any (ltb start entries_end || leb size start) value_out_of_bounds _ λ f.
        let inside : start < size = ground arith in
        Ensures-fail_if any (ltb (sub64 size start) v) value_out_of_bounds _ λ g.
          let whole : start + v ≤ size = ground (arith, bounds) in
          let name_size = be_value (take 1 (drop (start + (v - 1)) bytes)) in
          rw (read_uint8_inside bytes (start + (v - 1)) (omega (arith, bounds))) (
            Ensures-fail_if any (ltb (sub64 (sub64 size start) v) name_size) value_out_of_bounds _
              λ k.
                let fits : start + v + name_size ≤ size = ground (arith, whole) in
                Ensures-bind (λ _. Unit {0}) any (read_value_place flags bytes start) _
                  (read_value_place-IsTotal flags bytes start (omega arith))
                  λ place _.
                    let name_offset = (start + v) % u16_mod in
                    Ensures-bind (λ _. Unit {0}) any (read_name bytes name_offset name_size flags) _
                      (read_name-IsTotal bytes name_offset name_size flags (omega arith))
                      λ name _.
                        Ensures-bind (λ _. Unit {0}) any
                          (read_local_value flags bytes size ((name_offset + name_size) % u16_mod)
                            place.1)
                          _
                          (read_local_value-IsTotal flags bytes size
                            ((name_offset + name_size) % u16_mod) place.1 h m (omega arith))
                          λ _ _. tt))

block_header_size_bounds :
    (io : IoHandle) → (12 ≤ block_header_size io) × (block_header_size io ≤ 56)
block_header_size_bounds io = ground arith

leaf_header_size_bounds : (io : IoHandle) → (20 ≤ leaf_header_size io) × (leaf_header_size io ≤ 24)
leaf_header_size_bounds io = ground arith

branch_header_size_bounds :
    (io : IoHandle) → (4 ≤ branch_header_size io) × (branch_header_size io ≤ 8)
branch_header_size_bounds io = ground arith

module _ (lib : CdataArray AttributeValues) (io : IoHandle) where
  open lib use {Array}

  read_leaf_entries-IsTotal :
      (n : ℕ) (bytes : List ℕ) (size entries_end offset : ℕ) (attributes : Array)
      → size ≤ length bytes
      → size ≤ int64_max
      → offset + 8 * n ≤ size
      → IsTotal (read_leaf_entries lib io n bytes size entries_end offset attributes)
  unfolding read_leaf_entries
  read_leaf_entries-IsTotal zero bytes size entries_end offset a h m room = tt
  read_leaf_entries-IsTotal (suc n) bytes size entries_end offset a h m room =
      let any : Array → Type 0 = λ _. Unit {0} in
      Ensures-bind (λ _. Unit {0}) any (read_leaf_entry bytes size entries_end offset) _
        (read_leaf_entry-IsTotal bytes size entries_end offset h m (omega arith))
        λ values _.
          Ensures-bind (λ _. Unit {0}) any (or_fail (lib.append_entry a values) append_failed) _
            (or_fail-IsTotal (lib.append_entry a values) append_failed)
            λ appended _.
              read_leaf_entries-IsTotal n bytes size entries_end (offset + 8) appended h m
                (omega arith)

  read_leaf_block_header-IsTotal :
      (bytes : List ℕ) (size : ℕ)
      → size ≤ length bytes
      → Ensures (λ _. leaf_header_size io ≤ size) (read_leaf_block_header io bytes size)
  unfolding read_leaf_block_header
  read_leaf_block_header-IsTotal bytes size h =
      let bounds = leaf_header_size_bounds io in
      Ensures-fail_if _ (ltb size (leaf_header_size io) || ltb int64_max size) value_out_of_bounds _
        λ g.
          let room : leaf_header_size io ≤ size = ground arith in
          rw (read_uint16_inside bytes 0 (omega (arith, bounds, room))) room

  pub read_leaf_values-IsTotal :
      (bytes : List ℕ) (size : ℕ) (attributes : Array)
      → size ≤ length bytes
      → size ≤ int64_max
      → IsTotal (read_leaf_values lib io bytes size attributes)
  unfolding read_leaf_values
  read_leaf_values-IsTotal bytes size a h m =
      let any : Array → Type 0 = λ _. Unit {0} in
      let b = block_header_size io in
      let bounds = block_header_size_bounds io in
      let offset = b + leaf_header_size io in
      Ensures-fail_if any (leb size b) value_out_of_bounds _ λ g.
        Ensures-bind (λ _. leaf_header_size io ≤ size - b) any
          (read_leaf_block_header io (drop b bytes) (size - b)) _
          (read_leaf_block_header-IsTotal (drop b bytes) (size - b)
            (omega (arith, length-drop b bytes)))
          λ n room.
            Ensures-fail_if any (ltb (sub64 size offset) (8 * n)) value_out_of_bounds _ λ fits.
              read_leaf_entries-IsTotal n bytes size (offset + 8 * n) offset a h m
                (ground (arith, room, bounds))

  get_sub_blocks-IsTotal :
      (get_block : ℕ → Array → Result Array) (n : ℕ) (bytes : List ℕ) (offset : ℕ)
      (attributes : Array)
      → ((k : ℕ) (before : Array) → IsTotal (get_block k before))
      → offset + 8 * n ≤ length bytes
      → IsTotal (get_sub_blocks lib io get_block n bytes offset attributes)
  unfolding get_sub_blocks
  get_sub_blocks-IsTotal get_block zero bytes offset a block h = tt
  get_sub_blocks-IsTotal get_block (suc n) bytes offset a block h =
      let k = be_value (take 4 (drop (offset + 4) bytes)) in
      rw (read_uint32_inside bytes (offset + 4) (omega arith)) (
        Ensures-bind (λ _. Unit {0}) (λ _. Unit {0}) (get_block k a) _ (block k a)
          λ extended _.
            get_sub_blocks-IsTotal get_block n bytes (offset + 8) extended block (omega arith))

  pub read_branch_values-IsTotal :
      (get_block : ℕ → Array → Result Array) (bytes : List ℕ) (size : ℕ) (attributes : Array)
      → ((k : ℕ) (before : Array) → IsTotal (get_block k before))
      → size ≤ length bytes
      → size ≤ int64_max
      → IsTotal (read_branch_values lib io get_block bytes size attributes)
  unfolding read_branch_values
  read_branch_values-IsTotal get_block bytes size a block h m =
      let any : Array → Type 0 = λ _. Unit {0} in
      let b = block_header_size io in
      let c = branch_header_size io in
      let bounds = block_header_size_bounds io in
      let bounds' = branch_header_size_bounds io in
      let n = be_value (take 2 (drop b bytes)) in
      Ensures-fail_if any (leb size b || ltb (sub64 size b) c) value_out_of_bounds _ λ g.
        let room : b + c ≤ size = ground (arith, bounds, bounds') in
        rw (read_uint16_inside bytes b (omega (arith, room, bounds'))) (
          Ensures-fail_if any (ltb (sub64 size (b + c)) (8 * n)) value_out_of_bounds _
            λ fits. get_sub_blocks-IsTotal get_block n bytes (b + c) a block (ground (arith, room)))

-- The data of a block that was read.
abbrev pub HasBlockData : FileSystemBlock → Type 0
HasBlockData b = (b.block_data_size ≤ length b.block_data) × (b.block_data_size ≤ int64_max)

pub read_file_system_block-HasBlockData :
    (io : IoHandle) (file : FileIoHandle) (offset : ℕ)
    → Ensures HasBlockData (read_file_system_block io file offset)
unfolding read_file_system_block read_file_system_block_data
read_file_system_block-HasBlockData io file offset =
    let P = HasBlockData in
    let n = io.block_size in
    let bounds = block_header_size_bounds io in
    Ensures-fail_if P (n == 0 || ltb maximum_allocation_size n) value_out_of_bounds _ λ _.
      Ensures-bind (λ buffer. length buffer ≡ n) P (read_buffer_at_offset file n offset) _
        (read_buffer-length file n offset)
        λ buffer e.
          Ensures-fail_if P (ltb n (block_header_size io) || ltb int64_max n) value_out_of_bounds _
            λ g.
              let room : 12 ≤ n = ground (arith, bounds) in
              rw (read_uint16_inside buffer 8 (omega (arith, e, room)))
                (omega (arith, e), ground arith)

module _ (extents_lib : CdataArray Extent) (fork : Fork (CdataArray.Array extents_lib)) where
  get_extent_by_index-IsTotal : (i : ℕ) → IsTotal (get_extent_by_index extents_lib fork i)
  unfolding get_extent_by_index
  get_extent_by_index-IsTotal i =
      Ensures-bind (λ _. Unit {0}) (λ _. Unit {0}) (or_fail fork.extents_array get_failed) _
        (or_fail-IsTotal fork.extents_array get_failed)
        λ extents _. or_fail-IsTotal (extents_lib.get_entry_by_index extents i) get_failed

  find_extent-IsTotal :
      (block_number n i : ℕ) → IsTotal (find_extent extents_lib fork block_number n i)
  unfolding find_extent
  find_extent-IsTotal k zero i = tt
  find_extent-IsTotal k (suc n) i =
      Ensures-bind (λ _. Unit {0}) (λ _. Unit {0}) (get_extent_by_index extents_lib fork i) _
        (get_extent_by_index-IsTotal i)
        λ e _.
          Ensures-if _ (leb e.logical_block_number k && ltb k (end_block e)) _ _ (λ _. tt)
            (λ _. find_extent-IsTotal k n (i + 1))

  pub find_attributes_extent-IsTotal :
      (block_number : ℕ) → IsTotal (find_attributes_extent extents_lib fork block_number)
  unfolding find_attributes_extent get_number_of_extents
  find_attributes_extent-IsTotal k =
      Ensures-bind (λ _. Unit {0}) (λ _. Unit {0}) (get_number_of_extents extents_lib fork) _
        (Ensures-bind (λ _. Unit {0}) (λ _. Unit {0}) (or_fail fork.extents_array get_failed) _
          (or_fail-IsTotal fork.extents_array get_failed) λ _ _. tt)
        λ n _.
          Ensures-bind (λ _. Unit {0}) (λ _. Unit {0}) (find_extent extents_lib fork k n 0) _
            (find_extent-IsTotal k n 0) λ found _. or_fail-IsTotal found value_out_of_bounds
