-- ===== src/Inode/Read.antt =====
-- The reading of an inode from a file: its data fork and its attributes fork, on any data.
use mathlib.Core.Path.{subst}
use libfsxfs.Prelude.{
  ℕ, ◌≤◌, ◌≡◌, arith, Bool, false, List, ltb, ◌==◌, ◌&&◌, not, length, length-drop, drop, none,
  some, refl, ◌⊎◌,
}
use libfsxfs.Result.{
  Ensures, Ensures-bind, Ensures-fail_if, Ensures-if, Ensures-mono, value_out_of_bounds,
  initialize_failed, or_fail, or_fail-IsTotal,
}
use libfsxfs.Bytes.Laws.{read_uint32_inside}
use libfsxfs.Array.{CdataArray}
use libfsxfs.Handle.{IoHandle, FileIoHandle, read_buffer_at_offset}
use libfsxfs.Btree.Records.{read_buffer-length}
use libfsxfs.Extent.{Extent}
use libfsxfs.Extents
use libfsxfs.Extents.{LastExtent, end_of_last, sparse_extent, grow_last, needs_sparse}
use libfsxfs.Extents.Fill.{read_data-Extends}
use libfsxfs.ExtentBtree.{get_extents_from_root_node, initial_maximum_depth}
use libfsxfs.Inode.{
  InodeFields, Inode, Fork, fork_type_device, fork_type_inline_data, fork_type_extents,
  fork_type_btree, read_data, no_fork, inline_fork, extents_fork, read_extents_fork,
  read_btree_fork, read_data_fork, read_attributes_fork, read_file_io_handle, is_inode_size,
}
use libfsxfs.Extents.Safety.{append_tail-IsTotal}
use libfsxfs.ExtentBtree.Leaves.{root_node-leaves}
use libfsxfs.Inode.Forks.{IsReadInode, read_data-IsReadInode}

module _ (lib : CdataArray Extent) where
  open lib use {Array, entries, get_number_of_entries, append_entry}

  -- The fork has an array of extents.
  abbrev pub HasExtents : Fork Array → Type 0
  HasExtents fork = (extents : Array) × (fork ≡ extents_fork lib extents)

  read_extents_fork-HasExtents :
      (bytes : List ℕ) (size number_of_blocks n : ℕ) (add_sparse : Bool)
      → size ≤ length bytes
      → Ensures HasExtents (read_extents_fork lib bytes size number_of_blocks n add_sparse)
  unfolding read_extents_fork Extents.read_list
  read_extents_fork-HasExtents bytes size number_of_blocks n add_sparse h =
      Ensures-bind (λ _. Unit {0}) HasExtents (or_fail lib.initialize initialize_failed) _
        (or_fail-IsTotal lib.initialize initialize_failed)
        λ empty _.
          Ensures-bind (λ _. Unit {0}) HasExtents
            (Extents.read_list lib empty number_of_blocks n bytes size add_sparse) _
            (Ensures-bind _ (λ _. Unit {0}) (Extents.read_data lib empty n bytes size add_sparse) _
              (read_data-Extends lib empty n bytes size add_sparse h)
              λ filled _. append_tail-IsTotal lib filled number_of_blocks add_sparse)
            λ extents _. (extents, refl)

  module _ (io : IoHandle) (file : FileIoHandle) where
    read_btree_fork-HasExtents :
        (bytes : List ℕ) (size number_of_blocks : ℕ) (add_sparse : Bool)
        → size ≤ length bytes
        → Ensures HasExtents (read_btree_fork lib io file bytes size number_of_blocks add_sparse)
    unfolding read_btree_fork
    read_btree_fork-HasExtents bytes size number_of_blocks add_sparse h =
        Ensures-bind (λ _. Unit {0}) HasExtents (or_fail lib.initialize initialize_failed) _
          (or_fail-IsTotal lib.initialize initialize_failed)
          λ empty _.
            Ensures-bind (λ _. Unit {0}) HasExtents
              (get_extents_from_root_node lib io file initial_maximum_depth number_of_blocks bytes
                size add_sparse empty)
              _
              (Ensures-mono _ (λ _. Unit {0})
                (get_extents_from_root_node lib io file initial_maximum_depth number_of_blocks bytes
                  size add_sparse empty)
                (root_node-leaves lib io file number_of_blocks bytes size add_sparse empty h)
                λ _ _. tt)
              λ extents _. (extents, refl)

    -- What the data fork has by its type: the data in the inode, or an array of extents.
    abbrev pub HasData : InodeFields → Fork Array → Type 0
    HasData inode fork =
        (inode.fork_type ≡ fork_type_inline_data
          → (bytes : List ℕ) × (fork.inline_data ≡ some bytes) × (inode.size ≤ length bytes))
        × ((inode.fork_type ≡ fork_type_extents) ⊎ (inode.fork_type ≡ fork_type_btree)
            → HasExtents fork)

    inline_HasData :
        (inode : InodeFields) (bytes : List ℕ)
        → inode.fork_type ≡ fork_type_inline_data
        → inode.size ≤ length bytes
        → HasData inode (inline_fork lib bytes)
    inline_HasData inode bytes e h = ((λ _. (bytes, refl, h)), λ t. absurd (ground arith))

    extents_HasData :
        (inode : InodeFields) (fork : Fork Array)
        → (inode.fork_type == fork_type_inline_data) ≡ false
        → HasExtents fork
        → HasData inode fork
    extents_HasData inode fork e h = ((λ t. absurd (ground arith)), λ _. h)

    other_HasData :
        (inode : InodeFields) (fork : Fork Array)
        → (inode.fork_type == fork_type_inline_data) ≡ false
        → (inode.fork_type == fork_type_extents) ≡ false
        → (inode.fork_type == fork_type_btree) ≡ false
        → HasData inode fork
    other_HasData inode fork e f g = ((λ t. absurd (ground arith)), λ t. absurd (ground arith))

    read_data_fork-HasData :
        (inode : InodeFields) (data_bytes : List ℕ)
        → 256 ≤ length data_bytes
        → IsReadInode (length data_bytes) inode
        → Ensures (λ r. HasData inode r.1) (read_data_fork lib io file inode data_bytes)
    unfolding read_data_fork
    read_data_fork-HasData inode bytes low (p, q) =
        let P : ℕ × Fork Array → Type 0 = λ r. HasData inode r.1 in
        let part = drop inode.data_fork_offset bytes in
        let len = length-drop inode.data_fork_offset bytes in
        Ensures-if P (inode.fork_type == fork_type_device) _ _
          (λ e.
            rw (read_uint32_inside part 0 (ground (arith, len, p)))
              (other_HasData inode (no_fork lib) (ground arith) (ground arith) (ground arith)))
          λ _.
            Ensures-if P (inode.fork_type == fork_type_inline_data) _ _
              (λ e.
                inline_HasData inode part (ground arith) (ground (arith, len, p, q (ground arith))))
              λ not_inline.
                let inside : inode.data_fork_size ≤ length part = omega (arith, len, p.2) in
                Ensures-if P (inode.fork_type == fork_type_extents) _ _
                  (λ _.
                    Ensures-bind HasExtents P
                      (read_extents_fork lib part inode.data_fork_size _
                        inode.number_of_data_extents _)
                      _
                      (read_extents_fork-HasExtents part inode.data_fork_size _
                        inode.number_of_data_extents _ inside)
                      λ fork h. extents_HasData inode fork not_inline h)
                  λ not_extents.
                    Ensures-if P (inode.fork_type == fork_type_btree) _ _
                      (λ _.
                        Ensures-bind HasExtents P
                          (read_btree_fork lib io file part inode.data_fork_size _ _) _
                          (read_btree_fork-HasExtents part inode.data_fork_size _ _ inside)
                          λ fork h. extents_HasData inode fork not_inline h)
                      (λ not_btree.
                        other_HasData inode (no_fork lib) not_inline not_extents not_btree)

    -- An attributes fork that is read in the inode has the bytes that the inode says.
    abbrev pub HasAttributes : InodeFields → Fork Array → Type 0
    HasAttributes inode fork =
        (bytes : List ℕ) → fork.inline_data ≡ some bytes → inode.attributes_fork_size ≤ length bytes

    extents_HasAttributes :
        (inode : InodeFields) (fork : Fork Array) → HasExtents fork → HasAttributes inode fork
    extents_HasAttributes inode fork (extents, e) bytes h =
        let x : none ≡ some bytes = rw e at h in absurd (let y : ⊥ = cc in y)

    inline_HasAttributes :
        (inode : InodeFields) (bytes : List ℕ)
        → inode.attributes_fork_size ≤ length bytes
        → HasAttributes inode (inline_fork lib bytes)
    inline_HasAttributes inode part h bytes e =
        let x : part ≡ bytes = cc in
        subst (λ (y : List ℕ). inode.attributes_fork_size ≤ length y) x h

    no_HasAttributes : (inode : InodeFields) → HasAttributes inode (no_fork lib)
    no_HasAttributes inode bytes e = absurd (let x : ⊥ = cc in x)

    read_attributes_fork-HasAttributes :
        (inode : InodeFields) (data_bytes : List ℕ)
        → IsReadInode (length data_bytes) inode
        → Ensures (HasAttributes inode) (read_attributes_fork lib io file inode data_bytes)
    unfolding read_attributes_fork
    read_attributes_fork-HasAttributes inode bytes (p, q) =
        let P = HasAttributes inode in
        let n = inode.attributes_fork_size in
        let m = inode.number_of_attributes_extents in
        let part = drop inode.attributes_fork_offset bytes in
        let inside : n ≤ length part =
          omega (arith, length-drop inode.attributes_fork_offset bytes, p.3) in
        Ensures-if P (n == 0) _ _ (λ _. no_HasAttributes inode)
          λ _.
            Ensures-if P (inode.attributes_fork_type == fork_type_inline_data) _ _
              (λ _. inline_HasAttributes inode part inside)
              λ _.
                Ensures-if P (inode.attributes_fork_type == fork_type_extents && ltb 0 m) _ _
                  (λ _.
                    Ensures-mono HasExtents P _
                      (read_extents_fork-HasExtents part n _ m false inside)
                      (extents_HasAttributes inode))
                  λ _.
                    Ensures-if P (inode.attributes_fork_type == fork_type_btree) _ _
                      (λ _.
                        Ensures-mono HasExtents P _
                          (read_btree_fork-HasExtents part n _ false inside)
                          (extents_HasAttributes inode))
                      (λ _. no_HasAttributes inode)

    -- What the reader promises of an inode of `inode_size` bytes.
    abbrev pub IsInode : ℕ → Inode lib → Type 0
    IsInode inode_size inode =
        IsReadInode inode_size inode.fields
        × HasData inode.fields inode.data_fork
        × HasAttributes inode.fields inode.attributes_fork

    -- Reading an inode ends inside its buffers, whatever the file has. If it succeeds, the forks
    -- stand in the inode one behind the other, a data fork or an attributes fork in the inode has
    -- all the bytes that its size says, and a data fork of extents or of a B+ tree has an array of
    -- extents.
    pub read_file_io_handle-IsInode :
        (inode_size file_offset : ℕ)
        → Ensures (IsInode inode_size) (read_file_io_handle lib io file inode_size file_offset)
    unfolding read_file_io_handle is_inode_size
    read_file_io_handle-IsInode n offset =
        let P = IsInode n in
        Ensures-fail_if P (not (is_inode_size n)) value_out_of_bounds _ λ g.
          let bounds : (256 ≤ n) × (n ≤ 2048) = (ground arith, ground arith) in
          Ensures-fail_if P (io.block_size == 0) value_out_of_bounds _ λ _.
            Ensures-bind (λ buffer. length buffer ≡ n) P (read_buffer_at_offset file n offset) _
              (read_buffer-length file n offset)
              λ buffer e.
                Ensures-bind (IsReadInode n) P (read_data buffer n) _
                  (read_data-IsReadInode buffer n (omega (arith, e)) bounds.1)
                  λ inode r.
                    let whole : IsReadInode (length buffer) inode = rw e r in
                    Ensures-bind (λ (x : ℕ × Fork Array). HasData inode x.1) P
                      (read_data_fork lib io file inode buffer) _
                      (read_data_fork-HasData inode buffer (omega (arith, e, bounds.0)) whole)
                      λ (device, data_fork) h.
                        Ensures-bind (HasAttributes inode) P
                          (read_attributes_fork lib io file inode buffer) _
                          (read_attributes_fork-HasAttributes inode buffer whole)
                          λ attributes_fork k. (r, h, k)
