-- ===== src/Inode/Forks.antt =====
-- The forks of an inode that libfsxfs_inode_read_data takes from its header, and the reading of
-- an inode from a file.
use libfsxfs.Prelude.{
  get_elem?, some, ℕ, ◌+◌, ◌%◌, ◌≤◌, ◌<◌, ◌≡◌, arith, Bool, true, false, List, [], ◌∷◌, ltb, leb,
  ◌==◌, ◌||◌, ◌&&◌, not, length, drop, take, refl,
}
use libfsxfs.Result.{
  ok, Ensures, IsTotal, Ensures-bind, Ensures-fail_if, Ensures-if, value_out_of_bounds,
  unsupported_value,
}
use libfsxfs.Word.{int64_max, sub64, u16_mod}
use libfsxfs.Bytes.{be_value, same_bytes}
use libfsxfs.Bytes.Laws.{
  slice_inside, read_uint8_inside, read_uint16_inside, read_uint32_inside, read_uint64_inside,
}
use libfsxfs.Array.{CdataArray}
use libfsxfs.Extent.{Extent}
use libfsxfs.Inode.{
  Fork, get_number_of_extents, get_extent_by_index, InodeFields, read_timestamp, inode_data_size,
  read_number_of_links, read_creation_time, set_forks, read_data, fork_type_inline_data,
  is_positive, is_nonzero,
}

-- The forks stand inside the inode, none of them over another, and the data in the inode fits its
-- fork.
abbrev pub HasForks : ℕ → InodeFields → Type 0
HasForks data_size inode =
    (100 ≤ inode.data_fork_offset)
    × (inode.data_fork_offset ≤ 176)
    × (inode.data_fork_offset + inode.data_fork_size ≤ data_size)
    × (inode.attributes_fork_offset + inode.attributes_fork_size ≤ data_size)
    × (0 < inode.attributes_fork_size
        → inode.data_fork_offset + inode.data_fork_size ≤ inode.attributes_fork_offset)

-- What the code computes for a header of `h` bytes, on sizes with no wrap-around.
abbrev AreForks : ℕ → ℕ → ℕ → ℕ → ℕ → Type 0
AreForks n data_offset data_size attributes_offset attributes_size =
    (100 ≤ data_offset)
    × (data_offset ≤ 176)
    × (data_offset + data_size ≤ n)
    × (attributes_offset + attributes_size ≤ n)
    × (0 < attributes_size → data_offset + data_size ≤ attributes_offset)

two_forks :
    (h n offset : ℕ)
    → 100 ≤ h
    → h ≤ 176
    → h ≤ n
    → n ≤ 2048
    → leb (sub64 n h) offset ≡ false
    → AreForks n
        (h % u16_mod)
        (offset % u16_mod)
        ((offset + h) % u16_mod)
        (sub64 n ((offset + h) % u16_mod) % u16_mod)
two_forks h n offset a d b c g =
    (ground arith, ground arith, ground arith, ground arith, λ _. ground arith)

one_fork :
    (h n : ℕ)
    → 100 ≤ h
    → h ≤ 176
    → h ≤ n
    → n ≤ 2048
    → (100 ≤ h % u16_mod) × (h % u16_mod ≤ 176) × (h % u16_mod + sub64 n h % u16_mod ≤ n)
one_fork h n a d b c = (ground arith, ground arith, ground arith)

set_forks-HasForks :
    (h data_size : ℕ) (inode : InodeFields)
    → 100 ≤ h
    → h ≤ 176
    → h ≤ data_size
    → data_size ≤ 2048
    → inode.attributes_fork_size ≡ 0
    → Ensures (HasForks data_size) (set_forks h data_size inode)
unfolding set_forks
set_forks-HasForks h n inode a d b c z =
    let offset = inode.attributes_fork_offset in
    Ensures-if (HasForks n) (ltb 0 offset) _ _
      (λ _.
        Ensures-fail_if (HasForks n) (leb (sub64 n h) offset) value_out_of_bounds _
          λ g. two_forks h n offset a d b c g)
      (λ g.
        let one = one_fork h n a d b c in
        (one.0, one.1, one.2, ground arith, λ k. absurd (omega arith)))

read_timestamp-IsTotal :
    (is_above : ℕ → Bool) (data_bytes : List ℕ) (offset : ℕ)
    → offset + 8 ≤ length data_bytes
    → IsTotal (read_timestamp is_above data_bytes offset)
unfolding read_timestamp
read_timestamp-IsTotal is_above bs offset h =
    rw
      (read_uint32_inside bs offset (omega arith), read_uint32_inside bs (offset + 4) (omega arith))
      tt

read_number_of_links-IsTotal :
    (v : ℕ) (data_bytes : List ℕ)
    → 20 ≤ length data_bytes
    → IsTotal (read_number_of_links v data_bytes)
unfolding read_number_of_links
read_number_of_links-IsTotal v bs h =
    Ensures-if _ (v == 1) _ _ (λ _. rw (read_uint16_inside bs 6 (omega arith)) tt)
      (λ _. rw (read_uint32_inside bs 16 (omega arith)) tt)

read_creation_time-IsTotal :
    (v : ℕ) (data_bytes : List ℕ)
    → ((v == 3) ≡ true → 152 ≤ length data_bytes)
    → IsTotal (read_creation_time v data_bytes)
unfolding read_creation_time
read_creation_time-IsTotal v bs h =
    Ensures-if _ (v == 3) _ _ (λ e. read_timestamp-IsTotal is_positive bs 144 (omega (arith, h e)))
      (λ _. tt)

-- The forks, and data in the inode that fits its fork.
abbrev pub IsReadInode : ℕ → InodeFields → Type 0
IsReadInode data_size inode =
    HasForks data_size inode
    × (inode.fork_type ≡ fork_type_inline_data → inode.size ≤ inode.data_fork_size)

pub read_data-IsReadInode :
    (data_bytes : List ℕ) (data_size : ℕ)
    → data_size ≤ length data_bytes
    → data_size ≤ 2048
    → Ensures (IsReadInode data_size) (read_data data_bytes data_size)
unfolding read_data
read_data-IsReadInode bs n h c =
    let P = IsReadInode n in
    Ensures-fail_if P (ltb n 100 || ltb int64_max n) value_out_of_bounds _ λ g.
      let low : 100 ≤ n = ground arith in
      let v = be_value (take 1 (drop 4 bs)) in
      rw (read_uint8_inside bs 4 (omega arith)) (
        Ensures-fail_if P (v == 3 && ltb n 176) value_out_of_bounds _ λ room.
          rw (slice_inside bs 0 2 (omega arith)) (
            Ensures-fail_if P (not (same_bytes (take 2 (drop 0 bs)) (b'I' ∷ b'N' ∷ [])))
              unsupported_value _
              λ _.
                rw (read_uint16_inside bs 2 (omega arith), read_uint8_inside bs 5 (omega arith))
                  (Ensures-bind (λ _. Unit {0}) P (read_number_of_links v bs) _
                    (read_number_of_links-IsTotal v bs (omega arith))
                    λ links _.
                      rw
                        (
                          read_uint32_inside bs 8 (omega arith),
                          read_uint32_inside bs 12 (omega arith),
                        )
                        (Ensures-bind (λ _. Unit {0}) P (read_timestamp is_nonzero bs 32) _
                          (read_timestamp-IsTotal is_nonzero bs 32 (omega arith))
                          λ atime _.
                            Ensures-bind (λ _. Unit {0}) P (read_timestamp is_positive bs 40) _
                              (read_timestamp-IsTotal is_positive bs 40 (omega arith))
                              λ mtime _.
                                Ensures-bind (λ _. Unit {0}) P (read_timestamp is_positive bs 48) _
                                  (read_timestamp-IsTotal is_positive bs 48 (omega arith))
                                  λ ctime _.
                                    rw
                                      (
                                        read_uint64_inside bs 56 (omega arith),
                                        read_uint32_inside bs 76 (omega arith),
                                        read_uint16_inside bs 80 (omega arith),
                                        read_uint8_inside bs 82 (omega arith),
                                        read_uint8_inside bs 83 (omega arith),
                                      )
                                      (Ensures-fail_if P
                                        (not (v == 1) && (not (v == 2) && not (v == 3)))
                                        unsupported_value _
                                        λ _.
                                          Ensures-bind (λ _. Unit {0}) P (read_creation_time v bs) _
                                            (read_creation_time-IsTotal v bs λ e. ground arith)
                                            λ btime _.
                                              Ensures-bind (HasForks n) P
                                                (set_forks (inode_data_size v) n _) _
                                                (set_forks-HasForks (inode_data_size v) n _
                                                  (ground arith) (ground arith) (ground arith) c
                                                  refl)
                                                λ inode f.
                                                  Ensures-fail_if P
                                                    (inode.fork_type == fork_type_inline_data
                                                      && ltb inode.data_fork_size inode.size)
                                                    value_out_of_bounds _
                                                    λ fits. (f, λ e. ground arith))))))

module _ (lib : CdataArray Extent) (fork : Fork (CdataArray.Array lib))
    (extents : CdataArray.Array lib) where
  pub number_of_extents_of :
      fork.extents_array ≡ some extents
      → get_number_of_extents lib fork ≡ ok (lib.get_number_of_entries extents)
  unfolding get_number_of_extents
  number_of_extents_of e = rw e

  pub extent_by_index_of :
      (i : ℕ) (x : Extent)
      → fork.extents_array ≡ some extents
      → get_elem? (lib.entries extents) i ≡ some x
      → get_extent_by_index lib fork i ≡ ok x
  unfolding get_extent_by_index
  extent_by_index_of i x e h = rw (e, lib.get_law extents i, h)
