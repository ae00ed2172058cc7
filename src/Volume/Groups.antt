-- ===== src/Volume/Groups.antt =====
-- The inode information that a volume has after it was opened.
use mathlib.Core.Path.{subst}
use libfsxfs.Prelude.{
  ℕ, zero, suc, ◌+◌, ◌-◌, ◌*◌, ◌≤◌, ◌<◌, ◌≡◌, refl, sym, ◌∙◌, arith, List, [], ◌∷◌, ◌++◌, length,
  ◌==◌, ltb, leb, ◌||◌, not, if◌then◌else◌, append_assoc, append-nil, get_elem?, some, take, drop,
}
use libfsxfs.Result.{
  Result, Error, ok, err, fault, exhausted, Ensures, IsTotal, Ensures-bind, Ensures-fail_if,
  Ensures_of_ok, Ensures-mono, or_fail, append_failed, ◌>>=◌, value_out_of_bounds,
  unsupported_value,
}
use libfsxfs.Word.{int64_max}
use libfsxfs.Bytes.{be_value, same_bytes}
use libfsxfs.Bytes.Laws.{slice_inside, read_uint32_inside}
use libfsxfs.Array.{CdataArray, HasMemory}
use libfsxfs.Handle.{IoHandle, FileIoHandle, read_buffer_at_offset}
use libfsxfs.Btree.Records.{read_buffer-length}
use libfsxfs.InodeInformation
use libfsxfs.InodeInformation.{InodeInformation}
use libfsxfs.InodeBtree
use libfsxfs.Superblock
use libfsxfs.Superblock.{Superblock}
use libfsxfs.Superblock.Supported.{IsSupported, superblock_read-IsSupported}
use libfsxfs.Volume.{
  io_handle_of, group_data_size, information_offset, read_information, read_group, read_groups,
  open_read, keep_on_error,
}

information-IsTotal :
    (io : IoHandle) (data_bytes : List ℕ) (size : ℕ)
    → size ≤ length data_bytes
    → IsTotal (InodeInformation.read_data io data_bytes size)
unfolding InodeInformation.read_data
information-IsTotal io data_bytes size h =
    let needed : ℕ = if leb 5 io.format_version then 80 else 40 in
    Ensures-fail_if _ (ltb size needed || ltb int64_max size) value_out_of_bounds _ λ g.
      let enough : 40 ≤ length data_bytes = ground arith in
      rw
        (
          slice_inside data_bytes 0 4 (omega arith),
          read_uint32_inside data_bytes 4 (omega arith),
          read_uint32_inside data_bytes 20 (omega arith),
          read_uint32_inside data_bytes 24 (omega arith),
          read_uint32_inside data_bytes 32 (omega arith),
        )
        (Ensures-fail_if _
          (not (same_bytes (take 4 (drop 0 data_bytes)) (b'X' ∷ b'A' ∷ b'G' ∷ b'I' ∷ [])))
          unsupported_value _
          λ _.
            Ensures-fail_if _ (not (be_value (take 4 (drop 4 data_bytes)) == 1)) unsupported_value _
              λ _. tt)

information_file-IsTotal :
    (io : IoHandle) (file : FileIoHandle) (offset : ℕ)
    → IsTotal (InodeInformation.read_file_io_handle io file offset)
unfolding InodeInformation.read_file_io_handle
information_file-IsTotal io file offset =
    Ensures-bind (λ b. length b ≡ 512) _ (read_buffer_at_offset file 512 offset) _
      (read_buffer-length file 512 offset)
      λ buffer whole. information-IsTotal io buffer 512 (omega (arith, whole))

-- The information of the group at an offset.
abbrev pub group_information : Superblock → FileIoHandle → ℕ → Result InodeInformation
group_information s file offset =
    InodeInformation.read_file_io_handle (io_handle_of s) file (information_offset s offset)

abbrev pub found : Result InodeInformation → List InodeInformation
found (ok info) = info ∷ []
found (err e) = []
found fault = []
found exhausted = []

-- The information of `n` groups from an offset on, without those that cannot be read.
abbrev pub found_groups : Superblock → FileIoHandle → ℕ → ℕ → List InodeInformation
found_groups s file zero offset = []
found_groups s file (suc n) offset =
    found (group_information s file offset)
    ++ found_groups s file n (offset + group_data_size (io_handle_of s))

-- Where the groups before one can be read too, its information has its place.
found_groups-get :
    (s : Superblock) (file : FileIoHandle) (i n offset : ℕ) (info : InodeInformation)
    → i < n
    → ((j : ℕ)
        → j < i
        → (x : InodeInformation) × (group_information s file
              (offset + j * group_data_size (io_handle_of s))
            ≡ ok x))
    → group_information s file (offset + i * group_data_size (io_handle_of s)) ≡ ok info
    → get_elem? (found_groups s file n offset) i ≡ some info
found_groups-get s file i zero offset info l before here = absurd (omega arith)
found_groups-get s file zero (suc n) offset info l before here =
    let start : offset + 0 * group_data_size (io_handle_of s) ≡ offset = omega arith in
    rw (rw start at here) refl
found_groups-get s file (suc i) (suc n) offset info l before here =
    let size = group_data_size (io_handle_of s) in
    let start : offset + 0 * size ≡ offset = omega arith in
    let (x, first) = before 0 (omega arith) in
    rw (rw start at first) (
      found_groups-get s file i n (offset + size) info (omega arith)
        (λ j k.
          let (y, read) = before (suc j) (omega arith) in
          let shift : offset + suc j * size ≡ offset + size + j * size = grind arith in
          (y, rw (← shift) read))
        (let shift : offset + suc i * size ≡ offset + size + i * size = grind arith in
          rw (← shift) here))

module _ (lib : CdataArray InodeInformation) (memory : HasMemory lib) (file : FileIoHandle) where
  open lib use {Array, entries, append_entry, append_law}

  keep_on_error-found :
      (r : Result InodeInformation) (information : Array)
      → IsTotal r
      → Ensures
          (λ after. entries after ≡ entries information ++ found r)
          (keep_on_error
            (r >>= λ info. or_fail (append_entry information info) append_failed)
            information)
  keep_on_error-found (ok info) information t =
      let (b, appended) = memory information info in
      rw appended (append_law information b info appended)
  keep_on_error-found (err x) information t = sym (append-nil (entries information))
  keep_on_error-found fault information t = absurd t
  keep_on_error-found exhausted information t = absurd t

  read_information-found :
      (s : Superblock) (offset : ℕ) (information : Array)
      → Ensures
          (λ after. entries after ≡ entries information ++ found (group_information s file offset))
          (read_information lib (io_handle_of s) file (information_offset s offset) information)
  unfolding read_information InodeBtree.read_inode_information
  read_information-found s offset information =
      keep_on_error-found (group_information s file offset) information
        (information_file-IsTotal (io_handle_of s) file (information_offset s offset))

  read_group-found :
      (s : Superblock) (offset : ℕ) (information : Array)
      → Ensures
          (λ r.
            (entries r.0 ≡ entries information ++ found (group_information s file offset))
            × (r.1 ≡ offset + group_data_size (io_handle_of s)))
          (read_group lib s file offset information)
  unfolding read_group
  read_group-found s offset information =
      let size = group_data_size (io_handle_of s) in
      Ensures-bind
        (λ after. entries after ≡ entries information ++ found (group_information s file offset)) _
        (read_information lib (io_handle_of s) file (information_offset s offset) information) _
        (read_information-found s offset information)
        λ extended grown.
          Ensures-fail_if _ (size == 0 || ltb (int64_max - size) offset) value_out_of_bounds
            (ok (extended, offset + size)) λ _. (grown, refl)

  read_groups-found :
      (n : ℕ) (s : Superblock) (offset : ℕ) (information : Array)
      → Ensures
          (λ after. entries after ≡ entries information ++ found_groups s file n offset)
          (read_groups lib n s file offset information)
  unfolding read_groups
  read_groups-found zero s offset information = sym (append-nil (entries information))
  read_groups-found (suc n) s offset information =
      let more = found_groups s file n (offset + group_data_size (io_handle_of s)) in
      let one = found (group_information s file offset) in
      Ensures-bind IsSupported _ (Superblock.read_file_io_handle file offset) _
        (superblock_read-IsSupported file offset)
        λ other _.
          Ensures-bind
            (λ r.
              (entries r.0 ≡ entries information ++ one)
              × (r.1 ≡ offset + group_data_size (io_handle_of s)))
            _ (read_group lib s file offset information) _ (read_group-found s offset information)
            λ r grown.
              Ensures-mono (λ after. entries after ≡ entries r.0 ++ found_groups s file n r.1)
                (λ after. entries after ≡ entries information ++ (one ++ more))
                (read_groups lib n s file r.1 r.0) (read_groups-found n s r.1 r.0)
                λ after last.
                  last ∙ rw (grown.0, grown.1) (append_assoc (entries information) one more)

  -- Opening a volume ends inside its buffers, where memory does not run out. If it succeeds, the
  -- superblock is supported and has an allocation group, and the array has, behind its entries, the
  -- inode information of the groups in order, but of those only whose information can be read.
  pub open_read-found :
      (information : Array)
      → Ensures
          (λ v.
            IsSupported v.0
            × (0 < v.0.number_of_allocation_groups)
            × (entries v.1
                ≡ entries information ++ found_groups v.0 file v.0.number_of_allocation_groups 0))
          (open_read lib file information)
  unfolding open_read
  open_read-found information =
      Ensures-bind IsSupported _ (Superblock.read_file_io_handle file 0) _
        (superblock_read-IsSupported file 0)
        λ s supported.
          let size = group_data_size (io_handle_of s) in
          let n = s.number_of_allocation_groups in
          let one = found (group_information s file 0) in
          Ensures-bind (λ r. (entries r.0 ≡ entries information ++ one) × (r.1 ≡ 0 + size)) _
            (read_group lib s file 0 information) _ (read_group-found s 0 information)
            λ r grown.
              Ensures-bind (λ after. entries after ≡ entries r.0 ++ found_groups s file (n - 1) r.1)
                _ (read_groups lib (n - 1) s file r.1 r.0) _ (read_groups-found (n - 1) s r.1 r.0)
                λ all last.
                  Ensures-fail_if _ (n == 0) value_out_of_bounds (ok (s, all)) λ some_group.
                    let more = found_groups s file (n - 1) (0 + size) in
                    let count : suc (n - 1) ≡ n = ground arith in
                    let whole : entries all ≡ entries information ++ (one ++ more) =
                      last ∙ rw (grown.0, grown.1) (append_assoc (entries information) one more) in
                    (
                      supported,
                      ground arith,
                      subst
                          (λ (k : ℕ). entries all ≡ entries information ++ found_groups s file k 0)
                          count whole,
                    )

  -- Of a volume of two groups or more, whose first inode information cannot be read, the array's first
  -- entry is that of the second group.
  pub open_read-skips :
      (information all : Array) (s : Superblock) (info : InodeInformation) (e : Error)
      → entries information ≡ []
      → open_read lib file information ≡ ok (s, all)
      → 2 ≤ s.number_of_allocation_groups
      → group_information s file 0 ≡ err e
      → group_information s file (group_data_size (io_handle_of s)) ≡ ok info
      → get_elem? (entries all) 0 ≡ some info
  open_read-skips information all s info e empty opened two bad good =
      let v =
        Ensures_of_ok _ (open_read lib file information) (open_read-found information) opened in
      let n = s.number_of_allocation_groups in
      let count : n ≡ suc (suc (n - 2)) = omega (arith, two) in
      let start : 0 + group_data_size (io_handle_of s) ≡ group_data_size (io_handle_of s) =
        omega arith in
      let whole : entries all ≡ found_groups s file (suc (suc (n - 2))) 0 =
        subst (λ (k : ℕ). entries all ≡ found_groups s file k 0) count (rw empty at v.2) in
      rw whole (rw (bad, start, good) refl)

  -- If a volume was opened with an empty array, and the information of an allocation group and of all
  -- groups before it can be read, then the array has the group's information at the index of the
  -- group.
  pub open_read-get :
      (information all : Array) (s : Superblock) (i : ℕ) (info : InodeInformation)
      → entries information ≡ []
      → open_read lib file information ≡ ok (s, all)
      → i < s.number_of_allocation_groups
      → ((j : ℕ)
          → j < i
          → (x : InodeInformation) × (group_information s file
                (j * group_data_size (io_handle_of s))
              ≡ ok x))
      → group_information s file (i * group_data_size (io_handle_of s)) ≡ ok info
      → get_elem? (entries all) i ≡ some info
  open_read-get information all s i info empty opened l before here =
      let v =
        Ensures_of_ok _ (open_read lib file information) (open_read-found information) opened in
      let start : (k : ℕ) → 0 + k ≡ k = λ k. omega arith in
      rw (rw empty at v.2) (
        found_groups-get s file i s.number_of_allocation_groups 0 info l
          (λ j k.
            let (x, read) = before j k in
            (x, rw (start (j * group_data_size (io_handle_of s))) read))
          (rw (start (i * group_data_size (io_handle_of s))) here))
