-- ===== src/Extents/Fill.antt =====
-- The loop of `libfsxfs_extents_read_data` against a description of its result: the extents that
-- the bytes hold, with a sparse extent in front of each that starts behind the end of the one
-- before.
use libfsxfs.Prelude.{
  ℕ, zero, suc, ◌+◌, ◌-◌, ◌*◌, ◌/◌, ◌≤◌, ◌≡◌, refl, sym, ap, ◌∙◌, arith, Bool, false, List, [], ◌∷◌,
  ◌++◌, ltb, ◌&&◌, ◌||◌, ◌==◌, if◌then◌else◌, length, length-append, take, drop, length-drop,
  append_steps, append_assoc, append-nil, Option, none, some, get_elem?-append_end, inl, inr,
  last_cases, Bool-cases,
}
use libfsxfs.Result.{
  ok, Ensures, Ensures-bind, Ensures-mono, Ensures-fail_if, or_fail, append_failed,
  value_out_of_bounds,
}
use libfsxfs.Word.{sub64, int64_max}
use libfsxfs.Bytes.{be_value}
use libfsxfs.Bytes.Laws.{read_uint64_inside}
use libfsxfs.Array.{CdataArray}
use libfsxfs.Extent
use libfsxfs.Extent.{Extent, unpack, extent_flag_is_sparse}
use libfsxfs.Extents.{
  end_block, end_of_last, sparse_extent, get_last_extent, append, append_gap, read_extents,
  read_data,
}

-- The extent in the first 16 of the bytes.
abbrev pub extent_at : List ℕ → Extent
extent_at bytes = unpack (be_value (take 8 bytes)) (be_value (take 8 (drop 8 bytes)))

abbrev pub extents_at : ℕ → List ℕ → ℕ → List Extent
extents_at zero data_bytes data_offset = []
extents_at (suc n) data_bytes data_offset =
    extent_at (drop data_offset data_bytes) ∷ extents_at n data_bytes (data_offset + 16)

abbrev pub gap : Bool → ℕ → Extent → List Extent
gap add_sparse start e =
    if add_sparse && ltb start e.logical_block_number
    then sparse_extent start (sub64 e.logical_block_number start) ∷ []
    else []

abbrev pub fill : Bool → ℕ → List Extent → List Extent
fill add_sparse start [] = []
fill add_sparse start (e ∷ es) = gap add_sparse start e ++ (e ∷ fill add_sparse (end_block e) es)

pub fill-false : (start : ℕ) (es : List Extent) → fill false start es ≡ es
fill-false start [] = refl
fill-false start (e ∷ es) = ap (◌∷◌ e) (fill-false (end_block e) es)

-- The block behind the last of the extents, or `start`.
abbrev pub ends : ℕ → List Extent → ℕ
ends start [] = start
ends start (e ∷ es) = ends (end_block e) es

pub ends-append :
    (start : ℕ) (xs : List Extent) (e : Extent) → ends start (xs ++ (e ∷ [])) ≡ end_block e
ends-append start [] e = refl
ends-append start (x ∷ xs) e = ends-append (end_block x) xs e

pub ends-fill :
    (add_sparse : Bool) (start : ℕ) (es : List Extent)
    → ends start (fill add_sparse start es) ≡ ends start es
ends-fill add_sparse start [] = refl
ends-fill add_sparse start (e ∷ es) =
    elim (Bool-cases (add_sparse && ltb start e.logical_block_number)) [
      | inl behind ↦ rw behind (ends-fill add_sparse (end_block e) es)
      | inr at_start ↦ rw at_start (ends-fill add_sparse (end_block e) es)
    ]

pub ends-append_list :
    (start : ℕ) (xs ys : List Extent) → ends start (xs ++ ys) ≡ ends (ends start xs) ys
ends-append_list start [] ys = refl
ends-append_list start (x ∷ xs) ys = ends-append_list (end_block x) xs ys

pub fill-append :
    (add_sparse : Bool) (start : ℕ) (xs ys : List Extent)
    → fill add_sparse start (xs ++ ys)
      ≡ fill add_sparse start xs ++ fill add_sparse (ends start xs) ys
fill-append add_sparse start [] ys = refl
fill-append add_sparse start (x ∷ xs) ys =
    rw (fill-append add_sparse (end_block x) xs ys)
      (sym (append_assoc (gap add_sparse start x) _ _))

-- The entries `after` are those `before`, and then `es` with the gaps filled.
abbrev pub Grows : Bool → List Extent → List Extent → List Extent → Type 0
Grows add_sparse before es after = after ≡ before ++ fill add_sparse (ends 0 before) es

pub Grows-trans :
    (add_sparse : Bool) (before xs mid ys after : List Extent)
    → Grows add_sparse before xs mid
    → Grows add_sparse mid ys after
    → Grows add_sparse before (xs ++ ys) after
Grows-trans add_sparse before xs mid ys after g h =
    let start = ends 0 before in
    let e : ends 0 mid ≡ ends start xs =
      rw g (ends-append_list 0 before (fill add_sparse start xs)) ∙ ends-fill add_sparse start xs in
    rw (h, e, g, fill-append add_sparse start xs ys)
      (append_assoc before (fill add_sparse start xs) (fill add_sparse (ends start xs) ys))

pub read_extent_data :
    (bytes : List ℕ) → 16 ≤ length bytes → Extent.read_data bytes 16 ≡ ok (extent_at bytes)
unfolding Extent.read_data
read_extent_data bytes h =
    rw (read_uint64_inside bytes 0 (omega arith), read_uint64_inside bytes 8 (omega arith))

module _ (lib : CdataArray Extent) where
  open lib use {Array, entries, append_law, number_law, get_law}

  -- The array `after` has the entries of `before` and then `es`.
  abbrev pub Extends : Array → List Extent → Array → Type 0
  Extends before es after = entries after ≡ entries before ++ es

  pub append-Extends :
      (extents : Array) (e : Extent) → Ensures (Extends extents (e ∷ [])) (append lib extents e)
  unfolding append
  append-Extends extents e = go (lib.append_entry extents e) refl
    where
      go :
          (o : Option Array)
          → lib.append_entry extents e ≡ o
          → Ensures (Extends extents (e ∷ [])) (or_fail o append_failed)
      go none h = tt
      go (some b) h = append_law extents b e h

  append_gap-Extends :
      (add_sparse : Bool) (start : ℕ) (e : Extent) (extents : Array)
      → Ensures
          (Extends extents (gap add_sparse start e))
          (append_gap lib add_sparse start e extents)
  unfolding append_gap
  append_gap-Extends add_sparse start e extents =
      elim (Bool-cases (add_sparse && ltb start e.logical_block_number)) [
        | inl yes_gap ↦ rw yes_gap (append-Extends extents _)
        | inr no_gap ↦ rw no_gap (sym (append-nil (entries extents)))
      ]

  pub get_last_extent_nil :
      (extents : Array) → entries extents ≡ [] → get_last_extent lib extents ≡ ok none
  unfolding get_last_extent
  get_last_extent_nil extents h = rw (number_law extents, h)

  pub get_last_extent_end :
      (extents : Array) (xs : List Extent) (e : Extent)
      → entries extents ≡ xs ++ (e ∷ [])
      → get_last_extent lib extents ≡ ok (some (length xs, e))
  unfolding get_last_extent
  get_last_extent_end extents xs e h =
      let count : lib.get_number_of_entries extents ≡ suc (length xs) =
        number_law extents ∙ ap length h ∙ omega (arith, length-append xs (e ∷ [])) in
      let at_end : lib.get_entry_by_index extents (suc (length xs) - 1) ≡ some e =
        let index : suc (length xs) - 1 ≡ length xs = omega arith in
        rw index (get_law extents (length xs) ∙ rw h (get_elem?-append_end xs e)) in
      rw count (ground (arith, at_end))

  read_extents-Extends :
      (n : ℕ) (data_bytes : List ℕ) (data_offset : ℕ) (add_sparse : Bool) (start : ℕ)
      (extents : Array)
      → data_offset + 16 * n ≤ length data_bytes
      → Ensures
          (Extends extents (fill add_sparse start (extents_at n data_bytes data_offset)))
          (read_extents lib n data_bytes data_offset add_sparse start extents)
  unfolding read_extents
  read_extents-Extends zero data_bytes data_offset add_sparse start extents h =
      sym (append-nil (entries extents))
  read_extents-Extends (suc n) data_bytes data_offset add_sparse start extents h =
      let e = extent_at (drop data_offset data_bytes) in
      let rest = fill add_sparse (end_block e) (extents_at n data_bytes (data_offset + 16)) in
      rw
        (read_extent_data (drop data_offset data_bytes)
          (omega (arith, length-drop data_offset data_bytes)))
        (Ensures-bind _ _ (append_gap lib add_sparse start e extents) _
          (append_gap-Extends add_sparse start e extents)
          λ filled f.
            Ensures-bind _ _ (append lib filled e) _ (append-Extends filled e) λ appended a.
              Ensures-mono (Extends appended rest)
                (Extends extents (gap add_sparse start e ++ (e ∷ rest)))
                (read_extents lib n data_bytes (data_offset + 16) add_sparse (end_block e) appended)
                (read_extents-Extends n data_bytes (data_offset + 16) add_sparse (end_block e)
                  appended (omega arith))
                λ after r. append_steps (entries extents) (gap add_sparse start e) e rest f a r)

  pub get_last_extent-Ensures :
      (extents : Array)
      → Ensures (λ l. end_of_last l ≡ ends 0 (entries extents)) (get_last_extent lib extents)
  get_last_extent-Ensures extents = elim (last_cases (entries extents)) [
    | inl e ↦ rw (get_last_extent_nil extents e) (rw e refl)
    | inr (xs, x, e) ↦ rw (get_last_extent_end extents xs x e) (rw e (sym (ends-append 0 xs x)))
  ]

  -- Where the size is at most that of the bytes, `libfsxfs_extents_read_data` reads nothing behind
  -- them, and if it succeeds the array has its entries, then the extents that the bytes hold with, if
  -- asked for, a sparse extent in front of each that starts behind the end of the one before.
  pub read_data-Extends :
      (extents : Array) (number_of_extents : ℕ) (data_bytes : List ℕ) (data_size : ℕ)
      (add_sparse : Bool)
      → data_size ≤ length data_bytes
      → Ensures
          (Extends extents (
            fill add_sparse (ends 0 (entries extents)) (extents_at number_of_extents data_bytes 0)))
          (read_data lib extents number_of_extents data_bytes data_size add_sparse)
  unfolding read_data
  read_data-Extends extents n data_bytes data_size add_sparse h =
      Ensures-fail_if _ (data_size == 0 || ltb int64_max data_size) value_out_of_bounds _ λ _.
        Ensures-fail_if _ (ltb (data_size / 16) n) value_out_of_bounds _ λ small.
          Ensures-bind _ _ (get_last_extent lib extents) _ (get_last_extent-Ensures extents)
            λ last e. rw (← e) (
              read_extents-Extends n data_bytes 0 add_sparse (end_of_last last) extents
                (ground arith))
