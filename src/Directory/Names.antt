-- ===== src/Directory/Names.antt =====
-- The search for a name among the entries of a directory.
use libfsxfs.Prelude.{
  ℕ, zero, suc, ◌+◌, ◌≡◌, refl, arith, true, false, List, [], ◌∷◌, ◌++◌, length, drop, get_elem?_lt,
  drop-at, drop-all, All, Option, none, some, Bool-cases, inl, inr,
}
use libfsxfs.Result.{
  Ensures, Ensures-bind, Ensures-if, Ensures-mono, Ensures-or_fail, Succeeds, or_fail,
  generic_error,
}
use libfsxfs.Array.{CdataArray}
use libfsxfs.DirectoryEntry.{DirectoryEntry}
use libfsxfs.Directory.{Compare, is_equal, compare_entry, find_entry, get_entry_by_name}

module _ (lib : CdataArray DirectoryEntry) (compare_name : List ℕ → Option Compare) where
  open lib use {Array, entries}

  -- The name of the entry is compared, and is another one, or is the one.
  abbrev pub Differs : DirectoryEntry → Type 0
  Differs e = (c : Compare) × (compare_name e.name ≡ some c) × (is_equal c ≡ false)

  abbrev pub Matches : DirectoryEntry → Type 0
  Matches e = (c : Compare) × (compare_name e.name ≡ some c) × (is_equal c ≡ true)

  -- The first entry with the name, or none.
  abbrev pub IsFirst : List DirectoryEntry → Option DirectoryEntry → Type 0
  IsFirst es none = All Differs es
  IsFirst es (some e) =
      (before : List DirectoryEntry) × (after : List DirectoryEntry) × (es ≡ before ++ (e ∷ after))
      × All Differs before
      × Matches e

  IsFirst-next :
      (e : DirectoryEntry) (es : List DirectoryEntry) (found : Option DirectoryEntry)
      → Differs e
      → IsFirst es found
      → IsFirst (e ∷ es) found
  IsFirst-next e es none d f = (d, f)
  IsFirst-next e es (some x) d (before, after, split, others, match) =
      (e ∷ before, after, rw split, (d, others), match)

  find_entry-IsFirst :
      (n i : ℕ) (entries_array : Array)
      → i + n ≡ length (entries entries_array)
      → Ensures
          (IsFirst (drop i (entries entries_array)))
          (find_entry lib compare_name n i entries_array)
  unfolding find_entry compare_entry
  find_entry-IsFirst zero i a h = rw (drop-all i (entries a) (omega arith)) tt
  find_entry-IsFirst (suc n) i a h =
      let step = get_elem?_lt (entries a) i (omega arith) in
      let e = step.0 in
      let P = IsFirst (e ∷ drop (i + 1) (entries a)) in
      let compared = or_fail (compare_name e.name) generic_error in
      rw (lib.get_law a i, step.1, drop-at i (entries a) e step.1)
        (Ensures-bind (λ c. compare_name e.name ≡ some c) P compared _
          (Ensures-or_fail _ (compare_name e.name) generic_error λ c p. p)
          λ c p.
            Ensures-if P (is_equal c) _ _
              (λ same. ([], drop (i + 1) (entries a), refl, tt, (c, p, same)))
              λ other.
                Ensures-mono (IsFirst (drop (i + 1) (entries a))) P
                  (find_entry lib compare_name n (i + 1) a)
                  (find_entry-IsFirst n (i + 1) a (omega arith))
                  (λ found f. IsFirst-next e (drop (i + 1) (entries a)) found (c, p, other) f))

  find_entry-Succeeds :
      (n i : ℕ) (entries_array : Array)
      → i + n ≡ length (entries entries_array)
      → All (λ e. (c : Compare) × (compare_name e.name ≡ some c)) (drop i (entries entries_array))
      → Succeeds (find_entry lib compare_name n i entries_array)
  unfolding find_entry compare_entry
  find_entry-Succeeds zero i a h k = tt
  find_entry-Succeeds (suc n) i a h k =
      let step = get_elem?_lt (entries a) i (omega arith) in
      let e = step.0 in
      let here = drop-at i (entries a) e step.1 in
      let k' = rw here at k in
      rw (lib.get_law a i, step.1, k'.0.1)
        (elim (Bool-cases (is_equal k'.0.0)) [
          | inl same ↦ rw same tt
          | inr other ↦ rw other (find_entry-Succeeds n (i + 1) a (omega arith) k'.1)
        ])

  -- The search gives the first entry whose name libuna takes for the same, and none only where it
  -- takes every name for another. It succeeds where every name can be compared.
  pub get_entry_by_name-IsFirst :
      (entries_array : Array)
      → Ensures (IsFirst (entries entries_array)) (get_entry_by_name lib compare_name entries_array)
        × (All (λ e. (c : Compare) × (compare_name e.name ≡ some c)) (entries entries_array)
            → Succeeds (get_entry_by_name lib compare_name entries_array))
  unfolding get_entry_by_name
  get_entry_by_name-IsFirst a =
      let n = lib.get_number_of_entries a in
      let count : 0 + n ≡ length (entries a) = omega (arith, lib.number_law a) in
      (find_entry-IsFirst n 0 a count, λ k. find_entry-Succeeds n 0 a count k)
