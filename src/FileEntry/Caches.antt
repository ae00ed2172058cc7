-- ===== src/FileEntry/Caches.antt =====
-- What a file entry keeps: that it is what the inode gives, after any calls.
use mathlib.Core.Option.{none-ne-some, some-injective}
use libfsxfs.Prelude.{
  ℕ, ◌≡◌, refl, sym, ap, ◌∙◌, true, false, not, Option, none, some, Option-cases, Bool-cases, inl,
  inr, if◌then◌else◌,
}
use libfsxfs.Result.{
  err, fault, exhausted, Result, ok, Gives, Gives-bind, Gives-if, Gives-ok, fail_if, or_fail,
  invalid_value, read_failed, ◌>>=◌, value_already_set,
}
use libfsxfs.Array.{CdataArray}
use libfsxfs.Handle.{IoHandle, FileIoHandle}
use libfsxfs.Inode.{Inode, file_type_directory}
use libfsxfs.Directory.{directory_get_entry_by_index}
use libfsxfs.FileSystem.{FileSystem, read_directory, get_inode_by_number}
use libfsxfs.FileEntry.{
  FileLibraries, FileEntry, is_none, has_type, get_directory, with_directory, count_of,
  get_number_of_sub_file_entries, get_sub_file_entry_by_index, read_attributes_of_inode,
  get_extended_attributes, with_attributes, get_number_of_extended_attributes,
  file_entry_initialize,
}

module _ (libs : FileLibraries) (file_system : FileSystem libs.file_system_libraries)
    (io : IoHandle) (file : FileIoHandle) where
  -- The calls that succeed on a file entry, and the file entry behind them.
  pub data Step : FileEntry libs → FileEntry libs → Type 0 where
    counts_entries :
        (before after : FileEntry libs) (number : Option ℕ)
        → get_number_of_sub_file_entries libs file_system io file before ≡ ok (number, after)
        → Step before after
    opens_entry :
        (before after sub_file_entry : FileEntry libs) (index : ℕ)
        → get_sub_file_entry_by_index libs file_system io file index before
          ≡ ok (sub_file_entry, after)
        → Step before after
    counts_attributes :
        (before after : FileEntry libs) (number : Option ℕ)
        → get_number_of_extended_attributes libs file_system io file before ≡ ok (number, after)
        → Step before after

  pub data Steps : FileEntry libs → FileEntry libs → Type 0 where
    no_steps : (entry : FileEntry libs) → Steps entry entry
    more_steps :
        (before between after : FileEntry libs)
        → Steps before between
        → Step between after
        → Steps before after

  -- What `entry` keeps is what the inode of `start` gives.
  pub record Keeps (start entry : FileEntry libs) : Type 0 where
    pub same_inode : entry.inode ≡ start.inode
    pub directory_kept :
        (d : CdataArray.Array libs.file_system_libraries.directory_entries)
        → entry.directory ≡ some d
        → (has_type libs file_system io file start.inode file_type_directory ≡ true)
          × (read_directory libs.file_system_libraries file_system io file start.inode ≡ ok d)
    pub attributes_kept :
        (a : CdataArray.Array libs.attributes)
        → entry.extended_attributes_array ≡ some a
        → read_attributes_of_inode libs file_system io file start.inode ≡ ok a

  with_directory-Keeps :
      (start entry : FileEntry libs)
      → Keeps start entry
      → Gives (Keeps start) (with_directory libs file_system io file entry)
  unfolding with_directory get_directory
  with_directory-Keeps start entry k =
      let P = Keeps start in
      let same =
        ap
          (λ (i : Inode libs.file_system_libraries.extents).
            has_type libs file_system io file i file_type_directory)
          k.same_inode in
      Gives-if P (is_none entry.directory) _ (ok entry)
        (λ _. Gives-bind P (fail_if (not (is_none entry.directory)) value_already_set) _ λ _ _.
          Gives-if P (has_type libs file_system io file entry.inode file_type_directory) _
            (ok entry)
            (λ is_directory.
              Gives-bind P
                (read_directory libs.file_system_libraries file_system io file entry.inode) _
                λ d e. Gives-ok P _ (record {
                  same_inode = k.same_inode;
                  directory_kept = λ c f. (
                    sym same ∙ is_directory,
                    sym (
                          ap (read_directory libs.file_system_libraries file_system io file)
                            k.same_inode)
                        ∙ e
                        ∙ ap ok (some-injective _ _ f),
                  );
                  attributes_kept = k.attributes_kept;
                }))
            (λ _. Gives-ok P entry k))
        (λ _. Gives-ok P entry k)

  with_attributes-Keeps :
      (start entry : FileEntry libs)
      → Keeps start entry
      → Gives (Keeps start) (with_attributes libs file_system io file entry)
  unfolding with_attributes get_extended_attributes
  with_attributes-Keeps start entry k =
      let P = Keeps start in
      Gives-if P (is_none entry.extended_attributes_array) _ (ok entry)
        (λ _.
          Gives-bind P (fail_if (not (is_none entry.extended_attributes_array)) value_already_set) _
            λ _ _.
              Gives-bind P (read_attributes_of_inode libs file_system io file entry.inode) _ λ a e.
                Gives-ok P _ (record {
                  same_inode = k.same_inode;
                  directory_kept = k.directory_kept;
                  attributes_kept = λ c f.
                      sym (ap (read_attributes_of_inode libs file_system io file) k.same_inode)
                      ∙ e
                      ∙ ap ok (some-injective _ _ f);
                }))
        (λ _. Gives-ok P entry k)

  Step-Keeps :
      (start before after : FileEntry libs)
      → Keeps start before
      → Step before after
      → Keeps start after
  unfolding get_number_of_sub_file_entries get_sub_file_entry_by_index
      get_number_of_extended_attributes
  Step-Keeps start before after k (counts_entries x y number e) =
      Gives-bind (λ (r : Option ℕ × FileEntry libs). Keeps start r.1)
        (with_directory libs file_system io file before) _
        (λ opened f. Gives-ok _ _ (with_directory-Keeps start before k opened f)) (number, after) e
  Step-Keeps start before after k (opens_entry x y sub index e) =
      let P : FileEntry libs × FileEntry libs → Type 0 = λ r. Keeps start r.1 in
      Gives-bind P (with_directory libs file_system io file before) _
        (λ opened f. Gives-bind P (or_fail opened.directory invalid_value) _ λ directory _.
          Gives-bind P
            (directory_get_entry_by_index libs.file_system_libraries.directory_entries directory
              index)
            _
            λ sub_directory_entry _.
              Gives-bind P
                (get_inode_by_number libs.file_system_libraries file_system io file
                  sub_directory_entry.inode_number)
                _
                λ found _. Gives-bind P (or_fail found read_failed) _ λ inode _.
                  Gives-bind P
                    (file_entry_initialize libs file_system io file sub_directory_entry.inode_number
                      inode (some sub_directory_entry))
                    _
                    λ sub_file_entry _.
                      Gives-ok P (sub_file_entry, opened)
                        (with_directory-Keeps start before k opened f))
        (sub, after) e
  Step-Keeps start before after k (counts_attributes x y number e) =
      Gives-bind (λ (r : Option ℕ × FileEntry libs). Keeps start r.1)
        (with_attributes libs file_system io file before) _
        (λ read f. Gives-ok _ _ (with_attributes-Keeps start before k read f)) (number, after) e

  -- Nothing is kept yet.
  abbrev pub IsFresh : FileEntry libs → Type 0
  IsFresh e = (e.directory ≡ none) × (e.extended_attributes_array ≡ none)

  IsFresh-Keeps : (e : FileEntry libs) → IsFresh e → Keeps e e
  IsFresh-Keeps e (f, g) = record {
    same_inode = refl;
    directory_kept = λ d h. absurd (none-ne-some _ (sym f ∙ h));
    attributes_kept = λ a h. absurd (none-ne-some _ (sym g ∙ h));
  }

  Steps-Keeps :
      (start entry : FileEntry libs) → IsFresh start → Steps start entry → Keeps start entry
  Steps-Keeps start entry f (no_steps e) = IsFresh-Keeps start f
  Steps-Keeps start entry f (more_steps x between y first last) =
      Step-Keeps start between entry (Steps-Keeps start between f first) last

  -- The number of entries, as the inode gives it.
  abbrev pub number_of_entries : Inode libs.file_system_libraries.extents → Result (Option ℕ)
  number_of_entries inode =
      if has_type libs file_system io file inode file_type_directory
      then (do
        d ← read_directory libs.file_system_libraries file_system io file inode
        ok (some (CdataArray.get_number_of_entries libs.file_system_libraries.directory_entries d)))
      else ok none

  abbrev pub first : {X : Type 0} → Result (X × FileEntry libs) → Result X
  first r = do answer ← r; ok answer.0

  count-directory :
      (e : FileEntry libs)
      (r : Result (CdataArray.Array libs.file_system_libraries.directory_entries))
      → first (
          (r >>= λ d. ok (record e { directory = some d })) >>= λ opened. ok (
            count_of libs file_system io file libs.file_system_libraries.directory_entries
                opened.directory,
            opened,
          ))
        ≡ (r >>= λ d. ok (
            some (CdataArray.get_number_of_entries libs.file_system_libraries.directory_entries d)))
  count-directory e (ok d) = refl
  count-directory e (err x) = refl
  count-directory e fault = refl
  count-directory e exhausted = refl

  entries_of_fresh :
      (e : FileEntry libs)
      → e.directory ≡ none
      → first (get_number_of_sub_file_entries libs file_system io file e)
        ≡ number_of_entries e.inode
  unfolding get_number_of_sub_file_entries with_directory get_directory
  entries_of_fresh e f =
      let empty : is_none e.directory ≡ true = ap is_none f in
      elim (Bool-cases (has_type libs file_system io file e.inode file_type_directory)) [
        | inr other ↦
            let unset =
              ap (count_of libs file_system io file libs.file_system_libraries.directory_entries)
                f in
            rw (empty, other, unset)
        | inl is_directory ↦ rw (empty, is_directory) (count-directory e _)
      ]

  entries_of_kept :
      (start e : FileEntry libs) (d : CdataArray.Array libs.file_system_libraries.directory_entries)
      → Keeps start e
      → e.directory ≡ some d
      → first (get_number_of_sub_file_entries libs file_system io file e)
        ≡ number_of_entries start.inode
  unfolding get_number_of_sub_file_entries with_directory
  entries_of_kept start e d k f =
      let full : is_none e.directory ≡ false = ap is_none f in
      let (is_directory, is_read) = k.directory_kept d f in
      let counted =
        ap (count_of libs file_system io file libs.file_system_libraries.directory_entries) f in
      rw (full, is_directory, is_read, counted)

  -- The number of extended attributes, as the inode gives it.
  abbrev pub number_of_attributes : Inode libs.file_system_libraries.extents → Result (Option ℕ)
  number_of_attributes inode = do
    a ← read_attributes_of_inode libs file_system io file inode
    ok (some (CdataArray.get_number_of_entries libs.attributes a))

  count-attributes :
      (e : FileEntry libs) (r : Result (CdataArray.Array libs.attributes))
      → first (
          (r >>= λ a. ok (record e { extended_attributes_array = some a })) >>= λ read.
          ok (
            count_of libs file_system io file libs.attributes read.extended_attributes_array,
            read,
          ))
        ≡ (r >>= λ a. ok (some (CdataArray.get_number_of_entries libs.attributes a)))
  count-attributes e (ok a) = refl
  count-attributes e (err x) = refl
  count-attributes e fault = refl
  count-attributes e exhausted = refl

  attributes_of_fresh :
      (e : FileEntry libs)
      → e.extended_attributes_array ≡ none
      → first (get_number_of_extended_attributes libs file_system io file e)
        ≡ number_of_attributes e.inode
  unfolding get_number_of_extended_attributes with_attributes get_extended_attributes
  attributes_of_fresh e f =
      let empty : is_none e.extended_attributes_array ≡ true = ap is_none f in
      rw empty (count-attributes e _)

  attributes_of_kept :
      (start e : FileEntry libs) (a : CdataArray.Array libs.attributes)
      → Keeps start e
      → e.extended_attributes_array ≡ some a
      → first (get_number_of_extended_attributes libs file_system io file e)
        ≡ number_of_attributes start.inode
  unfolding get_number_of_extended_attributes with_attributes
  attributes_of_kept start e a k f =
      let full : is_none e.extended_attributes_array ≡ false = ap is_none f in
      let is_read = k.attributes_kept a f in
      let counted = ap (count_of libs file_system io file libs.attributes) f in
      rw (full, is_read, counted)

  -- For a file entry that keeps neither directory nor attributes yet, and any calls on it that
  -- succeed, of counting its sub file entries, opening one, and counting its attributes, in any order:
  -- both counts, errors included, are then those that reading its inode anew gives.
  pub count-Steps :
      (start entry : FileEntry libs)
      → IsFresh start
      → Steps start entry
      → (first (get_number_of_sub_file_entries libs file_system io file entry)
          ≡ number_of_entries start.inode)
        × (first (get_number_of_extended_attributes libs file_system io file entry)
            ≡ number_of_attributes start.inode)
  count-Steps start entry fresh steps =
      let k = Steps-Keeps start entry fresh steps in
      (
        elim (Option-cases entry.directory) [
          | inl f ↦ entries_of_fresh entry f ∙ ap number_of_entries k.same_inode
          | inr (d, f) ↦ entries_of_kept start entry d k f
        ],
        elim (Option-cases entry.extended_attributes_array) [
          | inl f ↦ attributes_of_fresh entry f ∙ ap number_of_attributes k.same_inode
          | inr (a, f) ↦ attributes_of_kept start entry a k f
        ],
      )
