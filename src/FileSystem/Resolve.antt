-- ===== src/FileSystem/Resolve.antt =====
-- A path against the search of its names, one directory after the other.
use libfsxfs.Prelude.{
  ℕ, zero, suc, ◌+◌, ◌-◌, ◌≤◌, ◌≡◌, refl, sym, ◌∙◌, ap, arith, true, false, List, [], ◌∷◌, ◌++◌,
  length, length-append, length-drop, take, take-append, drop, drop-drop, drop-append, All, Option,
  none, some, ltb, ◌==◌, ◌||◌,
}
use libfsxfs.Result.{Result, ok, ◌>>=◌, bind_same}
use libfsxfs.Word.{int64_max, sub64}
use libfsxfs.Array.{CdataArray}
use libfsxfs.Handle.{IoHandle, FileIoHandle}
use libfsxfs.Directory.{get_entry_by_name}
use libfsxfs.FileSystem.{
  separator, Libraries, Unicode, FileSystem, Found, must_get, get_inode_by_number, read_directory,
  find_segment, follow, walk, get_directory_entry_by_path, first_index,
}
use libfsxfs.FileSystem.Paths.{
  IsName, path_of, without_separator, separators_before, CopiesAscii, drop-path_of, inside_of_drop,
  outside_of_drop, find_segment_end-path_of,
}

separators-le : (ns : List (List ℕ)) → separators_before ns ≤ length (path_of ns)
separators-le [] = omega arith
separators-le (n ∷ ns) = omega arith

count_of :
    (string : List ℕ) (i : ℕ) (n : List ℕ) (ns : List (List ℕ))
    → drop i string ≡ n ++ path_of ns
    → length n + separators_before ns ≤ length string - i
count_of string i n ns h =
    let e : length (drop i string) ≡ length (n ++ path_of ns) = ap length h in
    omega (arith, e, length-drop i string, length-append n (path_of ns), separators-le ns)

module _ (libs : Libraries) (file_system : FileSystem libs) (io : IoHandle) (file : FileIoHandle)
    (unicode : Unicode) where
  -- The names looked up one after the other, each in the directory of the inode before it.
  abbrev pub resolve : List (List ℕ) → Option (Found libs) → Result (Option (Found libs))
  resolve [] found = ok found
  resolve (n ∷ ns) none = ok none
  resolve (n ∷ ns) (some found) = do
    entries_array ← read_directory libs file_system io file found.inode
    entry ← get_entry_by_name libs.directory_entries (unicode.compare_string n) entries_array
    next ← follow libs file_system io file unicode entry
    resolve ns next

  resolve-none : (ns : List (List ℕ)) → resolve ns none ≡ ok none
  resolve-none [] = refl
  resolve-none (n ∷ ns) = refl

  find_segment-name :
      (c : ℕ) (cs : List ℕ) (entries_array : CdataArray.Array libs.directory_entries)
      → find_segment libs file_system io file unicode (c ∷ cs) entries_array
        ≡ get_entry_by_name libs.directory_entries (unicode.compare_string (c ∷ cs)) entries_array
  unfolding find_segment
  find_segment-name c cs entries_array =
      let some_length : (suc (length cs) == 0) ≡ false = ground arith in rw some_length

  module _ (copies : CopiesAscii unicode) where
    walk-resolve :
        (fuel : ℕ) (string : List ℕ) (i : ℕ) (ns : List (List ℕ)) (found : Option (Found libs))
        → length string ≤ int64_max
        → drop i string ≡ without_separator ns
        → All IsName ns
        → length ns ≤ fuel
        → walk libs file_system io file unicode fuel string i found ≡ resolve ns found
    unfolding walk
    walk-resolve fuel string i ns none m h p f = sym (resolve-none ns)
    walk-resolve zero string i [] (some found) m h p f =
        let outside : ltb i (length string) ≡ false = ground (arith, outside_of_drop i string h) in
        rw outside
    walk-resolve (suc fuel) string i [] (some found) m h p f =
        let outside : ltb i (length string) ≡ false = ground (arith, outside_of_drop i string h) in
        rw outside
    walk-resolve zero string i (n ∷ ns) (some found) m h p f = absurd (omega arith)
    walk-resolve (suc fuel) string i ([] ∷ ns) (some found) m h (p, q) f =
        absurd (omega (arith, p.0))
    walk-resolve (suc fuel) string i ((c ∷ cs) ∷ ns) (some found) m h (p, q) f =
        let n = c ∷ cs in
        let k = separators_before ns in
        let inside : ltb i (length string) ≡ true =
          ground (arith, inside_of_drop i string c (cs ++ path_of ns) h) in
        let room : i + length n + k ≤ length string = omega (arith, count_of string i n ns h) in
        let ends =
          find_segment_end-path_of libs file_system io file unicode copies (length string) string i
            n ns h p.1 (omega (arith, room)) in
        let count : sub64 (i + length n + k) (i + k) ≡ length n = omega (arith, room) in
        let segment : take (length n) (drop i string) ≡ n = rw h (take-append n (path_of ns)) in
        let rest : drop (i + length n + k) string ≡ without_separator ns =
          drop-drop (i + length n) k string
          ∙ ap (drop k) (drop-drop i (length n) string ∙ rw h (drop-append n (path_of ns)))
          ∙ drop-path_of ns in
        rw (inside, ends, count, segment)
          (bind_same (read_directory libs file_system io file found.inode) _ _ λ entries_array.
            rw (find_segment-name c cs entries_array) (
              bind_same
                (get_entry_by_name libs.directory_entries (unicode.compare_string n) entries_array)
                _ _
                λ entry. bind_same (follow libs file_system io file unicode entry) _ _ λ next.
                  walk-resolve fuel string (i + length n + k) ns next m rest q (omega arith)))

    names-le : (ns : List (List ℕ)) → All IsName ns → length ns ≤ length (path_of ns)
    names-le [] h = omega arith
    names-le (n ∷ ns) (p, q) = omega (arith, names-le ns q, length-append n (path_of ns))

    -- For a path of names of ASCII characters with a separator in front of each, the call gives what
    -- the search of the names one after the other gives, each in the directory of the inode before
    -- it, from the root directory on: the same entry, that there is none, or the same error.
    pub path-resolve :
        (ns : List (List ℕ))
        → All IsName ns
        → length (path_of ns) ≤ int64_max
        → get_directory_entry_by_path libs file_system io file unicode (path_of ns) ≡ (
            must_get libs file_system io file
              (get_inode_by_number libs file_system io file file_system.root_directory_inode_number)
            >>= λ inode. resolve ns (
                some (record {
                  inode_number = file_system.root_directory_inode_number;
                  inode = inode;
                  directory_entry = none;
                })))
    unfolding get_directory_entry_by_path
    path-resolve [] h m = refl
    path-resolve (n ∷ ns) h m =
        let path = path_of (n ∷ ns) in
        let small : ltb int64_max (length path) ≡ false = ground arith in
        let long : (length path == 0 || length path == 1) ≡ false =
          ground (arith, length-append n (path_of ns), h.0.0) in
        rw (small, long)
          (bind_same
            (must_get libs file_system io file (
              get_inode_by_number libs file_system io file file_system.root_directory_inode_number))
            _ _
            λ inode.
              walk-resolve (length path) path 1 (n ∷ ns) _ m refl h
                (omega (arith, names-le (n ∷ ns) h)))

    first_of-name :
        (n rest : List ℕ) → IsName n → first_index libs file_system io file unicode (n ++ rest) ≡ 0
    first_of-name [] rest h = absurd (omega (arith, h.0))
    first_of-name (c ∷ cs) rest (l, (p, q)) =
        let other : (c == separator) ≡ false = ground arith in rw other

    -- A path of names with no separator in front of the first gives what it gives with one, where it
    -- has two characters or more; a path of one character gives what the empty path gives.
    pub relative_path :
        (ns : List (List ℕ))
        → All IsName ns
        → length (path_of ns) ≤ int64_max
        → (2 ≤ length (without_separator ns)
            → get_directory_entry_by_path libs file_system io file unicode (without_separator ns)
              ≡ get_directory_entry_by_path libs file_system io file unicode (path_of ns))
          × (length (without_separator ns) ≡ 1
              → get_directory_entry_by_path libs file_system io file unicode (without_separator ns)
                ≡ get_directory_entry_by_path libs file_system io file unicode [])
    unfolding get_directory_entry_by_path
    relative_path [] h m = ((λ l. absurd (omega arith)), λ l. absurd (omega arith))
    relative_path (n ∷ ns) h m =
        let path = n ++ path_of ns in
        let size : ltb int64_max (length path) ≡ false = ground arith in
        let start = first_of-name n (path_of ns) h.0 in
        (
          (λ l.
              let long : (length path == 0 || length path == 1) ≡ false = ground arith in
              rw (size, long, start)
                (bind_same
                  (must_get libs file_system io file (
                    get_inode_by_number libs file_system io file
                      file_system.root_directory_inode_number))
                  _ _
                  λ inode.
                    walk-resolve (length path) path 0 (n ∷ ns) _ (omega arith) refl h
                      (omega (arith, names-le ns h.1, length-append n (path_of ns), h.0.0)))
              ∙ sym (path-resolve (n ∷ ns) h m)),
          λ l.
              let short : (length path == 0 || length path == 1) ≡ true = ground arith in
              rw (size, short),
        )
