-- ===== src/FileSystem/Paths.antt =====
-- Paths of names with a separator in front of each, and where libfsxfs ends their segments.
use libfsxfs.Prelude.{
  ℕ, zero, suc, ◌+◌, ◌≤◌, ◌<◌, ◌≡◌, ◌≢◌, refl, ◌∙◌, ap, arith, true, false, List, [], ◌∷◌, ◌++◌,
  length, length-drop, drop, drop-drop, get_elem?, All, some, ltb, ◌==◌, ◌||◌,
}
use libfsxfs.Result.{ok}
use libfsxfs.Handle.{IoHandle, FileIoHandle}
use libfsxfs.FileSystem.{separator, Libraries, Unicode, FileSystem, find_segment_end}

-- A character of ASCII that is no separator and no end of string.
abbrev pub IsPlain : ℕ → Type 0
IsPlain c = (c < 128) × (0 < c) × (c ≢ separator)

abbrev pub IsName : List ℕ → Type 0
IsName n = (0 < length n) × All IsPlain n

-- "/a/b", and "a/b".
abbrev pub path_of : List (List ℕ) → List ℕ
path_of [] = []
path_of (n ∷ ns) = separator ∷ (n ++ path_of ns)

abbrev pub without_separator : List (List ℕ) → List ℕ
without_separator [] = []
without_separator (n ∷ ns) = n ++ path_of ns

-- 1 where a separator follows.
abbrev pub separators_before : List (List ℕ) → ℕ
separators_before [] = 0
separators_before (n ∷ ns) = 1

-- libuna gives a character of ASCII as it stands, in UTF-8 and in UTF-16.
abbrev pub CopiesAscii : Unicode → Type 0
CopiesAscii unicode =
    (string : List ℕ) (i c : ℕ)
    → get_elem? string i ≡ some c
    → c < 128
    → unicode.copy_character string i ≡ some (c, i + 1)

pub drop-path_of :
    (ns : List (List ℕ)) → drop (separators_before ns) (path_of ns) ≡ without_separator ns
drop-path_of [] = refl
drop-path_of (n ∷ ns) = refl

module _ {ℓ} {A : Type ℓ} where
  pub elem_of_drop :
      (i : ℕ) (s : List A) (x : A) (xs : List A) → drop i s ≡ x ∷ xs → get_elem? s i ≡ some x
  elem_of_drop zero (y ∷ s) x xs h = let e : y ≡ x = cc in rw e
  elem_of_drop zero [] x xs h = absurd (let e : ⊥ = cc in e)
  elem_of_drop (suc i) [] x xs h = absurd (let e : ⊥ = cc in e)
  elem_of_drop (suc i) (y ∷ s) x xs h = elem_of_drop i s x xs h

  pub inside_of_drop : (i : ℕ) (s : List A) (x : A) (xs : List A) → drop i s ≡ x ∷ xs → i < length s
  inside_of_drop i s x xs h =
      let e : length (drop i s) ≡ suc (length xs) = ap length h in omega (arith, e, length-drop i s)

  pub outside_of_drop : (i : ℕ) (s : List A) → drop i s ≡ [] → length s ≤ i
  outside_of_drop i s h =
      let e : length (drop i s) ≡ 0 = ap length h in omega (arith, e, length-drop i s)

  pub next_of_drop :
      (i : ℕ) (s : List A) (x : A) (xs : List A) → drop i s ≡ x ∷ xs → drop (i + 1) s ≡ xs
  next_of_drop i s x xs h = drop-drop i 1 s ∙ ap (drop 1) h

module _ (libs : Libraries) (file_system : FileSystem libs) (io : IoHandle) (file : FileIoHandle)
    (unicode : Unicode) (copies : CopiesAscii unicode) where
  -- A segment ends at the next separator, which is passed, or at the end of the string.
  pub find_segment_end-path_of :
      (fuel : ℕ) (string : List ℕ) (i : ℕ) (n : List ℕ) (ns : List (List ℕ))
      → drop i string ≡ n ++ path_of ns
      → All IsPlain n
      → length n + separators_before ns ≤ fuel
      → find_segment_end libs file_system io file unicode fuel string i
        ≡ ok (i + length n + separators_before ns, separators_before ns)
  unfolding find_segment_end
  find_segment_end-path_of zero string i [] [] h p f =
      let inside : ltb i (length string) ≡ false = ground (arith, outside_of_drop i string h) in
      let e : i + 0 + 0 ≡ i = omega arith in rw (inside, e)
  find_segment_end-path_of (suc fuel) string i [] [] h p f =
      let inside : ltb i (length string) ≡ false = ground (arith, outside_of_drop i string h) in
      let e : i + 0 + 0 ≡ i = omega arith in rw (inside, e)
  find_segment_end-path_of zero string i [] (m ∷ ms) h p f = absurd (omega arith)
  find_segment_end-path_of (suc fuel) string i [] (m ∷ ms) h p f =
      let inside : ltb i (length string) ≡ true =
        ground (arith, inside_of_drop i string separator (m ++ path_of ms) h) in
      let e : i + 0 + 1 ≡ i + 1 = omega arith in
      rw (
        inside,
        copies string i separator (elem_of_drop i string separator (m ++ path_of ms) h)
            (omega arith),
        e,
      )
  find_segment_end-path_of zero string i (c ∷ n) ns h p f = absurd (omega arith)
  find_segment_end-path_of (suc fuel) string i (c ∷ n) ns h (q, p) f =
      let rest = n ++ path_of ns in
      let inside : ltb i (length string) ≡ true =
        ground (arith, inside_of_drop i string c rest h) in
      let plain : (c == separator || c == 0) ≡ false = ground arith in
      let e : i + suc (length n) + separators_before ns ≡ i + 1 + length n + separators_before ns =
        omega arith in
      rw (inside, copies string i c (elem_of_drop i string c rest h) q.0, plain, e)
        (find_segment_end-path_of fuel string (i + 1) n ns (next_of_drop i string c rest h) p
          (omega arith))
