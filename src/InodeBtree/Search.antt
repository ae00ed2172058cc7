-- ===== src/InodeBtree/Search.antt =====
-- The search in an inode B+ tree finds the inodes of the tree's chunks and no other.
use libfsxfs.Prelude.{
  ℕ, zero, suc, ◌+◌, ◌*◌, ◌≤◌, ◌<◌, ◌≡◌, refl, ap, ◌∙◌, arith, false, List, [], ◌∷◌, ◌++◌, ltb, leb,
  ◌&&◌, ◌||◌, length, take, drop, length-drop, All, Bool-cases, inl, inr, some, get_elem?,
  if◌then◌else◌,
}
use libfsxfs.Result.{ok}
use libfsxfs.Word.{u32_mod}
use libfsxfs.Bytes.{be_value, read_uint32}
use libfsxfs.Bytes.Laws.{read_uint32_inside, read_uint64_inside}
use libfsxfs.Handle.{IoHandle, FileIoHandle}
use libfsxfs.InodeBtree.{read_record, in_record, find_in_records, find_key}
use libfsxfs.InodeBtree.Tree.{values_at, contains, Tree, Forest, no_trees, next_tree}

-- How many keys at the front are not behind the number.
abbrev pub position : ℕ → List ℕ → ℕ
position number [] = 0
position number (key ∷ keys) = if ltb number key then 0 else suc (position number keys)

pub find_key-position :
    (n : ℕ) (records : List ℕ) (offset number index : ℕ)
    → offset + 4 * n ≤ length records
    → find_key n records offset number index
      ≡ ok (index + position number (values_at 4 n records offset))
unfolding find_key
find_key-position zero records offset number index h = ap ok (omega arith)
find_key-position (suc n) records offset number index h =
    let key = be_value (take 4 (drop offset records)) in
    rw (read_uint32_inside records offset (omega arith)) (elim (Bool-cases (ltb number key)) [
      | inl before ↦ rw before (ap ok (omega arith))
      | inr behind ↦ rw behind (
          find_key-position n records (offset + 4) number (index + 1) (omega arith)
          ∙ ap ok (omega arith))
    ])

pub position-le :
    (number : ℕ) (n : ℕ) (records : List ℕ) (offset : ℕ)
    → position number (values_at 4 n records offset) ≤ n
position-le number zero records offset = omega arith
position-le number (suc n) records offset =
    ground (arith, position-le number n records (offset + 4))

-- The i-th of the values.
pub read_value :
    (n i : ℕ) (records : List ℕ) (offset : ℕ)
    → i < n
    → offset + 4 * n ≤ length records
    → (v : ℕ) × (get_elem? (values_at 4 n records offset) i ≡ some v)
      × (read_uint32 records (offset + 4 * i) ≡ ok v)
read_value zero i records offset h k = absurd (omega arith)
read_value (suc n) zero records offset h k =
    let e : offset + 4 * 0 ≡ offset = omega arith in
    (
      be_value (take 4 (drop offset records)),
      refl,
      rw e (read_uint32_inside records offset (omega arith)),
    )
read_value (suc n) (suc i) records offset h k =
    let r = read_value n i records (offset + 4) (omega arith) (omega arith) in
    let e : offset + 4 * suc i ≡ offset + 4 + 4 * i = omega arith in (r.0, r.1, rw e r.2)

pub find_in_records-contains :
    (n : ℕ) (records : List ℕ) (offset number : ℕ)
    → offset + 16 * n ≤ length records
    → All (λ c. c + 64 < u32_mod) (values_at 16 n records offset)
    → find_in_records n records offset number ≡ ok (contains number (values_at 16 n records offset))
unfolding find_in_records read_record
find_in_records-contains zero records offset number h a = refl
find_in_records-contains (suc n) records offset number h a =
    let part = drop offset records in
    let c = be_value (take 4 part) in
    let room : 16 ≤ length part = omega (arith, length-drop offset records) in
    let same : in_record number c ≡ (leb c number && ltb number (c + 64)) = ground arith in
    rw
      (
        read_uint32_inside part 0 (omega arith),
        read_uint32_inside part 4 (omega arith),
        read_uint64_inside part 8 (omega arith),
      )
      (elim (Bool-cases (in_record number c)) [
        | inl found ↦ rw (found, ← same, found)
        | inr missing ↦
            rw (missing, ← same, missing)
              (find_in_records-contains n records (offset + 16) number (omega arith) a.1)
      ])

contains-append :
    (number : ℕ) (cs ds : List ℕ)
    → contains number (cs ++ ds) ≡ (contains number cs || contains number ds)
contains-append number [] ds = refl
contains-append number (c ∷ cs) ds = ground (arith, contains-append number cs ds)

contains_below :
    (number next : ℕ) (cs : List ℕ)
    → All (λ c. c + 64 ≤ next) cs
    → next ≤ number
    → contains number cs ≡ false
contains_below number next [] a h = refl
contains_below number next (c ∷ cs) a h = ground (arith, contains_below number next cs a.1 h)

contains_above :
    (number key : ℕ) (cs : List ℕ)
    → All (λ c. key ≤ c) cs
    → number < key
    → contains number cs ≡ false
contains_above number key [] a h = refl
contains_above number key (c ∷ cs) a h = ground (arith, contains_above number key cs a.1 h)

-- A list of keys that begins behind the number.
position_zero : (number key : ℕ) (keys : List ℕ) → position number (key ∷ keys) ≡ 0 → number < key
position_zero number key keys h = ground arith

keys_above :
    (number key : ℕ) (cs keys : List ℕ)
    → All (λ next. All (λ c. c + 64 ≤ next) cs × (key ≤ next)) keys
    → number < key
    → All (λ next. number < next) keys
keys_above number key cs [] a h = tt
keys_above number key cs (next ∷ keys) a h =
    (omega (arith, a.0.1), keys_above number key cs keys a.1 h)

module _ (io : IoHandle) (file : FileIoHandle) (group number : ℕ) where
  Forest-above :
      {h : ℕ} {keys ks cs : List ℕ}
      → Forest io file group h keys ks cs
      → All (λ key. number < key) keys
      → contains number cs ≡ false
  Forest-above (no_trees h) a = refl
  Forest-above (next_tree h key k keys ks cs ds t above before f) a = ground (
    arith,
    contains-append number cs ds,
    contains_above number key cs above a.0,
    Forest-above f a.1,
  )

  pub Forest-zero :
      {h : ℕ} {keys ks cs : List ℕ}
      → Forest io file group h keys ks cs
      → position number keys ≡ 0
      → contains number cs ≡ false
  Forest-zero (no_trees h) e = refl
  Forest-zero (next_tree h key k keys ks cs ds t above before f) e =
      let p = position_zero number key keys e in
      ground (
        arith,
        contains-append number cs ds,
        contains_above number key cs above p,
        Forest-above f (keys_above number key cs keys before p),
      )

  -- The sub tree that the search goes to.
  abbrev pub Found : ℕ → List ℕ → List ℕ → ℕ → Type 0
  Found h ks cs i =
      (k : ℕ) × (part : List ℕ) × (get_elem? ks i ≡ some k)
      × Tree io file group h k part
      × (contains number cs ≡ contains number part)

  before_later :
      (i : ℕ) (cs keys : List ℕ) (key : ℕ)
      → All (λ next. All (λ c. c + 64 ≤ next) cs × (key ≤ next)) keys
      → position number keys ≡ suc i
      → contains number cs ≡ false
  before_later i cs [] key a e = absurd (omega (arith, e))
  before_later i cs (next ∷ keys) key a e = contains_below number next cs a.0.0 (ground arith)

  pub Forest-Found :
      {h : ℕ} {keys ks cs : List ℕ} (i : ℕ)
      → Forest io file group h keys ks cs
      → position number keys ≡ suc i
      → Found h ks cs i
  Forest-Found i (no_trees h) e = absurd (omega (arith, e))
  Forest-Found zero (next_tree h key k keys ks cs ds t above before f) e =
      (k, cs, refl, t, ground (arith, contains-append number cs ds, Forest-zero f (ground arith)))
  Forest-Found (suc i) (next_tree h key k keys ks cs ds t above before f) e =
      let later : position number keys ≡ suc i = ground arith in
      let g = Forest-Found i f later in
      (
        g.0,
        g.1,
        g.2,
        g.3,
        ground (arith, contains-append number cs ds, before_later i cs keys key before later, g.4),
      )
