-- ===== src/Array.antt =====
-- libcdata_array, which src/ only calls: an array of pointers to entries, as an interface. The
-- laws are what the library documents of the calls that libfsxfs makes. A call can fail, for
-- lack of memory, and then returns -1.
use libfsxfs.Prelude.{ℕ, ◌≡◌, refl, List, [], ◌∷◌, ◌++◌, Option, some, length, get_elem?, set}

pub record CdataArray (E : Type 0) : Type 1 where
  pub Array : Type 0
  -- The entries in order: what the laws speak of.
  pub entries : Array → List E
  -- `libcdata_array_initialize`, which gives an array with no entries.
  pub initialize : Option Array
  pub get_number_of_entries : Array → ℕ
  pub get_entry_by_index : Array → ℕ → Option E
  pub append_entry : Array → E → Option Array
  -- A write to an entry through the pointer that `get_entry_by_index` returned.
  pub write_entry : Array → ℕ → E → Array
  pub initialize_law : (a : Array) → initialize ≡ some a → entries a ≡ []
  pub number_law : (a : Array) → get_number_of_entries a ≡ length (entries a)
  pub get_law : (a : Array) (i : ℕ) → get_entry_by_index a i ≡ get_elem? (entries a) i
  pub append_law :
      (a b : Array) (e : E) → append_entry a e ≡ some b → entries b ≡ entries a ++ (e ∷ [])
  pub write_law : (a : Array) (i : ℕ) (e : E) → entries (write_entry a i e) ≡ set (entries a) i e

module _ {E : Type 0} where
  pub some_nil_law : (a : List E) → some [] ≡ some a → a ≡ []
  some_nil_law a h = cc

  abbrev append_some : List E → E → Option (List E)
  append_some xs e = some (xs ++ (e ∷ []))

  pub append_some_law : (a b : List E) (e : E) → append_some a e ≡ some b → b ≡ a ++ (e ∷ [])
  append_some_law a b e h = cc

-- The interface can be met: by the lists, where memory never runs out.
abbrev pub list_array : (E : Type 0) → CdataArray E
list_array E = record {
  Array = List E;
  entries = λ a. a;
  initialize = some [];
  get_number_of_entries = length;
  get_entry_by_index = get_elem?;
  append_entry = append_some;
  write_entry = set;
  initialize_law = some_nil_law;
  number_law = λ a. refl;
  get_law = λ a i. refl;
  append_law = append_some_law;
  write_law = λ a i e. refl;
}

-- Memory never runs out.
abbrev pub HasMemory : {E : Type 0} → CdataArray E → Type 0
HasMemory {E} lib =
    (a : CdataArray.Array lib) (e : E)
    → (b : CdataArray.Array lib) × (lib.append_entry a e ≡ some b)
