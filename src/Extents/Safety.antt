-- ===== src/Extents/Safety.antt =====
-- The tail that libfsxfs_extent_list.c appends ends, with a result or an error.
use libfsxfs.Prelude.{ℕ, Bool, ltb, ◌&&◌}
use libfsxfs.Prelude.{◌≡◌}
use libfsxfs.Result.{ok, IsTotal, Ensures-bind, Ensures-if, or_fail, or_fail-IsTotal, append_failed}
use libfsxfs.Array.{CdataArray}
use libfsxfs.Extent.{Extent}
use libfsxfs.Extents
use libfsxfs.Extents.{end_of_last, sparse_extent, needs_sparse}
use libfsxfs.Extents.Fill.{get_last_extent-Ensures}

module _ (lib : CdataArray Extent) where
  open lib use {Array, append_entry}

  pub append_tail-IsTotal :
      (extents : Array) (number_of_blocks : ℕ) (add_sparse : Bool)
      → IsTotal (Extents.append_tail lib extents number_of_blocks add_sparse)
  unfolding Extents.append_tail Extents.append
  append_tail-IsTotal extents n add_sparse =
      Ensures-bind (λ l. end_of_last l ≡ _) (λ _. Unit {0}) (Extents.get_last_extent lib extents) _
        (get_last_extent-Ensures lib extents)
        λ last _.
          Ensures-if (λ _. Unit {0}) (add_sparse && ltb (end_of_last last) n) _ (ok extents)
            (λ _.
              let e = sparse_extent (end_of_last last) 0 in
              Ensures-if (λ _. Unit {0}) (needs_sparse lib last) _ (ok _)
                (λ _.
                  Ensures-bind (λ _. Unit {0}) (λ _. Unit {0})
                    (or_fail (append_entry extents e) append_failed) _
                    (or_fail-IsTotal (append_entry extents e) append_failed) λ _ _. tt)
                (λ _. tt))
            (λ _. tt)
