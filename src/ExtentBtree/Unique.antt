-- ===== src/ExtentBtree/Unique.antt =====
-- The tree on disk determines its extents.
use mathlib.Core.Path.{ap₂, subst}
use libfsxfs.Prelude.{ℕ, ◌≡◌, refl, sym, ap, ◌∙◌, List, ◌++◌}
use libfsxfs.Result.{ok}
use libfsxfs.Handle.{IoHandle, FileIoHandle}
use libfsxfs.Btree.{BtreeBlock}
use libfsxfs.Extent.{Extent}
use libfsxfs.Extents.Fill.{extents_at}
use libfsxfs.ExtentBtree.Nodes.{
  NodeHas, BlocksHave, leaf, branch, no_blocks, next_block, sub_blocks,
}

ok-injective : {A : Type 0} {a b : A} → ok a ≡ ok b → a ≡ b
ok-injective h = cc

-- A tree on disk has one list of extents.
mutual
  NodeHas-unique :
      {io : IoHandle} {file : FileIoHandle} {k : ℕ} {xs ys : List Extent}
      → NodeHas io file k xs
      → NodeHas io file k ys
      → xs ≡ ys
  NodeHas-unique (leaf _ b e l) (leaf _ c f m) =
      let same : b ≡ c = ok-injective (sym e ∙ f) in
      ap (λ (x : BtreeBlock). extents_at x.header.number_of_records x.records_data 0) same
  NodeHas-unique (leaf _ b e l) (branch _ c ys f m h) =
      let same : b ≡ c = ok-injective (sym e ∙ f) in
      absurd (m (sym (ap (λ (x : BtreeBlock). x.header.level) same) ∙ l))
  NodeHas-unique (branch _ b xs e l g) (leaf _ c f m) =
      let same : b ≡ c = ok-injective (sym e ∙ f) in
      absurd (l (ap (λ (x : BtreeBlock). x.header.level) same ∙ m))
  NodeHas-unique {io} {file} (branch _ b xs e l g) (branch _ c ys f m h) =
      let same : c ≡ b = ok-injective (sym f ∙ e) in
      BlocksHave-unique g (
        subst
          (λ (x : BtreeBlock).
            BlocksHave io file
              (sub_blocks x.header.number_of_records x.records_data x.records_data_size) ys)
          same h)

  pub BlocksHave-unique :
      {io : IoHandle} {file : FileIoHandle} {ks : List ℕ} {xs ys : List Extent}
      → BlocksHave io file ks xs
      → BlocksHave io file ks ys
      → xs ≡ ys
  BlocksHave-unique no_blocks no_blocks = refl
  BlocksHave-unique (next_block k ks xs ys n r) (next_block _ _ xs' ys' n' r') =
      ap₂ ◌++◌ (NodeHas-unique n n') (BlocksHave-unique r r')
