-- ===== src/Volume/Allocation/Taken.antt =====
-- volume/writeheader.go: what extents take from a bitmap.
use ods.Base.{
  ℕ, ◌+◌, ◌*◌, ◌/◌, ◌≡◌, refl, ◌∙◌, List, [], ◌∷◌, Bool, true, false, ◌||◌, if◌then◌else◌, arith,
}
use ods.Ondisk.Retrieval.{Extent}
use ods.Ondisk.Bitmap.{bitmap_test}
use ods.Volume.StorageBitmap.{Bitmap, free_clusters}
use ods.Volume.StorageBitmap.Search.{IsFree, IsWellFormed}
use ods.Volume.StorageBitmap.Marks.{Changed, within}

-- Cluster `d` belongs to one of the extents.
abbrev pub covers : ℕ → List Extent → ℕ → Bool
covers cluster_size [] d = false
covers cluster_size (e ∷ es) d =
    within (e.start_lbn / cluster_size) (e.count / cluster_size) d || covers cluster_size es d

abbrev pub total_blocks : List Extent → ℕ
total_blocks [] = 0
total_blocks (e ∷ es) = e.count + total_blocks es

-- The second bitmap, of clusters of `size` blocks, is the first with `n` clusters taken, those of the
-- extents. All of them were free in the first, and no other cluster changed.
pub record Taken (size : ℕ) (bm bm' : Bitmap) (es : List Extent) (n : ℕ) : Type 0 where
  pub well_formed : IsWellFormed bm'
  pub same_cluster : bm'.cluster_size ≡ size
  pub same_total : bm'.total_clusters ≡ bm.total_clusters
  pub counted : free_clusters bm' + n ≡ free_clusters bm
  pub blocks : total_blocks es ≡ n * size
  pub clusters :
      (d : ℕ) → bitmap_test bm'.bits d ≡ (if covers size es d then false else bitmap_test bm.bits d)
  pub were_free : (d : ℕ) → covers size es d ≡ true → bitmap_test bm.bits d ≡ true

pub Taken-none : (bm : Bitmap) → IsWellFormed bm → Taken bm.cluster_size bm bm [] 0
Taken-none bm w = record {
  well_formed = w;
  same_cluster = refl;
  same_total = refl;
  counted = omega arith;
  blocks = omega arith;
  clusters = λ d. refl;
  were_free = λ d h. cc;
}

module _ (size : ℕ) (bm bm1 bm' : Bitmap) (e : Extent) (es : List Extent) (m n : ℕ)
    (units : e.count / size ≡ m) (ch : Changed bm bm1 (e.start_lbn / size) m false)
    (free : IsFree bm (e.start_lbn / size) m) (t : Taken size bm1 bm' es n) where
  clusters_more :
      (d : ℕ)
      → bitmap_test bm'.bits d ≡ (if covers size (e ∷ es) d then false else bitmap_test bm.bits d)
  clusters_more d = ground (arith, t.clusters d, ch.inside d, units)

  were_free_more : (d : ℕ) → covers size (e ∷ es) d ≡ true → bitmap_test bm.bits d ≡ true
  were_free_more d h = ground (arith, t.were_free d, ch.inside d, units, free d, h)

-- One more extent in front.
pub Taken-more :
    (size : ℕ) (bm bm1 bm' : Bitmap) (e : Extent) (es : List Extent) (m n : ℕ)
    → e.count ≡ m * size
    → e.count / size ≡ m
    → Changed bm bm1 (e.start_lbn / size) m false
    → free_clusters bm1 + m ≡ free_clusters bm
    → IsFree bm (e.start_lbn / size) m
    → Taken size bm1 bm' es n
    → Taken size bm bm' (e ∷ es) (m + n)
Taken-more size bm bm1 bm' e es m n blocks units ch paid free t = record {
  well_formed = t.well_formed;
  same_cluster = t.same_cluster;
  same_total = t.same_total ∙ ch.same_total;
  counted = omega (arith, paid, t.counted);
  blocks = grind (arith, blocks, t.blocks);
  clusters = clusters_more size bm bm1 bm' e es m n units ch free t;
  were_free = were_free_more size bm bm1 bm' e es m n units ch free t;
}
