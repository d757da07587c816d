-- ===== src/Volume/StorageBitmap/Marks.antt =====
-- volume/bitmap.go: the state of the clusters after MarkAllocated and MarkFree.
use ods.Base.{
  ℕ, zero, suc, ◌+◌, ◌*◌, ◌/◌, ◌≤◌, ◌<◌, ◌≡◌, ◌^◌, refl, ◌∙◌, List, Bool, true, false, ◌&&◌, ok,
  arith, ltb, leb, ◌==◌, length, if◌then◌else◌,
}
use ods.Ondisk.Retrieval.{Extent}
use ods.Ondisk.Bitmap.{bitmap_test, bitmap_set, bitmap_clear}
use ods.Ondisk.Bitmap.Laws.{
  IsBitmap, bitmap_set-IsBitmap, bitmap_clear-IsBitmap, length-bitmap_set, length-bitmap_clear,
  bitmap_test-bitmap_set, bitmap_test-bitmap_clear,
}
use ods.Volume.StorageBitmap.{Bitmap, cluster_range, for_clusters, mark_allocated, mark_free}
use ods.Volume.StorageBitmap.Search.{IsWellFormed}
use native.Mathlib.Nat.{mul-div_cancel, mul-mod_left}

-- The clusters from `start` on, `count` of them.
abbrev pub within : ℕ → ℕ → ℕ → Bool
within start count d = leb start d && ltb d (start + count)

-- A change of one bit, applied to a range of clusters.
module _ (change : List ℕ → ℕ → List ℕ) (value : Bool)
    (keeps : (bits : List ℕ) (c : ℕ) → IsBitmap bits → IsBitmap (change bits c))
    (same_length : (bits : List ℕ) (c : ℕ) → length (change bits c) ≡ length bits)
    (one : (bits : List ℕ) (c d : ℕ)
      → IsBitmap bits
      → c / 8 < length bits
      → bitmap_test (change bits c) d ≡ (if c == d then value else bitmap_test bits d)) where
  for_clusters_lem :
      (n c d : ℕ) (bits : List ℕ)
      → IsBitmap bits
      → c + n ≤ length bits * 8
      → bitmap_test (for_clusters change n c bits) d
        ≡ (if within c n d then value else bitmap_test bits d)
  unfolding for_clusters
  for_clusters_lem zero c d bits h f = ground arith
  for_clusters_lem (suc n) c d bits h f = ground (
    arith,
    for_clusters_lem n (c + 1) d (change bits c) (keeps bits c h)
        (omega (arith, same_length bits c)),
    one bits c d h,
  )

  for_clusters_keeps :
      (n c : ℕ) (bits : List ℕ)
      → IsBitmap bits
      → IsBitmap (for_clusters change n c bits)
        × (length (for_clusters change n c bits) ≡ length bits)
  unfolding for_clusters
  for_clusters_keeps zero c bits h = (h, refl)
  for_clusters_keeps (suc n) c bits h =
      let (a, b) = for_clusters_keeps n (c + 1) (change bits c) (keeps bits c h) in
      (a, b ∙ same_length bits c)

cluster_range_lem :
    (bm : Bitmap) (e : Extent) (start count : ℕ)
    → IsWellFormed bm
    → e.count ≡ count * bm.cluster_size
    → e.start_lbn ≡ start * bm.cluster_size
    → 0 < count
    → start + count ≤ bm.total_clusters
    → cluster_range bm e ≡ ok (start, count)
unfolding cluster_range
cluster_range_lem bm e start count w ec es h k =
    let dc = mul-div_cancel count w.positive in
    let ds = mul-div_cancel start w.positive in
    let mc = mul-mod_left count bm.cluster_size in
    let ms = mul-mod_left start bm.cluster_size in
    let pos : 1 ≤ count * bm.cluster_size = grind (arith, w.positive) in
    let small : bm.total_clusters < 2 ^ 32 = grind (arith, w.fits, w.positive) in
    rw (ec, es, dc, ds, mc, ms) (ground arith)

-- `bm'` is `bm` with the clusters of a range set to one value, and nothing else changed but `dirty`.
pub record Changed (bm bm' : Bitmap) (start count : ℕ) (value : Bool) : Type 0 where
  pub inside :
      (d : ℕ)
      → bitmap_test bm'.bits d ≡ (if within start count d then value else bitmap_test bm.bits d)
  pub same_total : bm'.total_clusters ≡ bm.total_clusters
  pub same_cluster : bm'.cluster_size ≡ bm.cluster_size
  pub marked : bm'.dirty ≡ true
  pub well_formed : IsWellFormed bm'

module _ (bm : Bitmap) (e : Extent) (start count : ℕ) (w : IsWellFormed bm)
    (blocks : e.count ≡ count * bm.cluster_size) (first : e.start_lbn ≡ start * bm.cluster_size)
    (some_clusters : 0 < count) (fit : start + count ≤ bm.total_clusters) where
  pub mark_allocated-Changed :
      (bm' : Bitmap) × (mark_allocated bm e ≡ ok bm') × Changed bm bm' start count false
  unfolding mark_allocated
  mark_allocated-Changed =
      let r = cluster_range_lem bm e start count w blocks first some_clusters fit in
      let (b, l) =
        for_clusters_keeps bitmap_clear false bitmap_clear-IsBitmap length-bitmap_clear
          bitmap_test-bitmap_clear count start bm.bits w.bytes in
      (
        record bm { bits = for_clusters bitmap_clear count start bm.bits; dirty = true },
        rw r,
        record {
          inside = λ d.
              for_clusters_lem bitmap_clear false bitmap_clear-IsBitmap length-bitmap_clear
                bitmap_test-bitmap_clear count start d bm.bits w.bytes (omega (arith, w.covers));
          same_total = refl;
          same_cluster = refl;
          marked = refl;
          well_formed = record {
            bytes = b;
            covers = omega (arith, l, w.covers);
            positive = w.positive;
            fits = w.fits;
          };
        },
      )

  pub mark_free-Changed :
      (bm' : Bitmap) × (mark_free bm e ≡ ok bm') × Changed bm bm' start count true
  unfolding mark_free
  mark_free-Changed =
      let r = cluster_range_lem bm e start count w blocks first some_clusters fit in
      let (b, l) =
        for_clusters_keeps bitmap_set true bitmap_set-IsBitmap length-bitmap_set
          bitmap_test-bitmap_set count start bm.bits w.bytes in
      (
        record bm { bits = for_clusters bitmap_set count start bm.bits; dirty = true },
        rw r,
        record {
          inside = λ d.
              for_clusters_lem bitmap_set true bitmap_set-IsBitmap length-bitmap_set
                bitmap_test-bitmap_set count start d bm.bits w.bytes (omega (arith, w.covers));
          same_total = refl;
          same_cluster = refl;
          marked = refl;
          well_formed = record {
            bytes = b;
            covers = omega (arith, l, w.covers);
            positive = w.positive;
            fits = w.fits;
          };
        },
      )
