-- ===== src/Volume/StorageBitmap.antt =====
-- volume/bitmap.go: the in-memory cache of BITMAP.SYS. A set bit is a free cluster. `dev`, `file`,
-- `container` and `scb` are not fields here: allocation reads none of them.
pub mod Search
mod Examples
pub mod Longest
pub mod Marks
pub mod Allocation
use ods.Base.{
  ℕ, zero, suc, ◌+◌, ◌-◌, ◌*◌, ◌/◌, ◌%◌, List, Bool, true, not, Result, ok, err, zero_clusters,
  no_free_run, zero_extent, misaligned_start, misaligned_count, beyond_volume, ltb, ◌==◌,
  if◌then◌else◌, ◌>>=◌, max,
}
use ods.Base.Word.{u32}
use ods.Ondisk.Retrieval.{Extent}
use ods.Ondisk.Bitmap.{bitmap_test, bitmap_set, bitmap_clear}

pub record Bitmap : Type 0 where
  pub cluster_size : ℕ
  pub total_clusters : ℕ
  pub bits : List ℕ
  pub dirty : Bool

-- The loop over clusters, with `n` of them left from cluster `c` on and a free run of `run` before.
pub find_run : ℕ → Bitmap → ℕ → ℕ → ℕ → Result Extent
find_run zero bm clusters c run = err no_free_run
find_run (suc n) bm clusters c run =
    let found : Result Extent = ok (record {
      count = u32 (clusters * bm.cluster_size);
      start_lbn = u32 ((c + 1 - clusters) * bm.cluster_size);
    }) in
    let grown = find_run n bm clusters (c + 1) (run + 1) in
    let restarted = find_run n bm clusters (c + 1) 0 in
    if bitmap_test bm.bits c then (if run + 1 == clusters then found else grown) else restarted

pub find_free : Bitmap → ℕ → Result Extent
find_free bm clusters =
    if clusters == 0 then err zero_clusters else find_run bm.total_clusters bm clusters 0 0

pub count_free : ℕ → Bitmap → ℕ → ℕ → ℕ
count_free zero bm c free = free
count_free (suc n) bm c free =
    count_free n bm (c + 1) (if bitmap_test bm.bits c then free + 1 else free)

pub free_clusters : Bitmap → ℕ
free_clusters bm = count_free bm.total_clusters bm 0 0

pub longest_run : ℕ → Bitmap → ℕ → ℕ → ℕ → ℕ
longest_run zero bm c run longest = longest
longest_run (suc n) bm c run longest =
    longest_run n bm (c + 1) (if bitmap_test bm.bits c then run + 1 else 0)
      (if bitmap_test bm.bits c then max longest (run + 1) else longest)

pub largest_free_run : Bitmap → ℕ
largest_free_run bm = longest_run bm.total_clusters bm 0 0 0

-- The first cluster and the number of clusters of an extent.
pub cluster_range : Bitmap → Extent → Result (ℕ × ℕ)
cluster_range bm e =
    if e.count == 0
    then err zero_extent
    else if not (e.start_lbn % bm.cluster_size == 0)
    then err misaligned_start
    else if not (e.count % bm.cluster_size == 0)
    then err misaligned_count
    else if ltb bm.total_clusters (u32 (e.start_lbn / bm.cluster_size + e.count / bm.cluster_size))
    then err beyond_volume
    else ok (e.start_lbn / bm.cluster_size, e.count / bm.cluster_size)

-- `for c := start; c < start+count; c++`
pub for_clusters : (List ℕ → ℕ → List ℕ) → ℕ → ℕ → List ℕ → List ℕ
for_clusters change zero c bits = bits
for_clusters change (suc n) c bits = for_clusters change n (c + 1) (change bits c)

pub mark_allocated : Bitmap → Extent → Result Bitmap
mark_allocated bm e = do
  (start, count) ← cluster_range bm e
  ok (record bm { bits = for_clusters bitmap_clear count start bm.bits; dirty = true })

pub mark_free : Bitmap → Extent → Result Bitmap
mark_free bm e = do
  (start, count) ← cluster_range bm e
  ok (record bm { bits = for_clusters bitmap_set count start bm.bits; dirty = true })
