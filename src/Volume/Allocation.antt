-- ===== src/Volume/Allocation.antt =====
-- volume/writeheader.go: allocateExtents. The bitmap is returned beside the result, since a failure
-- also leaves one behind.
pub mod Taken
pub mod Enough
mod Examples
use ods.Base.{
  ℕ, zero, suc, ◌+◌, ◌-◌, ◌/◌, List, [], ◌∷◌, ◌++◌, Result, ok, err, zero_blocks, zero_cluster_size,
  no_space, out_of_fuel, min, ltb, ◌==◌, if◌then◌else◌,
}
use ods.Base.Word.{u32}
use ods.Ondisk.Retrieval.{Extent}
use ods.Volume.StorageBitmap.{
  Bitmap, find_free, free_clusters, largest_free_run, mark_allocated, mark_free,
}

abbrev pub Allocated : Type 0
Allocated = Bitmap × Result (List Extent)

-- The rollback of a failure: an extent that cannot be freed is passed over.
unfoldable pub kept_or : Bitmap → Result Bitmap → Bitmap
kept_or bm (err e) = bm
kept_or bm (ok bm') = bm'

unfoldable pub give_back : List Extent → Bitmap → Bitmap
unfolding kept_or
give_back [] bm = bm
give_back (e ∷ es) bm = give_back es (kept_or bm (mark_free bm e))

unfoldable pub after_marking :
    (Bitmap → Allocated) → Bitmap → List Extent → Result Bitmap → Allocated
unfolding give_back
after_marking next bm extents (err e) = (give_back extents bm, err e)
after_marking next bm extents (ok bm') = next bm'

unfoldable pub after_finding :
    (Extent → Bitmap → Allocated) → Bitmap → List Extent → Result Extent → Allocated
unfolding give_back after_marking
after_finding next bm extents (err e) = (give_back extents bm, err e)
after_finding next bm extents (ok found) =
    after_marking (next found) bm extents (mark_allocated bm found)

-- The loop. A round takes a cluster at least, so the clusters that remain are fuel enough. What
-- FindFree returns is never larger than what remains.
unfoldable pub allocate_rounds : ℕ → ℕ → List Extent → Bitmap → Allocated
unfolding after_finding give_back
allocate_rounds zero remaining extents bm =
    if remaining == 0 then (bm, ok extents) else (bm, err out_of_fuel)
allocate_rounds (suc fuel) remaining extents bm =
    let request = min remaining (largest_free_run bm) in
    let round =
      after_finding
        (λ (found : Extent) (bm' : Bitmap).
          allocate_rounds fuel (remaining - found.count / bm.cluster_size) (extents ++ found ∷ [])
            bm')
        bm extents (find_free bm request) in
    if remaining == 0
    then (bm, ok extents)
    else if request == 0
    then (give_back extents bm, err no_space)
    else round

-- The clusters are counted in 64 bits, before the check.
unfoldable pub clusters_for : ℕ → ℕ → ℕ
clusters_for cluster_size blocks = (blocks + cluster_size - 1) / cluster_size

unfoldable pub allocate_extents : Bitmap → ℕ → Allocated
unfolding allocate_rounds clusters_for
allocate_extents bm blocks =
    let clusters = clusters_for bm.cluster_size blocks in
    let rounds = allocate_rounds (u32 clusters) (u32 clusters) [] bm in
    if blocks == 0
    then (bm, err zero_blocks)
    else if bm.cluster_size == 0
    then (bm, err zero_cluster_size)
    else if ltb (free_clusters bm) clusters
    then (bm, err no_space)
    else rounds
