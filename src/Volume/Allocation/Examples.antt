-- ===== src/Volume/Allocation/Examples.antt =====
-- Space taken from a volume of ten clusters of three blocks, in two pieces.
use ods.Base.{[], ◌∷◌, false}
use ods.Volume.StorageBitmap.{Bitmap}
use ods.Volume.Allocation.Taken.{Taken}

-- Clusters 1 and 4 are allocated.
abbrev ten : Bitmap
ten = record { cluster_size = 3; total_clusters = 10; bits = 237 ∷ 3 ∷ []; dirty = false }
