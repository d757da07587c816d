-- ===== src/Volume/StorageBitmap/Examples.antt =====
-- The theorems on the storage bitmap at a volume of ten clusters of three blocks.
use ods.Base.{
  ℕ, ◌≡◌, ◌+◌, ◌*◌, ◌/◌, ◌≤◌, ◌<◌, refl, [], ◌∷◌, true, false, ok, arith, ◌||◌, ltb, all_below,
  all_below→holds,
}
use ods.Ondisk.Retrieval.{Extent}
use ods.Ondisk.Bitmap.{bitmap_test, bitmap_clear, bitmap_set}
use ods.Volume.StorageBitmap.{
  Bitmap, find_free, find_run, mark_allocated, mark_free, free_clusters, for_clusters,
  cluster_range,
}
use ods.Volume.StorageBitmap.Search.{IsFree, IsWellFormed, find_free-IsFree, find_free_first_fit}
use ods.Volume.StorageBitmap.Marks.{Changed}
use ods.Volume.StorageBitmap.Allocation.{mark_allocated-find_free}

-- Clusters 1 and 4 are allocated.
abbrev ten : Bitmap
ten = record { cluster_size = 3; total_clusters = 10; bits = 237 ∷ 3 ∷ []; dirty = false }

abbrev three_clusters : Extent
three_clusters = record { count = 9; start_lbn = 15 }

ten-IsWellFormed : IsWellFormed ten
ten-IsWellFormed = record {
  bytes = omega arith;
  covers = omega arith;
  positive = omega arith;
  fits = omega arith;
}

find_free_three : find_free ten 3 ≡ ok three_clusters
unfolding find_free find_run bitmap_test
find_free_three = refl

abbrev ten_marked : Bitmap
ten_marked = record ten { bits = 13 ∷ 3 ∷ []; dirty = true }

mark_allocated_three : mark_allocated ten three_clusters ≡ ok ten_marked
unfolding mark_allocated cluster_range for_clusters bitmap_clear
mark_allocated_three = refl

mark_free_three : mark_free ten_marked three_clusters ≡ ok (record ten { dirty = true })
unfolding mark_free cluster_range for_clusters bitmap_set
mark_free_three = refl

find_free-IsFree_example :
    (start : ℕ) × (9 ≡ 3 * ten.cluster_size)
    × (15 ≡ start * ten.cluster_size)
    × (0 < 3)
    × (start + 3 ≤ ten.total_clusters)
    × IsFree ten start 3
find_free-IsFree_example = find_free-IsFree ten 3 three_clusters ten-IsWellFormed find_free_three

seven_up : all_below 10 (λ c. ltb c 7 || bitmap_test ten.bits c) ≡ true
unfolding all_below bitmap_test
seven_up = refl

seven-IsFree : IsFree ten 7 3
seven-IsFree c p q =
    ground (arith, all_below→holds 10 (λ c. ltb c 7 || bitmap_test ten.bits c) c seven_up)

find_free_first_fit_example :
    (e : Extent) × (find_free ten 3 ≡ ok e) × (e.start_lbn ≤ 7 * ten.cluster_size)
find_free_first_fit_example =
    find_free_first_fit ten 3 7 ten-IsWellFormed (omega arith) (omega arith) seven-IsFree

mark_allocated-find_free_example :
    (bm' : Bitmap) × (mark_allocated ten three_clusters ≡ ok bm')
    × Changed ten bm' (15 / 3) 3 false
    × (free_clusters bm' + 3 ≡ free_clusters ten)
mark_allocated-find_free_example =
    mark_allocated-find_free ten 3 three_clusters ten-IsWellFormed find_free_three
