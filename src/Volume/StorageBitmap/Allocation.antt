-- ===== src/Volume/StorageBitmap/Allocation.antt =====
-- volume/bitmap.go: allocating what FindFree found, and freeing it again.
use ods.Base.{
  ℕ, zero, suc, ◌+◌, ◌-◌, ◌/◌, ◌≤◌, ◌<◌, ◌≡◌, refl, ap, ◌∙◌, true, false, ok, arith, if◌then◌else◌,
  Bool-cases, inl, inr,
}
use ods.Ondisk.Retrieval.{Extent}
use ods.Ondisk.Bitmap.{bitmap_test}
use ods.Volume.StorageBitmap.{
  Bitmap, mark_allocated, mark_free, find_free, count_free, free_clusters,
}
use ods.Volume.StorageBitmap.Search.{IsFree, IsWellFormed, find_free-IsFree}
use native.Mathlib.Nat.{mul-div_cancel}
use ods.Volume.StorageBitmap.Marks.{Changed, mark_allocated-Changed, mark_free-Changed}

count_free-add :
    (a b c f : ℕ) (bm : Bitmap)
    → count_free (a + b) bm c f ≡ count_free b bm (c + a) (count_free a bm c f)
unfolding count_free
count_free-add zero b c f bm =
    let e : zero + b ≡ b = omega arith in let e' : c + 0 ≡ c = omega arith in rw (e, e')
count_free-add (suc a) b c f bm =
    let e : suc a + b ≡ suc (a + b) = omega arith in
    let e' : c + suc a ≡ c + 1 + a = omega arith in
    rw (e, e') (count_free-add a b (c + 1) (if bitmap_test bm.bits c then f + 1 else f) bm)

count_free-split :
    (t start n rest : ℕ) (bm : Bitmap)
    → t ≡ start + (n + rest)
    → count_free t bm 0 0
      ≡ count_free rest bm (start + n) (count_free n bm start (count_free start bm 0 0))
count_free-split t start n rest bm e =
    let z : 0 + start ≡ start = omega arith in
    ap (λ k. count_free k bm 0 0) e
    ∙ count_free-add start (n + rest) 0 0 bm
    ∙ rw z (count_free-add n rest start (count_free start bm 0 0) bm)

-- Counting over clusters on which two bitmaps agree, and over a range of one value.
count_free-same :
    (n c f : ℕ) (bm bm' : Bitmap)
    → ((d : ℕ) → c ≤ d → d < c + n → bitmap_test bm'.bits d ≡ bitmap_test bm.bits d)
    → count_free n bm' c f ≡ count_free n bm c f
unfolding count_free
count_free-same zero c f bm bm' h = refl
count_free-same (suc n) c f bm bm' h = rw (h c (omega arith) (omega arith)) (
    count_free-same n (c + 1) (if bitmap_test bm.bits c then f + 1 else f) bm bm'
      (λ d p q. h d (omega arith) (omega arith)))

pub count_free-none :
    (n c f : ℕ) (bm : Bitmap)
    → ((d : ℕ) → c ≤ d → d < c + n → bitmap_test bm.bits d ≡ false)
    → count_free n bm c f ≡ f
unfolding count_free
count_free-none zero c f bm h = refl
count_free-none (suc n) c f bm h =
    rw (h c (omega arith) (omega arith))
      (count_free-none n (c + 1) f bm (λ d p q. h d (omega arith) (omega arith)))

count_free-every : (n c f : ℕ) (bm : Bitmap) → IsFree bm c n → count_free n bm c f ≡ f + n
unfolding count_free
count_free-every zero c f bm h = omega arith
count_free-every (suc n) c f bm h = rw (h c (omega arith) (omega arith)) (
    omega (arith, count_free-every n (c + 1) (f + 1) bm (λ d p q. h d (omega arith) (omega arith))))

count_free-start : (n c f : ℕ) (bm : Bitmap) → count_free n bm c f ≡ f + count_free n bm c 0
unfolding count_free
count_free-start zero c f bm = omega arith
count_free-start (suc n) c f bm = elim (Bool-cases (bitmap_test bm.bits c)) [
  | inl t ↦
      rw t (omega (arith, count_free-start n (c + 1) (f + 1) bm, count_free-start n (c + 1) 1 bm))
  | inr t ↦ rw t (count_free-start n (c + 1) f bm)
]

-- A change of `n` free clusters to allocated ones costs exactly `n` free clusters.
free_clusters-Changed :
    (bm bm' : Bitmap) (start n : ℕ)
    → start + n ≤ bm.total_clusters
    → IsFree bm start n
    → Changed bm bm' start n false
    → free_clusters bm' + n ≡ free_clusters bm
unfolding free_clusters
free_clusters-Changed bm bm' start n h free ch =
    let rest : ℕ = bm.total_clusters - (start + n) in
    let t : bm.total_clusters ≡ start + (n + rest) = omega arith in
    let f : ℕ = count_free start bm 0 0 in
    let before : count_free start bm' 0 0 ≡ f =
      count_free-same start 0 0 bm bm' (λ d p q. ground (arith, ch.inside d)) in
    ground (
      arith,
      ch.same_total,
      count_free-split bm.total_clusters start n rest bm t,
      count_free-split bm.total_clusters start n rest bm' t,
      before,
      count_free-none n start f bm' (λ d p q. ground (arith, ch.inside d)),
      count_free-every n start f bm free,
      count_free-same rest (start + n) f bm bm' (λ d p q. ground (arith, ch.inside d)),
      count_free-start rest (start + n) f bm,
      count_free-start rest (start + n) (f + n) bm,
    )

-- The extent that FindFree returns can be marked allocated: every cluster of it becomes allocated,
-- every other stays as it was, and the count of free clusters falls by the number asked for.
pub mark_allocated-find_free :
    (bm : Bitmap) (clusters : ℕ) (e : Extent)
    → IsWellFormed bm
    → find_free bm clusters ≡ ok e
    → (bm' : Bitmap) × (mark_allocated bm e ≡ ok bm')
      × Changed bm bm' (e.start_lbn / bm.cluster_size) clusters false
      × (free_clusters bm' + clusters ≡ free_clusters bm)
mark_allocated-find_free bm clusters e w h =
    let (start, blocks, first, pos, fit, free) = find_free-IsFree bm clusters e w h in
    let (bm', ok', ch) = mark_allocated-Changed bm e start clusters w blocks first pos fit in
    let at : e.start_lbn / bm.cluster_size ≡ start = rw first (mul-div_cancel start w.positive) in
    (bm', ok', rw at ch, free_clusters-Changed bm bm' start clusters fit free ch)

-- Freeing what was just allocated gives every cluster its old state back.
pub mark_free-mark_allocated :
    (bm : Bitmap) (clusters : ℕ) (e : Extent)
    → IsWellFormed bm
    → find_free bm clusters ≡ ok e
    → (bm' bm'' : Bitmap) → mark_allocated bm e ≡ ok bm'
    → mark_free bm' e ≡ ok bm''
    → (d : ℕ) → bitmap_test bm''.bits d ≡ bitmap_test bm.bits d
mark_free-mark_allocated bm clusters e w h bm' bm'' p q d =
    let (start, blocks, first, pos, fit, free) = find_free-IsFree bm clusters e w h in
    let (b', ok', ch) = mark_allocated-Changed bm e start clusters w blocks first pos fit in
    let same' : b' ≡ bm' = cc in
    let ch' : Changed bm bm' start clusters false = rw same' at ch in
    let (b'', ok'', back) =
      mark_free-Changed bm' e start clusters ch'.well_formed (rw ch'.same_cluster blocks)
        (rw ch'.same_cluster first) pos (rw ch'.same_total fit) in
    let same'' : b'' ≡ bm'' = cc in
    let back' : Changed bm' bm'' start clusters true = rw same'' at back in
    ground (arith, ch'.inside d, back'.inside d, free d)
