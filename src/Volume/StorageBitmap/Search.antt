-- ===== src/Volume/StorageBitmap/Search.antt =====
-- volume/bitmap.go: the run of clusters that FindFree returns.
use ods.Base.{
  ℕ, zero, suc, ◌+◌, ◌-◌, ◌*◌, ◌≤◌, ◌<◌, ◌≡◌, ◌^◌, refl, true, false, Bool-cases, inl, inr, Result,
  ok, err, no_free_run, arith, ◌==◌, ◌∙◌, length, Result-cases,
}
use ods.Base.Word.{u32}
use ods.Ondisk.Retrieval.{Extent}
use ods.Ondisk.Bitmap.{bitmap_test}
use ods.Ondisk.Bitmap.Laws.{IsBitmap}
use ods.Volume.StorageBitmap.{Bitmap, find_run, find_free}
use native.Mathlib.Decide.{dec_lt}

-- `n` clusters from `s` on are free.
abbrev pub IsFree : Bitmap → ℕ → ℕ → Type 0
IsFree bm s n = (c : ℕ) → s ≤ c → c < s + n → bitmap_test bm.bits c ≡ true

module _ (bm : Bitmap) (clusters : ℕ) where
  -- What the loop knows at cluster `c`: the last `run` clusters are free, and no run that is long
  -- enough starts before those.
  record Scan (c run : ℕ) : Type 0 where
    run_le : run ≤ c
    short : run < clusters
    free : (d : ℕ) → c ≤ d + run → d < c → bitmap_test bm.bits d ≡ true
    earlier : (s : ℕ) → s + run < c → ¬ IsFree bm s clusters

  abbrev Found : Extent → Type 0
  Found e =
      (start : ℕ) × (e.count ≡ u32 (clusters * bm.cluster_size))
      × (e.start_lbn ≡ u32 (start * bm.cluster_size))
      × (start + clusters ≤ bm.total_clusters)
      × IsFree bm start clusters
      × ((s : ℕ) → s < start → ¬ IsFree bm s clusters)

  abbrev Outcome : Result Extent → Type 0
  Outcome (ok e) = Found e
  Outcome (err x) =
      (x ≡ no_free_run) × ((s : ℕ) → s + clusters ≤ bm.total_clusters → ¬ IsFree bm s clusters)

  Scan-grow :
      {c run : ℕ}
      → Scan c run
      → bitmap_test bm.bits c ≡ true
      → run + 1 < clusters
      → Scan (c + 1) (run + 1)
  Scan-grow {c} {run} i t h = record {
    run_le = omega arith;
    short = h;
    free = λ d p q. elim (dec_lt d c) [
      | yes r ↦ i.free d (omega arith) r
      | no r ↦ let e : d ≡ c = omega arith in rw e t
    ];
    earlier = λ s p. i.earlier s (omega arith);
  }

  Scan-restart : {c run : ℕ} → Scan c run → bitmap_test bm.bits c ≡ false → Scan (c + 1) 0
  Scan-restart {c} {run} i t = record {
    run_le = omega arith;
    short = omega arith;
    free = λ d p q. absurd (omega arith);
    earlier = λ s p f. elim (dec_lt (s + run) c) [
      | yes r ↦ i.earlier s r f
      | no r ↦ cc (t, f c (omega arith) (omega arith))
    ];
  }

  find_run-Outcome :
      (n c run : ℕ)
      → c + n ≡ bm.total_clusters
      → Scan c run
      → Outcome (find_run n bm clusters c run)
  unfolding find_run
  find_run-Outcome zero c run e i = (refl, λ s h. i.earlier s (omega arith))
  find_run-Outcome (suc n) c run e i = elim (Bool-cases (bitmap_test bm.bits c)) [
    | inr t ↦ rw t (find_run-Outcome n (c + 1) 0 (omega arith) (Scan-restart i t))
    | inl t ↦ elim (Bool-cases (run + 1 == clusters)) [
      | inr more ↦
          rw (t, more)
            (find_run-Outcome n (c + 1) (run + 1) (omega arith) (Scan-grow i t (ground arith)))
      | inl done ↦
          let w : run + 1 ≡ clusters = ground arith in
          rw (t, done)
            (
              c + 1 - clusters,
              refl,
              refl,
              omega arith,
              λ d p q. elim (dec_lt d c) [
                | yes r ↦ i.free d (omega arith) r
                | no r ↦ let e : d ≡ c = omega arith in rw e t
              ],
              λ s p. i.earlier s (omega arith),
            )
    ]
  ]

  pub find_free-Outcome : 0 < clusters → Outcome (find_free bm clusters)
  unfolding find_free
  find_free-Outcome h =
      let nz : (clusters == 0) ≡ false = ground arith in
      rw nz (
        find_run-Outcome bm.total_clusters 0 0 (omega arith) (record {
          run_le = omega arith;
          short = h;
          free = λ d p q. absurd (omega arith);
          earlier = λ s p. absurd (omega arith);
        }))

-- The limits that opening a bitmap establishes: the bits cover the clusters and block numbers fit
-- 32 bits.
pub record IsWellFormed (bm : Bitmap) : Type 0 where
  pub bytes : IsBitmap bm.bits
  pub covers : bm.total_clusters ≤ length bm.bits * 8
  pub positive : 0 < bm.cluster_size
  pub fits : bm.total_clusters * bm.cluster_size < 2 ^ 32

no_wrap : (k t c : ℕ) → k ≤ t → t * c < 2 ^ 32 → u32 (k * c) ≡ k * c
no_wrap k t c h f = grind arith

-- What FindFree returns is a run of free clusters inside the volume, of exactly the size asked for,
-- given in blocks.
pub find_free-IsFree :
    (bm : Bitmap) (clusters : ℕ) (e : Extent)
    → IsWellFormed bm
    → find_free bm clusters ≡ ok e
    → (start : ℕ) × (e.count ≡ clusters * bm.cluster_size)
      × (e.start_lbn ≡ start * bm.cluster_size)
      × (0 < clusters)
      × (start + clusters ≤ bm.total_clusters)
      × IsFree bm start clusters
find_free-IsFree bm zero e w h = absurd (unfold find_free in ground arith)
find_free-IsFree bm (suc k) e w h =
    let o : Outcome bm (suc k) (ok e) = rw h at (find_free-Outcome bm (suc k) (omega arith)) in
    let (start, count, lbn, inside, free, first) = o in
    let wc = no_wrap (suc k) bm.total_clusters bm.cluster_size (omega arith) w.fits in
    let ws = no_wrap start bm.total_clusters bm.cluster_size (omega arith) w.fits in
    (start, count ∙ wc, lbn ∙ ws, omega arith, inside, free)

-- Where some run of that many free clusters exists, FindFree succeeds, and what it returns starts
-- no later than that run: the search is complete, and it is first fit.
pub find_free_first_fit :
    (bm : Bitmap) (clusters s : ℕ)
    → IsWellFormed bm
    → 0 < clusters
    → s + clusters ≤ bm.total_clusters
    → IsFree bm s clusters
    → (e : Extent) × (find_free bm clusters ≡ ok e) × (e.start_lbn ≤ s * bm.cluster_size)
find_free_first_fit bm clusters s w h k f = elim (Result-cases (find_free bm clusters)) [
  | inr (x, p) ↦
      let o : Outcome bm clusters (err x) = rw p at (find_free-Outcome bm clusters h) in
      absurd (o.1 s k f)
  | inl (e, p) ↦
      let o : Outcome bm clusters (ok e) = rw p at (find_free-Outcome bm clusters h) in
      let (start, count, lbn, inside, free, first) = o in
      let ws = no_wrap start bm.total_clusters bm.cluster_size (omega arith) w.fits in
      let le : start ≤ s = elim (dec_lt s start) [
        | yes r ↦ absurd (first s r f)
        | no r ↦ omega arith
      ] in
      (e, p, grind arith)
]
