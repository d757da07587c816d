-- ===== src/Volume/StorageBitmap/Longest.antt =====
-- volume/bitmap.go: LargestFreeRun beside FindFree.
use ods.Base.{
  ℕ, zero, suc, ◌+◌, ◌-◌, ◌≤◌, ◌<◌, ◌≡◌, ◌↔◌, true, false, Bool-cases, inl, inr, ok, arith, max,
  ltb,
}
use ods.Ondisk.Retrieval.{Extent}
use ods.Ondisk.Bitmap.{bitmap_test}
use ods.Volume.StorageBitmap.{Bitmap, find_free, longest_run, largest_free_run, free_clusters}
use ods.Volume.StorageBitmap.Search.{IsFree, IsWellFormed, find_free-IsFree, find_free_first_fit}
use ods.Volume.StorageBitmap.Allocation.{count_free-none}
use native.Mathlib.Decide.{dec_lt}

module _ (bm : Bitmap) where
  record Measured (c run longest : ℕ) : Type 0 where
    run_le : run ≤ c
    run_longest : run ≤ longest
    maximal :
        (s : ℕ) → s ≤ c → ((d : ℕ) → s ≤ d → d < c → bitmap_test bm.bits d ≡ true) → c ≤ s + run
    free : (d : ℕ) → c ≤ d + run → d < c → bitmap_test bm.bits d ≡ true
    bound : (s m : ℕ) → s + m ≤ c → IsFree bm s m → m ≤ longest
    attained : (s : ℕ) × (s + longest ≤ c) × IsFree bm s longest

  -- The loop returns a length that some free run has and no free run exceeds.
  pub record Longest (longest : ℕ) : Type 0 where
    pub bound : (s m : ℕ) → s + m ≤ bm.total_clusters → IsFree bm s m → m ≤ longest
    pub attained : (s : ℕ) × (s + longest ≤ bm.total_clusters) × IsFree bm s longest

  grow_attained :
      (c run longest : ℕ)
      → Measured c run longest
      → bitmap_test bm.bits c ≡ true
      → (s : ℕ) × (s + max longest (run + 1) ≤ c + 1) × IsFree bm s (max longest (run + 1))
  grow_attained c run longest i t = elim (dec_lt longest (run + 1)) [
    | yes r ↦ (
      c - run,
      omega (arith, i.run_le),
      λ d p q. elim (dec_lt d c) [
        | yes u ↦ i.free d (omega (arith, i.run_le)) u
        | no u ↦ let e : d ≡ c = omega (arith, i.run_le) in rw e t
      ],
    )
    | no r ↦ let (s, h, f) = i.attained in (s, omega arith, λ d p q. f d p (omega arith))
  ]

  Measured-grow :
      (c run longest : ℕ)
      → Measured c run longest
      → bitmap_test bm.bits c ≡ true
      → Measured (c + 1) (run + 1) (max longest (run + 1))
  Measured-grow c run longest i t = record {
    run_le = omega (arith, i.run_le);
    run_longest = omega arith;
    maximal = λ s h f. elim (dec_lt c s) [
      | yes r ↦ omega arith
      | no r ↦ omega (arith, i.maximal s (omega arith) (λ d p q. f d p (omega arith)))
    ];
    free = λ d p q. elim (dec_lt d c) [
      | yes r ↦ i.free d (omega arith) r
      | no r ↦ let e : d ≡ c = omega arith in rw e t
    ];
    bound = λ s m h f. elim (dec_lt c (s + m)) [
      | no r ↦ omega (arith, i.bound s m (omega arith) f)
      | yes r ↦ elim (dec_lt c s) [
        | yes u ↦ omega arith
        | no u ↦ omega (arith, i.maximal s (omega arith) (λ d p q. f d p (omega arith)))
      ]
    ];
    attained = grow_attained c run longest i t;
  }

  Measured-restart :
      (c run longest : ℕ)
      → Measured c run longest
      → bitmap_test bm.bits c ≡ false
      → Measured (c + 1) 0 longest
  Measured-restart c run longest i t = record {
    run_le = omega arith;
    run_longest = omega arith;
    maximal = λ s h f. elim (dec_lt c s) [
      | yes r ↦ omega arith
      | no r ↦ cc (t, f c (omega arith) (omega arith))
    ];
    free = λ d p q. absurd (omega arith);
    bound = λ s m h f. elim (dec_lt c (s + m)) [
      | no r ↦ i.bound s m (omega arith) f
      | yes r ↦ elim (dec_lt c s) [
        | yes u ↦ omega arith
        | no u ↦ cc (t, f c (omega arith) (omega arith))
      ]
    ];
    attained = let (s, h, f) = i.attained in (s, omega arith, f);
  }

  longest_run-Longest :
      (n c run longest : ℕ)
      → c + n ≡ bm.total_clusters
      → Measured c run longest
      → Longest (longest_run n bm c run longest)
  unfolding longest_run
  longest_run-Longest zero c run longest e i = record {
    bound = λ s m h. i.bound s m (omega arith);
    attained = let (s, h, f) = i.attained in (s, omega arith, f);
  }
  longest_run-Longest (suc n) c run longest e i = elim (Bool-cases (bitmap_test bm.bits c)) [
    | inl t ↦ rw t (
        longest_run-Longest n (c + 1) (run + 1) (max longest (run + 1)) (omega arith)
          (Measured-grow c run longest i t))
    | inr t ↦
        rw t (
          longest_run-Longest n (c + 1) 0 longest (omega arith)
            (Measured-restart c run longest i t))
  ]

  pub largest_free_run-Longest : Longest (largest_free_run bm)
  unfolding largest_free_run
  largest_free_run-Longest = longest_run-Longest bm.total_clusters 0 0 0 (omega arith) (record {
    run_le = omega arith;
    run_longest = omega arith;
    maximal = λ s h f. omega arith;
    free = λ d p q. absurd (omega arith);
    bound = λ s m h f. omega arith;
    attained = (0, omega arith, λ d p q. absurd (omega arith));
  })

-- A request for at least one cluster is satisfied exactly when it is no larger than LargestFreeRun.
pub find_free-largest_free_run :
    (bm : Bitmap) (clusters : ℕ)
    → IsWellFormed bm
    → 0 < clusters
    → ((e : Extent) × (find_free bm clusters ≡ ok e)) ↔ (clusters ≤ largest_free_run bm)
find_free-largest_free_run bm clusters w h =
    let l = largest_free_run-Longest bm in
    (
      λ (e, p).
          let (start, blocks, first, pos, fit, free) = find_free-IsFree bm clusters e w p in
          l.bound start clusters fit free,
      λ k.
          let (s, fit, free) = l.attained in
          let (e, p, le) =
            find_free_first_fit bm clusters s w h (omega arith) (λ d p q. free d p (omega arith)) in
          (e, p),
    )

-- A volume with a free cluster has a free run.
pub largest_free_run_positive : (bm : Bitmap) → 0 < free_clusters bm → 0 < largest_free_run bm
unfolding free_clusters
largest_free_run_positive bm h = elim (Bool-cases (ltb 0 (largest_free_run bm))) [
  | inl t ↦ ground (arith, t)
  | inr t ↦
      let l = largest_free_run-Longest bm in
      let none : largest_free_run bm ≡ 0 = ground (arith, t) in
      let all : (d : ℕ) → 0 ≤ d → d < 0 + bm.total_clusters → bitmap_test bm.bits d ≡ false =
        λ d p q. elim (Bool-cases (bitmap_test bm.bits d)) [
          | inr f ↦ f
          | inl f ↦
              let run : IsFree bm d 1 = λ c u v. let e : c ≡ d = omega arith in rw e f in
              absurd (omega (arith, none, l.bound d 1 (omega arith) run))
        ] in
      absurd (omega (arith, count_free-none bm.total_clusters 0 0 bm all))
]
