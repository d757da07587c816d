-- ===== src/Volume/Mount/HomeSearch.antt =====
-- volume/volume.go: the scan for the home block.
use ods.Base.{
  ℕ, zero, suc, ◌+◌, ◌≡◌, ◌≤◌, ◌<◌, refl, List, ok, >>=-eq-ok, min, arith, ◌==◌, Result-cases, inl,
  inr, Bool-cases,
}
use ods.Ondisk.HomeBlock.{HomeBlock, decode_home_block}
use ods.Volume.Device.{Container}
use ods.Volume.Mount.{try_home, first_ok, scan_home, find_home_block}

-- Block `lbn` of a container is a valid home block that says it is there.
pub record IsHome (c : Container) (lbn : ℕ) (home : HomeBlock) : Type 0 where
  pub block : List ℕ
  pub read : c.read_block lbn ≡ ok block
  pub decoded : decode_home_block block ≡ ok home
  pub itself : home.home_lbn ≡ lbn

try_home-IsHome :
    (c : Container) (lbn : ℕ) (home : HomeBlock) → try_home c lbn ≡ ok home → IsHome c lbn home
unfolding try_home
try_home-IsHome c lbn home h =
    let (b, r, h') = >>=-eq-ok (c.read_block lbn) _ h in
    let (got, d, h'') = >>=-eq-ok (decode_home_block b) _ h' in
    let same : (got.home_lbn ≡ lbn) × (got ≡ home) = ground arith in
    record { block = b; read = r; decoded = cc (d, same.1); itself = rw same.1 at same.0 }

IsHome-try_home :
    (c : Container) (lbn : ℕ) (home : HomeBlock) → IsHome c lbn home → try_home c lbn ≡ ok home
unfolding try_home
IsHome-try_home c lbn home h = rw (h.read, h.decoded) (ground (arith, h.itself))

scan_home_sound :
    (n : ℕ) (c : Container) (lbn : ℕ) (home : HomeBlock)
    → scan_home n c lbn ≡ ok home
    → (k : ℕ) × (lbn ≤ k)
      × (k < lbn + n)
      × IsHome c k home
      × ((j : ℕ) (other : HomeBlock) → lbn ≤ j → j < k → ¬ IsHome c j other)
unfolding scan_home first_ok
scan_home_sound zero c lbn home h = cc
scan_home_sound (suc n) c lbn home h = elim (Result-cases (try_home c lbn)) [
  | inl (got, e) ↦
      let same : got ≡ home = ground (arith, e) in
      (
        lbn,
        omega arith,
        omega arith,
        try_home-IsHome c lbn home (cc (e, same)),
        λ j other p q. absurd (omega arith),
      )
  | inr (error, e) ↦
      let (k, p, q, is, first) = scan_home_sound n c (lbn + 1) home (rw e at h) in
      (
        k,
        omega arith,
        omega arith,
        is,
        λ j other p' q' w. elim (Bool-cases (j == lbn)) [
          | inl t ↦
              let here : j ≡ lbn = ground arith in
              absurd (cc (e, IsHome-try_home c lbn other (rw here at w)))
          | inr t ↦ first j other (ground arith) q' w
        ],
      )
]

scan_home_complete :
    (n : ℕ) (c : Container) (lbn k : ℕ) (home : HomeBlock)
    → lbn ≤ k
    → k < lbn + n
    → IsHome c k home
    → (found : HomeBlock) × (scan_home n c lbn ≡ ok found)
unfolding scan_home first_ok
scan_home_complete zero c lbn k home p q w = absurd (omega arith)
scan_home_complete (suc n) c lbn k home p q w = elim (Result-cases (try_home c lbn)) [
  | inl (got, e) ↦ (got, rw e refl)
  | inr (error, e) ↦ elim (Bool-cases (k == lbn)) [
    | inl t ↦
        let here : k ≡ lbn = ground arith in
        absurd (cc (e, IsHome-try_home c lbn home (rw here at w)))
    | inr t ↦
        let (found, run) = scan_home_complete n c (lbn + 1) k home (ground arith) (omega arith) w in
        (found, rw e run)
  ]
]

-- Where findHomeBlock succeeds, its home block stands in one of the container's blocks from 1 to
-- 100, and no block from 1 on before it is a home block.
pub find_home_block-IsHome :
    (c : Container) (home : HomeBlock)
    → find_home_block c ≡ ok home
    → (k : ℕ) × (1 ≤ k)
      × (k ≤ min 100 c.blocks)
      × IsHome c k home
      × ((j : ℕ) (other : HomeBlock) → 1 ≤ j → j < k → ¬ IsHome c j other)
unfolding find_home_block
find_home_block-IsHome c home h =
    let (k, p, q, is, first) = scan_home_sound (min 100 c.blocks) c 1 home h in
    (k, p, omega arith, is, first)

-- A container with a home block in one of its blocks from 1 to 100 is one that findHomeBlock
-- succeeds on, whatever its other blocks hold and even where some of them cannot be read.
pub find_home_block_finds :
    (c : Container) (k : ℕ) (home : HomeBlock)
    → 1 ≤ k
    → k ≤ min 100 c.blocks
    → IsHome c k home
    → (found : HomeBlock) × (find_home_block c ≡ ok found)
unfolding find_home_block
find_home_block_finds c k home p q w =
    scan_home_complete (min 100 c.blocks) c 1 k home p (omega arith) w
