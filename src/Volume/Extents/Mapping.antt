-- ===== src/Volume/Extents/Mapping.antt =====
-- volume/file.go: resolving a virtual block number beside the list of a file's blocks.
use ods.Base.{
  ℕ, zero, suc, ◌+◌, ◌-◌, ◌≡◌, ◌≤◌, ◌<◌, ◌^◌, refl, ap, List, [], ◌∷◌, ◌++◌, Result, ok, err,
  zero_vbn, beyond_file, arith, length, All, leb, ◌==◌, if◌then◌else◌, length-append, get_or,
  get_or-append, get_or-append_left, Bool-cases, inl, inr,
}
use ods.Volume.Device.{ExtentLocation}
use ods.Volume.Extents.{resolve_from, resolve_extent_lbn}

-- The blocks of a run.
unfoldable pub run_blocks : ℕ → ℕ → List ℕ
run_blocks lbn zero = []
run_blocks lbn (suc n) = lbn ∷ run_blocks (lbn + 1) n

-- The logical blocks of a file, in the order of its virtual blocks.
unfoldable pub file_blocks : List ExtentLocation → List ℕ
unfolding run_blocks
file_blocks [] = []
file_blocks (e ∷ es) = run_blocks e.extent.start_lbn e.extent.count ++ file_blocks es

-- An extent whose blocks have 32-bit numbers.
abbrev pub FitsVolume : ExtentLocation → Type 0
FitsVolume e = e.extent.start_lbn + e.extent.count ≤ 2 ^ 32

pub length-run_blocks : (lbn n : ℕ) → length (run_blocks lbn n) ≡ n
unfolding run_blocks
length-run_blocks lbn zero = refl
length-run_blocks lbn (suc n) = ap suc (length-run_blocks (lbn + 1) n)

get_or-run_blocks : (lbn n i d : ℕ) → i < n → get_or (run_blocks lbn n) i d ≡ lbn + i
unfolding run_blocks
get_or-run_blocks lbn zero i d h = absurd (omega arith)
get_or-run_blocks lbn (suc n) zero d h = omega arith
get_or-run_blocks lbn (suc n) (suc i) d h = omega (arith, get_or-run_blocks (lbn + 1) n i d)

-- A lookup by a virtual block number.
unfoldable pub lookup_block : List ℕ → ℕ → Result ℕ
lookup_block blocks vbn =
    if vbn == 0
    then err zero_vbn
    else if leb vbn (length blocks)
    then ok (get_or blocks (vbn - 1) 0)
    else err beyond_file

resolve_from-file_blocks :
    (es : List ExtentLocation) (vbn : ℕ)
    → All FitsVolume es
    → 0 < vbn
    → resolve_from vbn es ≡ (
        if leb vbn (length (file_blocks es))
        then ok (get_or (file_blocks es) (vbn - 1) 0)
        else err beyond_file)
unfolding resolve_from file_blocks
resolve_from-file_blocks [] vbn h p = ground arith
resolve_from-file_blocks (e ∷ es) vbn (h, hs) p =
    let run : List ℕ = run_blocks e.extent.start_lbn e.extent.count in
    let size = length-run_blocks e.extent.start_lbn e.extent.count in
    let total = length-append run (file_blocks es) in
    elim (Bool-cases (leb vbn e.extent.count)) [
      | inl t ↦
          let inside : vbn ≤ e.extent.count = ground arith in
          let here = get_or-append_left run (file_blocks es) (vbn - 1) 0 (omega arith) in
          let value =
            get_or-run_blocks e.extent.start_lbn e.extent.count (vbn - 1) 0 (omega arith) in
          ground (arith, t, total, size, here, value)
      | inr t ↦
          let outside : e.extent.count < vbn = ground arith in
          let later = get_or-append run (file_blocks es) (vbn - 1 - e.extent.count) 0 in
          let index : length run + (vbn - 1 - e.extent.count) ≡ vbn - 1 = omega arith in
          let same : vbn - 1 - e.extent.count ≡ vbn - e.extent.count - 1 = omega arith in
          let later' = rw (index, same) at later in
          rw t (
            ground (
              arith,
              total,
              size,
              later',
              resolve_from-file_blocks es (vbn - e.extent.count) hs (omega arith),
            ))
    ]

-- For extents with 32-bit block numbers, resolveExtentLBN looks a virtual block up in the list of
-- the file's blocks, counting from 1, and fails on 0 and behind the end of the list.
pub resolve_extent_lbn-file_blocks :
    (es : List ExtentLocation) (vbn : ℕ)
    → All FitsVolume es
    → resolve_extent_lbn es vbn ≡ lookup_block (file_blocks es) vbn
unfolding resolve_extent_lbn lookup_block
resolve_extent_lbn-file_blocks es vbn h = elim (Bool-cases (vbn == 0)) [
  | inl t ↦ rw t refl
  | inr t ↦ rw t (resolve_from-file_blocks es vbn h (ground arith))
]
