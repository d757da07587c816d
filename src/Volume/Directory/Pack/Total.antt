-- ===== src/Volume/Directory/Pack/Total.antt =====
-- volume/directory.go: packing a directory's entries always comes to an end with blocks.
use ods.Base.{
  ℕ, zero, suc, ◌+◌, ◌≤◌, ◌<◌, ◌≡◌, refl, inl, inr, List, [], ◌∷◌, ◌++◌, append-nil, true, false,
  ◌&&◌, ok, Result-cases, length, take, drop, length-drop, ◌==◌, All, arith, Bool-cases,
}
use ods.Ondisk.DirEntry.{DirEntry, names_seen, group_of, sort_names, sort_versions}
use ods.Ondisk.DirEntry.Groups.{group_of-All, sort_versions-All, length-sort_versions}
use ods.Ondisk.DirBlock.{encode_directory_block}
use ods.Ondisk.DirBlock.Single.{encode_directory_block-one, encode_directory_block-none}
use ods.Volume.Directory.Pack.{
  none_of, fitting_from, directory_entries_fitting, flush, pack_group, pack_names, one_at_least,
  pack_directory_blocks,
}

-- The entries go in one block, or there are none.
abbrev pub Fit : List DirEntry → Type 0
Fit [] = Unit
Fit (e ∷ es) = (block : List ℕ) × (encode_directory_block (e ∷ es) ≡ ok block)

abbrev pub IsShort : DirEntry → Type 0
IsShort e = length e.name ≤ 255

-- What directoryEntriesFitting says fits, does.
fitting_from-Fit :
    (n : ℕ) (pending group : List DirEntry)
    → Fit pending
    → Fit (pending ++ take (fitting_from n pending group) group)
unfolding fitting_from
fitting_from-Fit zero pending group f = rw append-nil f
fitting_from-Fit (suc n) pending group f =
    elim (Result-cases (encode_directory_block (pending ++ take (suc n) group))) [
      | inl (b, e) ↦ rw e (found (pending ++ take (suc n) group) b e)
      | inr (x, e) ↦ rw e (fitting_from-Fit n pending group f)
    ]
  where
    found : (es : List DirEntry) (b : List ℕ) → encode_directory_block es ≡ ok b → Fit es
    found [] b e = tt
    found (x ∷ xs) b e = (b, e)

fitting_from_positive :
    (n : ℕ) (e : DirEntry) (es : List DirEntry) → IsShort e → 1 ≤ fitting_from (suc n) [] (e ∷ es)
unfolding fitting_from
fitting_from_positive zero e es h =
    let (b, k) = encode_directory_block-one e h in rw k (omega arith)
fitting_from_positive (suc n) e es h =
    elim (Result-cases (encode_directory_block (take (suc (suc n)) (e ∷ es)))) [
      | inl (b, k) ↦ rw k (omega arith)
      | inr (x, k) ↦ rw k (fitting_from_positive n e es h)
    ]

flush_total :
    (blocks : List (List ℕ)) (pending : List DirEntry)
    → Fit pending
    → (out : List (List ℕ)) × (flush blocks pending ≡ ok out)
unfolding flush
flush_total blocks [] f = (blocks, refl)
flush_total blocks (p ∷ ps) (b, e) = (blocks ++ b ∷ [], rw e refl)

-- A round that waits for the pending entries to go out costs one unit.
abbrev waiting : List DirEntry → ℕ
waiting [] = 0
waiting (p ∷ ps) = 1

All-drop : (n : ℕ) (es : List DirEntry) → All IsShort es → All IsShort (drop n es)
All-drop zero es h = h
All-drop (suc n) [] h = h
All-drop (suc n) (e ∷ es) (h, hs) = All-drop n es hs

-- A round takes some of the group, unless it waits.
takes :
    (pending : List DirEntry) (e : DirEntry) (es : List DirEntry)
    → IsShort e
    → ((directory_entries_fitting pending (e ∷ es) == 0) && none_of pending) ≡ false
unfolding directory_entries_fitting
takes [] e es h = ground (arith, fitting_from_positive (length es) e es h)
takes (p ∷ ps) e es h =
    elim (fitting_from (length (e ∷ es)) (p ∷ ps) (e ∷ es) == 0) as (λ b. (b && false) ≡ false) [
      | true ↦ refl
      | false ↦ refl
    ]

shorter :
    (pending : List DirEntry) (e : DirEntry) (es : List DirEntry)
    → IsShort e
    → length (drop (directory_entries_fitting pending (e ∷ es)) (e ∷ es))
      < suc (length es) + waiting pending
unfolding directory_entries_fitting
shorter [] e es h = omega (
  arith,
  length-drop (fitting_from (length (e ∷ es)) [] (e ∷ es)) (e ∷ es),
  fitting_from_positive (length es) e es h,
)
shorter (p ∷ ps) e es h =
    omega (arith, length-drop (fitting_from (length (e ∷ es)) (p ∷ ps) (e ∷ es)) (e ∷ es))

pack_group_total :
    (fuel : ℕ) (blocks : List (List ℕ)) (pending vs : List DirEntry)
    → length vs + waiting pending ≤ fuel
    → Fit pending
    → All IsShort vs
    → (out : List (List ℕ)) × (pending' : List DirEntry) × (pack_group fuel blocks pending vs
        ≡ ok (out, pending'))
      × Fit pending'
unfolding pack_group
pack_group_total fuel blocks pending [] m f h = (blocks, pending, refl, f)
pack_group_total zero blocks pending (v ∷ vs) m f h = absurd (omega arith)
pack_group_total (suc fuel) blocks pending (v ∷ vs) m f (h, hs) =
    let n : ℕ = directory_entries_fitting pending (v ∷ vs) in
    let kept : List DirEntry = pending ++ take n (v ∷ vs) in
    let left : List DirEntry = drop n (v ∷ vs) in
    let fits : Fit kept =
      unfold directory_entries_fitting in fitting_from-Fit (length (v ∷ vs)) pending (v ∷ vs) f in
    let go = takes pending v vs h in
    elim (Bool-cases (none_of left)) [
      | inl u ↦ (blocks, kept, rw (go, u) refl, fits)
      | inr u ↦
          let (blocks', kb) = flush_total blocks kept fits in
          let (out, pending', k, f') =
            pack_group_total fuel blocks' [] left (omega (arith, shorter pending v vs h)) tt
              (All-drop n (v ∷ vs) (h, hs)) in
          (out, pending', rw (go, u, kb) k, f')
    ]

pack_names_total :
    (names : List (List ℕ)) (entries : List DirEntry) (blocks : List (List ℕ))
    (pending : List DirEntry)
    → Fit pending
    → All IsShort entries
    → (out : List (List ℕ)) × (pending' : List DirEntry) × (pack_names names entries blocks pending
        ≡ ok (out, pending'))
      × Fit pending'
unfolding pack_names
pack_names_total [] entries blocks pending f h = (blocks, pending, refl, f)
pack_names_total (n ∷ ns) entries blocks pending f h =
    let group : List DirEntry = group_of n entries in
    let (blocks', pending', k, f') =
      pack_group_total (suc (length group)) blocks pending (sort_versions group)
        (ground (arith, length-sort_versions group)) f
        (sort_versions-All IsShort group (group_of-All IsShort n entries h)) in
    let (out, last, k', f'') = pack_names_total ns entries blocks' pending' f' h in
    (out, last, rw k k', f'')

one_at_least_total :
    (blocks : List (List ℕ)) → (out : List (List ℕ)) × (one_at_least blocks ≡ ok out)
unfolding one_at_least
one_at_least_total [] = let (b, k) = encode_directory_block-none in (b ∷ [], rw k refl)
one_at_least_total (b ∷ bs) = (b ∷ bs, refl)

-- Entries whose names have at most 255 bytes, any number of them, are packed into blocks: no group
-- of versions is too large, and the fuel of the loop suffices.
pub pack_directory_blocks_succeeds :
    (entries : List DirEntry)
    → All IsShort entries
    → (blocks : List (List ℕ)) × (pack_directory_blocks entries ≡ ok blocks)
unfolding pack_directory_blocks
pack_directory_blocks_succeeds entries h =
    let (blocks, pending, k, f) =
      pack_names_total (sort_names (names_seen [] entries)) entries [] [] tt h in
    let (blocks', k') = flush_total blocks pending f in
    let (out, k'') = one_at_least_total blocks' in (out, rw (k, k') k'')
