-- ===== src/Ondisk/DirBlock/Limits.antt =====
-- ondisk/directory.go: the version limit that a name's record gets.
use ods.Base.{
  ℕ, ◌<◌, ◌≤◌, ◌≡◌, ◌⊎◌, refl, sym, ◌∙◌, inl, inr, List, [], ◌∷◌, All, All-append, min, max, ltb,
  ◌==◌, ==_iff, arith, Bool-cases,
}
use ods.Ondisk.DirEntry.{DirEntry, names_seen, group_of, sort_names}
use ods.Ondisk.DirBlock.{largest_limit, record_limit}
use ods.Ondisk.DirBlock.Kept.{Among, group_of-Among, sort_versions-Among}
use ods.Ondisk.DirBlock.Preserved.{sort_versions_from, group_of_from}
use ods.Ondisk.DirBlock.Records.{relabel}
use ods.Ondisk.DirBlock.RoundTrip.{listing, canonical, versions_of}

-- The version limit of a name's entries: 32767 where none of them has one, and else the largest that
-- one has, at most 32767.
pub data LimitOf (es : List DirEntry) (name : List ℕ) (limit : ℕ) : Type 0 where
  unlimited :
      ((d : DirEntry) → Among d es → d.name ≡ name → d.version_limit ≡ 0)
      → limit ≡ 32767
      → LimitOf es name limit
  largest :
      (e : DirEntry)
      → Among e es
      → e.name ≡ name
      → 0 < e.version_limit
      → ((d : DirEntry) → Among d es → d.name ≡ name → d.version_limit ≤ e.version_limit)
      → limit ≡ min e.version_limit 32767
      → LimitOf es name limit

largest_limit-bounds :
    (l : ℕ) (vs : List DirEntry)
    → (l ≤ largest_limit l vs)
      × ((d : DirEntry) → Among d vs → d.version_limit ≤ largest_limit l vs)
unfolding largest_limit
largest_limit-bounds l [] = (omega arith, λ d a. elim a [ ])
largest_limit-bounds l (v ∷ vs) =
    let (least, all) = largest_limit-bounds (max l v.version_limit) vs in
    (
      omega (arith, least),
      λ d a. elim a [ Among.here h ↦ rw h (omega (arith, least)) | Among.there b ↦ all d b ],
    )

largest_limit-reached :
    (l : ℕ) (vs : List DirEntry)
    → (largest_limit l vs ≡ l)
      ⊎ ((d : DirEntry) × Among d vs × (d.version_limit ≡ largest_limit l vs))
unfolding largest_limit
largest_limit-reached l [] = inl refl
largest_limit-reached l (v ∷ vs) = elim (largest_limit-reached (max l v.version_limit) vs) [
  | inr (d, a, e) ↦ inr (d, Among.there a, e)
  | inl e ↦ elim (Bool-cases (ltb l v.version_limit)) [
    | inl t ↦
        let big : max l v.version_limit ≡ v.version_limit = ground (arith, t) in
        inr (v, Among.here refl, sym big ∙ sym e)
    | inr t ↦ let small : max l v.version_limit ≡ l = ground (arith, t) in inl (e ∙ small)
  ]
]

versions_of-Among :
    (name : List ℕ) (es : List DirEntry) (d : DirEntry)
    → Among d es
    → d.name ≡ name
    → Among d (versions_of name es)
versions_of-Among name es d a e =
    rw (← e) (sort_versions-Among d (group_of d.name es) (group_of-Among d es a))

record_limit-LimitOf :
    (name : List ℕ) (es : List DirEntry) → LimitOf es name (record_limit (versions_of name es))
unfolding record_limit
record_limit-LimitOf name es =
    let vs : List DirEntry = versions_of name es in
    let top : ℕ = largest_limit 0 vs in
    let (least, all) = largest_limit-bounds 0 vs in
    elim (Bool-cases (top == 0)) [
      | inl t ↦
          let none : top ≡ 0 = (==_iff top 0).0 t in
          LimitOf.unlimited
            (λ d a e. let m = all d (versions_of-Among name es d a e) in omega (arith, m, none))
            (rw t refl)
      | inr t ↦ elim (largest_limit-reached 0 vs) [
        | inl e ↦ absurd (ground (arith, t, e))
        | inr (d, a, e) ↦
            let (inside, own) =
              group_of_from d name es (sort_versions_from d (group_of name es) a) in
            let some_limit : 0 < top = ground (arith, t) in
            LimitOf.largest d inside own (omega (arith, e, some_limit))
              (λ f b q. let m = all f (versions_of-Among name es f b q) in omega (arith, m, e))
              (elim (Bool-cases (ltb 32767 top)) [
                | inl u ↦ rw (t, u) (let o : 32767 < top = ground (arith, u) in omega (arith, e, o))
                | inr u ↦ rw (t, u) (let o : top ≤ 32767 = ground (arith, u) in omega (arith, e, o))
              ])
      ]
    ]

abbrev pub Limited : List DirEntry → DirEntry → Type 0
Limited es f = LimitOf es f.name f.version_limit

relabel-Limited :
    (es : List DirEntry) (n : List ℕ) (limit : ℕ) (vs : List DirEntry)
    → LimitOf es n limit
    → All (Limited es) (relabel n limit vs)
relabel-Limited es n limit [] h = tt
relabel-Limited es n limit (v ∷ vs) h = (h, relabel-Limited es n limit vs h)

listing-Limited : (ns : List (List ℕ)) (es : List DirEntry) → All (Limited es) (listing ns es)
unfolding listing
listing-Limited [] es = tt
listing-Limited (n ∷ ns) es =
    All-append (Limited es) (relabel n (record_limit (versions_of n es)) (versions_of n es))
      (listing ns es)
      (relabel-Limited es n (record_limit (versions_of n es)) (versions_of n es)
        (record_limit-LimitOf n es))
      (listing-Limited ns es)

pub canonical-Limited : (es : List DirEntry) → All (Limited es) (canonical es)
unfolding canonical
canonical-Limited es = listing-Limited (sort_names (names_seen [] es)) es
