-- ===== src/Ondisk/DirBlock/Preserved.antt =====
-- ondisk/directory.go: which entries a directory block gives back.
use ods.Base.{
  ℕ, suc, ◌≡◌, refl, sym, ap, ◌∙◌, List, [], ◌∷◌, ◌++◌, ltb, arith, Bool-cases, inl, inr, ◌⊎◌,
  if◌then◌else◌,
}
use ods.Ondisk.DirEntry.{
  DirEntry, name_eq, names_seen, group_of, sort_names, insert_version, sort_versions,
}
use ods.Ondisk.DirEntry.Counts.{
  Test, count, SameEntries, count-append, grouped, grouped-SameEntries,
}
use ods.Ondisk.DirBlock.{record_limit}
use ods.Ondisk.DirBlock.Records.{relabel}
use ods.Ondisk.DirBlock.RoundTrip.{listing, canonical, versions_of}
use ods.Ondisk.DirBlock.Kept.{Among, name_eq→eq}

pub append-cases :
    {f : DirEntry} (xs ys : List DirEntry) → Among f (xs ++ ys) → Among f xs ⊎ Among f ys
append-cases [] ys a = inr a
append-cases (x ∷ xs) ys (Among.here h) = inl (Among.here h)
append-cases (x ∷ xs) ys (Among.there a) = elim (append-cases xs ys a) [
  | inl b ↦ inl (Among.there b)
  | inr b ↦ inr b
]

insert_version_from :
    (e f : DirEntry) (fs : List DirEntry) → Among e (insert_version f fs) → Among e (f ∷ fs)
unfolding insert_version
insert_version_from e f [] a = a
insert_version_from e f (g ∷ gs) a = elim (Bool-cases (ltb f.version g.version)) [
  | inr t ↦ rw t at a
  | inl t ↦ elim (rw t at a) [
    | Among.here h ↦ Among.there (Among.here h)
    | Among.there b ↦ elim (insert_version_from e f gs b) [
      | Among.here h ↦ Among.here h
      | Among.there c ↦ Among.there (Among.there c)
    ]
  ]
]

pub sort_versions_from :
    (e : DirEntry) (es : List DirEntry) → Among e (sort_versions es) → Among e es
unfolding sort_versions
sort_versions_from e [] a = a
sort_versions_from e (f ∷ fs) a = elim (insert_version_from e f (sort_versions fs) a) [
  | Among.here h ↦ Among.here h
  | Among.there b ↦ Among.there (sort_versions_from e fs b)
]

pub group_of_from :
    (e : DirEntry) (n : List ℕ) (es : List DirEntry)
    → Among e (group_of n es)
    → Among e es × (e.name ≡ n)
unfolding group_of
group_of_from e n [] a = elim a [ ]
group_of_from e n (f ∷ fs) a = elim (Bool-cases (name_eq f.name n)) [
  | inr t ↦ let (b, q) = group_of_from e n fs (rw t at a) in (Among.there b, q)
  | inl t ↦ elim (rw t at a) [
    | Among.here h ↦ (Among.here h, ap (λ (d : DirEntry). d.name) h ∙ name_eq→eq f.name n t)
    | Among.there b ↦ let (c, q) = group_of_from e n fs b in (Among.there c, q)
  ]
]

AllNamed-group_of :
    (n : List ℕ) (es : List DirEntry) (e : DirEntry) → Among e (versions_of n es) → e.name ≡ n
AllNamed-group_of n es e a = (group_of_from e n es (sort_versions_from e (group_of n es) a)).1

count-relabel :
    (p : Test) (n : List ℕ) (limit : ℕ) (vs : List DirEntry)
    → ((e : DirEntry) → Among e vs → e.name ≡ n)
    → count p (relabel n limit vs) ≡ count p vs
unfolding count
count-relabel p n limit [] h = refl
count-relabel p n limit (v ∷ vs) h =
    let own : v.name ≡ n = h v (Among.here refl) in
    let rest = count-relabel p n limit vs (λ e a. h e (Among.there a)) in
    ap (λ (k : ℕ). if p n v.version v.fid then suc k else k) rest
    ∙ ap (λ (m : List ℕ). if p m v.version v.fid then suc (count p vs) else count p vs) (sym own)

count-listing :
    (p : Test) (ns : List (List ℕ)) (es : List DirEntry)
    → count p (listing ns es) ≡ count p (grouped ns es)
unfolding listing grouped
count-listing p [] es = refl
count-listing p (n ∷ ns) es =
    let vs : List DirEntry = versions_of n es in
    let first = count-relabel p n (record_limit vs) vs (AllNamed-group_of n es) in
    let a = count-append p (relabel n (record_limit vs) vs) (listing ns es) in
    let b = count-append p vs (grouped ns es) in omega (arith, first, a, b, count-listing p ns es)

pub canonical-SameEntries : (es : List DirEntry) → SameEntries es (canonical es)
unfolding canonical
canonical-SameEntries es p =
    grouped-SameEntries es p ∙ sym (count-listing p (sort_names (names_seen [] es)) es)
