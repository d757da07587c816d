-- ===== src/Ondisk/DirEntry/Counts.antt =====
-- ondisk/directory.go: how many entries there are of each kind, through grouping and sorting.
use ods.Base.{
  ℕ, suc, ◌+◌, ◌≤◌, ◌<◌, ◌≡◌, refl, sym, ap, ◌∙◌, inl, inr, List, [], ◌∷◌, ◌++◌, Bool, true, false,
  ltb, if◌then◌else◌, arith, Bool-cases,
}
use ods.Ondisk.Fid.{Fid}
use ods.Ondisk.DirEntry.{
  DirEntry, name_eq, seen_name, names_seen, group_of, insert_name, sort_names, insert_version,
  sort_versions,
}
use ods.Ondisk.DirBlock.Kept.{Among, name_eq_refl, name_eq→eq, names_seen-Among}

-- What a test says of an entry looks at its name, its version and its file.
abbrev pub Test : Type 0
Test = List ℕ → ℕ → Fid → Bool

unfoldable pub count : Test → List DirEntry → ℕ
count p [] = 0
count p (e ∷ es) = let rest = count p es in if p e.name e.version e.fid then suc rest else rest

-- The same entries, each as many times, but for their order and their version limits: whatever the
-- name, the version and the file are tested for, as many pass in the one list as in the other.
abbrev pub SameEntries : List DirEntry → List DirEntry → Type 0
SameEntries es out = (p : Test) → count p es ≡ count p out

pub count-append : (p : Test) (xs ys : List DirEntry) → count p (xs ++ ys) ≡ count p xs + count p ys
unfolding count
count-append p [] ys = omega arith
count-append p (x ∷ xs) ys = ground (arith, count-append p xs ys)

count-insert_version :
    (p : Test) (e : DirEntry) (es : List DirEntry)
    → count p (insert_version e es) ≡ count p (e ∷ es)
unfolding count insert_version
count-insert_version p e [] = refl
count-insert_version p e (f ∷ fs) = elim (Bool-cases (ltb e.version f.version)) [
  | inr t ↦ rw t refl
  | inl t ↦
      rw (t, count-insert_version p e fs)
        (elim (Bool-cases (p e.name e.version e.fid)) [
          | inl u ↦ rw u (elim (Bool-cases (p f.name f.version f.fid)) [
            | inl v ↦ rw v refl
            | inr v ↦ rw v refl
          ])
          | inr u ↦ rw u refl
        ])
]

pub count-sort_versions : (p : Test) (es : List DirEntry) → count p (sort_versions es) ≡ count p es
unfolding sort_versions count
count-sort_versions p [] = refl
count-sort_versions p (e ∷ es) =
    count-insert_version p e (sort_versions es) ∙ rw (count-sort_versions p es) refl

-- How often a name is in a list of names.
unfoldable pub times_named : List ℕ → List (List ℕ) → ℕ
times_named n [] = 0
times_named n (m ∷ ms) = let rest = times_named n ms in if name_eq n m then suc rest else rest

times_named-append :
    (n m : List ℕ) (ns : List (List ℕ))
    → times_named n (ns ++ m ∷ []) ≡ times_named n ns + (if name_eq n m then 1 else 0)
unfolding times_named
times_named-append n m [] = ground arith
times_named-append n m (k ∷ ks) = ground (arith, times_named-append n m ks)

times_named-insert_name :
    (n m : List ℕ) (ms : List (List ℕ)) → times_named n (insert_name m ms) ≡ times_named n (m ∷ ms)
unfolding times_named insert_name
times_named-insert_name n m [] = refl
times_named-insert_name n m (k ∷ ks) = ground (arith, times_named-insert_name n m ks)

pub times_named-sort_names :
    (n : List ℕ) (ns : List (List ℕ)) → times_named n (sort_names ns) ≡ times_named n ns
unfolding times_named sort_names
times_named-sort_names n [] = refl
times_named-sort_names n (m ∷ ms) =
    times_named-insert_name n m (sort_names ms) ∙ rw (times_named-sort_names n ms) refl

unseen : (n : List ℕ) (ns : List (List ℕ)) → seen_name n ns ≡ false → times_named n ns ≡ 0
unfolding times_named seen_name
unseen n [] h = refl
unseen n (m ∷ ms) h = elim (Bool-cases (name_eq n m)) [
  | inl t ↦ absurd (cc (rw t at h))
  | inr t ↦ rw t (unseen n ms (rw t at h))
]

-- No name is twice among the names of the entries.
pub names_seen_once :
    (names : List (List ℕ)) (es : List DirEntry)
    → ((n : List ℕ) → times_named n names ≤ 1)
    → (n : List ℕ) → times_named n (names_seen names es) ≤ 1
unfolding names_seen
names_seen_once names [] h n = h n
names_seen_once names (e ∷ es) h n = elim (Bool-cases (seen_name e.name names)) [
  | inl t ↦ rw t (names_seen_once names es h n)
  | inr t ↦ rw t (
      names_seen_once (names ++ e.name ∷ []) es
        (λ m. elim (Bool-cases (name_eq m e.name)) [
          | inl u ↦
              let same : m ≡ e.name = name_eq→eq m e.name u in
              let none : times_named m names ≡ 0 = rw same (unseen e.name names t) in
              let more = times_named-append m e.name names in omega (arith, none, rw u at more)
          | inr u ↦ let more = times_named-append m e.name names in omega (arith, h m, rw u at more)
        ])
        n)
]

Among-times_named : (n : List ℕ) (ns : List (List ℕ)) → Among n ns → 0 < times_named n ns
unfolding times_named
Among-times_named n [] a = elim a [ ]
Among-times_named n (m ∷ ms) (Among.here h) =
    let t : name_eq n m ≡ true = rw (← h) (name_eq_refl n) in rw t (omega arith)
Among-times_named n (m ∷ ms) (Among.there a) = ground (arith, Among-times_named n ms a)

-- The name of an entry is once among the names of the entries.
pub names_seen-once :
    (es : List DirEntry) (e : DirEntry) → Among e es → times_named e.name (names_seen [] es) ≡ 1
unfolding times_named
names_seen-once es e a =
    let most = names_seen_once [] es (λ n. omega arith) e.name in
    let least = Among-times_named e.name (names_seen [] es) (names_seen-Among e [] es a) in
    omega (arith, most, least)

-- What is there of one entry, among the groups of the names.
count-group_of :
    (p : Test) (n : List ℕ) (e : DirEntry) (es : List DirEntry)
    → count p (group_of n (e ∷ es))
      ≡ (if name_eq e.name n then (if p e.name e.version e.fid then 1 else 0) else 0)
        + count p (group_of n es)
unfolding count group_of
count-group_of p n e es = ground arith

-- The entries in the order of a directory: by name, and the highest version first.
unfoldable pub grouped : List (List ℕ) → List DirEntry → List DirEntry
grouped [] entries = []
grouped (n ∷ ns) entries = sort_versions (group_of n entries) ++ grouped ns entries

count-grouped-step :
    (p : Test) (ns : List (List ℕ)) (e : DirEntry) (es : List DirEntry)
    → count p (grouped ns (e ∷ es))
      ≡ (if p e.name e.version e.fid then times_named e.name ns else 0) + count p (grouped ns es)
unfolding grouped times_named
count-grouped-step p [] e es = unfold count in ground arith
count-grouped-step p (n ∷ ns) e es =
    let rest = count-grouped-step p ns e es in
    let one = count-group_of p n e es in
    let a =
      count-append p (sort_versions (group_of n (e ∷ es))) (grouped ns (e ∷ es))
      ∙ ap (λ (k : ℕ). k + count p (grouped ns (e ∷ es)))
          (count-sort_versions p (group_of n (e ∷ es))) in
    let b =
      count-append p (sort_versions (group_of n es)) (grouped ns es)
      ∙ ap (λ (k : ℕ). k + count p (grouped ns es)) (count-sort_versions p (group_of n es)) in
    ground (arith, rest, one, a, b)

count-grouped-none : (p : Test) (ns : List (List ℕ)) → count p (grouped ns []) ≡ 0
unfolding grouped count sort_versions group_of
count-grouped-none p [] = refl
count-grouped-none p (n ∷ ns) = count-grouped-none p ns

-- Where each entry's name is there once, each entry is in one group.
count-grouped :
    (p : Test) (ns : List (List ℕ)) (es : List DirEntry)
    → ((e : DirEntry) → Among e es → times_named e.name ns ≡ 1)
    → count p (grouped ns es) ≡ count p es
unfolding count
count-grouped p ns [] h = count-grouped-none p ns
count-grouped p ns (e ∷ es) h =
    let once = h e (Among.here refl) in
    let rest = count-grouped p ns es (λ f a. h f (Among.there a)) in
    let step = count-grouped-step p ns e es in ground (arith, once, rest, step)

-- Grouping entries by their names and sorting them keeps them all, each as often as it was.
pub grouped-SameEntries :
    (es : List DirEntry) → SameEntries es (grouped (sort_names (names_seen [] es)) es)
grouped-SameEntries es p = sym (
    count-grouped p (sort_names (names_seen [] es)) es
      (λ e a. times_named-sort_names e.name (names_seen [] es) ∙ names_seen-once es e a))

Among-count :
    (p : Test) (e : DirEntry) (es : List DirEntry)
    → Among e es
    → p e.name e.version e.fid ≡ true
    → 0 < count p es
unfolding count
Among-count p e [] a h = elim a [ ]
Among-count p e (f ∷ fs) (Among.here q) h =
    let t : p f.name f.version f.fid ≡ true = rw q at h in rw t (omega arith)
Among-count p e (f ∷ fs) (Among.there a) h = ground (arith, Among-count p e fs a h)

count-Among :
    (p : Test) (es : List DirEntry)
    → 0 < count p es
    → (e : DirEntry) × Among e es × (p e.name e.version e.fid ≡ true)
unfolding count
count-Among p [] h = absurd (omega arith)
count-Among p (e ∷ es) h = elim (Bool-cases (p e.name e.version e.fid)) [
  | inl t ↦ (e, Among.here refl, t)
  | inr t ↦ let (f, a, u) = count-Among p es (rw t at h) in (f, Among.there a, u)
]

-- Where one list has an entry that passes, the other has.
pub SameEntries-Among :
    (p : Test) (es out : List DirEntry) (e : DirEntry)
    → SameEntries es out
    → Among e es
    → p e.name e.version e.fid ≡ true
    → (f : DirEntry) × Among f out × (p f.name f.version f.fid ≡ true)
SameEntries-Among p es out e same a h =
    count-Among p out (let m = Among-count p e es a h in omega (arith, m, same p))
