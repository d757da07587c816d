-- ===== src/Filespec/Version/Selection.antt =====
-- filespec/version.go: what selecting versions gives for each name of a listing.
use ods.Base.{
  ℕ, ◌≡◌, ◌≤◌, refl, List, [], ◌∷◌, ◌++◌, true, false, ltb, All, arith, Bool-cases, inl, inr, ◌⊎◌,
  ◌≢◌, ap, ◌∙◌,
}
use ods.Ondisk.DirEntry.{
  DirEntry, name_eq, seen_name, names_seen, group_of, insert_version, sort_versions,
}
use ods.Ondisk.DirEntry.Counts.{times_named, names_seen_once}
use ods.Ondisk.DirBlock.Kept.{Among, name_eq_refl, names_seen-Among, seen_name-Among}
use ods.Filespec.Version.{VersionSelector, entry_at, select_group, select_groups, select_versions}

-- The names of the entries without those seen before, each where it is first seen.
pub data FirstSeen : List (List ℕ) → List DirEntry → List (List ℕ) → Type 0 where
  no_more : {seen : List (List ℕ)} → FirstSeen seen [] []
  new_name :
      {seen ns : List (List ℕ)} {e : DirEntry} {es : List DirEntry}
      → ¬ Among e.name seen
      → FirstSeen (seen ++ e.name ∷ []) es ns
      → FirstSeen seen (e ∷ es) (e.name ∷ ns)
  old_name :
      {seen ns : List (List ℕ)} {e : DirEntry} {es : List DirEntry}
      → Among e.name seen
      → FirstSeen seen es ns
      → FirstSeen seen (e ∷ es) ns

Among-seen_name : (n : List ℕ) (ns : List (List ℕ)) → Among n ns → seen_name n ns ≡ true
unfolding seen_name
Among-seen_name n [] a = elim a [ ]
Among-seen_name n (m ∷ ms) (Among.here h) = rw (← h, name_eq_refl n) refl
Among-seen_name n (m ∷ ms) (Among.there a) = ground (arith, Among-seen_name n ms a)

append_more :
    (xs : List (List ℕ)) (n : List ℕ) (ys : List (List ℕ)) → (xs ++ n ∷ []) ++ ys ≡ xs ++ n ∷ ys
append_more [] n ys = refl
append_more (x ∷ xs) n ys = ap (λ (zs : List (List ℕ)). x ∷ zs) (append_more xs n ys)

append_none : (xs : List (List ℕ)) → xs ≡ xs ++ []
append_none [] = refl
append_none (x ∷ xs) = ap (λ (zs : List (List ℕ)). x ∷ zs) (append_none xs)

names_seen_old :
    (names : List (List ℕ)) (e : DirEntry) (es : List DirEntry)
    → seen_name e.name names ≡ true
    → names_seen names (e ∷ es) ≡ names_seen names es
unfolding names_seen
names_seen_old names e es t = rw t refl

names_seen_new :
    (names : List (List ℕ)) (e : DirEntry) (es : List DirEntry)
    → seen_name e.name names ≡ false
    → names_seen names (e ∷ es) ≡ names_seen (names ++ e.name ∷ []) es
unfolding names_seen
names_seen_new names e es t = rw t refl

names_seen-FirstSeen :
    (names : List (List ℕ)) (es : List DirEntry)
    → (ns : List (List ℕ)) × (names_seen names es ≡ names ++ ns) × FirstSeen names es ns
names_seen-FirstSeen names [] = ([], unfold names_seen in append_none names, FirstSeen.no_more)
names_seen-FirstSeen names (e ∷ es) = elim (Bool-cases (seen_name e.name names)) [
  | inl t ↦
      let (ns, k, f) = names_seen-FirstSeen names es in
      (ns, names_seen_old names e es t ∙ k, FirstSeen.old_name (seen_name-Among e.name names t) f)
  | inr t ↦
      let (ns, k, f) = names_seen-FirstSeen (names ++ e.name ∷ []) es in
      let fresh : ¬ Among e.name names = λ a. let s = Among-seen_name e.name names a in cc (s, t) in
      (
        e.name ∷ ns,
        names_seen_new names e es t ∙ k ∙ append_more names e.name ns,
        FirstSeen.new_name fresh f,
      )
]

-- A name of one of the entries.
pub data Occurs (n : List ℕ) : List DirEntry → Type 0 where
  here : {e : DirEntry} {es : List DirEntry} → name_eq e.name n ≡ true → Occurs n (e ∷ es)
  there : {e : DirEntry} {es : List DirEntry} → Occurs n es → Occurs n (e ∷ es)

All-map :
    {P Q : DirEntry → Type 0} (f : (e : DirEntry) → P e → Q e) (es : List DirEntry)
    → All P es
    → All Q es
All-map f [] h = tt
All-map f (e ∷ es) (h, hs) = (f e h, All-map f es hs)

entries-Occurs : (es : List DirEntry) → All (λ (e : DirEntry). Occurs e.name es) es
entries-Occurs [] = tt
entries-Occurs (e ∷ es) =
    (here (name_eq_refl e.name), All-map (λ f h. there h) es (entries-Occurs es))

append_one :
    (P : List ℕ → Type 0) (ns : List (List ℕ)) (n : List ℕ) → All P ns → P n → All P (ns ++ n ∷ [])
append_one P [] n h p = (p, tt)
append_one P (m ∷ ms) n (h, hs) p = (h, append_one P ms n hs p)

names_seen-All :
    (P : List ℕ → Type 0) (names : List (List ℕ)) (es : List DirEntry)
    → All P names
    → All (λ (e : DirEntry). P e.name) es
    → All P (names_seen names es)
unfolding names_seen
names_seen-All P names [] h k = h
names_seen-All P names (e ∷ es) h (k, ks) = elim (Bool-cases (seen_name e.name names)) [
  | inl t ↦ rw t (names_seen-All P names es h ks)
  | inr t ↦ rw t (names_seen-All P (names ++ e.name ∷ []) es (append_one P names e.name h k) ks)
]

abbrev AtMost : DirEntry → DirEntry → Type 0
AtMost top e = e.version ≤ top.version

-- The entry is one of those given, of the name, and as high as any of them of that name.
pub record IsTop (n : List ℕ) (es : List DirEntry) (top : DirEntry) : Type 0 where
  pub listed : Among top es
  pub named : name_eq top.name n ≡ true
  pub highest : All (λ (e : DirEntry). name_eq e.name n ≡ true → e.version ≤ top.version) es

pub data OnePerName (entries : List DirEntry) : List (List ℕ) → List DirEntry → Type 0 where
  none_left : OnePerName entries [] []
  one_more :
      {n : List ℕ} {ns : List (List ℕ)} {top : DirEntry} {es : List DirEntry}
      → IsTop n entries top
      → OnePerName entries ns es
      → OnePerName entries (n ∷ ns) (top ∷ es)

-- The first entry of a sorted group is one of the group, and as high as any.
sort_versions_first :
    (P : DirEntry → Type 0) (vs : List DirEntry)
    → All P vs
    → (vs ≡ [])
      ⊎ ((top : DirEntry) × (rest : List DirEntry) × (sort_versions vs ≡ top ∷ rest)
          × P top
          × All (AtMost top) vs)
unfolding sort_versions insert_version
sort_versions_first P [] ps = inl refl
sort_versions_first P (v ∷ vs) (p, ps) = elim (sort_versions_first P vs ps) [
  | inl e ↦ inr (v, [], rw e refl, p, (omega arith, rw e tt))
  | inr (f, fs, e, q, most) ↦ elim (Bool-cases (ltb v.version f.version)) [
    | inl t ↦ inr (f, insert_version v fs, rw (e, t) refl, q, (ground arith, most))
    | inr t ↦
        let low : f.version ≤ v.version = ground arith in
        inr (v, f ∷ fs, rw (e, t) refl, p, (omega arith, All-map (λ g h. omega arith) vs most))
  ]
]

group_of_named :
    (n : List ℕ) (es : List DirEntry)
    → All (λ (e : DirEntry). (name_eq e.name n ≡ true) × Among e es) (group_of n es)
unfolding group_of
group_of_named n [] = tt
group_of_named n (e ∷ es) =
    let later : All (λ (f : DirEntry). (name_eq f.name n ≡ true) × Among f (e ∷ es))
        (group_of n es) =
      All-map (λ f h. (h.0, Among.there h.1)) (group_of n es) (group_of_named n es) in
    elim (Bool-cases (name_eq e.name n)) [
      | inl t ↦ rw t ((t, Among.here refl), later)
      | inr t ↦ rw t later
    ]

group_of-All :
    (Q : DirEntry → Type 0) (n : List ℕ) (es : List DirEntry)
    → All Q (group_of n es)
    → All (λ (e : DirEntry). name_eq e.name n ≡ true → Q e) es
unfolding group_of
group_of-All Q n [] h = tt
group_of-All Q n (e ∷ es) h = elim (Bool-cases (name_eq e.name n)) [
  | inl t ↦ let h' = rw t at h in (λ k. h'.0, group_of-All Q n es h'.1)
  | inr t ↦ (λ k. absurd (cc (t, k)), group_of-All Q n es (rw t at h))
]

Occurs-group_of : (n : List ℕ) (es : List DirEntry) → Occurs n es → group_of n es ≢ []
unfolding group_of
Occurs-group_of n [] o q = elim o [ ]
Occurs-group_of n (e ∷ es) (here t) q = absurd (cc (rw t at q))
Occurs-group_of n (e ∷ es) (there o) q = elim (Bool-cases (name_eq e.name n)) [
  | inl t ↦ absurd (cc (rw t at q))
  | inr t ↦ Occurs-group_of n es o (rw t at q)
]

select_groups-OnePerName :
    (entries : List DirEntry) (ns : List (List ℕ))
    → All (λ (n : List ℕ). Occurs n entries) ns
    → OnePerName entries ns (select_groups VersionSelector.highest ns entries)
unfolding select_groups select_group entry_at
select_groups-OnePerName entries [] h = none_left
select_groups-OnePerName entries (n ∷ ns) (o, os) =
    elim (sort_versions_first (λ (e : DirEntry). (name_eq e.name n ≡ true) × Among e entries)
      (group_of n entries) (group_of_named n entries)) [
        | inl e ↦ absurd (Occurs-group_of n entries o e)
        | inr (top, rest, e, named, most) ↦ rw e (
            one_more
              (record {
                listed = named.1;
                named = named.0;
                highest = group_of-All (AtMost top) n entries most;
              })
              (select_groups-OnePerName entries ns os))
      ]

selected :
    (entries : List DirEntry)
    → OnePerName entries (names_seen [] entries) (select_versions entries VersionSelector.highest)
unfolding select_versions
selected entries =
    select_groups-OnePerName entries (names_seen [] entries)
      (names_seen-All (λ n. Occurs n entries) [] entries tt (entries-Occurs entries))

-- Selecting the highest versions gives one entry for each name of the listing, in the order in
-- which the names are first seen, and no name has two: an entry of the listing, of that name, with a
-- version as high as any of that name.
pub select_versions-highest :
    (entries : List DirEntry)
    → (ns : List (List ℕ)) × FirstSeen [] entries ns
      × ((n : List ℕ) → times_named n ns ≤ 1)
      × ((e : DirEntry) → Among e entries → Among e.name ns)
      × OnePerName entries ns (select_versions entries VersionSelector.highest)
select_versions-highest entries =
    let (ns, k, first) = names_seen-FirstSeen [] entries in
    let tops = selected entries in
    (
      ns,
      first,
      λ n. rw k at (names_seen_once [] entries (λ m. unfold times_named in omega arith) n),
      λ e a. rw k at (names_seen-Among e [] entries a),
      rw k at tops,
    )
