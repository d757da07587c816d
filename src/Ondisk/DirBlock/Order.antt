-- ===== src/Ondisk/DirBlock/Order.antt =====
-- ondisk/directory.go: the order in which sort.Strings and sort.Slice put the entries.
use ods.Base.{
  ℕ, ◌<◌, ◌≤◌, ◌≡◌, ◌⊎◌, refl, sym, ◌∙◌, inl, inr, List, [], ◌∷◌, ◌++◌, true, false, All,
  All-append, ltb, ltb→lt, ◌==◌, ==_iff, arith, Bool-cases,
}
use ods.Ondisk.DirEntry.{
  DirEntry, name_eq, name_lt, names_seen, group_of, insert_name, sort_names, insert_version,
  sort_versions,
}
use ods.Ondisk.DirEntry.Counts.{times_named, times_named-sort_names, names_seen_once}
use ods.Ondisk.DirBlock.{record_limit}
use ods.Ondisk.DirBlock.Kept.{name_eq_refl}
use ods.Ondisk.DirBlock.Records.{relabel}
use ods.Ondisk.DirBlock.RoundTrip.{listing, canonical, versions_of}

-- The order of Go's strings: at the first byte in which they differ, or by length.
abbrev pub Before : List ℕ → List ℕ → Type 0
Before xs [] = 1 ≤ 0
Before [] (y ∷ ys) = 0 ≤ 1
Before (x ∷ xs) (y ∷ ys) = (x < y) ⊎ ((x ≡ y) × Before xs ys)

Before-trans : (a b c : List ℕ) → Before a b → Before b c → Before a c
Before-trans a [] c h k = absurd (omega (arith, h))
Before-trans a (y ∷ b) [] h k = absurd (omega (arith, k))
Before-trans [] (y ∷ b) (z ∷ c) h k = omega arith
Before-trans (x ∷ a) (y ∷ b) (z ∷ c) (inl h) (inl k) = inl (omega (arith, h, k))
Before-trans (x ∷ a) (y ∷ b) (z ∷ c) (inl h) (inr (e, k)) = inl (omega (arith, h, e))
Before-trans (x ∷ a) (y ∷ b) (z ∷ c) (inr (d, h)) (inl k) = inl (omega (arith, d, k))
Before-trans (x ∷ a) (y ∷ b) (z ∷ c) (inr (d, h)) (inr (e, k)) = inr (d ∙ e, Before-trans a b c h k)

name_lt→Before : (a b : List ℕ) → name_lt a b ≡ true → Before a b
unfolding name_lt
name_lt→Before [] [] h = cc
name_lt→Before [] (y ∷ b) h = omega arith
name_lt→Before (x ∷ a) [] h = cc
name_lt→Before (x ∷ a) (y ∷ b) h = elim (Bool-cases (ltb x y)) [
  | inl t ↦ inl (ltb→lt x y t)
  | inr t ↦
      let e : (x == y) ≡ true = ground (arith, t, h) in
      let k : name_lt a b ≡ true = ground (arith, t, h) in
      inr ((==_iff x y).0 e, name_lt→Before a b k)
]

abbrev AtOrBefore : List ℕ → List ℕ → Type 0
AtOrBefore a b = Before a b ⊎ (a ≡ b)

not_lt→AtOrBefore : (a b : List ℕ) → name_lt a b ≡ false → AtOrBefore b a
unfolding name_lt
not_lt→AtOrBefore [] [] h = inr refl
not_lt→AtOrBefore [] (y ∷ b) h = cc
not_lt→AtOrBefore (x ∷ a) [] h = inl (omega arith)
not_lt→AtOrBefore (x ∷ a) (y ∷ b) h = elim (Bool-cases (x == y)) [
  | inr t ↦ inl (inl (ground (arith, t, h)))
  | inl t ↦
      let e : x ≡ y = (==_iff x y).0 t in
      let k : name_lt a b ≡ false = ground (arith, t, h) in
      elim (not_lt→AtOrBefore a b k) [ inl l ↦ inl (inr (sym e, l)) | inr q ↦ inr (cc (e, q)) ]
]

AtOrBefore-trans : (a b c : List ℕ) → AtOrBefore a b → AtOrBefore b c → AtOrBefore a c
AtOrBefore-trans a b c (inl h) (inl k) = inl (Before-trans a b c h k)
AtOrBefore-trans a b c (inl h) (inr e) = inl (rw e at h)
AtOrBefore-trans a b c (inr e) k = rw (← e) at k

All-imp :
    {A : Type 0} {P Q : A → Type 0} (f : (a : A) → P a → Q a) (xs : List A) → All P xs → All Q xs
All-imp f [] h = tt
All-imp f (x ∷ xs) (h, hs) = (f x h, All-imp f xs hs)

abbrev SortedNames : List (List ℕ) → Type 0
SortedNames [] = 0 ≤ 1
SortedNames (n ∷ ns) = All (AtOrBefore n) ns × SortedNames ns

insert_name-All :
    (P : List ℕ → Type 0) (n : List ℕ) (ms : List (List ℕ))
    → P n
    → All P ms
    → All P (insert_name n ms)
unfolding insert_name
insert_name-All P n [] p h = (p, tt)
insert_name-All P n (m ∷ ms) p (q, h) = elim (Bool-cases (name_lt m n)) [
  | inl t ↦ rw t (q, insert_name-All P n ms p h)
  | inr t ↦ rw t (p, (q, h))
]

insert_name-SortedNames :
    (n : List ℕ) (ms : List (List ℕ)) → SortedNames ms → SortedNames (insert_name n ms)
unfolding insert_name
insert_name-SortedNames n [] h = (tt, omega arith)
insert_name-SortedNames n (m ∷ ms) (low, h) = elim (Bool-cases (name_lt m n)) [
  | inl t ↦ rw t (
    insert_name-All (AtOrBefore m) n ms (inl (name_lt→Before m n t)) low,
    insert_name-SortedNames n ms h,
  )
  | inr t ↦
      let first = not_lt→AtOrBefore m n t in
      rw t ((first, All-imp (λ k b. AtOrBefore-trans n m k first b) ms low), (low, h))
]

sort_names-SortedNames : (ns : List (List ℕ)) → SortedNames (sort_names ns)
unfolding sort_names
sort_names-SortedNames [] = omega arith
sort_names-SortedNames (n ∷ ns) =
    insert_name-SortedNames n (sort_names ns) (sort_names-SortedNames ns)

-- Every name is before all those behind it.
abbrev pub AscendingNames : List (List ℕ) → Type 0
AscendingNames [] = 0 ≤ 1
AscendingNames (n ∷ ns) = All (Before n) ns × AscendingNames ns

strictly :
    (n : List ℕ) (ns : List (List ℕ))
    → All (AtOrBefore n) ns
    → times_named n ns ≡ 0
    → All (Before n) ns
unfolding times_named
strictly n [] h z = tt
strictly n (m ∷ ms) (inl b, h) z = (b, strictly n ms h (ground (arith, z)))
strictly n (m ∷ ms) (inr e, h) z =
    let t : name_eq n m ≡ true = rw (← e) (name_eq_refl n) in absurd (ground (arith, t, z))

AscendingNames-once :
    (ns : List (List ℕ))
    → SortedNames ns
    → ((n : List ℕ) → times_named n ns ≤ 1)
    → AscendingNames ns
unfolding times_named
AscendingNames-once [] h once = omega arith
AscendingNames-once (n ∷ ns) (low, h) once =
    let own : times_named n ns ≡ 0 =
      let t = name_eq_refl n in let o = rw t at (once n) in omega (arith, o) in
    (strictly n ns low own, AscendingNames-once ns h (λ k. let o = once k in ground (arith, o)))

pub names-AscendingNames : (es : List DirEntry) → AscendingNames (sort_names (names_seen [] es))
names-AscendingNames es =
    AscendingNames-once (sort_names (names_seen [] es)) (sort_names-SortedNames (names_seen [] es))
      (λ n.
        let o = names_seen_once [] es (λ k. unfold times_named in omega arith) n in
        omega (arith, o, times_named-sort_names n (names_seen [] es)))

abbrev Descending : List DirEntry → Type 0
Descending [] = 0 ≤ 1
Descending (e ∷ es) = All (λ (f : DirEntry). f.version ≤ e.version) es × Descending es

insert_version-low :
    (top : ℕ) (e : DirEntry) (es : List DirEntry)
    → e.version ≤ top
    → All (λ (f : DirEntry). f.version ≤ top) es
    → All (λ (f : DirEntry). f.version ≤ top) (insert_version e es)
unfolding insert_version
insert_version-low top e [] p h = (p, tt)
insert_version-low top e (f ∷ fs) p (q, h) = elim (Bool-cases (ltb e.version f.version)) [
  | inl t ↦ rw t (q, insert_version-low top e fs p h)
  | inr t ↦ rw t (p, (q, h))
]

insert_version-Descending :
    (e : DirEntry) (es : List DirEntry) → Descending es → Descending (insert_version e es)
unfolding insert_version
insert_version-Descending e [] h = (tt, omega arith)
insert_version-Descending e (f ∷ fs) (low, h) = elim (Bool-cases (ltb e.version f.version)) [
  | inl t ↦
      let below : e.version ≤ f.version = ground (arith, t) in
      rw t (insert_version-low f.version e fs below low, insert_version-Descending e fs h)
  | inr t ↦
      let below : f.version ≤ e.version = ground (arith, t) in
      rw t ((below, All-imp (λ g b. omega (arith, b, below)) fs low), (low, h))
]

sort_versions-Descending : (es : List DirEntry) → Descending (sort_versions es)
unfolding sort_versions
sort_versions-Descending [] = omega arith
sort_versions-Descending (e ∷ es) =
    insert_version-Descending e (sort_versions es) (sort_versions-Descending es)

-- An entry may stand somewhere before another: its name is before the other's, or it is an entry of
-- the same name and no lower version.
abbrev pub Precedes : DirEntry → DirEntry → Type 0
Precedes e f = Before e.name f.name ⊎ ((e.name ≡ f.name) × (f.version ≤ e.version))

-- Each entry precedes all those behind it.
abbrev pub Ordered : List DirEntry → Type 0
Ordered [] = 0 ≤ 1
Ordered (e ∷ es) = All (Precedes e) es × Ordered es

Ordered-append :
    (xs ys : List DirEntry)
    → Ordered xs
    → Ordered ys
    → All (λ (x : DirEntry). All (Precedes x) ys) xs
    → Ordered (xs ++ ys)
Ordered-append [] ys h k a = k
Ordered-append (x ∷ xs) ys (low, h) k (b, a) =
    (All-append (Precedes x) xs ys low b, Ordered-append xs ys h k a)

relabel-All :
    (P : DirEntry → Type 0) (n : List ℕ) (limit : ℕ) (vs : List DirEntry)
    → ((v : DirEntry) → P (record v { name = n; version_limit = limit }))
    → All P (relabel n limit vs)
relabel-All P n limit [] f = tt
relabel-All P n limit (v ∷ vs) f = (f v, relabel-All P n limit vs f)

relabel-low :
    (e : DirEntry) (n : List ℕ) (limit : ℕ) (vs : List DirEntry)
    → e.name ≡ n
    → All (λ (f : DirEntry). f.version ≤ e.version) vs
    → All (Precedes e) (relabel n limit vs)
relabel-low e n limit [] q h = tt
relabel-low e n limit (v ∷ vs) q (p, h) = (inr (q, p), relabel-low e n limit vs q h)

relabel-Ordered :
    (n : List ℕ) (limit : ℕ) (vs : List DirEntry) → Descending vs → Ordered (relabel n limit vs)
relabel-Ordered n limit [] h = omega arith
relabel-Ordered n limit (v ∷ vs) (low, h) = (
  relabel-low (record v { name = n; version_limit = limit }) n limit vs refl low,
  relabel-Ordered n limit vs h,
)

listing-Before :
    (n : List ℕ) (ns : List (List ℕ)) (es : List DirEntry)
    → All (Before n) ns
    → All (λ (f : DirEntry). Before n f.name) (listing ns es)
unfolding listing
listing-Before n [] es h = tt
listing-Before n (m ∷ ms) es (b, h) =
    let limit = record_limit (versions_of m es) in
    All-append (λ (f : DirEntry). Before n f.name) (relabel m limit (versions_of m es))
      (listing ms es)
      (relabel-All (λ (f : DirEntry). Before n f.name) m limit (versions_of m es) (λ v. b))
      (listing-Before n ms es h)

listing-Ordered :
    (ns : List (List ℕ)) (es : List DirEntry) → AscendingNames ns → Ordered (listing ns es)
unfolding listing
listing-Ordered [] es h = omega arith
listing-Ordered (n ∷ ns) es (low, h) =
    let limit = record_limit (versions_of n es) in
    Ordered-append (relabel n limit (versions_of n es)) (listing ns es)
      (relabel-Ordered n limit (versions_of n es) (sort_versions-Descending (group_of n es)))
      (listing-Ordered ns es h)
      (relabel-All (λ (x : DirEntry). All (Precedes x) (listing ns es)) n limit (versions_of n es)
        (λ v. All-imp (λ f b. inl b) (listing ns es) (listing-Before n ns es low)))

pub canonical-Ordered : (es : List DirEntry) → Ordered (canonical es)
unfolding canonical
canonical-Ordered es = listing-Ordered (sort_names (names_seen [] es)) es (names-AscendingNames es)
