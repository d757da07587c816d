-- ===== src/Ondisk/DirBlock/Kept.antt =====
-- ondisk/directory.go: entries and names on their way through grouping and sorting.
use ods.Base.{
  ℕ, ◌≡◌, refl, sym, ap, List, [], ◌∷◌, ◌++◌, true, ltb, ◌==◌, ==_refl, ==_iff, arith, Bool-cases,
  inl, inr,
}
use ods.Ondisk.DirEntry.{
  DirEntry, name_eq, name_lt, seen_name, names_seen, group_of, insert_name, sort_names,
  insert_version, sort_versions,
}

pub name_eq_refl : (n : List ℕ) → name_eq n n ≡ true
unfolding name_eq
name_eq_refl [] = refl
name_eq_refl (c ∷ n) = ground (arith, ==_refl c, name_eq_refl n)

pub name_eq→eq : (a b : List ℕ) → name_eq a b ≡ true → a ≡ b
unfolding name_eq
name_eq→eq [] [] h = refl
name_eq→eq [] (y ∷ b) h = cc
name_eq→eq (x ∷ a) [] h = cc
name_eq→eq (x ∷ a) (y ∷ b) h = elim (Bool-cases (x == y)) [
  | inl t ↦ let e : x ≡ y = (==_iff x y).0 t in cc (e, name_eq→eq a b (rw t at h))
  | inr t ↦ absurd (ground (arith, t))
]

-- One of the list is the given one.
pub data Among {A : Type 0} (a : A) : List A → Type 0 where
  here : {b : A} {bs : List A} → a ≡ b → Among a (b ∷ bs)
  there : {b : A} {bs : List A} → Among a bs → Among a (b ∷ bs)

pub Among-append : {A : Type 0} {a : A} (xs ys : List A) → Among a xs → Among a (xs ++ ys)
Among-append [] ys m = elim m [ ]
Among-append (x ∷ xs) ys (here e) = here e
Among-append (x ∷ xs) ys (there m) = there (Among-append xs ys m)

pub append-Among : {A : Type 0} {a : A} (xs ys : List A) → Among a ys → Among a (xs ++ ys)
append-Among [] ys m = m
append-Among (x ∷ xs) ys m = there (append-Among xs ys m)

pub seen_name-Among : (n : List ℕ) (ns : List (List ℕ)) → seen_name n ns ≡ true → Among n ns
unfolding seen_name
seen_name-Among n [] h = cc
seen_name-Among n (m ∷ ms) h = elim (Bool-cases (name_eq n m)) [
  | inl t ↦ here (name_eq→eq n m t)
  | inr t ↦ there (seen_name-Among n ms (rw t at h))
]

names_seen-keeps :
    (n : List ℕ) (names : List (List ℕ)) (es : List DirEntry)
    → Among n names
    → Among n (names_seen names es)
unfolding names_seen
names_seen-keeps n names [] m = m
names_seen-keeps n names (e ∷ es) m = elim (Bool-cases (seen_name e.name names)) [
  | inl t ↦ rw t (names_seen-keeps n names es m)
  | inr t ↦ rw t (names_seen-keeps n (names ++ e.name ∷ []) es (Among-append names (e.name ∷ []) m))
]

pub names_seen-Among :
    (e : DirEntry) (names : List (List ℕ)) (es : List DirEntry)
    → Among e es
    → Among e.name (names_seen names es)
unfolding names_seen
names_seen-Among e names [] m = elim m [ ]
names_seen-Among e names (f ∷ fs) (here h) = elim (Bool-cases (seen_name f.name names)) [
  | inl t ↦
      let name : f.name ≡ e.name = ap (λ (d : DirEntry). d.name) (sym h) in
      rw t (names_seen-keeps e.name names fs (rw name at (seen_name-Among f.name names t)))
  | inr t ↦
      let name : e.name ≡ f.name = ap (λ (d : DirEntry). d.name) h in
      rw t (
        names_seen-keeps e.name (names ++ f.name ∷ []) fs
          (append-Among names (f.name ∷ []) (here name)))
]
names_seen-Among e names (f ∷ fs) (there m) = elim (Bool-cases (seen_name f.name names)) [
  | inl t ↦ rw t (names_seen-Among e names fs m)
  | inr t ↦ rw t (names_seen-Among e (names ++ f.name ∷ []) fs m)
]

insert_name-Among :
    (n m : List ℕ) (ms : List (List ℕ)) → Among n (m ∷ ms) → Among n (insert_name m ms)
unfolding insert_name
insert_name-Among n m [] a = a
insert_name-Among n m (k ∷ ks) a = elim (Bool-cases (name_lt k m)) [
  | inr t ↦ rw t a
  | inl t ↦ rw t (elim a [
    | here e ↦ there (insert_name-Among n m ks (here e))
    | there b ↦ elim b [ here e ↦ here e | there c ↦ there (insert_name-Among n m ks (there c)) ]
  ])
]

pub sort_names-Among : (n : List ℕ) (ns : List (List ℕ)) → Among n ns → Among n (sort_names ns)
unfolding sort_names
sort_names-Among n [] a = a
sort_names-Among n (m ∷ ms) (here e) = insert_name-Among n m (sort_names ms) (here e)
sort_names-Among n (m ∷ ms) (there a) =
    insert_name-Among n m (sort_names ms) (there (sort_names-Among n ms a))

insert_version-Among :
    (e f : DirEntry) (fs : List DirEntry) → Among e (f ∷ fs) → Among e (insert_version f fs)
unfolding insert_version
insert_version-Among e f [] a = a
insert_version-Among e f (g ∷ gs) a = elim (Bool-cases (ltb f.version g.version)) [
  | inr t ↦ rw t a
  | inl t ↦ rw t (elim a [
    | here h ↦ there (insert_version-Among e f gs (here h))
    | there b ↦ elim b [ here h ↦ here h | there c ↦ there (insert_version-Among e f gs (there c)) ]
  ])
]

pub sort_versions-Among :
    (e : DirEntry) (es : List DirEntry) → Among e es → Among e (sort_versions es)
unfolding sort_versions
sort_versions-Among e [] a = a
sort_versions-Among e (f ∷ fs) (here h) = insert_version-Among e f (sort_versions fs) (here h)
sort_versions-Among e (f ∷ fs) (there a) =
    insert_version-Among e f (sort_versions fs) (there (sort_versions-Among e fs a))

pub group_of-Among : (e : DirEntry) (es : List DirEntry) → Among e es → Among e (group_of e.name es)
unfolding group_of
group_of-Among e [] a = a
group_of-Among e (f ∷ fs) (here h) =
    let name : e.name ≡ f.name = ap (λ (d : DirEntry). d.name) h in
    let t : name_eq f.name e.name ≡ true = rw name (name_eq_refl f.name) in rw t (here h)
group_of-Among e (f ∷ fs) (there a) = elim (Bool-cases (name_eq f.name e.name)) [
  | inl t ↦ rw t (there (group_of-Among e fs a))
  | inr t ↦ rw t (group_of-Among e fs a)
]
