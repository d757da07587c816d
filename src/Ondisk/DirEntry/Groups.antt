-- ===== src/Ondisk/DirEntry/Groups.antt =====
-- ondisk/directory.go: what holds of all entries holds of them grouped by name and sorted.
use ods.Base.{ℕ, suc, ◌≡◌, refl, List, [], ◌∷◌, length, ltb, All, arith, Bool-cases, inl, inr}
use ods.Ondisk.DirEntry.{DirEntry, group_of, insert_version, sort_versions, name_eq}

module _ (P : DirEntry → Type 0) where
  pub group_of-All : (n : List ℕ) (es : List DirEntry) → All P es → All P (group_of n es)
  unfolding group_of
  group_of-All n [] h = h
  group_of-All n (e ∷ es) (h, hs) = elim (Bool-cases (name_eq e.name n)) [
    | inl t ↦ rw t (h, group_of-All n es hs)
    | inr t ↦ rw t (group_of-All n es hs)
  ]

  insert_version-All :
      (e : DirEntry) (es : List DirEntry) → P e → All P es → All P (insert_version e es)
  unfolding insert_version
  insert_version-All e [] h hs = (h, hs)
  insert_version-All e (f ∷ fs) h (k, ks) = elim (Bool-cases (ltb e.version f.version)) [
    | inl t ↦ rw t (k, insert_version-All e fs h ks)
    | inr t ↦ rw t (h, (k, ks))
  ]

  pub sort_versions-All : (es : List DirEntry) → All P es → All P (sort_versions es)
  unfolding sort_versions
  sort_versions-All [] h = h
  sort_versions-All (e ∷ es) (h, hs) =
      insert_version-All e (sort_versions es) h (sort_versions-All es hs)

length-insert_version :
    (e : DirEntry) (es : List DirEntry) → length (insert_version e es) ≡ suc (length es)
unfolding insert_version
length-insert_version e [] = refl
length-insert_version e (f ∷ fs) = ground (arith, length-insert_version e fs)

pub length-sort_versions : (es : List DirEntry) → length (sort_versions es) ≡ length es
unfolding sort_versions
length-sort_versions [] = refl
length-sort_versions (e ∷ es) =
    omega (arith, length-insert_version e (sort_versions es), length-sort_versions es)
