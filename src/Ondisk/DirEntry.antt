-- ===== src/Ondisk/DirEntry.antt =====
-- ondisk/directory.go: directory entries. A Go string is the list of its bytes.
pub mod Groups
pub mod Counts
use ods.Base.{ℕ, List, [], ◌∷◌, ◌++◌, Bool, true, false, ◌&&◌, ◌||◌, ltb, ◌==◌, if◌then◌else◌}
use ods.Ondisk.Fid.{Fid}

pub record DirEntry : Type 0 where
  pub name : List ℕ
  pub version : ℕ
  pub fid : Fid
  pub version_limit : ℕ

abbrev pub no_version_limit : ℕ
no_version_limit = 32767

-- Go's `==` and `<` on strings: byte by byte.
unfoldable pub name_eq : List ℕ → List ℕ → Bool
name_eq [] [] = true
name_eq [] (y ∷ ys) = false
name_eq (x ∷ xs) [] = false
name_eq (x ∷ xs) (y ∷ ys) = x == y && name_eq xs ys

unfoldable pub name_lt : List ℕ → List ℕ → Bool
name_lt [] [] = false
name_lt [] (y ∷ ys) = true
name_lt (x ∷ xs) [] = false
name_lt (x ∷ xs) (y ∷ ys) = ltb x y || (x == y && name_lt xs ys)

-- The names of the map `byName`, in the order in which they are first seen.
unfoldable pub seen_name : List ℕ → List (List ℕ) → Bool
unfolding name_eq
seen_name n [] = false
seen_name n (m ∷ ms) = name_eq n m || seen_name n ms

unfoldable pub names_seen : List (List ℕ) → List DirEntry → List (List ℕ)
unfolding seen_name
names_seen names [] = names
names_seen names (e ∷ es) =
    names_seen (if seen_name e.name names then names else names ++ e.name ∷ []) es

-- `byName[name]`: the entries of that name, in their order.
unfoldable pub group_of : List ℕ → List DirEntry → List DirEntry
unfolding name_eq
group_of n [] = []
group_of n (e ∷ es) = let rest = group_of n es in if name_eq e.name n then e ∷ rest else rest

-- sort.Strings
unfoldable pub insert_name : List ℕ → List (List ℕ) → List (List ℕ)
unfolding name_lt
insert_name n [] = n ∷ []
insert_name n (m ∷ ms) = if name_lt m n then m ∷ insert_name n ms else n ∷ m ∷ ms

unfoldable pub sort_names : List (List ℕ) → List (List ℕ)
unfolding insert_name
sort_names [] = []
sort_names (n ∷ ns) = insert_name n (sort_names ns)

-- sort.Slice by version, the highest first. Entries of one version keep their order, as one of the
-- orders that Go's sort allows.
unfoldable pub insert_version : DirEntry → List DirEntry → List DirEntry
insert_version e [] = e ∷ []
insert_version e (f ∷ fs) = if ltb e.version f.version then f ∷ insert_version e fs else e ∷ f ∷ fs

unfoldable pub sort_versions : List DirEntry → List DirEntry
unfolding insert_version
sort_versions [] = []
sort_versions (e ∷ es) = insert_version e (sort_versions es)
