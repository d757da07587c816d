-- ===== src/Volume/Versions.antt =====
-- volume/writefile.go and volume/delete.go: which versions of a name a version limit and PURGE take.
-- A directory is a state, whose listing and whose DeleteFile are arguments.
pub mod Oldest
mod Examples
use ods.Base.{
  ℕ, ◌-◌, List, [], ◌∷◌, Result, ok, err, ◌>>=◌, zero_count, length, take, ltb, leb, ◌==◌,
  if◌then◌else◌,
}
use ods.Base.Word.{u16}
use ods.Ondisk.DirEntry.{DirEntry}
use ods.Volume.Directory.{equal_fold}

-- `sort.Slice`, on numbers.
unfoldable pub insert_number : ℕ → List ℕ → List ℕ
insert_number n [] = n ∷ []
insert_number n (m ∷ ms) = if ltb m n then m ∷ insert_number n ms else n ∷ m ∷ ms

unfoldable pub sort_numbers : List ℕ → List ℕ
unfolding insert_number
sort_numbers [] = []
sort_numbers (n ∷ ns) = insert_number n (sort_numbers ns)

unfoldable pub versions_of : List DirEntry → List ℕ → List ℕ
unfolding equal_fold
versions_of [] name = []
versions_of (e ∷ es) name =
    if equal_fold e.name name then e.version ∷ versions_of es name else versions_of es name

unfoldable pub excess_versions : List DirEntry → List ℕ → ℕ → List ℕ
unfolding versions_of sort_numbers
excess_versions entries name keep =
    let versions = versions_of entries name in
    if leb (u16 (length versions)) keep
    then []
    else take (length versions - keep) (sort_numbers versions)

module _ {S : Type 0} (list : S → Result (List DirEntry))
    (delete_file : List ℕ → ℕ → S → Result S) where
  unfoldable pub delete_versions : List ℕ → List ℕ → S → Result S
  delete_versions name [] dir = ok dir
  delete_versions name (v ∷ vs) dir = delete_file name v dir >>= delete_versions name vs

  unfoldable pub enforce_version_limit : List ℕ → ℕ → S → Result S
  unfolding excess_versions delete_versions
  enforce_version_limit name limit dir =
      if limit == 0
      then ok dir
      else (do entries ← list dir; delete_versions name (excess_versions entries name limit) dir)

  unfoldable pub purge_versions : List ℕ → ℕ → S → Result S
  unfolding excess_versions delete_versions
  purge_versions name keep dir =
      if keep == 0
      then err zero_count
      else (do entries ← list dir; delete_versions name (excess_versions entries name keep) dir)
