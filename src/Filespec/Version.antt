-- ===== src/Filespec/Version.antt =====
-- filespec/version.go: version numbers in a file specification, and the versions they select.
pub mod Selection
mod Examples
use ods.Base.{
  ℕ, zero, suc, ◌+◌, ◌-◌, ◌*◌, ◌^◌, List, [], ◌∷◌, ◌++◌, Bool, true, false, ◌&&◌, ◌||◌, Option,
  none, some, Result, ok, err, ◌>>=◌, bad_version, length, ltb, leb, ◌==◌, if◌then◌else◌,
}
use ods.Ondisk.DirEntry.{DirEntry, name_eq, names_seen, group_of, sort_versions}

-- A relative selector counts down from the highest version.
pub data VersionSelector : Type 0 where
  highest all lowest : VersionSelector
  exact relative : ℕ → VersionSelector

pub digits_value : ℕ → List ℕ → Result ℕ
digits_value value [] = ok value
digits_value value (c ∷ s) =
    let rest = digits_value (value * 10 + (c - b'0')) s in
    if leb b'0' c && leb c b'9' then rest else err bad_version

-- The digits that strconv.Atoi takes behind the sign, and the largest value it takes there.
pub atoi_digits : ℕ → List ℕ → Result ℕ
unfolding digits_value
atoi_digits largest [] = err bad_version
atoi_digits largest (c ∷ s) = do
  value ← digits_value 0 (c ∷ s)
  if ltb largest value then err bad_version else ok value

abbrev select_up : ℕ → VersionSelector
select_up n = if n == 0 then highest else exact n

abbrev select_down : ℕ → VersionSelector
select_down n = if n == 0 then highest else relative n

-- The value that strconv.Atoi gives for a string, sorted by its sign.
pub select_number : List ℕ → Result VersionSelector
unfolding atoi_digits
select_number [] = err bad_version
select_number (c ∷ s) =
    if c == b'-'
    then (do n ← atoi_digits (2 ^ 63) s; ok (select_down n))
    else if c == b'+'
    then (do n ← atoi_digits (2 ^ 63 - 1) s; ok (select_up n))
    else (do n ← atoi_digits (2 ^ 63 - 1) (c ∷ s); ok (select_up n))

pub parse_version_selector : List ℕ → Result VersionSelector
unfolding select_number name_eq
parse_version_selector v =
    if name_eq v [] || name_eq v (b'0' ∷ [])
    then ok highest
    else if name_eq v (b'*' ∷ [])
    then ok all
    else if name_eq v (b'-' ∷ b'0' ∷ [])
    then ok lowest
    else select_number v

-- The first entry of a version number.
pub first_version : ℕ → List DirEntry → List DirEntry
first_version n [] = []
first_version n (e ∷ es) = let rest = first_version n es in if e.version == n then e ∷ [] else rest

pub entry_at : ℕ → List DirEntry → List DirEntry
entry_at i [] = []
entry_at zero (e ∷ es) = e ∷ []
entry_at (suc i) (e ∷ es) = entry_at i es

-- What a selector takes of one name's entries, the highest version first.
pub select_group : VersionSelector → List DirEntry → List DirEntry
unfolding first_version entry_at
select_group highest es = entry_at 0 es
select_group all es = es
select_group lowest es = entry_at (length es - 1) es
select_group (exact n) es = first_version n es
select_group (relative n) es = entry_at n es

-- The groups, in the order in which their names are first seen.
pub select_groups : VersionSelector → List (List ℕ) → List DirEntry → List DirEntry
unfolding select_group
select_groups sel [] entries = []
select_groups sel (n ∷ ns) entries =
    select_group sel (sort_versions (group_of n entries)) ++ select_groups sel ns entries

pub select_versions : List DirEntry → VersionSelector → List DirEntry
unfolding select_groups
select_versions entries sel = select_groups sel (names_seen [] entries) entries
