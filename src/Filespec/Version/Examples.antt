-- ===== src/Filespec/Version/Examples.antt =====
-- Selecting versions in a listing of three entries, and the selectors that strings stand for.
use ods.Base.{ℕ, ◌≡◌, ◌≤◌, refl, List, [], ◌∷◌, ok, err, bad_version}
use ods.Filespec.Text.{codes}
use ods.Ondisk.DirEntry.{
  DirEntry, name_eq, seen_name, names_seen, group_of, insert_version, sort_versions,
}
use ods.Filespec.Version.{
  VersionSelector, select_versions, select_groups, select_group, entry_at, parse_version_selector,
  select_number, atoi_digits, digits_value,
}
use ods.Filespec.Version.Selection.{FirstSeen, OnePerName, select_versions-highest}
use ods.Ondisk.DirBlock.Kept.{Among}
use ods.Ondisk.DirEntry.Counts.{times_named}

abbrev entry : List ℕ → ℕ → DirEntry
entry n v = record {
  name = n;
  version = v;
  fid = record { num = v; seq = 1; rvn = 0; nmx = 0 };
  version_limit = 0;
}

abbrev listing : List DirEntry
listing = entry (codes "B.") 1 ∷ entry (codes "A.") 4 ∷ entry (codes "B.") 3 ∷ []

select_versions-highest_example :
    (ns : List (List ℕ)) × FirstSeen [] listing ns
    × ((n : List ℕ) → times_named n ns ≤ 1)
    × ((e : DirEntry) → Among e listing → Among e.name ns)
    × OnePerName listing ns (select_versions listing VersionSelector.highest)
select_versions-highest_example = select_versions-highest listing

highest_two :
    select_versions listing VersionSelector.highest
    ≡ entry (codes "B.") 3 ∷ entry (codes "A.") 4 ∷ []
unfolding select_versions select_groups select_group entry_at names_seen seen_name name_eq group_of
    sort_versions insert_version
highest_two = refl

one_below : select_versions listing (VersionSelector.relative 1) ≡ entry (codes "B.") 1 ∷ []
unfolding select_versions select_groups select_group entry_at names_seen seen_name name_eq group_of
    sort_versions insert_version
one_below = refl

parse_relative : parse_version_selector (codes "-12") ≡ ok (VersionSelector.relative 12)
unfolding parse_version_selector select_number atoi_digits digits_value name_eq
parse_relative = refl

parse_exact : parse_version_selector (codes "+007") ≡ ok (VersionSelector.exact 7)
unfolding parse_version_selector select_number atoi_digits digits_value name_eq
parse_exact = refl

parse_word : parse_version_selector (codes "5A") ≡ err bad_version
unfolding parse_version_selector select_number atoi_digits digits_value name_eq
parse_word = refl
