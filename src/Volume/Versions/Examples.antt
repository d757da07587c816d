-- ===== src/Volume/Versions/Examples.antt =====
-- A name with four versions, two of which are kept.
use ods.Base.{ℕ, List, [], ◌∷◌}
use ods.Ondisk.DirEntry.{DirEntry}

abbrev login : List ℕ
login = 0x4C ∷ 0x4F ∷ 0x47 ∷ []

abbrev entry : ℕ → DirEntry
entry version = record {
  name = login;
  version = version;
  version_limit = 0;
  fid = record { num = 20; seq = 1; rvn = 1; nmx = 0 };
}

abbrev listing : List DirEntry
listing = entry 9 ∷ entry 4 ∷ entry 3 ∷ entry 1 ∷ []
