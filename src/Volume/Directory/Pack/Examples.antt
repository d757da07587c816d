-- ===== src/Volume/Directory/Pack/Examples.antt =====
-- Three entries of two names, packed.
use ods.Base.{ℕ, ◌≡◌, List, [], ◌∷◌, ok, arith}
use ods.Ondisk.DirEntry.{DirEntry}
use ods.Volume.Directory.Pack.{pack_directory_blocks}
use ods.Volume.Directory.Pack.Total.{pack_directory_blocks_succeeds}
use ods.Ondisk.DirEntry.Counts.{SameEntries}
use ods.Volume.Directory.Pack.Kept.{decode_blocks, pack_directory_blocks-SameEntries}

abbrev numbered : List ℕ → ℕ → DirEntry
numbered name version = record {
  name = name;
  version = version;
  fid = record { num = version; seq = 1; rvn = 0; nmx = 0 };
  version_limit = 3;
}

abbrev three : List DirEntry
three = numbered (66 ∷ 46 ∷ []) 1 ∷ numbered (65 ∷ 46 ∷ []) 2 ∷ numbered (66 ∷ 46 ∷ []) 7 ∷ []

pack_directory_blocks_succeeds_example :
    (blocks : List (List ℕ)) × (pack_directory_blocks three ≡ ok blocks)
pack_directory_blocks_succeeds_example = pack_directory_blocks_succeeds three (omega arith)

abbrev three_blocks : List (List ℕ)
three_blocks = (pack_directory_blocks_succeeds three (omega arith)).0

three_packed : pack_directory_blocks three ≡ ok three_blocks
three_packed = (pack_directory_blocks_succeeds three (omega arith)).1

pack_directory_blocks-SameEntries_example :
    (out : List DirEntry) × (decode_blocks three_blocks ≡ ok out) × SameEntries three out
pack_directory_blocks-SameEntries_example =
    pack_directory_blocks-SameEntries three three_blocks (omega arith) three_packed
