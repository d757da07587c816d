-- ===== src/Ondisk/DirBlock/Examples.antt =====
-- The theorems on directory blocks at a directory of three entries under two names.
use ods.Base.{err, out_of_fuel, ◌≢◌, ◌≡◌, refl, List, [], ◌∷◌, ℕ, ok, All, arith, replicate}
use ods.Ondisk.Fid.{Fid, encode_fid}
use ods.Ondisk.DirEntry.{
  DirEntry, name_eq, name_lt, seen_name, names_seen, group_of, insert_name, sort_names,
  insert_version, sort_versions,
}
use ods.Ondisk.DirBlock.{
  decode_directory_block, encode_directory_block, encode_records, encode_record, version_bytes,
  record_limit, largest_limit,
}
use ods.Ondisk.DirEntry.Counts.{SameEntries}
use ods.Ondisk.DirBlock.Fuel.{decode_directory_block-ends}
use ods.Ondisk.DirBlock.Records.{EntryInRange}
use ods.Ondisk.DirBlock.RoundTrip.{canonical, listing}
use ods.Ondisk.DirBlock.Order.{Ordered}
use ods.Ondisk.DirBlock.Limits.{Limited}
use ods.Ondisk.DirBlock.Sorted.{decode_directory_block-encode_directory_block}

abbrev file : ℕ → Fid
file n = record { num = n; seq = 1; rvn = 0; nmx = 0 }

abbrev entry : List ℕ → ℕ → ℕ → DirEntry
entry n v f = record { name = n; version = v; fid = file f; version_limit = 3 }

-- `B.T;1`, `A.;1` and `B.T;2`
abbrev three : List DirEntry
three =
    entry (66 ∷ 46 ∷ 84 ∷ []) 1 11 ∷ entry (65 ∷ 46 ∷ []) 1 12 ∷ entry (66 ∷ 46 ∷ 84 ∷ []) 2 13 ∷ []

abbrev three_block : List ℕ
three_block =
    14
    ∷ 0
    ∷ 3
    ∷ 0
    ∷ 0
    ∷ 2
    ∷ 65
    ∷ 46
    ∷ 1
    ∷ 0
    ∷ 12
    ∷ 0
    ∷ 1
    ∷ 0
    ∷ 0
    ∷ 0
    ∷ 24
    ∷ 0
    ∷ 3
    ∷ 0
    ∷ 0
    ∷ 3
    ∷ 66
    ∷ 46
    ∷ 84
    ∷ 0
    ∷ 2
    ∷ 0
    ∷ 13
    ∷ 0
    ∷ 1
    ∷ 0
    ∷ 0
    ∷ 0
    ∷ 1
    ∷ 0
    ∷ 11
    ∷ 0
    ∷ 1
    ∷ 0
    ∷ 0
    ∷ 0
    ∷ 255
    ∷ 255
    ∷ replicate 468 0

three-EntryInRange : All EntryInRange three
three-EntryInRange = omega arith

encode_three : encode_directory_block three ≡ ok three_block
unfolding encode_directory_block encode_records encode_record version_bytes record_limit
    largest_limit encode_fid names_seen seen_name name_eq sort_names insert_name name_lt group_of
    sort_versions insert_version
encode_three = refl

canonical-three :
    canonical three
    ≡ entry (65 ∷ 46 ∷ []) 1 12
      ∷ entry (66 ∷ 46 ∷ 84 ∷ []) 2 13
      ∷ entry (66 ∷ 46 ∷ 84 ∷ []) 1 11
      ∷ []
unfolding canonical listing record_limit largest_limit names_seen seen_name name_eq sort_names
    insert_name name_lt group_of sort_versions insert_version
canonical-three = refl

decode_directory_block-encode_directory_block_example :
    (out : List DirEntry) × (decode_directory_block three_block ≡ ok out)
    × SameEntries three out
    × Ordered out
    × All (Limited three) out
decode_directory_block-encode_directory_block_example =
    decode_directory_block-encode_directory_block three three_block three-EntryInRange encode_three

-- A block of zeros.
decode_directory_block-ends_example : decode_directory_block (replicate 512 0) ≢ err out_of_fuel
decode_directory_block-ends_example = decode_directory_block-ends (replicate 512 0)
