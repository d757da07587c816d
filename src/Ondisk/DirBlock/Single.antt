-- ===== src/Ondisk/DirBlock/Single.antt =====
-- ondisk/directory.go: one entry always fits in a directory block.
use ods.Base.{
  ℕ, ◌+◌, ◌≤◌, ◌≡◌, refl, false, List, [], ◌∷◌, ◌++◌, ok, length, ltb, le→ltb, arith, replicate,
  ◌-◌,
}
use ods.Ondisk.DirEntry.{
  DirEntry, names_seen, seen_name, group_of, sort_names, insert_name, sort_versions, insert_version,
}
use ods.Ondisk.DirBlock.{encode_directory_block, encode_records, encode_record}
use ods.Ondisk.DirBlock.Records.{length-encode_record}
use ods.Ondisk.DirBlock.Kept.{name_eq_refl}

group_of-one : (e : DirEntry) → group_of e.name (e ∷ []) ≡ e ∷ []
unfolding group_of
group_of-one e = rw (name_eq_refl e.name) refl

pub encode_directory_block-one :
    (e : DirEntry)
    → length e.name ≤ 255
    → (block : List ℕ) × (encode_directory_block (e ∷ []) ≡ ok block)
unfolding encode_directory_block encode_records names_seen seen_name sort_names insert_name
    sort_versions insert_version
encode_directory_block-one e h =
    let rec : List ℕ = encode_record e.name (e ∷ []) in
    let size = length-encode_record e.name (e ∷ []) in
    let named : ltb 255 (length e.name) ≡ false = le→ltb 255 (length e.name) h in
    let fits : ltb 512 (length rec + 2) ≡ false =
      le→ltb 512 (length rec + 2) (omega (arith, size)) in
    (
      rec ++ (255 ∷ 255 ∷ replicate (512 - (length rec + 2)) 0),
      rw (named, group_of-one e, fits) refl,
    )

pub encode_directory_block-none : (block : List ℕ) × (encode_directory_block [] ≡ ok block)
unfolding encode_directory_block encode_records names_seen sort_names
encode_directory_block-none = (255 ∷ 255 ∷ replicate 510 0, refl)
