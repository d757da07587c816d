-- ===== src/Volume/Directory/Examples.antt =====
-- Looking up a name of two versions in a directory of one block.
use ods.Base.{ℕ, ◌≡◌, ◌≢◌, ◌<◌, refl, List, [], ◌∷◌, ok, All, arith, true}
use ods.Filespec.Text.{codes, upper_byte}
use ods.Ondisk.Block.{decode_swapped_longword}
use ods.Ondisk.DirEntry.{DirEntry, name_eq}
use ods.Ondisk.DirBlock.{decode_directory_block, read_records, read_record, read_versions}
use ods.Ondisk.FileHeader.{header_fields}
use ods.Volume.Device.{File}
use ods.Volume.Extents.{read_extents, resolve_extent_lbn, resolve_from}
use ods.Volume.File.{read_block, is_unwritten, blocks, used_blocks, locate}
use ods.Volume.Directory.{
  equal_fold, list, list_blocks, find_entry, better, result_of, lookup, highest_version,
  next_version,
}
use ods.Volume.Directory.Names.{Entry, NoHigher, lookup-Entry, next_version-fresh}
use ods.Volume.TestVolume.{mounted, directory_header}

abbrev pub folder : File
folder = record {
  header = header_fields directory_header;
  extents = locate 1 (record { count = 1; start_lbn = 12 } ∷ []);
}

abbrev pub second : DirEntry
second = record {
  name = codes "A.";
  version = 2;
  fid = record { num = 3; seq = 5; rvn = 0; nmx = 0 };
  version_limit = 3;
}

abbrev pub first : DirEntry
first = record {
  name = codes "A.";
  version = 1;
  fid = record { num = 2; seq = 1; rvn = 0; nmx = 0 };
  version_limit = 3;
}

pub lists_folder : list mounted folder ≡ ok (second ∷ first ∷ [])
unfolding list list_blocks blocks used_blocks is_unwritten read_block read_extents
    resolve_extent_lbn resolve_from decode_directory_block read_records read_record read_versions
    header_fields decode_swapped_longword
lists_folder = refl

finds_second : lookup mounted folder (codes "a.") 0 ≡ ok second
unfolding lookup find_entry better result_of equal_fold name_eq upper_byte
finds_second = rw lists_folder refl

abbrev any_version : ℕ
any_version = 0

lookup-Entry_example :
    (es : List DirEntry) × (list mounted folder ≡ ok es)
    × Entry second es
    × (equal_fold (codes "A.") (codes "a.") ≡ true)
    × (any_version ≢ 0 → 2 ≡ any_version)
    × (any_version ≡ 0 → All (NoHigher (codes "a.") 2) es)
lookup-Entry_example = lookup-Entry mounted folder (codes "a.") 0 second finds_second

highest_is_two : highest_version (codes "a.") (second ∷ first ∷ []) 0 ≡ 2
unfolding highest_version equal_fold name_eq upper_byte
highest_is_two = refl

third_next : next_version mounted folder (codes "a.") ≡ ok 3
unfolding next_version
third_next = rw (lists_folder, highest_is_two) refl

next_version-fresh_example :
    All
      (λ (e : DirEntry). equal_fold e.name (codes "a.") ≡ true → e.version < 3)
      (second ∷ first ∷ [])
next_version-fresh_example =
    next_version-fresh mounted folder (codes "a.") (second ∷ first ∷ []) 3 lists_folder
      (omega (arith, highest_is_two)) third_next
