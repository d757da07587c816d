-- ===== src/Volume/Directory/Update/Examples.antt =====
-- An entry put into a directory of one block, and an entry taken out of it.
use ods.Base.{
  ◌&&◌, if◌then◌else◌, ℕ, ◌≡◌, ◌≢◌, refl, sym, ◌∙◌, List, [], ◌∷◌, ◌++◌, true, false, some, Result,
  ok, err, zero_vbn, beyond_file, not_found, already_exists, version_required, All, replicate, leb,
  ◌==◌, arith, Bool-cases, inl, inr,
}
use ods.Filespec.Text.{codes, upper_byte}
use ods.Ondisk.Block.{decode_swapped_longword}
use ods.Ondisk.DirEntry.{
  DirEntry, name_eq, name_lt, names_seen, seen_name, group_of, sort_names, insert_name,
  sort_versions, insert_version,
}
use ods.Ondisk.DirBlock.{
  encode_directory_block, encode_records, encode_record, version_bytes, record_limit, largest_limit,
}
use ods.Ondisk.DirBlock.Records.{EntryInRange}
use ods.Ondisk.Fid.{Fid, encode_fid, number}
use ods.Ondisk.FileHeader.{header_fields}
use ods.Ondisk.FileHeader.Encode.{ident_bytes}
use ods.Ondisk.FileHeader.Layout.{encode_file_header_fits}
use ods.Ondisk.FileHeader.RoundTrip.{HeaderInRange}
use ods.Ondisk.HomeBlock.{home_fields}
use ods.Ondisk.Ident.{ident, ident_fields, encode_ident, decode_nul_padded_string}
use ods.Ondisk.Padded.{is_empty}
use ods.Ondisk.Retrieval.{retrieval_pointers, read_entries, read_entry, read_word, read_format1}
use ods.Ondisk.Retrieval.RoundTrip.{encode_retrieval_pointers_total}
use ods.Ondisk.Acl.{acl, acl_area}
use ods.Ondisk.Acl.RoundTrip.{IsAcl}
use ods.Volume.Extents.{resolve_extent_lbn, resolve_from}
use ods.Volume.File.{file_header_vbn}
use ods.Volume.Directory.{list, lookup, equal_fold}
use ods.Volume.Directory.Pack.{
  pack_directory_blocks, pack_names, pack_group, flush, directory_entries_fitting, fitting_from,
  one_at_least,
}
use ods.Ondisk.DirEntry.Counts.{SameEntries}
use ods.Ondisk.DirBlock.Kept.{Among}
use ods.Volume.Directory.Examples.{folder, second, first, lists_folder}
use ods.Volume.Directory.Update.{OpenDirectory, has_version, without, insert, remove}
use ods.Volume.Directory.Update.Written.{IsPlaced}
use ods.Volume.Directory.Update.Changed.{IsDirectory}
use ods.Volume.Directory.Update.Entered.{entry_of, insert-SameEntries, remove-SameEntries}
use ods.Volume.Directory.Update.Stored.{IsStoredIn}
use ods.Volume.Directory.Update.Removed.{times}
use ods.Volume.Directory.Update.Lookups.{lookup-insert, lookup-remove}
use ods.Volume.Headers.{header_ident, index_extents_of}
use ods.Volume.Headers.Rewrite.{HasAreas, areas_of}
use ods.Volume.Headers.Written.{IsSlot}
use ods.Volume.TestVolume.{mounted}
use ods.Volume.TestWrite.{
  blank_ident, blank_ident-IdentInRange, set_block, set_block-IsContainerWrite,
}

abbrev other_fid : Fid
other_fid = record { num = 2; seq = 1; rvn = 0; nmx = 0 }

abbrev other : DirEntry
other = entry_of (codes "B.") 1 other_fid 0

abbrev open_folder : OpenDirectory
open_folder = record {
  device = mounted;
  file = folder;
  bitmap = record { cluster_size = 1; total_clusters = 40; bits = replicate 5 0; dirty = false };
  writable = true;
}

abbrev with_other : List ℕ
with_other =
    22
    ∷ 0
    ∷ 3
    ∷ 0
    ∷ 0
    ∷ 2
    ∷ 65
    ∷ 46
    ∷ 2
    ∷ 0
    ∷ 3
    ∷ 0
    ∷ 5
    ∷ 0
    ∷ 0
    ∷ 0
    ∷ 1
    ∷ 0
    ∷ 2
    ∷ 0
    ∷ 1
    ∷ 0
    ∷ 0
    ∷ 0
    ∷ 14
    ∷ 0
    ∷ 255
    ∷ 127
    ∷ 0
    ∷ 2
    ∷ 66
    ∷ 46
    ∷ 1
    ∷ 0
    ∷ 2
    ∷ 0
    ∷ 1
    ∷ 0
    ∷ 0
    ∷ 0
    ∷ 255
    ∷ 255
    ∷ replicate 470 0

abbrev without_second : List ℕ
without_second =
    14 ∷ 0 ∷ 3 ∷ 0 ∷ 0 ∷ 2 ∷ 65 ∷ 46 ∷ 1 ∷ 0 ∷ 2 ∷ 0 ∷ 1 ∷ 0 ∷ 0 ∷ 0 ∷ 255 ∷ 255 ∷ replicate 494 0

packs_other : pack_directory_blocks ((second ∷ first ∷ []) ++ other ∷ []) ≡ ok (with_other ∷ [])
unfolding pack_directory_blocks pack_names pack_group flush directory_entries_fitting fitting_from
    one_at_least names_seen seen_name group_of sort_names insert_name sort_versions insert_version
    encode_directory_block encode_records encode_record version_bytes record_limit largest_limit
    encode_fid name_eq name_lt
packs_other = refl

drops_second : without (codes "a.") 2 (second ∷ first ∷ []) ≡ first ∷ []
unfolding without equal_fold name_eq upper_byte
drops_second = refl

packs_first :
    pack_directory_blocks (without (codes "a.") 2 (second ∷ first ∷ [])) ≡ ok (without_second ∷ [])
unfolding pack_directory_blocks pack_names pack_group flush directory_entries_fitting fitting_from
    one_at_least names_seen seen_name group_of sort_names insert_name sort_versions insert_version
    encode_directory_block encode_records encode_record version_bytes record_limit largest_limit
    encode_fid name_eq name_lt
packs_first = rw drops_second refl

places_one : (v l : ℕ) → resolve_extent_lbn folder.extents v ≡ ok l → (v ≡ 1) × (l ≡ 12)
unfolding resolve_extent_lbn resolve_from
places_one v l e = elim (Bool-cases (v == 0)) [
  | inl t ↦ let failed : resolve_extent_lbn folder.extents v ≡ err zero_vbn = rw t refl in absurd cc
  | inr t ↦ elim (Bool-cases (leb v 1)) [
    | inl u ↦
        let one : v ≡ 1 = ground (arith, t, u) in
        let at : resolve_extent_lbn folder.extents 1 ≡ ok 12 = refl in
        (one, omega (arith, ok_same (sym at ∙ rw one at e)))
    | inr u ↦
        let failed : resolve_extent_lbn folder.extents v ≡ err beyond_file = rw (t, u) refl in
        absurd cc
  ]
]
  where
    ok_same : {x y : ℕ} → Result.ok x ≡ ok y → x ≡ y
    ok_same h = cc

folder-IsPlaced : IsPlaced 1 40 folder.extents
unfolding resolve_extent_lbn resolve_from
folder-IsPlaced = record {
  placed = λ v p q. let one : v ≡ 1 = omega arith in (12, rw one refl, omega arith);
  apart = λ v w l e e'. omega (arith, places_one v l e, places_one w l e');
}

folder-IsSlot : IsSlot mounted (number folder.header.fid) 6
unfolding index_extents_of resolve_extent_lbn resolve_from file_header_vbn home_fields header_fields
    number
folder-IsSlot = record {
  place = refl;
  inside = omega arith;
  alternate = λ one. absurd (omega arith);
}

folder-HeaderInRange : HeaderInRange folder.header
unfolding header_fields decode_swapped_longword
folder-HeaderInRange = omega arith

folder-HasAreas :
    HasAreas folder.header (some blank_ident) (record { count = 1; start_lbn = 12 } ∷ []) []
unfolding header_ident ident ident_fields decode_nul_padded_string is_empty retrieval_pointers
    read_entries read_entry read_word read_format1 acl header_fields
folder-HasAreas = record {
  ident = refl;
  good_ident = blank_ident-IdentInRange;
  extents = refl;
  good_extents = omega arith;
  entries = refl;
  good_list = IsAcl.nothing;
}

folder-IsDirectory : IsDirectory 1 open_folder
unfolding number header_fields ident_bytes encode_ident acl_area decode_swapped_longword
folder-IsDirectory =
    let (map, k, even, most, least) =
      encode_retrieval_pointers_total (record { count = 1; start_lbn = 12 } ∷ []) (omega arith) in
    let (block, e) =
      encode_file_header_fits folder.header (areas_of (some blank_ident) map []) _ refl
        (omega (arith, even)) refl (omega (arith, most)) in
    record {
      slot_lbn = 6;
      slot = folder-IsSlot;
      ordinary = λ one. absurd (omega arith);
      places = folder-IsPlaced;
      outside = λ v h. absurd (omega (arith, places_one v 6 h));
      in_range = folder-HeaderInRange;
      id = some blank_ident;
      pointers = record { count = 1; start_lbn = 12 } ∷ [];
      entries = [];
      areas = folder-HasAreas;
      map = map;
      encoded = k;
      block = block;
      fits = e;
      allocated = omega arith;
      small = omega arith;
    }

no_other : has_version (codes "B.") 1 (second ∷ first ∷ []) ≡ false
unfolding has_version equal_fold name_eq upper_byte
no_other = refl

one_second : times (codes "a.") 2 (second ∷ first ∷ []) ≡ 1
unfolding times equal_fold name_eq upper_byte
one_second = refl

abbrev good_entries : All EntryInRange (second ∷ first ∷ [])
good_entries = omega arith

lookup-insert_example :
    (s' : OpenDirectory) × (out : List DirEntry) × (e : DirEntry) × (insert set_block
        (codes "B.")
        1
        other_fid
        0
        open_folder
      ≡ ok s')
    × (lookup s'.device s'.file (codes "B.") 1 ≡ ok e)
    × (e.name ≡ codes "B.")
    × (e.version ≡ 1)
    × (e.fid ≡ other_fid)
    × (list s'.device s'.file ≡ ok out)
    × ((n : List ℕ) (v : ℕ)
        → has_version n v out ≡ has_version n v ((second ∷ first ∷ []) ++ other ∷ []))
lookup-insert_example =
    lookup-insert set_block set_block-IsContainerWrite 1 open_folder (second ∷ first ∷ [])
      folder-IsDirectory lists_folder (omega arith) refl (codes "B.") 1 other_fid 0
      (with_other ∷ []) (omega arith) packs_other (omega arith) (omega arith) no_other

lookup-remove_example :
    (s' : OpenDirectory) × (out : List DirEntry) × (remove set_block (codes "a.") 2 open_folder
      ≡ ok s')
    × (lookup s'.device s'.file (codes "a.") 2 ≡ err not_found)
    × (list s'.device s'.file ≡ ok out)
    × ((n : List ℕ) (v : ℕ)
        → has_version n v out ≡ (
            if v == 2 && equal_fold n (codes "a.")
            then false
            else has_version n v (second ∷ first ∷ [])))
lookup-remove_example =
    lookup-remove set_block set_block-IsContainerWrite 1 open_folder (second ∷ first ∷ [])
      folder-IsDirectory lists_folder (omega arith) refl (codes "a.") 2 (without_second ∷ [])
      packs_first (omega arith) (omega arith) one_second

insert-SameEntries_example :
    (has_version (codes "B.") 1 (second ∷ first ∷ []) ≡ false
      → (s' : OpenDirectory) × (out : List DirEntry) × (insert set_block
            (codes "B.")
            1
            other_fid
            0
            open_folder
          ≡ ok s')
        × IsStoredIn 1 open_folder (with_other ∷ []) 6 s'
        × (list s'.device s'.file ≡ ok out)
        × SameEntries ((second ∷ first ∷ []) ++ other ∷ []) out)
    × (has_version (codes "B.") 1 (second ∷ first ∷ []) ≡ true
        → insert set_block (codes "B.") 1 other_fid 0 open_folder ≡ err already_exists)
unfolding folder-IsDirectory
insert-SameEntries_example =
    insert-SameEntries set_block set_block-IsContainerWrite 1 open_folder (second ∷ first ∷ [])
      folder-IsDirectory lists_folder (omega arith) refl (codes "B.") 1 other_fid 0
      (with_other ∷ []) (omega arith) packs_other (omega arith)

abbrev two : ℕ
two = 2

remove-SameEntries_example :
    (two ≢ 0
      → has_version (codes "a.") 2 (second ∷ first ∷ []) ≡ true
      → (s' : OpenDirectory) × (out : List DirEntry) × (remove set_block (codes "a.") 2 open_folder
          ≡ ok s')
        × IsStoredIn 1 open_folder (without_second ∷ []) 6 s'
        × (list s'.device s'.file ≡ ok out)
        × ((x : DirEntry) × Among x (second ∷ first ∷ [])
            × (equal_fold x.name (codes "a.") ≡ true)
            × (x.version ≡ 2)
            × SameEntries (second ∷ first ∷ []) (x ∷ out)))
    × (two ≢ 0
        → has_version (codes "a.") 2 (second ∷ first ∷ []) ≡ false
        → remove set_block (codes "a.") 2 open_folder ≡ err not_found)
    × (two ≡ 0 → remove set_block (codes "a.") 2 open_folder ≡ err version_required)
unfolding folder-IsDirectory
remove-SameEntries_example =
    remove-SameEntries set_block set_block-IsContainerWrite 1 open_folder (second ∷ first ∷ [])
      folder-IsDirectory lists_folder (omega arith) refl (codes "a.") 2 (without_second ∷ [])
      packs_first (omega arith)
