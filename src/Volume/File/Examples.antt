-- ===== src/Volume/File/Examples.antt =====
-- The theorems on files at the small volume.
use ods.Base.{
  arith, ◌<◌, ℕ, ◌≡◌, ◌+◌, refl, List, [], ◌∷◌, ok, err, true, false, out_of_fuel, ◌==◌,
  if◌then◌else◌, Bool-cases, inl, inr,
}
use ods.Ondisk.Fid.{number, is_zero}
use ods.Ondisk.Block.{checksum, sum_words, decode_swapped_longword}
use ods.Ondisk.FileHeader.{header_fields, decode_file_header, compare_checksums, valid_file_header}
use ods.Ondisk.HomeBlock.{home_fields}
use ods.Ondisk.Retrieval.{
  Extent, retrieval_pointers, read_entries, read_entry, read_word, read_format1,
}
use ods.Volume.Device.{Device, File}
use ods.Volume.Extents.{read_extents, resolve_extent_lbn, resolve_from}
use ods.Volume.File.{
  read_block, build_file, build_segments, file_header_vbn, read_file_header_via_index, locate,
}
use ods.Volume.File.Segments.{Segments, build_file-Segments, Segments-build_file, build_file_cyclic}
use ods.Volume.File.Unwritten.{read_block_hides}
use ods.Volume.TestVolume.{
  mounted, index_file, looping_header, plain_header, directory_header, small,
}

abbrev two_blocks : Extent
two_blocks = record { count = 2; start_lbn = 30 }

abbrev plain_file : File
plain_file = record { header = header_fields plain_header; extents = locate 1 (two_blocks ∷ []) }

plain_pointers : retrieval_pointers (header_fields plain_header) ≡ ok (two_blocks ∷ [])
unfolding retrieval_pointers read_entries read_entry read_word read_format1 header_fields
plain_pointers = refl

plain_alone : is_zero (header_fields plain_header).extension_fid ≡ true
unfolding is_zero header_fields
plain_alone = refl

builds_plain : build_file 1 mounted (header_fields plain_header) ≡ ok plain_file
unfolding build_file build_segments
builds_plain = rw (plain_pointers, plain_alone) refl

build_file-Segments_example :
    (es : List Extent) × Segments mounted [] (header_fields plain_header) es
    × (plain_file.header ≡ header_fields plain_header)
    × (plain_file.extents ≡ locate 1 es)
build_file-Segments_example =
    build_file-Segments 1 mounted (header_fields plain_header) plain_file builds_plain

Segments-build_file_example :
    (n : ℕ) × ((k : ℕ) → build_file (n + k) mounted (header_fields plain_header) ≡ ok plain_file)
Segments-build_file_example =
    Segments-build_file mounted (header_fields plain_header) (two_blocks ∷ [])
      (Segments.last plain_pointers plain_alone)

looping_pointers :
    retrieval_pointers (header_fields looping_header)
    ≡ ok (record { count = 1; start_lbn = 20 } ∷ [])
unfolding retrieval_pointers read_entries read_entry read_word read_format1 header_fields
looping_pointers = refl

looping_more : is_zero (header_fields looping_header).extension_fid ≡ false
unfolding is_zero header_fields
looping_more = refl

looping_again :
    read_file_header_via_index mounted index_file.extents
      (header_fields looping_header).extension_fid
    ≡ ok (header_fields looping_header)
unfolding read_file_header_via_index file_header_vbn read_extents resolve_extent_lbn resolve_from
    home_fields valid_file_header decode_file_header compare_checksums checksum sum_words
    header_fields decode_swapped_longword number
looping_again = refl

build_file_cyclic_example : build_file 1000 mounted (header_fields looping_header) ≡ err out_of_fuel
build_file_cyclic_example =
    build_file_cyclic 1000 mounted index_file (header_fields looping_header)
      (record { count = 1; start_lbn = 20 } ∷ []) refl looping_pointers looping_more looping_again

-- The directory's file with its second block allocated and not written, and a device whose block
-- there holds other bytes.
abbrev folder : File
folder = record {
  header = header_fields directory_header;
  extents = locate 1 (record { count = 2; start_lbn = 12 } ∷ []);
}

abbrev overwritten : Device
overwritten = record mounted {
  container = record small {
    read_block = λ lbn. if lbn == 13 then ok (7 ∷ []) else small.read_block lbn;
  };
}

folder_agrees :
    (v : ℕ)
    → v < 2
    → read_extents mounted folder.extents v ≡ read_extents overwritten folder.extents v
unfolding read_extents resolve_extent_lbn resolve_from
folder_agrees v h = elim (Bool-cases (v == 0)) [
  | inl t ↦ let e : v ≡ 0 = ground arith in rw e refl
  | inr t ↦ let e : v ≡ 1 = ground arith in rw e refl
]

mark_two : (header_fields directory_header).high_water_mark ≡ 2
unfolding header_fields
mark_two = refl

folder_marked : 39 < (header_fields directory_header).ident_offset
unfolding header_fields
folder_marked = omega arith

read_block_hides_example : read_block mounted folder 2 ≡ read_block overwritten folder 2
read_block_hides_example =
    read_block_hides mounted overwritten folder 2 folder_marked
      (λ v h. folder_agrees v (rw mark_two at h))
