-- ===== src/Volume/WriteFile/Examples.antt =====
-- A file of two blocks on a small volume, written and read again.
use ods.Base.{
  some, ℕ, ◌+◌, ◌-◌, ◌≤◌, ◌<◌, ◌≡◌, refl, List, [], ◌∷◌, true, false, Result, ok, err, zero_vbn,
  beyond_file, no_free_run, arith, leb, leb→le, ◌==◌, Bool-cases, inl, inr,
}
use ods.Base.Word.{u32}
use ods.Ondisk.FileHeader.{header_fields}
use ods.Ondisk.Block.{decode_swapped_longword}
use ods.Ondisk.Fid.{number}
use ods.Ondisk.FileHeader.Encode.{ident_bytes}
use ods.Ondisk.FileHeader.Layout.{encode_file_header_fits}
use ods.Ondisk.HomeBlock.{home_fields}
use ods.Ondisk.Ident.{ident, ident_fields, encode_ident, decode_nul_padded_string}
use ods.Ondisk.Padded.{is_empty}
use ods.Ondisk.Retrieval.{retrieval_pointers, read_entries, read_entry, read_word, read_format1}
use ods.Ondisk.Retrieval.RoundTrip.{encode_retrieval_pointers_total}
use ods.Ondisk.Acl.{acl, acl_area}
use ods.Ondisk.Acl.RoundTrip.{IsAcl}
use ods.Volume.Headers.{header_ident, index_extents_of}
use ods.Volume.Headers.Rewrite.{HasAreas, areas_of}
use ods.Volume.Headers.Written.{IsSlot}
use ods.Ondisk.RecAttr.{rec_attr_at, variable, organization, record_format}
use ods.Volume.Device.{ExtentLocation}
use ods.Volume.Extents.{resolve_extent_lbn, resolve_from}
use ods.Volume.File.{read_block, locate, file_header_vbn}
use ods.Volume.TestVolume.{mounted, plain_header}
use ods.Volume.TestWrite.{
  blank_ident, blank_ident-IdentInRange, set_block, set_block-IsContainerWrite,
}
use ods.Volume.WriteFile.{OpenFile, volume_file}
use ods.Volume.WriteFile.Blocks.{IsReady}
use ods.Volume.WriteFile.Ready.{IsRewritable}
use ods.Volume.WriteFile.Records.{ReadsBack-volume_file}
use ods.Rms.Length.{file_byte_length}
use ods.Rms.Reader.{Reader, new_reader}
use ods.Rms.Reader.Records.{ReadsBack}
use ods.Rms.RoundTrip.{IsSequential, write_file}

abbrev no_room : ℕ → OpenFile → Result OpenFile
no_room n s = err no_free_run

-- Two blocks, as the retrieval pointers of the header have them.
abbrev two_blocks : List ExtentLocation
two_blocks = locate 1 (record { count = 2; start_lbn = 30 } ∷ [])

abbrev new_text_file : OpenFile
new_text_file = record {
  device = mounted;
  file = record {
    header = record (header_fields plain_header) {
      record_attributes = record (rec_attr_at [] 0) { format = 2; highest_block = 2 };
      high_water_mark = 1;
    };
    extents = two_blocks;
  };
  armed = true;
  writable = true;
  max_written = 0;
  writers = 0;
}

placed_at : (v : ℕ) → 0 < v → v ≤ 2 → resolve_extent_lbn two_blocks v ≡ ok (29 + v)
unfolding resolve_extent_lbn
placed_at v p q =
    let e : (v == 0) ≡ false = ground arith in
    let e' : leb v 2 ≡ true = ground arith in
    let place : u32 (30 + (v - 1)) ≡ 29 + v = omega arith in rw (e, e', place) refl

placed_inside : (v l : ℕ) → resolve_extent_lbn two_blocks v ≡ ok l → l ≡ 29 + v
unfolding resolve_extent_lbn
placed_inside v l found = elim (Bool-cases (v == 0)) [
  | inl e ↦ let failed : resolve_extent_lbn two_blocks v ≡ err zero_vbn = rw e refl in absurd cc
  | inr e ↦ elim (Bool-cases (leb v 2)) [
    | inl e' ↦
        let there : resolve_extent_lbn two_blocks v ≡ ok (29 + v) =
          placed_at v (ground (arith, e)) (leb→le v 2 e') in
        cc
    | inr e' ↦
        let failed : resolve_extent_lbn two_blocks v ≡ err beyond_file = rw (e, e') refl in
        absurd cc
  ]
]

new_text_file-IsSlot : IsSlot mounted (number new_text_file.file.header.fid) 5
unfolding index_extents_of resolve_extent_lbn resolve_from file_header_vbn home_fields header_fields
    number
new_text_file-IsSlot = record {
  place = refl;
  inside = omega arith;
  alternate = λ one. absurd (omega arith);
}

new_text_file-HasAreas :
    HasAreas new_text_file.file.header
      (some blank_ident)
      (record { count = 2; start_lbn = 30 } ∷ [])
      []
unfolding header_ident ident ident_fields decode_nul_padded_string is_empty retrieval_pointers
    read_entries read_entry read_word read_format1 acl header_fields
new_text_file-HasAreas = record {
  ident = refl;
  good_ident = blank_ident-IdentInRange;
  extents = refl;
  good_extents = omega arith;
  entries = refl;
  good_list = IsAcl.nothing;
}

new_text_file-IsRewritable : IsRewritable mounted new_text_file.file
unfolding number header_fields ident_bytes encode_ident acl_area decode_swapped_longword
new_text_file-IsRewritable =
    let (map, k, even, most, least) =
      encode_retrieval_pointers_total (record { count = 2; start_lbn = 30 } ∷ []) (omega arith) in
    let (block, e) =
      encode_file_header_fits new_text_file.file.header (areas_of (some blank_ident) map []) _ refl
        (omega (arith, even)) refl (omega (arith, most)) in
    record {
      slot_lbn = 5;
      slot = new_text_file-IsSlot;
      ordinary = λ one. absurd (omega arith);
      outside = λ v h. absurd (omega (arith, placed_inside v 5 h));
      in_range = omega arith;
      id = some blank_ident;
      pointers = record { count = 2; start_lbn = 30 } ∷ [];
      entries = [];
      areas = new_text_file-HasAreas;
      map = map;
      encoded = k;
      block = block;
      fits = e;
    }

new_text_file-IsReady : IsReady 2 new_text_file
new_text_file-IsReady = record {
  armed = refl;
  writable = refl;
  allocated = omega arith;
  placed = λ v p q. (29 + v, placed_at v p q, omega (arith, q));
  apart = λ v w l e e'. omega (arith, placed_inside v l e, placed_inside w l e');
  marked = omega arith;
  counted = omega arith;
  header = new_text_file-IsRewritable;
}

new_text_file-IsSequential : IsSequential variable new_text_file.file.header.record_attributes
unfolding organization record_format
new_text_file-IsSequential = record { sequential = refl; formatted = refl; spanning = refl }

abbrev texts : List (List ℕ)
texts = (0x41 ∷ 0x42 ∷ 0x43 ∷ []) ∷ [] ∷ (0x44 ∷ []) ∷ []

ReadsBack-volume_file_example :
    (s' : OpenFile) × (r : Reader) × (write_file (volume_file set_block no_room) texts new_text_file
      ≡ ok s')
    × (new_reader s'.file.header.record_attributes ≡ ok r)
    × ReadsBack
        (read_block s'.device s'.file)
        (file_byte_length s'.file.header.record_attributes)
        r
        texts
ReadsBack-volume_file_example =
    ReadsBack-volume_file set_block no_room 2 set_block-IsContainerWrite (omega arith) variable
      texts new_text_file new_text_file-IsReady refl new_text_file-IsSequential (omega arith)
      (omega arith, (omega arith, (omega arith, tt))) (omega arith)
