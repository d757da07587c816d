-- ===== src/Volume/Headers/Examples.antt =====
-- A header of two extents and an access control list, written to a slot of a small volume.
use ods.Base.{
  ℕ, ◌+◌, ◌-◌, ◌/◌, ◌≡◌, refl, List, [], ◌∷◌, ◌++◌, some, none, ok, arith, length, replicate,
}
use ods.Base.Word.{u16_at}
use ods.Ondisk.Block.{decode_swapped_longword}
use ods.Ondisk.Fid.{number}
use ods.Ondisk.FileHeader.{FileHeader, header_fields, decode_file_header}
use ods.Ondisk.FileHeader.Encode.{encode_file_header, ident_bytes}
use ods.Ondisk.FileHeader.Layout.{encode_file_header_fits}
use ods.Ondisk.FileHeader.RoundTrip.{HeaderInRange, laid_out, decode_file_header-encode_file_header}
use ods.Ondisk.HomeBlock.{home_fields}
use ods.Ondisk.Ident.{Ident, encode_ident, decode_nul_padded_string}
use ods.Ondisk.Ident.RoundTrip.{IdentInRange}
use ods.Ondisk.Padded.{is_empty}
use ods.Ondisk.Acl.{acl_area}
use ods.Ondisk.Acl.RoundTrip.{IsAcl}
use ods.Ondisk.Retrieval.{Extent, encode_retrieval_pointers, encode_extent}
use ods.Volume.Device.{Container}
use ods.Volume.Extents.{resolve_extent_lbn, resolve_from}
use ods.Volume.File.{file_header_vbn, read_file_header_via_index}
use ods.Volume.Headers.{write_header, on_container, index_extents_of}
use ods.Volume.Headers.Rewrite.{HasAreas, IsStored, areas_of}
use ods.Volume.Headers.Written.{IsSlot, IsWritten, read_file_header_via_index-write_header}
use ods.Volume.TestVolume.{mounted, directory_header}
use ods.Volume.TestWrite.{set_block, set_block-IsContainerWrite}

abbrev new_header : FileHeader
new_header = record (header_fields directory_header) { file_protection = 0xFA00 }

abbrev new_ident : Ident
new_ident = record {
  filename = 65 ∷ 46 ∷ 66 ∷ 59 ∷ 49 ∷ [];
  revision = 1;
  creation_date = 1000;
  revision_date = 1000;
  expiration_date = 0;
  backup_date = 0;
  filename_extension = [];
}

abbrev two_extents : List Extent
two_extents = record { count = 3; start_lbn = 12 } ∷ record { count = 1; start_lbn = 20 } ∷ []

abbrev map_bytes : List ℕ
map_bytes = 2 ∷ 64 ∷ 12 ∷ 0 ∷ 0 ∷ 64 ∷ 20 ∷ 0 ∷ []

-- One access control entry, of three bytes.
abbrev new_list : List ℕ
new_list = 3 ∷ 1 ∷ 7 ∷ []

new_list-IsAcl : IsAcl new_list
new_list-IsAcl = IsAcl.entry 3 (1 ∷ 7 ∷ []) [] refl IsAcl.nothing

encodes_map : encode_retrieval_pointers two_extents ≡ ok map_bytes
unfolding encode_retrieval_pointers encode_extent
encodes_map = refl

abbrev ident_text : List ℕ
ident_text =
    65
    ∷ 46
    ∷ 66
    ∷ 59
    ∷ 49
    ∷ (replicate 15 32
        ++ (1 ∷ 0 ∷ 232 ∷ 3 ∷ (replicate 6 0 ++ (232 ∷ 3 ∷ (replicate 22 0 ++ replicate 66 32)))))

encodes_ident : encode_ident new_ident ≡ ok ident_text
unfolding encode_ident
encodes_ident = refl

new_block :
    (block : List ℕ) × (encode_file_header new_header (areas_of (some new_ident) map_bytes new_list)
      ≡ ok block)
unfolding ident_bytes acl_area
new_block =
    encode_file_header_fits new_header (areas_of (some new_ident) map_bytes new_list) ident_text
      encodes_ident refl refl (omega arith)

new_ident-IdentInRange : IdentInRange new_ident
unfolding decode_nul_padded_string is_empty
new_ident-IdentInRange = record {
  filename = omega arith;
  trimmed = refl;
  revision = omega arith;
  creation_date = omega arith;
  revision_date = omega arith;
  expiration_date = omega arith;
  backup_date = omega arith;
  filename_extension = omega arith;
  trimmed_extension = refl;
}

new_header-HeaderInRange : HeaderInRange new_header
unfolding header_fields decode_swapped_longword
new_header-HeaderInRange = omega arith

IsSlot-four : IsSlot mounted 4 6
unfolding index_extents_of resolve_extent_lbn resolve_from file_header_vbn home_fields
IsSlot-four = record { place = refl; inside = omega arith; alternate = λ one. absurd (omega arith) }

four : number new_header.fid ≡ 4
unfolding number header_fields
four = refl

read_file_header_via_index-write_header_example :
    (c : Container) × (d : FileHeader) × (write_header set_block mounted 4 new_header
        (areas_of (some new_ident) map_bytes new_list)
      ≡ ok (on_container c mounted, d))
    × (read_file_header_via_index
          (on_container c mounted)
          (index_extents_of mounted.index_file)
          new_header.fid
        ≡ ok d)
    × IsStored new_header d new_block.0
    × HasAreas d (some new_ident) two_extents new_list
    × IsWritten mounted c 4 6 new_block.0
read_file_header_via_index-write_header_example =
    read_file_header_via_index-write_header set_block mounted 4 6 new_header (some new_ident)
      two_extents new_list map_bytes new_block.0 set_block-IsContainerWrite IsSlot-four
      new_header-HeaderInRange new_ident-IdentInRange (omega arith) new_list-IsAcl encodes_map
      new_block.1 four

decode_file_header-encode_file_header_example :
    (ident : List ℕ) × (ident_bytes (some new_ident) ≡ ok ident)
    × (decode_file_header new_block.0 ≡ (
      laid_out new_header new_block.0
          (40 + length ident / 2)
          (255 - length (acl_area new_list) / 2)
          (length map_bytes / 2)
          (u16_at new_block.0 510),
      none,
    ))
decode_file_header-encode_file_header_example =
    decode_file_header-encode_file_header new_header (areas_of (some new_ident) map_bytes new_list)
      new_block.0 new_header-HeaderInRange new_block.1
