-- ===== src/Ondisk/FileHeader.antt =====
-- ondisk/fileheader.go: the fields of a file header and how they are read from its block.
pub mod Encode
pub mod Layout
pub mod RoundTrip
pub mod Areas
use ods.Base.{
  ℕ, bit_and, List, Option, some, none, Error, checksum_mismatch, bad_length, Result, ok, err, Bool,
  not, length, replicate, take, drop, ◌==◌, leb, if◌then◌else◌,
}
use ods.Base.Word.{u16_at, u32_at, byte_at}
use ods.Ondisk.Block.{block_size, checksum}
use ods.Ondisk.Fid.{Fid, fid_at}
use ods.Ondisk.Uic.{Uic, uic_at}
use ods.Ondisk.RecAttr.{RecAttr, rec_attr_at}

abbrev pub fch_contig : ℕ
fch_contig = 0x80

abbrev pub fch_directory : ℕ
fch_directory = 0x2000

abbrev pub fch_mark_del : ℕ
fch_mark_del = 0x8000

pub record FileHeader : Type 0 where
  pub ident_offset : ℕ
  pub map_offset : ℕ
  pub acl_offset : ℕ
  pub end_offset : ℕ
  pub segment_number : ℕ
  pub structure_level : ℕ
  pub fid : Fid
  pub extension_fid : Fid
  pub record_attributes : RecAttr
  pub file_characteristics : ℕ
  pub map_words_in_use : ℕ
  pub access_mode : ℕ
  pub owner : Uic
  pub file_protection : ℕ
  pub backlink : Fid
  pub journaling : ℕ
  pub recovery_unit_active : ℕ
  pub high_water_mark : ℕ
  pub record_protection : ℕ
  pub class_protection : List ℕ
  pub checksum : ℕ
  pub raw : List ℕ

unfoldable pub is_directory : FileHeader → Bool
is_directory h = not (bit_and h.file_characteristics fch_directory == 0)

unfoldable pub is_marked_for_deletion : FileHeader → Bool
is_marked_for_deletion h = not (bit_and h.file_characteristics fch_mark_del == 0)

-- The word offset of the IDENT area from which a header has a classification.
abbrev class_prot_ident_offset : ℕ
class_prot_ident_offset = 54

-- The header whose fields a block of `block_size` bytes holds.
unfoldable pub header_fields : List ℕ → FileHeader
header_fields b = record {
  ident_offset = byte_at b 0;
  map_offset = byte_at b 1;
  acl_offset = byte_at b 2;
  end_offset = byte_at b 3;
  segment_number = u16_at b 4;
  structure_level = u16_at b 6;
  fid = fid_at b 8;
  extension_fid = fid_at b 14;
  record_attributes = rec_attr_at b 20;
  file_characteristics = u32_at b 52;
  map_words_in_use = byte_at b 58;
  access_mode = byte_at b 59;
  owner = uic_at b 60;
  file_protection = u16_at b 64;
  backlink = fid_at b 66;
  journaling = byte_at b 72;
  recovery_unit_active = byte_at b 73;
  high_water_mark = u32_at b 76;
  record_protection = u16_at b 56;
  class_protection =
      if leb class_prot_ident_offset (byte_at b 0) then take 20 (drop 88 b) else replicate 20 0;
  checksum = u16_at b 510;
  raw = b;
}

-- How the checksum that a block has compares with the one it stores.
unfoldable pub compare_checksums : Result ℕ → ℕ → Option Error
compare_checksums (ok sum) stored = if sum == stored then none else some checksum_mismatch
compare_checksums (err e) stored = some e

-- Go returns the decoded header beside a checksum error, and some callers use it.
unfoldable pub decode_file_header : List ℕ → FileHeader × Option Error
unfolding compare_checksums
decode_file_header b =
    if length b == block_size
    then (header_fields b, compare_checksums (checksum b) (u16_at b 510))
    else (header_fields (replicate block_size 0), some bad_length)

-- The header, where the caller takes no error.
unfoldable pub valid_file_header : List ℕ → Result FileHeader
valid_file_header b = elim (decode_file_header b).1 [
  | none ↦ ok (decode_file_header b).0
  | some e ↦ err e
]
