-- ===== src/Ondisk/HomeBlock.antt =====
-- ondisk/homeblock.go: the volume home block. A VMSTime is its 64 bits, and a string is the list of
-- its bytes. No caller reads the fields that the source returns beside an error.
use ods.Base.{
  ℕ, List, [], ◌∷◌, Result, ok, err, ◌>>=◌, bad_length, not_home_block, checksum_mismatch, not,
  length, slice, ◌==◌, if◌then◌else◌,
}
use ods.Base.Word.{u16_at, u32_at, u64_at, byte_at}
use ods.Ondisk.Block.{block_size, checksum}
use ods.Ondisk.Uic.{Uic, uic_at}
use ods.Ondisk.DirEntry.{name_eq}
use ods.Ondisk.Padded.{decode_padded_string}

-- `DECFILE11B`
abbrev pub home_block_format_id : List ℕ
home_block_format_id = 68 ∷ 69 ∷ 67 ∷ 70 ∷ 73 ∷ 76 ∷ 69 ∷ 49 ∷ 49 ∷ 66 ∷ []

pub record HomeBlock : Type 0 where
  pub home_lbn : ℕ
  pub alternate_home_lbn : ℕ
  pub alternate_index_lbn : ℕ
  pub structure_level : ℕ
  pub cluster_size : ℕ
  pub home_vbn : ℕ
  pub alternate_home_vbn : ℕ
  pub alternate_index_vbn : ℕ
  pub index_bitmap_vbn : ℕ
  pub index_bitmap_lbn : ℕ
  pub max_files : ℕ
  pub index_bitmap_size : ℕ
  pub reserved_files : ℕ
  pub device_type : ℕ
  pub relative_volume_number : ℕ
  pub volume_set_count : ℕ
  pub volume_characteristics : ℕ
  pub volume_owner : Uic
  pub protection : ℕ
  pub file_protection : ℕ
  pub record_protection : ℕ
  pub checksum1 : ℕ
  pub creation_date : ℕ
  pub window_size : ℕ
  pub directory_pre_access_limit : ℕ
  pub default_extend_size : ℕ
  pub retention_min : ℕ
  pub retention_max : ℕ
  pub revision_date : ℕ
  pub min_security_class : List ℕ
  pub max_security_class : List ℕ
  pub serial_number : ℕ
  pub structure_name : List ℕ
  pub volume_name : List ℕ
  pub owner_name : List ℕ
  pub format : List ℕ
  pub checksum2 : ℕ

unfoldable pub home_fields : List ℕ → HomeBlock
home_fields b = record {
  home_lbn = u32_at b 0;
  alternate_home_lbn = u32_at b 4;
  alternate_index_lbn = u32_at b 8;
  structure_level = u16_at b 12;
  cluster_size = u16_at b 14;
  home_vbn = u16_at b 16;
  alternate_home_vbn = u16_at b 18;
  alternate_index_vbn = u16_at b 20;
  index_bitmap_vbn = u16_at b 22;
  index_bitmap_lbn = u32_at b 24;
  max_files = u32_at b 28;
  index_bitmap_size = u16_at b 32;
  reserved_files = u16_at b 34;
  device_type = u16_at b 36;
  relative_volume_number = u16_at b 38;
  volume_set_count = u16_at b 40;
  volume_characteristics = u16_at b 42;
  volume_owner = uic_at b 44;
  protection = u16_at b 52;
  file_protection = u16_at b 54;
  record_protection = u16_at b 56;
  checksum1 = u16_at b 58;
  creation_date = u64_at b 60;
  window_size = byte_at b 68;
  directory_pre_access_limit = byte_at b 69;
  default_extend_size = u16_at b 70;
  retention_min = u64_at b 72;
  retention_max = u64_at b 80;
  revision_date = u64_at b 88;
  min_security_class = slice b 96 20;
  max_security_class = slice b 116 20;
  serial_number = u32_at b 456;
  structure_name = decode_padded_string (slice b 460 12);
  volume_name = decode_padded_string (slice b 472 12);
  owner_name = decode_padded_string (slice b 484 12);
  format = decode_padded_string (slice b 496 12);
  checksum2 = u16_at b 510;
}

unfoldable pub decode_home_block : List ℕ → Result HomeBlock
unfolding home_fields name_eq
decode_home_block b =
    if not (length b == block_size)
    then err bad_length
    else if not (name_eq (home_fields b).format home_block_format_id)
    then err not_home_block
    else (do
      sum ← checksum b
      if sum == (home_fields b).checksum2 then ok (home_fields b) else err checksum_mismatch)
