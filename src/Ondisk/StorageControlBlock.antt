-- ===== src/Ondisk/StorageControlBlock.antt =====
-- ondisk/scb.go: the storage control block, the first block of BITMAP.SYS. No caller reads the
-- fields that the source returns beside an error.
use ods.Base.{
  ℕ, List, Result, ok, err, ◌>>=◌, bad_length, checksum_mismatch, not, length, slice, ◌==◌,
  if◌then◌else◌,
}
use ods.Base.Word.{u16_at, u32_at, u64_at}
use ods.Ondisk.Block.{checksum}
use ods.Ondisk.Padded.{decode_padded_string}

pub record StorageControlBlock : Type 0 where
  pub structure_level : ℕ
  pub cluster_size : ℕ
  pub volume_size : ℕ
  pub block_size : ℕ
  pub sectors : ℕ
  pub tracks : ℕ
  pub cylinders : ℕ
  pub status : ℕ
  pub status2 : ℕ
  pub write_count : ℕ
  pub volume_lock_name : List ℕ
  pub mount_time : ℕ
  pub backup_revision : ℕ
  pub generation_number : ℕ
  pub checksum : ℕ

unfoldable pub scb_fields : List ℕ → StorageControlBlock
scb_fields b = record {
  structure_level = u16_at b 0;
  cluster_size = u16_at b 2;
  volume_size = u32_at b 4;
  block_size = u32_at b 8;
  sectors = u32_at b 12;
  tracks = u32_at b 16;
  cylinders = u32_at b 20;
  status = u32_at b 24;
  status2 = u32_at b 28;
  write_count = u16_at b 32;
  volume_lock_name = decode_padded_string (slice b 34 12);
  mount_time = u64_at b 46;
  backup_revision = u16_at b 54;
  generation_number = u64_at b 56;
  checksum = u16_at b 510;
}

unfoldable pub decode_storage_control_block : List ℕ → Result StorageControlBlock
unfolding scb_fields
decode_storage_control_block b = if not (length b == 512) then err bad_length else (do
  sum ← checksum b
  if sum == (scb_fields b).checksum then ok (scb_fields b) else err checksum_mismatch)
