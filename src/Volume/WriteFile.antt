-- ===== src/Volume/WriteFile.antt =====
-- volume/writefile.go and File.SetEndOfFile of volume/access.go: a file open for write. What the
-- container's WriteBlock does, and what Extend does (volume/writeheader.go), are arguments.
pub mod Marks
pub mod Ready
pub mod Written
pub mod Closed
pub mod Blocks
pub mod Records
mod Examples
use ods.Base.{
  ℕ, ◌+◌, ◌-◌, max, Bool, true, false, ◌&&◌, not, List, Result, ok, err, ◌>>=◌, not_writable,
  bad_length, zero_vbn, length, ltb, leb, ◌==◌, if◌then◌else◌,
}
use ods.Base.Word.{u32}
use ods.Ondisk.Block.{block_size}
use ods.Ondisk.Fid.{number}
use ods.Ondisk.FileHeader.{FileHeader}
use ods.Volume.Device.{Container, Device, File}
use ods.Volume.Extents.{resolve_extent_lbn}
use ods.Volume.File.{blocks, used_blocks, read_block}
use ods.Volume.Headers.{existing_areas, write_header}
use ods.Rms.BlockFile.{BlockFile, closed_attributes, end_of_file_at}

-- `armed` says that the bitmap caches are set, and `writable` that the container can be written.
pub record OpenFile : Type 0 where
  pub device : Device
  pub file : File
  pub armed : Bool
  pub writable : Bool
  pub max_written : ℕ
  pub writers : ℕ

unfoldable pub open_for_write : OpenFile → Result OpenFile
unfolding used_blocks
open_for_write s =
    if s.writable
    then ok (record s { armed = true; max_written = used_blocks s.file })
    else err not_writable

-- The high-water mark is at `n` or behind.
unfoldable pub raise_mark : ℕ → FileHeader → FileHeader
raise_mark n h = if ltb h.high_water_mark n then record h { high_water_mark = n } else h

abbrev pub with_header : FileHeader → OpenFile → OpenFile
with_header h s = record s { file = record s.file { header = h } }

abbrev pub with_container : Container → OpenFile → OpenFile
with_container c s = record s { device = record s.device { container = c } }

unfoldable pub note_written : ℕ → OpenFile → OpenFile
unfolding raise_mark
note_written vbn s = record (with_header (raise_mark (u32 (vbn + 1)) s.file.header) s) {
  max_written = if ltb s.max_written vbn then vbn else s.max_written;
}

-- The header that a close records.
unfoldable pub closed_header : ℕ → ℕ → FileHeader → FileHeader
unfolding raise_mark closed_attributes
closed_header max_written final_byte h =
    let h' = record h {
      record_attributes = closed_attributes max_written final_byte h.record_attributes;
    } in
    if max_written == 0 then h' else raise_mark (u32 (max_written + 1)) h'

unfoldable pub set_end_of_file : ℕ → ℕ → OpenFile → OpenFile
unfolding raise_mark end_of_file_at
set_end_of_file block byte s =
    let h' = record s.file.header {
      record_attributes = end_of_file_at block byte s.file.header.record_attributes;
    } in
    let last = if byte == 0 && ltb 0 block then block - 1 else block in
    with_header (raise_mark (u32 (last + 1)) h') s

-- After a close, a file without other writers is no longer open for write.
abbrev pub after_close : OpenFile → OpenFile
after_close s = record s { armed = if s.writers == 0 then false else s.armed }

module _ (write_container : Container → ℕ → List ℕ → Result Container)
    (extend : ℕ → OpenFile → Result OpenFile) where
  abbrev pub extended : ℕ → OpenFile → Result OpenFile
  extended vbn s =
      if ltb s.file.header.record_attributes.highest_block vbn
      then extend (vbn - s.file.header.record_attributes.highest_block) s
      else ok s

  abbrev pub write_resolved : ℕ → List ℕ → OpenFile → Result OpenFile
  write_resolved vbn block s = do
    lbn ← resolve_extent_lbn s.file.extents vbn
    c ← write_container s.device.container lbn block
    ok (note_written vbn (with_container c s))

  unfoldable pub write_block : ℕ → List ℕ → OpenFile → Result OpenFile
  unfolding note_written resolve_extent_lbn
  write_block vbn block s =
      if not s.armed
      then err not_writable
      else if not (length block == block_size)
      then err bad_length
      else if vbn == 0
      then err zero_vbn
      else (do
        s1 ← extended vbn s
        if s1.writable then write_resolved vbn block s1 else err not_writable)

  -- A header of the file written over the areas that it has.
  unfoldable pub rewrite_header : FileHeader → OpenFile → Result OpenFile
  rewrite_header h s = do
    areas ← existing_areas h
    (dev, decoded) ← write_header write_container s.device (number h.fid) h areas
    ok (with_header decoded (record s { device = dev }))

  unfoldable pub close_with_final_byte : ℕ → OpenFile → Result OpenFile
  unfolding closed_header rewrite_header
  close_with_final_byte final_byte s =
      if not s.armed
      then ok s
      else if leb block_size final_byte
      then err bad_length
      else if s.writable
      then (do
        s' ← rewrite_header (closed_header s.max_written final_byte s.file.header) s
        ok (after_close s'))
      else err not_writable

  -- A file of a volume, as the writer of records sees it.
  unfoldable pub volume_file : BlockFile OpenFile
  unfolding write_block close_with_final_byte set_end_of_file read_block
  volume_file = record {
    write_block = write_block;
    read_block = λ s. read_block s.device s.file;
    attributes = λ s. s.file.header.record_attributes;
    set_end_of_file = set_end_of_file;
    close_with_final_byte = close_with_final_byte;
    max_written = λ s. s.max_written;
  }
