-- ===== src/Ondisk/FileHeader/RoundTrip.antt =====
-- ondisk/fileheader.go: EncodeFileHeader and then DecodeFileHeader.
use ods.Base.{
  ℕ, ◌+◌, ◌-◌, ◌*◌, ◌/◌, ◌^◌, ◌≤◌, ◌<◌, ◌≡◌, refl, ◌∙◌, List, [], ◌∷◌, ◌++◌, append_assoc, true,
  none, ok, length, length-append, replicate, if_so, ◌==◌, ==_refl, arith,
}
use ods.Base.Word.{u16_at, u32_at, byte_at, word_bytes, split_u16, split_u32, u16_at-append}
use ods.Ondisk.Block.{checksum}
use ods.Ondisk.Block.Sum.{checksum-append}
use ods.Ondisk.Fid.{FidInRange, encode_fid, decode_fid, fid_at, decode_fid-encode_fid}
use ods.Ondisk.Uic.{encode_uic, decode_uic, uic_at, decode_uic-encode_uic}
use ods.Ondisk.RecAttr.{
  RecAttrInRange, encode_rec_attr, decode_rec_attr, rec_attr_at, decode_rec_attr-encode_rec_attr,
}
use ods.Ondisk.FileHeader.{FileHeader, header_fields, decode_file_header, compare_checksums}
use ods.Ondisk.FileHeader.Layout.{encode_file_header-Layout, length-header_body}
use ods.Ondisk.FileHeader.Encode.{
  FileHeaderAreas, fixed_part, header_body, encode_file_header, ident_bytes,
}

-- The fields of a header that are written as they are fit their widths.
pub record HeaderInRange (h : FileHeader) : Type 0 where
  pub segment_number : h.segment_number < 2 ^ 16
  pub structure_level : h.structure_level < 2 ^ 16
  pub fid : FidInRange h.fid
  pub extension_fid : FidInRange h.extension_fid
  pub record_attributes : RecAttrInRange h.record_attributes
  pub file_characteristics : h.file_characteristics < 2 ^ 32
  pub member : h.owner.member < 2 ^ 16
  pub group : h.owner.group < 2 ^ 16
  pub file_protection : h.file_protection < 2 ^ 16
  pub backlink : FidInRange h.backlink
  pub high_water_mark : h.high_water_mark < 2 ^ 32
  pub record_protection : h.record_protection < 2 ^ 16

-- The header that stands in a block: as given, but for what the layout and the block determine.
abbrev pub laid_out : FileHeader → List ℕ → ℕ → ℕ → ℕ → ℕ → FileHeader
laid_out h block map_offset acl_offset map_words sum = record h {
  ident_offset = 40;
  map_offset = map_offset;
  acl_offset = acl_offset;
  end_offset = 255;
  map_words_in_use = map_words;
  class_protection = replicate 20 0;
  checksum = sum;
  raw = block;
}

module _ (h : FileHeader) (r : HeaderInRange h) (m a w : ℕ) (rest : List ℕ) where
  block_fields :
      m < 256
      → a < 256
      → w < 256
      → header_fields (fixed_part h m a w ++ rest)
        ≡ laid_out h (fixed_part h m a w ++ rest) m a w (u16_at (fixed_part h m a w ++ rest) 510)
  unfolding header_fields fixed_part encode_fid encode_rec_attr encode_uic
  block_fields pm pa pw =
      let b : List ℕ = fixed_part h m a w ++ rest in
      let fid : fid_at b 8 ≡ h.fid = unfold decode_fid in cc (decode_fid-encode_fid h.fid r.fid) in
      let extension : fid_at b 14 ≡ h.extension_fid =
        unfold decode_fid in cc (decode_fid-encode_fid h.extension_fid r.extension_fid) in
      let backlink : fid_at b 66 ≡ h.backlink =
        unfold decode_fid in cc (decode_fid-encode_fid h.backlink r.backlink) in
      let owner : uic_at b 60 ≡ h.owner =
        unfold decode_uic in cc (decode_uic-encode_uic h.owner r.member r.group) in
      let attributes : rec_attr_at b 20 ≡ h.record_attributes =
        unfold decode_rec_attr in
        cc (decode_rec_attr-encode_rec_attr h.record_attributes r.record_attributes) in
      let segment : u16_at b 4 ≡ h.segment_number = split_u16 h.segment_number r.segment_number in
      let level : u16_at b 6 ≡ h.structure_level = split_u16 h.structure_level r.structure_level in
      let characteristics : u32_at b 52 ≡ h.file_characteristics =
        split_u32 h.file_characteristics r.file_characteristics in
      let record_protection : u16_at b 56 ≡ h.record_protection =
        split_u16 h.record_protection r.record_protection in
      let protection : u16_at b 64 ≡ h.file_protection =
        split_u16 h.file_protection r.file_protection in
      let mark : u32_at b 76 ≡ h.high_water_mark = split_u32 h.high_water_mark r.high_water_mark in
      let map : byte_at b 1 ≡ m = omega arith in
      let acl : byte_at b 2 ≡ a = omega arith in let words : byte_at b 58 ≡ w = omega arith in cc

body_fields :
    (h : FileHeader) (r : HeaderInRange h) (ident map acl tail : List ℕ)
    → 40 + length ident / 2 + length map / 2 + length acl / 2 ≤ 255
    → let block : List ℕ = header_body h ident map acl ++ tail in
      header_fields block
      ≡ laid_out h block
          (40 + length ident / 2)
          (255 - length acl / 2)
          (length map / 2)
          (u16_at block 510)
unfolding header_body
body_fields h r ident map acl tail fits =
    let m : ℕ = 40 + length ident / 2 in
    let a : ℕ = 255 - length acl / 2 in
    let w : ℕ = length map / 2 in
    let rest : List ℕ = ident ++ (map ++ (replicate ((a - (m + w)) * 2) 0 ++ acl)) in
    rw (append_assoc (fixed_part h m a w) rest tail)
      (block_fields h r m a w (rest ++ tail) (omega arith) (omega arith) (omega arith))

decoded :
    (h : FileHeader) (r : HeaderInRange h) (ident map acl : List ℕ) (sum : ℕ)
    → length (header_body h ident map acl) ≡ 510
    → sum < 2 ^ 16
    → checksum (header_body h ident map acl ++ 0 ∷ 0 ∷ []) ≡ ok sum
    → 40 + length ident / 2 + length map / 2 + length acl / 2 ≤ 255
    → let block : List ℕ = header_body h ident map acl ++ word_bytes sum in
      decode_file_header block ≡ (
        laid_out h block
            (40 + length ident / 2)
            (255 - length acl / 2)
            (length map / 2)
            (u16_at block 510),
        none,
      )
unfolding decode_file_header compare_checksums
decoded h r ident map acl sum size small summed fits =
    let body : List ℕ = header_body h ident map acl in
    let long : length (body ++ word_bytes sum) ≡ 512 =
      omega (arith, length-append body (word_bytes sum)) in
    let stored : u16_at (body ++ word_bytes sum) 510 ≡ sum =
      u16_at-append body (word_bytes sum) 0 510 (omega arith) ∙ split_u16 sum small in
    let again : checksum (body ++ word_bytes sum) ≡ ok sum =
      checksum-append body (word_bytes sum) (0 ∷ 0 ∷ []) size refl refl ∙ summed in
    let is_block : (length (body ++ word_bytes sum) == 512) ≡ true = rw long refl in
    let valid : compare_checksums (checksum (body ++ word_bytes sum))
          (u16_at (body ++ word_bytes sum) 510)
        ≡ none =
      rw (again, stored, ==_refl sum) refl in
    let fields = body_fields h r ident map acl (word_bytes sum) fits in
    if_so _ _ is_block ∙ λ i. (fields i, valid i)

-- A header whose fields fit their widths decodes from its encoding with every field as it was and
-- without an error, but for the offsets and the map's size, which the layout of the areas gives, the
-- classification, which is not written, the checksum and the block itself.
pub decode_file_header-encode_file_header :
    (h : FileHeader) (areas : FileHeaderAreas) (block : List ℕ)
    → HeaderInRange h
    → encode_file_header h areas ≡ ok block
    → (ident : List ℕ) × (ident_bytes areas.ident ≡ ok ident)
      × (decode_file_header block ≡ (
        laid_out h block
            (40 + length ident / 2)
            (255 - length areas.acl_bytes / 2)
            (length areas.map_bytes / 2)
            (u16_at block 510),
        none,
      ))
unfolding decode_file_header compare_checksums
decode_file_header-encode_file_header h areas block r k =
    let l = encode_file_header-Layout h areas block k in
    let body : List ℕ = header_body h l.ident areas.map_bytes areas.acl_bytes in
    let size : length body ≡ 510 =
      length-header_body h l.ident areas.map_bytes areas.acl_bytes l.even l.map_even l.acl_even
        l.fits in
    (
      l.ident,
      l.encoded,
      rw l.whole (
          decoded h r l.ident areas.map_bytes areas.acl_bytes l.sum size l.sum_small l.summed
            l.fits),
    )
