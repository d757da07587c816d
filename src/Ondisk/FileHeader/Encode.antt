-- ===== src/Ondisk/FileHeader/Encode.antt =====
-- ondisk/fileheader.go: EncodeFileHeader. Go copies each area to its place in a zeroed block; here
-- the areas stand one after another with the zeros between them.
use ods.Base.{
  ℕ, ◌+◌, ◌-◌, ◌*◌, ◌/◌, ◌%◌, List, [], ◌∷◌, ◌++◌, Option, none, some, Result, ok, err, ◌>>=◌, not,
  odd_area, areas_too_large, length, replicate, ltb, ◌==◌, if◌then◌else◌,
}
use ods.Base.Word.{u8, word_bytes, long_bytes}
use ods.Ondisk.Block.{checksum}
use ods.Ondisk.Fid.{encode_fid}
use ods.Ondisk.Uic.{encode_uic}
use ods.Ondisk.RecAttr.{encode_rec_attr}
use ods.Ondisk.FileHeader.{FileHeader}
use ods.Ondisk.Ident.{Ident, encode_ident}

pub record FileHeaderAreas : Type 0 where
  pub ident : Option Ident
  pub map_bytes : List ℕ
  pub acl_bytes : List ℕ

-- Word offsets: the end of the fixed part, and of the areas behind it.
abbrev pub fh_variable_area_start : ℕ
fh_variable_area_start = 40

abbrev pub end_offset_words : ℕ
end_offset_words = 255

unfoldable pub ident_bytes : Option Ident → Result (List ℕ)
ident_bytes none = ok []
ident_bytes (some id) = encode_ident id

-- The fixed part of the block, with the offsets that the layout gives.
unfoldable pub fixed_part : FileHeader → ℕ → ℕ → ℕ → List ℕ
unfolding encode_fid encode_rec_attr encode_uic
fixed_part h map_offset acl_offset map_words =
    u8 fh_variable_area_start
    ∷ u8 map_offset
    ∷ u8 acl_offset
    ∷ u8 end_offset_words
    ∷ (word_bytes h.segment_number
        ++ (word_bytes h.structure_level
            ++ (encode_fid h.fid
                ++ (encode_fid h.extension_fid
                    ++ (encode_rec_attr h.record_attributes
                        ++ (long_bytes h.file_characteristics
                            ++ (word_bytes h.record_protection
                                ++ (u8 map_words
                                    ∷ h.access_mode
                                    ∷ (encode_uic h.owner
                                        ++ (word_bytes h.file_protection
                                            ++ (encode_fid h.backlink
                                                ++ (h.journaling
                                                    ∷ h.recovery_unit_active
                                                    ∷ 0
                                                    ∷ 0
                                                    ∷ long_bytes h.high_water_mark))))))))))))

-- The block up to its checksum.
unfoldable pub header_body : FileHeader → List ℕ → List ℕ → List ℕ → List ℕ
unfolding fixed_part
header_body h ident map acl =
    let map_offset = fh_variable_area_start + length ident / 2 in
    let acl_offset = end_offset_words - length acl / 2 in
    let map_words = length map / 2 in
    fixed_part h map_offset acl_offset map_words
    ++ (ident ++ (map ++ (replicate ((acl_offset - (map_offset + map_words)) * 2) 0 ++ acl)))

unfoldable pub encode_file_header : FileHeader → FileHeaderAreas → Result (List ℕ)
unfolding header_body ident_bytes
encode_file_header h areas =
    if not (length areas.map_bytes % 2 == 0)
    then err odd_area
    else if not (length areas.acl_bytes % 2 == 0)
    then err odd_area
    else (do
      ident ← ident_bytes areas.ident
      if ltb (end_offset_words - length areas.acl_bytes / 2)
            (fh_variable_area_start + length ident / 2 + length areas.map_bytes / 2)
          then err areas_too_large
          else (do
            let body = header_body h ident areas.map_bytes areas.acl_bytes
            sum ← checksum (body ++ 0 ∷ 0 ∷ [])
            ok (body ++ word_bytes sum)))
