-- ===== src/Volume/Headers/Rewrite.antt =====
-- volume/writeheader.go: a header rewritten with other fields, over the areas that it has.
use ods.Base.{
  ℕ, ◌+◌, ◌-◌, ◌/◌, ◌≡◌, refl, ◌∙◌, List, [], true, false, Option, none, some, ok, err, All, length,
  ◌==◌, arith, if_so, if_not,
}
use ods.Base.Word.{u16_at}
use ods.Ondisk.FileHeader.{FileHeader, decode_file_header, valid_file_header}
use ods.Ondisk.FileHeader.Encode.{FileHeaderAreas, encode_file_header, ident_bytes}
use ods.Ondisk.FileHeader.Layout.{Layout, encode_file_header-Layout, length-encode_file_header}
use ods.Ondisk.FileHeader.RoundTrip.{HeaderInRange, laid_out, decode_file_header-encode_file_header}
use ods.Ondisk.FileHeader.Areas.{stored, stored-ident, stored-retrieval_pointers, stored-acl}
use ods.Ondisk.Ident.{Ident}
use ods.Ondisk.Ident.RoundTrip.{IdentInRange}
use ods.Ondisk.Acl.{acl, acl_area}
use ods.Ondisk.Acl.RoundTrip.{IsAcl}
use ods.Ondisk.Retrieval.{Extent, retrieval_pointers, encode_retrieval_pointers}
use ods.Ondisk.Retrieval.Entry.{ExtentInRange}
use ods.Ondisk.Retrieval.RoundTrip.{encode_retrieval_pointers_total}
use ods.Volume.Headers.{header_ident, existing_areas}

abbrev pub GoodIdent : Option Ident → Type 0
GoodIdent none = Unit
GoodIdent (some id) = IdentInRange id

-- The areas of a header are those given, and their contents fit their fields.
pub record HasAreas (h : FileHeader) (id : Option Ident) (es : List Extent) (list : List ℕ)
    : Type 0 where
  pub ident : header_ident h ≡ ok id
  pub good_ident : GoodIdent id
  pub extents : retrieval_pointers h ≡ ok es
  pub good_extents : All ExtentInRange es
  pub entries : acl h ≡ ok list
  pub good_list : IsAcl list

-- What existingAreas makes of such areas.
abbrev pub areas_of : Option Ident → List ℕ → List ℕ → FileHeaderAreas
areas_of id map list = record { ident = id; map_bytes = map; acl_bytes = acl_area list }

pub existing_areas-HasAreas :
    (h : FileHeader) (id : Option Ident) (es : List Extent) (list : List ℕ)
    → HasAreas h id es list
    → (map : List ℕ) × (encode_retrieval_pointers es ≡ ok map)
      × (existing_areas h ≡ ok (areas_of id map list))
unfolding existing_areas
existing_areas-HasAreas h id es list a =
    let (map, k, even, most, least) = encode_retrieval_pointers_total es a.good_extents in
    (map, k, rw (a.ident, a.extents, k, a.entries) refl)

stored-header_ident :
    (h : FileHeader) (areas : FileHeaderAreas) (block : List ℕ) (l : Layout h areas block) (sum : ℕ)
    (id : Option Ident)
    → areas.ident ≡ id
    → GoodIdent id
    → header_ident (stored h areas block l sum) ≡ ok id
unfolding header_ident
stored-header_ident h areas block l sum none e g =
    let bare : l.ident ≡ [] = unfold ident_bytes in cc (rw e at l.encoded) in
    let size : length l.ident / 2 ≡ 0 = rw bare refl in
    let same : (40 == 40 + length l.ident / 2) ≡ true = ground (arith, size) in if_so _ _ same
stored-header_ident h areas block l sum (some id) e g =
    let (order, k) = stored-ident h areas block l sum id e g in
    let other : (40 == 40 + length l.ident / 2) ≡ false = ground (arith, order) in
    if_not _ _ other ∙ rw k refl

-- A header encoded over areas, as it is decoded.
pub stored-HasAreas :
    (h : FileHeader) (id : Option Ident) (es : List Extent) (list map block : List ℕ) (sum : ℕ)
    (l : Layout h (areas_of id map list) block)
    → GoodIdent id
    → All ExtentInRange es
    → IsAcl list
    → encode_retrieval_pointers es ≡ ok map
    → HasAreas (stored h (areas_of id map list) block l sum) id es list
stored-HasAreas h id es list map block sum l gi ge gl k = record {
  ident = stored-header_ident h (areas_of id map list) block l sum id refl gi;
  good_ident = gi;
  extents = stored-retrieval_pointers h (areas_of id map list) block l sum es ge k;
  good_extents = ge;
  entries = stored-acl h (areas_of id map list) block l sum list refl gl;
  good_list = gl;
}

-- The header that stands in a block is the given one, but for what the layout of its areas and the
-- block determine.
pub record IsStored (h d : FileHeader) (block : List ℕ) : Type 0 where
  pub map_offset : ℕ
  pub acl_offset : ℕ
  pub map_words : ℕ
  pub sum : ℕ
  pub same : d ≡ laid_out h block map_offset acl_offset map_words sum

valid_of :
    (block : List ℕ) (d : FileHeader)
    → decode_file_header block ≡ (d, none)
    → valid_file_header block ≡ ok d
unfolding valid_file_header
valid_of block d e = λ i. elim (e i).1 [ none ↦ ok (e i).0 | some x ↦ err x ]

-- Writing a header over areas gives a block that decodes to the header with those areas.
pub valid_file_header-encode_file_header :
    (h : FileHeader) (id : Option Ident) (es : List Extent) (list map block : List ℕ)
    → HeaderInRange h
    → GoodIdent id
    → All ExtentInRange es
    → IsAcl list
    → encode_retrieval_pointers es ≡ ok map
    → encode_file_header h (areas_of id map list) ≡ ok block
    → (d : FileHeader) × (valid_file_header block ≡ ok d)
      × IsStored h d block
      × HasAreas d id es list
      × (length block ≡ 512)
valid_file_header-encode_file_header h id es list map block r gi ge gl k e =
    let areas : FileHeaderAreas = areas_of id map list in
    let l = encode_file_header-Layout h areas block e in
    let (bytes, kb, decoded) = decode_file_header-encode_file_header h areas block r e in
    let same : bytes ≡ l.ident = cc (kb, l.encoded) in
    let d : FileHeader = stored h areas block l (u16_at block 510) in
    let decoded' : decode_file_header block ≡ (d, none) = rw same at decoded in
    (
      d,
      valid_of block d decoded',
      record {
        map_offset = 40 + length l.ident / 2;
        acl_offset = 255 - length areas.acl_bytes / 2;
        map_words = length map / 2;
        sum = u16_at block 510;
        same = refl;
      },
      stored-HasAreas h id es list map block (u16_at block 510) l gi ge gl k,
      length-encode_file_header h areas block e,
    )
