-- ===== src/Volume/Headers/Fields.antt =====
-- volume/writeheader.go: a header with other record attributes and another high-water mark.
use ods.Base.{ℕ, ◌^◌, ◌<◌, List, Option, arith}
use ods.Ondisk.FileHeader.{FileHeader}
use ods.Ondisk.FileHeader.RoundTrip.{HeaderInRange}
use ods.Ondisk.Ident.{Ident, ident}
use ods.Ondisk.RecAttr.{RecAttr, RecAttrInRange}
use ods.Ondisk.Retrieval.{Extent, retrieval_pointers}
use ods.Ondisk.Acl.{acl}
use ods.Volume.Headers.{header_ident}
use ods.Volume.Headers.Rewrite.{HasAreas}

abbrev pub with_fields : RecAttr → ℕ → FileHeader → FileHeader
with_fields a m h = record h { record_attributes = a; high_water_mark = m }

pub RecAttrInRange-end :
    (a : RecAttr) (n byte : ℕ)
    → n < 2 ^ 32
    → byte < 512
    → RecAttrInRange a
    → RecAttrInRange (record a { end_of_file_block = n; first_free_byte = byte })
RecAttrInRange-end a n byte s t r = record {
  format = r.format;
  attributes = r.attributes;
  record_size = r.record_size;
  highest_block = r.highest_block;
  end_of_file_block = s;
  first_free_byte = omega (arith, t);
  bucket_size = r.bucket_size;
  vfc_size = r.vfc_size;
  max_record_size = r.max_record_size;
  default_extend = r.default_extend;
  global_buffer_count = r.global_buffer_count;
  version_limit = r.version_limit;
}

pub HeaderInRange-fields :
    (a : RecAttr) (m : ℕ) (h : FileHeader)
    → RecAttrInRange a
    → m < 2 ^ 32
    → HeaderInRange h
    → HeaderInRange (with_fields a m h)
HeaderInRange-fields a m h s t r = record {
  segment_number = r.segment_number;
  structure_level = r.structure_level;
  fid = r.fid;
  extension_fid = r.extension_fid;
  record_attributes = s;
  file_characteristics = r.file_characteristics;
  member = r.member;
  group = r.group;
  file_protection = r.file_protection;
  backlink = r.backlink;
  high_water_mark = t;
  record_protection = r.record_protection;
}

pub HasAreas-fields :
    (a : RecAttr) (m : ℕ) (h : FileHeader) (id : Option Ident) (es : List Extent) (entries : List ℕ)
    → HasAreas h id es entries
    → HasAreas (with_fields a m h) id es entries
unfolding header_ident ident retrieval_pointers acl
HasAreas-fields a m h id es entries r = record {
  ident = r.ident;
  good_ident = r.good_ident;
  extents = r.extents;
  good_extents = r.good_extents;
  entries = r.entries;
  good_list = r.good_list;
}
