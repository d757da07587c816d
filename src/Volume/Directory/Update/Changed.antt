-- ===== src/Volume/Directory/Update/Changed.antt =====
-- volume/directory.go: a directory after its blocks were written and their number recorded.
use ods.Base.{ℕ, ◌+◌, ◌^◌, ◌≤◌, ◌<◌, ◌≡◌, ◌≢◌, refl, List, Option, Result, ok, max, arith}
use ods.Base.Word.{u32}
use ods.Ondisk.Fid.{number}
use ods.Ondisk.Ident.{Ident}
use ods.Ondisk.FileHeader.{FileHeader}
use ods.Ondisk.FileHeader.Encode.{encode_file_header}
use ods.Ondisk.FileHeader.Layout.{encode_file_header_any}
use ods.Ondisk.FileHeader.RoundTrip.{HeaderInRange}
use ods.Ondisk.Retrieval.{Extent, encode_retrieval_pointers}
use ods.Volume.Device.{Container}
use ods.Volume.Extents.{resolve_extent_lbn}
use ods.Volume.Directory.Update.{
  OpenDirectory, with_file_header, on_device, used_header, record_used_blocks,
}
use ods.Volume.Directory.Update.Written.{IsPlaced}
use ods.Volume.Headers.{on_container}
use ods.Volume.Headers.Rewrite.{HasAreas, IsStored, areas_of, existing_areas-HasAreas}
use ods.Volume.Headers.Fields.{HeaderInRange-fields, RecAttrInRange-end, HasAreas-fields}
use ods.Volume.Headers.Written.{IsSlot, IsWritten, write_header_lem}
use ods.Volume.WriteFile.Marks.{IsContainerWrite, raise_mark-max}

-- A directory of a volume, other than the index file, whose first `capacity` blocks have places of
-- their own in the container, away from the block of its header, and whose header can be rewritten.
pub record IsDirectory (capacity : ℕ) (s : OpenDirectory) : Type 0 where
  pub slot_lbn : ℕ
  pub slot : IsSlot s.device (number s.file.header.fid) slot_lbn
  pub ordinary : number s.file.header.fid ≢ 1
  pub places : IsPlaced capacity s.device.container.blocks s.file.extents
  pub outside : (v : ℕ) → resolve_extent_lbn s.file.extents v ≢ ok slot_lbn
  pub in_range : HeaderInRange s.file.header
  pub id : Option Ident
  pub pointers : List Extent
  pub entries : List ℕ
  pub areas : HasAreas s.file.header id pointers entries
  pub map : List ℕ
  pub encoded : encode_retrieval_pointers pointers ≡ ok map
  pub block : List ℕ
  pub fits : encode_file_header s.file.header (areas_of id map entries) ≡ ok block
  pub allocated : capacity ≤ s.file.header.record_attributes.highest_block
  pub small : capacity + 1 < 2 ^ 32

-- The header with its end of file behind `used` blocks.
abbrev pub used_to : ℕ → FileHeader → FileHeader
used_to used h = record h {
  record_attributes = record h.record_attributes {
    end_of_file_block = used + 1;
    first_free_byte = 0;
  };
  high_water_mark = max h.high_water_mark (used + 1);
}

used_header-used_to :
    (used : ℕ) (h : FileHeader) → used + 1 < 2 ^ 32 → used_header used h ≡ used_to used h
unfolding used_header
used_header-used_to used h s =
    let e : u32 (used + 1) ≡ used + 1 = omega arith in
    rw e (
      raise_mark-max (used + 1) (record h {
        record_attributes = record h.record_attributes {
          end_of_file_block = used + 1;
          first_free_byte = 0;
        };
      }))

pub HeaderInRange-used_to :
    (used : ℕ) (h : FileHeader)
    → used + 1 < 2 ^ 32
    → HeaderInRange h
    → HeaderInRange (used_to used h)
HeaderInRange-used_to used h s r =
    HeaderInRange-fields
      (record h.record_attributes { end_of_file_block = used + 1; first_free_byte = 0 })
      (max h.high_water_mark (used + 1)) h
      (RecAttrInRange-end h.record_attributes (used + 1) 0 s (omega arith) r.record_attributes)
      (omega (arith, r.high_water_mark)) r

module _ (write_container : Container → ℕ → List ℕ → Result Container)
    (container : IsContainerWrite write_container) (capacity : ℕ) (s : OpenDirectory)
    (r : IsDirectory capacity s) where
  -- The directory's header is rewritten, and its own blocks are left alone.
  pub record_used_blocks_lem :
      (used : ℕ)
      → used ≤ capacity
      → (c : Container) × (d : FileHeader) × (block : List ℕ) × (record_used_blocks write_container
            used s
          ≡ ok (with_file_header d (on_device (on_container c s.device) s)))
        × IsStored (used_to used s.file.header) d block
        × HasAreas d r.id r.pointers r.entries
        × IsWritten s.device c (number s.file.header.fid) r.slot_lbn block
  unfolding record_used_blocks
  record_used_blocks_lem used h =
      let h1 : FileHeader = used_to used s.file.header in
      let small : used + 1 < 2 ^ 32 = omega (arith, r.small) in
      let same = used_header-used_to used s.file.header small in
      let a1 =
        HasAreas-fields h1.record_attributes h1.high_water_mark s.file.header r.id r.pointers
          r.entries r.areas in
      let (map, k, existing) = existing_areas-HasAreas h1 r.id r.pointers r.entries a1 in
      let own : r.map ≡ map = cc (k, r.encoded) in
      let (block, e) =
        encode_file_header_any s.file.header h1 (areas_of r.id map r.entries) r.block
          (rw own at r.fits) in
      let (c, d, written, stored, areas, valid, w) =
        write_header_lem write_container container s.device (number s.file.header.fid) r.slot_lbn h1
          r.id r.pointers r.entries map block r.slot
          (HeaderInRange-used_to used s.file.header small r.in_range) r.areas.good_ident
          r.areas.good_extents r.areas.good_list k e in
      (c, d, block, rw (same, existing, written) refl, stored, areas, w)
