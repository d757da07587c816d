-- ===== src/Volume/WriteFile/Ready.antt =====
-- volume/writefile.go: a file that is open for write, and the rewriting of its header.
use ods.Base.{ℕ, ◌+◌, ◌^◌, ◌≤◌, ◌<◌, ◌≡◌, ◌≢◌, refl, ap, ◌∙◌, true, List, Option, Result, ok, arith}
use ods.Ondisk.Fid.{number}
use ods.Ondisk.FileHeader.{FileHeader}
use ods.Ondisk.FileHeader.Encode.{encode_file_header}
use ods.Ondisk.FileHeader.Layout.{encode_file_header_any}
use ods.Ondisk.FileHeader.RoundTrip.{HeaderInRange}
use ods.Ondisk.Ident.{Ident}
use ods.Ondisk.RecAttr.{RecAttr, RecAttrInRange}
use ods.Ondisk.Retrieval.{Extent, encode_retrieval_pointers}
use ods.Volume.Device.{Container, Device, File}
use ods.Volume.Extents.{resolve_extent_lbn}
use ods.Volume.Headers.Rewrite.{HasAreas, IsStored, areas_of, existing_areas-HasAreas}
use ods.Volume.Headers.Fields.{with_fields, HeaderInRange-fields, HasAreas-fields}
use ods.Volume.Headers.Written.{IsSlot, write_header_lem}
use ods.Volume.WriteFile.{OpenFile, with_header, with_container, rewrite_header}
use ods.Volume.WriteFile.Marks.{IsContainerWrite}

-- A file of a device, other than the index file, whose header fits its fields and its block, which
-- is none of the file's own.
pub record IsRewritable (dev : Device) (f : File) : Type 0 where
  pub slot_lbn : ℕ
  pub slot : IsSlot dev (number f.header.fid) slot_lbn
  pub ordinary : number f.header.fid ≢ 1
  pub outside : (v : ℕ) → resolve_extent_lbn f.extents v ≢ ok slot_lbn
  pub in_range : HeaderInRange f.header
  pub id : Option Ident
  pub pointers : List Extent
  pub entries : List ℕ
  pub areas : HasAreas f.header id pointers entries
  pub map : List ℕ
  pub encoded : encode_retrieval_pointers pointers ≡ ok map
  pub block : List ℕ
  pub fits : encode_file_header f.header (areas_of id map entries) ≡ ok block

-- A file that is open for write, whose first `capacity` blocks have places of their own in the
-- container, and whose blocks written so far are before the high-water mark.
pub record IsReady (capacity : ℕ) (s : OpenFile) : Type 0 where
  pub armed : s.armed ≡ true
  pub writable : s.writable ≡ true
  pub allocated : capacity ≤ s.file.header.record_attributes.highest_block
  pub placed :
      (v : ℕ)
      → 0 < v
      → v ≤ capacity
      → (l : ℕ) × (resolve_extent_lbn s.file.extents v ≡ ok l) × (l < s.device.container.blocks)
  pub apart :
      (v w l : ℕ)
      → resolve_extent_lbn s.file.extents v ≡ ok l
      → resolve_extent_lbn s.file.extents w ≡ ok l
      → v ≡ w
  pub marked : s.max_written < s.file.header.high_water_mark
  pub counted : s.max_written + 1 < 2 ^ 32
  pub header : IsRewritable s.device s.file

abbrev pub changed : RecAttr → ℕ → File → File
changed a m f = record f { header = with_fields a m f.header }

-- A header that fits can be rewritten with other attributes and another mark.
pub IsRewritable-changed :
    (dev : Device) (f : File) (c : Container) (a : RecAttr) (m : ℕ)
    → IsRewritable dev f
    → c.blocks ≡ dev.container.blocks
    → RecAttrInRange a
    → m < 2 ^ 32
    → IsRewritable (record dev { container = c }) (changed a m f)
IsRewritable-changed dev f c a m r same s t =
    let (block, e) =
      encode_file_header_any f.header (with_fields a m f.header) (areas_of r.id r.map r.entries)
        r.block r.fits in
    record {
      slot_lbn = r.slot_lbn;
      slot = record {
        place = r.slot.place;
        inside = let i = r.slot.inside in omega (arith, same);
        alternate = λ one. let i = r.slot.alternate one in omega (arith, same);
      };
      ordinary = r.ordinary;
      outside = r.outside;
      in_range = HeaderInRange-fields a m f.header s t r.in_range;
      id = r.id;
      pointers = r.pointers;
      entries = r.entries;
      areas = HasAreas-fields a m f.header r.id r.pointers r.entries r.areas;
      map = r.map;
      encoded = r.encoded;
      block = block;
      fits = e;
    }

-- The header is as given, but for what its layout determines, and the file's own blocks are as they
-- were.
pub rewrite_header_lem :
    (write_container : Container → ℕ → List ℕ → Result Container)
    (extend : ℕ → OpenFile → Result OpenFile) (s : OpenFile) (a : RecAttr) (m : ℕ)
    → IsContainerWrite write_container
    → IsRewritable s.device s.file
    → RecAttrInRange a
    → m < 2 ^ 32
    → (c : Container) × (d : FileHeader) × (block : List ℕ) × (rewrite_header write_container extend
          (with_fields a m s.file.header)
          s
        ≡ ok (with_header d (with_container c s)))
      × IsStored (with_fields a m s.file.header) d block
      × ((v l : ℕ)
          → resolve_extent_lbn s.file.extents v ≡ ok l
          → c.read_block l ≡ s.device.container.read_block l)
unfolding rewrite_header
rewrite_header_lem write_container extend s a m container r t u =
    let h : FileHeader = with_fields a m s.file.header in
    let (map, k, existing) =
      existing_areas-HasAreas h r.id r.pointers r.entries
        (HasAreas-fields a m s.file.header r.id r.pointers r.entries r.areas) in
    let own : r.map ≡ map = cc (k, r.encoded) in
    let (block, e) =
      encode_file_header_any s.file.header h (areas_of r.id map r.entries) r.block
        (rw own at r.fits) in
    let (c, d, written, stored, areas, valid, w) =
      write_header_lem write_container container s.device (number s.file.header.fid) r.slot_lbn h
        r.id r.pointers r.entries map block r.slot
        (HeaderInRange-fields a m s.file.header t u r.in_range) r.areas.good_ident
        r.areas.good_extents r.areas.good_list k e in
    (
      c,
      d,
      block,
      rw (existing, written) refl,
      stored,
      λ v l found.
          w.others l (λ same. r.outside v (found ∙ ap (λ (n : ℕ). ok n) same))
            (λ one. absurd (r.ordinary one)),
    )
