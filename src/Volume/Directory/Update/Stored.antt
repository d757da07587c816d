-- ===== src/Volume/Directory/Update/Stored.antt =====
-- volume/directory.go: a directory stays one that can be written, and lists what was written.
use ods.Base.{
  ℕ, ◌+◌, ◌^◌, ◌≤◌, ◌<◌, ◌≡◌, ◌≢◌, refl, sym, ap, ◌∙◌, List, Result, ok, All, length, arith,
}
use ods.Base.Word.{u32}
use ods.Ondisk.Fid.{number}
use ods.Ondisk.FileHeader.{FileHeader}
use ods.Ondisk.FileHeader.Layout.{encode_file_header_any}
use ods.Ondisk.FileHeader.RoundTrip.{HeaderInRange, laid_out}
use ods.Ondisk.DirEntry.{DirEntry}
use ods.Volume.Device.{Container, Device, File}
use ods.Volume.Extents.{resolve_extent_lbn}
use ods.Volume.File.{blocks, used_blocks}
use ods.Volume.Directory.{list}
use ods.Volume.Directory.Pack.Kept.{decode_blocks}
use ods.Volume.Directory.Update.{OpenDirectory, with_file_header, on_device, store}
use ods.Volume.Directory.Update.Written.{
  IsPlaced, Holds, Holds-same, write_blocks-Holds, list-Holds,
}
use ods.Volume.Directory.Update.Changed.{
  IsDirectory, used_to, HeaderInRange-used_to, record_used_blocks_lem,
}
use ods.Volume.Headers.{on_container}
use ods.Volume.Headers.Rewrite.{HasAreas, areas_of}
use ods.Volume.Headers.Written.{IsSlot}
use ods.Volume.WriteFile.Marks.{IsContainerWrite}
use mathlib.Core.Path.{subst}

IsSlot-on_container :
    (dev : Device) (c : Container) (n lbn : ℕ)
    → c.blocks ≡ dev.container.blocks
    → IsSlot dev n lbn
    → IsSlot (on_container c dev) n lbn
IsSlot-on_container dev c n lbn e slot = record {
  place = slot.place;
  inside = omega (arith, slot.inside, e);
  alternate = λ one. let i = slot.alternate one in omega (arith, e);
}

IsPlaced-size :
    (capacity : ℕ) (s : OpenDirectory) (c : Container)
    → c.blocks ≡ s.device.container.blocks
    → IsDirectory capacity s
    → IsPlaced capacity c.blocks s.file.extents
IsPlaced-size capacity s c e r = subst (λ n. IsPlaced capacity n s.file.extents) (sym e) r.places

-- The blocks of a directory were written.
IsDirectory-on_container :
    (capacity : ℕ) (s : OpenDirectory) (c : Container)
    → c.blocks ≡ s.device.container.blocks
    → IsDirectory capacity s
    → IsDirectory capacity (on_device (on_container c s.device) s)
IsDirectory-on_container capacity s c e r = record {
  slot_lbn = r.slot_lbn;
  slot = IsSlot-on_container s.device c (number s.file.header.fid) r.slot_lbn e r.slot;
  ordinary = r.ordinary;
  places = IsPlaced-size capacity s c e r;
  outside = r.outside;
  in_range = r.in_range;
  id = r.id;
  pointers = r.pointers;
  entries = r.entries;
  areas = r.areas;
  map = r.map;
  encoded = r.encoded;
  block = r.block;
  fits = r.fits;
  allocated = r.allocated;
  small = r.small;
}

HeaderInRange-laid_out :
    (h : FileHeader) (block : List ℕ) (m a w sum : ℕ)
    → HeaderInRange h
    → HeaderInRange (laid_out h block m a w sum)
HeaderInRange-laid_out h block m a w sum r = record {
  segment_number = r.segment_number;
  structure_level = r.structure_level;
  fid = r.fid;
  extension_fid = r.extension_fid;
  record_attributes = r.record_attributes;
  file_characteristics = r.file_characteristics;
  member = r.member;
  group = r.group;
  file_protection = r.file_protection;
  backlink = r.backlink;
  high_water_mark = r.high_water_mark;
  record_protection = r.record_protection;
}

-- The header of a directory was rewritten.
IsDirectory-laid_out :
    (capacity used : ℕ) (s : OpenDirectory) (c : Container) (block : List ℕ) (m a w sum : ℕ)
    → c.blocks ≡ s.device.container.blocks
    → used ≤ capacity
    → (r : IsDirectory capacity s)
    → HasAreas (laid_out (used_to used s.file.header) block m a w sum) r.id r.pointers r.entries
    → IsDirectory capacity (
        with_file_header
          (laid_out (used_to used s.file.header) block m a w sum)
          (on_device (on_container c s.device) s))
IsDirectory-laid_out capacity used s c block m a w sum e h r areas =
    let d : FileHeader = laid_out (used_to used s.file.header) block m a w sum in
    let small : used + 1 < 2 ^ 32 = omega (arith, r.small) in
    let (again, k) =
      encode_file_header_any s.file.header d (areas_of r.id r.map r.entries) r.block r.fits in
    record {
      slot_lbn = r.slot_lbn;
      slot = IsSlot-on_container s.device c (number s.file.header.fid) r.slot_lbn e r.slot;
      ordinary = r.ordinary;
      places = IsPlaced-size capacity s c e r;
      outside = r.outside;
      in_range =
          HeaderInRange-laid_out (used_to used s.file.header) block m a w sum
            (HeaderInRange-used_to used s.file.header small r.in_range);
      id = r.id;
      pointers = r.pointers;
      entries = r.entries;
      areas = areas;
      map = r.map;
      encoded = r.encoded;
      block = again;
      fits = k;
      allocated = r.allocated;
      small = r.small;
    }

-- What a directory is after its blocks were stored.
pub record IsStoredIn (capacity : ℕ) (s : OpenDirectory) (bs : List (List ℕ)) (slot_lbn : ℕ)
    (s' : OpenDirectory) : Type 0 where
  pub directory : IsDirectory capacity s'
  pub listed : (out : List DirEntry) → decode_blocks bs ≡ ok out → list s'.device s'.file ≡ ok out
  pub same_extents : s'.file.extents ≡ s.file.extents
  pub same_bitmap : s'.bitmap ≡ s.bitmap
  pub same_writable : s'.writable ≡ s.writable
  pub others :
      (m : ℕ)
      → m ≢ slot_lbn
      → ((v : ℕ) → resolve_extent_lbn s.file.extents v ≢ ok m)
      → s'.device.container.read_block m ≡ s.device.container.read_block m

used_blocks-eof :
    (f : File) (n : ℕ)
    → f.header.record_attributes.end_of_file_block ≡ n + 1
    → f.header.record_attributes.first_free_byte ≡ 0
    → used_blocks f ≡ n
unfolding used_blocks
used_blocks-eof f n e z = ground arith

listed_from :
    (capacity : ℕ) (s : OpenDirectory) (c : Container) (block : List ℕ) (m a w sum : ℕ)
    (bs : List (List ℕ)) (out : List DirEntry)
    → length bs ≤ capacity
    → IsDirectory capacity s
    → Holds c s.file.extents 1 bs
    → decode_blocks bs ≡ ok out
    → let d : FileHeader = laid_out (used_to (length bs) s.file.header) block m a w sum in
      list (on_container c s.device) (record s.file { header = d }) ≡ ok out
listed_from capacity s c block m a w sum bs out h r holds k =
    let d : FileHeader = laid_out (used_to (length bs) s.file.header) block m a w sum in
    let f : File = record s.file { header = d } in
    let used : used_blocks f ≡ length bs = used_blocks-eof f (length bs) refl refl in
    list-Holds (on_container c s.device) f bs out used (unfold blocks in omega (arith, r.allocated))
      (omega arith) (λ v p q. let (l, e, i) = r.places.placed v p (omega arith) in (l, e)) holds k

module _ (write_container : Container → ℕ → List ℕ → Result Container)
    (container : IsContainerWrite write_container) where
  -- Blocks that a directory has room for are stored: the directory lists their entries, and neither
  -- another block of the container nor the bitmap changes.
  pub store_lem :
      (capacity : ℕ) (s : OpenDirectory) (bs : List (List ℕ))
      → (r : IsDirectory capacity s) → length bs ≤ capacity
      → All (λ b. length b ≡ 512) bs
      → (s' : OpenDirectory) × (store write_container bs s ≡ ok s')
        × IsStoredIn capacity s bs r.slot_lbn s'
  unfolding store IsDirectory-on_container
  store_lem capacity s bs r h sizes =
      let (c1, k1, size1, holds1, rest1) =
        write_blocks-Holds write_container container capacity 1 s.device s.file.extents bs r.places
          (omega arith) (omega arith) sizes in
      let s1 : OpenDirectory = on_device (on_container c1 s.device) s in
      let r1 = IsDirectory-on_container capacity s c1 size1 r in
      let (c, d, block, k, stored, areas, w) =
        record_used_blocks_lem write_container container capacity s1 r1 (length bs) h in
      let number_same : u32 (length bs) ≡ length bs = omega (arith, r.small) in
      let laid : FileHeader =
        laid_out (used_to (length bs) s.file.header) block stored.map_offset stored.acl_offset
          stored.map_words stored.sum in
      let own : (v l : ℕ)
          → resolve_extent_lbn s.file.extents v ≡ ok l
          → c.read_block l ≡ c1.read_block l =
        λ v l e. w.others l (λ q. r.outside v (e ∙ ap ok q)) (λ one. absurd (r.ordinary one)) in
      let holds = Holds-same c1 c s.file.extents 1 bs own holds1 in
      let s' : OpenDirectory = with_file_header laid (on_device (on_container c s.device) s) in
      (
        s',
        rw (k1, number_same)
            (k
              ∙ ap (λ e. ok (with_file_header e (on_device (on_container c s.device) s)))
                  stored.same),
        record {
          directory =
              IsDirectory-laid_out capacity (length bs) s1 c block stored.map_offset
                stored.acl_offset stored.map_words stored.sum w.same_size h r1
                (subst (λ e. HasAreas e r.id r.pointers r.entries) stored.same areas);
          listed = λ out e.
              listed_from capacity s c block stored.map_offset stored.acl_offset stored.map_words
                stored.sum bs out h r holds e;
          same_extents = refl;
          same_bitmap = refl;
          same_writable = refl;
          others = λ m p o. w.others m p (λ one. absurd (r.ordinary one)) ∙ rest1 m (λ v q. o v);
        },
      )
