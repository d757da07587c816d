-- ===== src/Volume/Directory/Update.antt =====
-- volume/directory.go: entries put into a directory and taken out of it, on a device whose WriteBlock
-- is an argument. The state after an error is not given back.
pub mod Written
pub mod Changed
pub mod Stored
pub mod Entered
pub mod Found
pub mod Removed
pub mod Lookups
mod Examples
use ods.Base.{
  ℕ, ◌+◌, ◌-◌, ◌/◌, ◌^◌, zero, suc, bit_or, List, [], ◌∷◌, ◌++◌, Bool, true, false, ◌&&◌, not,
  Result, ok, err, ◌>>=◌, already_exists, not_writable, not_found, version_required, has_extension,
  length, replicate, ltb, ◌==◌, if◌then◌else◌,
}
use ods.Base.Word.{u32}
use ods.Ondisk.Block.{block_size}
use ods.Ondisk.Fid.{Fid, number}
use ods.Ondisk.FileHeader.{FileHeader, fch_contig}
use ods.Ondisk.DirEntry.{DirEntry}
use ods.Ondisk.Retrieval.{Extent, retrieval_pointers, encode_retrieval_pointers}
use ods.Volume.Device.{Container, Device, File, ExtentLocation}
use ods.Volume.Extents.{resolve_extent_lbn}
use ods.Volume.File.{blocks, at_device}
use ods.Volume.Directory.{equal_fold, list}
use ods.Volume.Directory.Pack.{pack_directory_blocks}
use ods.Volume.StorageBitmap.{Bitmap, find_free, mark_allocated, mark_free}
use ods.Volume.WriteFile.{raise_mark}
use ods.Volume.Headers.{existing_areas, write_header, on_container}

-- `writable` says that the container can be written.
pub record OpenDirectory : Type 0 where
  pub device : Device
  pub file : File
  pub bitmap : Bitmap
  pub writable : Bool

abbrev pub on_device : Device → OpenDirectory → OpenDirectory
on_device dev s = record s { device = dev }

abbrev pub with_file_header : FileHeader → OpenDirectory → OpenDirectory
with_file_header h s = record s { file = record s.file { header = h } }

-- An entry of that name, up to case, and version is there.
unfoldable pub has_version : List ℕ → ℕ → List DirEntry → Bool
unfolding equal_fold
has_version name version [] = false
has_version name version (e ∷ es) =
    let rest = has_version name version es in
    if e.version == version && equal_fold e.name name then true else rest

-- The entries without the first of that name and version.
unfoldable pub without : List ℕ → ℕ → List DirEntry → List DirEntry
unfolding equal_fold
without name version [] = []
without name version (e ∷ es) =
    let rest = without name version es in
    if equal_fold e.name name && e.version == version then es else e ∷ rest

unfoldable pub has_name : List ℕ → List DirEntry → Bool
unfolding equal_fold
has_name name [] = false
has_name name (e ∷ es) =
    let rest = has_name name es in if equal_fold e.name name then true else rest

unfoldable pub with_limit : List ℕ → ℕ → List DirEntry → List DirEntry
unfolding equal_fold
with_limit name limit [] = []
with_limit name limit (e ∷ es) =
    (if equal_fold e.name name then record e { version_limit = limit } else e)
    ∷ with_limit name limit es

-- The header with the end of file behind `used` blocks. The high-water mark only rises.
unfoldable pub used_header : ℕ → FileHeader → FileHeader
unfolding raise_mark
used_header used h = raise_mark (u32 (used + 1)) (record h {
  record_attributes = record h.record_attributes {
    end_of_file_block = u32 (used + 1);
    first_free_byte = 0;
  };
})

-- The header that a directory of one extent gets.
unfoldable pub moved_header : Extent → FileHeader → FileHeader
moved_header e h = record h {
  record_attributes = record h.record_attributes { highest_block = e.count };
  file_characteristics = bit_or h.file_characteristics fch_contig;
  high_water_mark = u32 (e.count + 1);
}

unfoldable pub free_extents : List Extent → Bitmap → Result Bitmap
free_extents [] bm = ok bm
free_extents (e ∷ es) bm = do bm' ← mark_free bm e; free_extents es bm'

module _ (write_container : Container → ℕ → List ℕ → Result Container) where
  -- The loop that writes the directory's blocks, from virtual block `vbn` on.
  unfoldable pub write_blocks : Device → List ExtentLocation → ℕ → List (List ℕ) → Result Device
  write_blocks dev extents vbn [] = ok dev
  write_blocks dev extents vbn (b ∷ bs) = do
    lbn ← resolve_extent_lbn extents vbn
    c ← write_container dev.container lbn b
    write_blocks (on_container c dev) extents (vbn + 1) bs

  -- The loop that zeroes an extent's blocks, with `n` of them left from `lbn` on.
  unfoldable pub zero_blocks_from : ℕ → Container → ℕ → Result Container
  zero_blocks_from zero c lbn = ok c
  zero_blocks_from (suc n) c lbn = do
    c' ← write_container c lbn (replicate block_size 0)
    zero_blocks_from n c' (u32 (lbn + 1))

  unfoldable pub record_used_blocks : ℕ → OpenDirectory → Result OpenDirectory
  unfolding used_header
  record_used_blocks used s = do
    let h = used_header used s.file.header
    areas ← existing_areas h
    (dev, decoded) ← write_header write_container s.device (number h.fid) h areas
    ok (with_file_header decoded (on_device dev s))

  unfoldable pub relocate : ℕ → OpenDirectory → Result OpenDirectory
  unfolding moved_header free_extents zero_blocks_from
  relocate needed s =
      if not (number s.file.header.extension_fid == 0) then err has_extension else (do
        let clusters = u32 (needed + s.bitmap.cluster_size + 2 ^ 32 - 1) / s.bitmap.cluster_size
        extent ← find_free s.bitmap clusters
        bm ← mark_allocated s.bitmap extent
        old ← retrieval_pointers s.file.header
        areas ← existing_areas s.file.header
        map ← encode_retrieval_pointers (extent ∷ [])
        c ← zero_blocks_from extent.count s.device.container extent.start_lbn
        let h = moved_header extent s.file.header
        (dev, decoded) ←
            write_header write_container (on_container c s.device) (number h.fid) h
              (record areas { map_bytes = map })
        bm' ← free_extents old bm
        ok (record s {
          device = dev;
          file = record { header = decoded; extents = at_device s.device.rvn extent ∷ [] };
          bitmap = bm';
        }))

  -- The blocks written, and their number recorded.
  unfoldable pub store : List (List ℕ) → OpenDirectory → Result OpenDirectory
  unfolding write_blocks record_used_blocks
  store bs s = do
    dev ← write_blocks s.device s.file.extents 1 bs
    record_used_blocks (u32 (length bs)) (on_device dev s)

  unfoldable pub insert : List ℕ → ℕ → Fid → ℕ → OpenDirectory → Result OpenDirectory
  unfolding has_version relocate store
  insert name version fid new_name_limit s =
      let added : DirEntry = record {
        name = name;
        version = version;
        fid = fid;
        version_limit = new_name_limit;
      } in
      if not s.writable then err not_writable else (do
        entries ← list s.device s.file
        if has_version name version entries then err already_exists else (do
          bs ← pack_directory_blocks (entries ++ added ∷ [])
          s' ← if ltb (blocks s.file) (u32 (length bs)) then relocate (u32 (length bs)) s else ok s
          store bs s'))

  unfoldable pub remove : List ℕ → ℕ → OpenDirectory → Result OpenDirectory
  unfolding has_version without store
  remove name version s =
      if version == 0
      then err version_required
      else if not s.writable
      then err not_writable
      else (do
        entries ← list s.device s.file
        if not (has_version name version entries)
            then err not_found
            else (do bs ← pack_directory_blocks (without name version entries); store bs s))

  unfoldable pub set_name_version_limit : List ℕ → ℕ → OpenDirectory → Result OpenDirectory
  unfolding has_name with_limit write_blocks
  set_name_version_limit name limit s = if not s.writable then err not_writable else (do
    entries ← list s.device s.file
    if not (has_name name entries) then err not_found else (do
      bs ← pack_directory_blocks (with_limit name limit entries)
      dev ← write_blocks s.device s.file.extents 1 bs
      ok (on_device dev s)))
