-- ===== src/Volume/Headers.antt =====
-- volume/writeheader.go: headers written to their slots of the index file and read back, and the
-- extents added to them. The container's WriteBlock is an argument.
pub mod Rewrite
pub mod Fields
pub mod Written
mod Examples
use ods.Base.{
  ℕ, zero, suc, ◌+◌, List, [], ◌∷◌, ◌++◌, Bool, ◌&&◌, not, Option, none, some, Result, ok, err,
  ◌>>=◌, out_of_fuel, ◌==◌, if◌then◌else◌,
}
use ods.Base.Word.{u8, u16, u32, ◌>>>◌}
use ods.Ondisk.Fid.{Fid, number, is_zero}
use ods.Ondisk.FileHeader.{FileHeader, decode_file_header, valid_file_header}
use ods.Ondisk.FileHeader.Encode.{FileHeaderAreas, encode_file_header}
use ods.Ondisk.Ident.{Ident, ident}
use ods.Ondisk.Acl.{acl, acl_area}
use ods.Ondisk.Retrieval.{Extent, retrieval_pointers, encode_retrieval_pointers}
use ods.Volume.Device.{Container, Device, File, ExtentLocation}
use ods.Volume.Extents.{resolve_extent_lbn}
use ods.Volume.File.{file_header_vbn, read_block, read_file_header_via_index}

-- The index file's own file number.
abbrev pub index_file_number : ℕ
index_file_number = 1

-- A mounted device has its index file; the source faults without it.
unfoldable pub index_extents_of : Option File → List ExtentLocation
index_extents_of none = []
index_extents_of (some f) = f.extents

abbrev pub on_container : Container → Device → Device
on_container c dev = record dev { container = c }

-- headerIdent
unfoldable pub header_ident : FileHeader → Result (Option Ident)
header_ident h = if h.ident_offset == h.map_offset then ok none else (do id ← ident h; ok (some id))

unfoldable pub existing_areas : FileHeader → Result FileHeaderAreas
unfolding header_ident
existing_areas h = do
  id ← header_ident h
  extents ← retrieval_pointers h
  map ← encode_retrieval_pointers extents
  list ← acl h
  ok (record { ident = id; map_bytes = map; acl_bytes = acl_area list })

-- An extent right behind the last one makes that one longer.
unfoldable pub add_extent : List Extent → Extent → List Extent
add_extent [] e = e ∷ []
add_extent (x ∷ []) e =
    if u32 (x.start_lbn + x.count) == e.start_lbn
    then record x { count = u32 (x.count + e.count) } ∷ []
    else x ∷ e ∷ []
add_extent (x ∷ y ∷ es) e = x ∷ add_extent (y ∷ es) e

-- The source has no bound on the rounds, so the model's fuel is an argument.
unfoldable pub file_header_chain : ℕ → Device → FileHeader → Result (List FileHeader)
unfolding index_extents_of
file_header_chain zero dev header = err out_of_fuel
file_header_chain (suc fuel) dev header =
    if is_zero header.extension_fid then ok (header ∷ []) else (do
      next ← read_file_header_via_index dev (index_extents_of dev.index_file) header.extension_fid
      rest ← file_header_chain fuel dev next
      ok (header ∷ rest))

abbrev pub last_of : FileHeader → List FileHeader → FileHeader
last_of h [] = h
last_of h (x ∷ xs) = last_of x xs

unfoldable pub tail_header : ℕ → Device → FileHeader → Result FileHeader
unfolding file_header_chain
tail_header fuel dev primary = do
  chain ← file_header_chain fuel dev primary
  ok (last_of primary chain)

unfoldable pub next_seq : ℕ → ℕ
next_seq seq = if u16 (seq + 1) == 0 then 1 else u16 (seq + 1)

-- The identification that a slot's next file gets.
unfoldable pub slot_fid : ℕ → FileHeader → Fid
unfolding next_seq
slot_fid file_number previous = record {
  num = u16 file_number;
  seq = next_seq previous.fid.seq;
  rvn = 0;
  nmx = u8 (file_number >>> 16);
}

-- The error of decoding the slot's contents is passed over.
unfoldable pub next_file_fid : Device → File → ℕ → Result Fid
unfolding slot_fid
next_file_fid dev index file_number = do
  buf ← read_block dev index (file_header_vbn dev.home file_number)
  ok (slot_fid file_number (decode_file_header buf).0)

module _ (write_container : Container → ℕ → List ℕ → Result Container) where
  -- The index file's own header has a second copy.
  unfoldable pub write_alternate : Device → ℕ → List ℕ → Container → Result Container
  write_alternate dev file_number buf c =
      if file_number == index_file_number && not (dev.home.alternate_index_lbn == 0)
      then write_container c dev.home.alternate_index_lbn buf
      else ok c

  unfoldable pub write_header_bytes : Device → ℕ → List ℕ → Result (Device × FileHeader)
  unfolding write_alternate index_extents_of
  write_header_bytes dev file_number buf = do
    lbn ←
        resolve_extent_lbn (index_extents_of dev.index_file) (file_header_vbn dev.home file_number)
    c ← write_container dev.container lbn buf
    c' ← write_alternate dev file_number buf c
    header ← valid_file_header buf
    ok (on_container c' dev, header)

  unfoldable pub write_header :
      Device → ℕ → FileHeader → FileHeaderAreas → Result (Device × FileHeader)
  unfolding write_header_bytes
  write_header dev file_number h areas = do
    buf ← encode_file_header h areas
    write_header_bytes dev file_number buf

  -- A header without room for another extent is left as it is.
  unfoldable pub write_if_fits : Device → ℕ → Result (List ℕ) → Result (Device × Option FileHeader)
  unfolding write_header_bytes
  write_if_fits dev file_number (err e) = ok (dev, none)
  write_if_fits dev file_number (ok buf) = do
    (dev', header) ← write_header_bytes dev file_number buf
    ok (dev', some header)

  unfoldable pub append_extent : Device → FileHeader → Extent → Result (Device × Option FileHeader)
  unfolding write_if_fits existing_areas add_extent
  append_extent dev header e = do
    areas ← existing_areas header
    extents ← retrieval_pointers header
    map ← encode_retrieval_pointers (add_extent extents e)
    write_if_fits dev (number header.fid)
        (encode_file_header header (record areas { map_bytes = map }))
