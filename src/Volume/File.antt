-- ===== src/Volume/File.antt =====
-- volume/file.go: reading a file's blocks, and finding its extents through its chain of headers.
pub mod Segments
pub mod Unwritten
mod Examples
use ods.Base.{
  ℕ, zero, suc, ◌+◌, ◌-◌, ◌*◌, List, [], ◌∷◌, ◌++◌, map, Bool, ◌&&◌, ◌||◌, not, Option, none, some,
  Result, ok, err, ◌>>=◌, stale_fid, out_of_fuel, replicate, ltb, leb, ◌==◌, if◌then◌else◌,
}
use ods.Base.Word.{u32}
use ods.Ondisk.Block.{block_size}
use ods.Ondisk.Fid.{Fid, number, is_zero}
use ods.Ondisk.FileHeader.{FileHeader, valid_file_header}
use ods.Ondisk.HomeBlock.{HomeBlock}
use ods.Ondisk.Retrieval.{Extent, retrieval_pointers}
use ods.Volume.Device.{Device, File, ExtentLocation}
use ods.Volume.Extents.{read_extents}

unfoldable pub blocks : File → ℕ
blocks f = f.header.record_attributes.highest_block

unfoldable pub used_blocks : File → ℕ
used_blocks f =
    let eof = f.header.record_attributes.end_of_file_block in
    if eof == 0 then 0 else if f.header.record_attributes.first_free_byte == 0 then eof - 1 else eof

unfoldable pub is_unwritten : File → ℕ → Bool
is_unwritten f vbn = ltb 39 f.header.ident_offset && leb f.header.high_water_mark vbn

-- `File.ReadBlock`, on a file of device `dev` and a buffer of one block.
unfoldable pub read_block : Device → File → ℕ → Result (List ℕ)
unfolding is_unwritten
read_block dev f vbn =
    if is_unwritten f vbn then ok (replicate block_size 0) else read_extents dev f.extents vbn

-- The sum is taken in 32 bits, and a file number of 0 wraps around before it.
unfoldable pub file_header_vbn : HomeBlock → ℕ → ℕ
file_header_vbn home file_number =
    u32 (file_number + (4294967295 + home.index_bitmap_vbn + home.index_bitmap_size))

unfoldable pub read_file_header_via_index : Device → List ExtentLocation → Fid → Result FileHeader
unfolding file_header_vbn valid_file_header
read_file_header_via_index dev index_extents fid = do
  buf ← read_extents dev index_extents (file_header_vbn dev.home (number fid))
  header ← valid_file_header buf
  if not (number header.fid == number fid) || not (header.fid.seq == fid.seq)
      then err stale_fid
      else ok header

abbrev pub at_device : ℕ → Extent → ExtentLocation
at_device rvn e = record { extent = e; rvn = rvn }

abbrev pub locate : ℕ → List Extent → List ExtentLocation
locate rvn = map (at_device rvn)

-- The index file's extents that the next header of the chain is found by: the mounted ones, or
-- while the index file itself is being built, those known so far.
unfoldable pub extents_or : List ExtentLocation → Option File → List ExtentLocation
extents_or found none = found
extents_or found (some f) = f.extents

unfoldable pub index_extents : Device → List ExtentLocation → List ExtentLocation
unfolding extents_or
index_extents dev found = extents_or found dev.index_file

-- The rounds of the loop. The source has no bound on them, so the model's fuel is an argument.
unfoldable pub build_segments :
    ℕ → Device → List ExtentLocation → FileHeader → Result (List ExtentLocation)
build_segments zero dev found header = err out_of_fuel
build_segments (suc fuel) dev found header = do
  extents ← retrieval_pointers header
  if is_zero header.extension_fid then ok (found ++ locate dev.rvn extents) else (do
    next ←
        read_file_header_via_index dev (index_extents dev (found ++ locate dev.rvn extents))
          header.extension_fid
    build_segments fuel dev (found ++ locate dev.rvn extents) next)

unfoldable pub build_file : ℕ → Device → FileHeader → Result File
unfolding build_segments
build_file fuel dev primary = do
  extents ← build_segments fuel dev [] primary
  ok (record { header = primary; extents = extents })
