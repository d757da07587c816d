-- ===== src/Volume/Mount.antt =====
-- volume/volume.go: finding the home block, mounting devices, and opening a file by its
-- identification; accessedFile of volume/access.go.
pub mod HomeSearch
pub mod Devices
mod Examples
use ods.Base.{
  ℕ, zero, suc, ◌+◌, List, [], ◌∷◌, Bool, ◌&&◌, ◌||◌, not, Option, none, some, Result, ok, err,
  ◌>>=◌, no_home_block, no_container, wrong_rvn, wrong_index_header, no_device, min, leb, ◌==◌,
  if◌then◌else◌,
}
use ods.Base.Word.{u8, u32}
use ods.Ondisk.Fid.{Fid, number}
use ods.Ondisk.FileHeader.{FileHeader, valid_file_header}
use ods.Ondisk.HomeBlock.{HomeBlock, decode_home_block}
use ods.Volume.Device.{Container, Device, File}
use ods.Volume.File.{build_file, read_file_header_via_index, index_extents}

abbrev pub home_block_scan_limit : ℕ
home_block_scan_limit = 100

-- One candidate of the scan.
pub try_home : Container → ℕ → Result HomeBlock
try_home c lbn = do
  buf ← c.read_block lbn
  home ← decode_home_block buf
  if home.home_lbn == lbn then ok home else err no_home_block

pub first_ok : Result HomeBlock → Result HomeBlock → Result HomeBlock
first_ok (ok home) rest = ok home
first_ok (err e) rest = rest

pub scan_home : ℕ → Container → ℕ → Result HomeBlock
unfolding first_ok try_home
scan_home zero c lbn = err no_home_block
scan_home (suc n) c lbn = first_ok (try_home c lbn) (scan_home n c (lbn + 1))

pub find_home_block : Container → Result HomeBlock
unfolding scan_home
find_home_block c = scan_home (min home_block_scan_limit c.blocks) c 1

abbrev pub index_file_fid : Fid
index_file_fid = record { num = 1; seq = 1; rvn = 0; nmx = 0 }

pub bootstrap_index_file : ℕ → Device → Result Device
bootstrap_index_file fuel dev = do
  buf ← dev.container.read_block (u32 (dev.home.index_bitmap_lbn + dev.home.index_bitmap_size))
  header ← valid_file_header buf
  if not (number header.fid == number index_file_fid) || not (header.fid.seq == index_file_fid.seq)
      then err wrong_index_header
      else (do index ← build_file fuel dev header; ok (record dev { index_file = some index }))

-- One round of Mount's loop. A lone volume may record its number as 0.
pub mount_device : ℕ → ℕ → Container → Result Device
unfolding bootstrap_index_file
mount_device fuel i c = do
  home ← find_home_block c
  if not (home.relative_volume_number == u8 (i + 1))
        && not (i == 0 && leb home.relative_volume_number 1)
      then err wrong_rvn
      else bootstrap_index_file fuel (record {
        container = c;
        home = home;
        rvn = u8 (i + 1);
        index_file = none;
        accessed = [];
      })

pub mount_from : ℕ → ℕ → List Container → Result (List Device)
unfolding mount_device
mount_from fuel i [] = ok []
mount_from fuel i (c ∷ cs) = do
  dev ← mount_device fuel i c
  devices ← mount_from fuel (i + 1) cs
  ok (dev ∷ devices)

pub mount : ℕ → List Container → Result (List Device)
unfolding mount_from
mount fuel [] = err no_container
mount fuel (c ∷ cs) = mount_from fuel 0 (c ∷ cs)

pub find_device : ℕ → List Device → Result Device
find_device target [] = err no_device
find_device target (d ∷ ds) =
    let rest = find_device target ds in if d.rvn == target then ok d else rest

pub device_by_rvn : List Device → ℕ → Result Device
unfolding find_device
device_by_rvn devices rvn = find_device (if rvn == 0 then 1 else rvn) devices

pub accessed_under : ℕ → List (ℕ × File) → Option File
accessed_under n [] = none
accessed_under n ((k, f) ∷ rest) =
    let more = accessed_under n rest in if k == n then some f else more

abbrev pub same_seq : Fid → Option File → Option File
same_seq fid none = none
same_seq fid (some f) = if f.header.fid.seq == fid.seq then some f else none

pub accessed_file : Device → Fid → Option File
unfolding accessed_under
accessed_file dev fid = same_seq fid (accessed_under (number fid) dev.accessed)

-- The file that its accessors share, or one read from the disk.
abbrev pub accessed_or_read : ℕ → Device → Fid → Option File → Result File
accessed_or_read fuel dev fid (some f) = ok f
accessed_or_read fuel dev fid none = do
  header ← read_file_header_via_index dev (index_extents dev []) fid
  build_file fuel dev header

pub open_fid : ℕ → List Device → Fid → Result File
unfolding device_by_rvn accessed_file
open_fid fuel devices fid = do
  dev ← device_by_rvn devices fid.rvn
  accessed_or_read fuel dev fid (accessed_file dev fid)
