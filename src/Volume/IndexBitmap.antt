-- ===== src/Volume/IndexBitmap.antt =====
-- volume/indexbitmap.go: the cache of the header-slot bitmap. A set bit is a slot in use, other than
-- in the storage bitmap. The device and its index file are arguments of what reads header slots.
pub mod Slots
pub mod Marking
mod Examples
use ods.Base.{
  ℕ, zero, suc, ◌+◌, ◌-◌, List, Bool, true, ◌||◌, not, Result, ok, err, ◌>>=◌, zero_file_number,
  beyond_slots, slot_inconsistent, no_free_slot, ltb, leb, ◌==◌, if◌then◌else◌,
}
use ods.Ondisk.Bitmap.{bitmap_test, bitmap_set, bitmap_clear}
use ods.Ondisk.Fid.{number}
use ods.Ondisk.FileHeader.{FileHeader, decode_file_header}
use ods.Volume.Device.{Device, File}
use ods.Volume.File.{file_header_vbn, read_block}

pub record IndexBitmap : Type 0 where
  pub total_slots : ℕ
  pub reserved_slots : ℕ
  pub bits : List ℕ
  pub dirty : Bool

-- The check of the header in a slot whose bit is clear, with the error of decoding passed over.
pub check_slot : Device → File → ℕ → Result ℕ
check_slot dev index file_number = do
  buf ← read_block dev index (file_header_vbn dev.home file_number)
  if not ((decode_file_header buf).0.checksum == 0)
        || not (number (decode_file_header buf).0.fid == 0)
      then err slot_inconsistent
      else ok file_number

-- The loop over slots, with `n` of them left from `slot` on.
pub find_slot : ℕ → Device → File → IndexBitmap → ℕ → Result ℕ
unfolding check_slot
find_slot zero dev index ib slot = err no_free_slot
find_slot (suc n) dev index ib slot =
    let rest = find_slot n dev index ib (slot + 1) in
    if bitmap_test ib.bits slot then rest else check_slot dev index (slot + 1)

pub find_free_slot : Device → File → IndexBitmap → Result ℕ
unfolding find_slot
find_free_slot dev index ib =
    find_slot (ib.total_slots - ib.reserved_slots) dev index ib ib.reserved_slots

pub find_slot_within : ℕ → Device → File → IndexBitmap → ℕ → ℕ → Result ℕ
unfolding check_slot
find_slot_within zero dev index ib last_vbn slot = err no_free_slot
find_slot_within (suc n) dev index ib last_vbn slot =
    let rest = find_slot_within n dev index ib last_vbn (slot + 1) in
    if ltb last_vbn (file_header_vbn dev.home (slot + 1))
    then err no_free_slot
    else if bitmap_test ib.bits slot
    then rest
    else check_slot dev index (slot + 1)

pub find_free_slot_within : Device → File → IndexBitmap → ℕ → Result ℕ
unfolding find_slot_within
find_free_slot_within dev index ib last_vbn =
    find_slot_within (ib.total_slots - ib.reserved_slots) dev index ib last_vbn ib.reserved_slots

pub slot_range : IndexBitmap → ℕ → Result ℕ
slot_range ib file_number =
    if file_number == 0
    then err zero_file_number
    else if leb ib.total_slots (file_number - 1)
    then err beyond_slots
    else ok (file_number - 1)

pub mark_allocated : IndexBitmap → ℕ → Result IndexBitmap
unfolding slot_range
mark_allocated ib file_number = do
  slot ← slot_range ib file_number
  ok (record ib { bits = bitmap_set ib.bits slot; dirty = true })

pub mark_free : IndexBitmap → ℕ → Result IndexBitmap
unfolding slot_range
mark_free ib file_number = do
  slot ← slot_range ib file_number
  ok (record ib { bits = bitmap_clear ib.bits slot; dirty = true })
