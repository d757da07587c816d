-- ===== src/Volume/IndexBitmap/Marking.antt =====
-- volume/indexbitmap.go: marking header slots.
use ods.Base.{
  ℕ, ◌+◌, ◌-◌, ◌*◌, ◌≡◌, ◌≤◌, ◌<◌, refl, Bool, true, false, ok, arith, length, ◌==◌, if◌then◌else◌,
  leb, Bool-cases, inl, inr,
}
use ods.Ondisk.Bitmap.{bitmap_test, bitmap_set, bitmap_clear}
use ods.Ondisk.Bitmap.Laws.{
  IsBitmap, bitmap_test-bitmap_set, bitmap_test-bitmap_clear, bitmap_set-IsBitmap,
  bitmap_clear-IsBitmap, length-bitmap_set, length-bitmap_clear,
}
use ods.Volume.Device.{Device, File}
use ods.Volume.IndexBitmap.{IndexBitmap, slot_range, mark_allocated, mark_free, find_free_slot}
use ods.Volume.IndexBitmap.Slots.{find_free_slot-IsFirstFree}

pub record IsWellFormed (ib : IndexBitmap) : Type 0 where
  pub bytes : IsBitmap ib.bits
  pub covers : ib.total_slots ≤ 8 * length ib.bits
  pub reserved : ib.reserved_slots ≤ ib.total_slots

-- `after` is `before` with the slot of one file number in the state `used`.
pub record SlotSet (before after : IndexBitmap) (file_number : ℕ) (used : Bool) : Type 0 where
  pub well_formed : IsWellFormed after
  pub slots : after.total_slots ≡ before.total_slots
  pub reserved : after.reserved_slots ≡ before.reserved_slots
  pub dirty : after.dirty ≡ true
  pub state :
      (s : ℕ)
      → bitmap_test after.bits s
        ≡ (if s + 1 == file_number then used else bitmap_test before.bits s)

slot_range-eq :
    (ib : IndexBitmap) (k : ℕ) → 0 < k → k ≤ ib.total_slots → slot_range ib k ≡ ok (k - 1)
unfolding slot_range
slot_range-eq ib k p q = ground arith

slot_range_bounds :
    (ib : IndexBitmap) (k slot : ℕ)
    → slot_range ib k ≡ ok slot
    → (0 < k) × (k ≤ ib.total_slots) × (slot ≡ k - 1)
unfolding slot_range
slot_range_bounds ib k slot h = ground arith

-- On a well-formed bitmap, MarkAllocated of a file number that has a slot puts that slot in use and
-- leaves every other as it was.
pub mark_allocated-SlotSet :
    (ib : IndexBitmap) (k : ℕ)
    → IsWellFormed ib
    → 0 < k
    → k ≤ ib.total_slots
    → (after : IndexBitmap) × (mark_allocated ib k ≡ ok after) × SlotSet ib after k true
unfolding mark_allocated
mark_allocated-SlotSet ib k w p q = (
  record ib { bits = bitmap_set ib.bits (k - 1); dirty = true },
  rw (slot_range-eq ib k p q) refl,
  record {
    well_formed = record {
      bytes = bitmap_set-IsBitmap ib.bits (k - 1) w.bytes;
      covers = rw length-bitmap_set w.covers;
      reserved = w.reserved;
    };
    slots = refl;
    reserved = refl;
    dirty = refl;
    state = λ s.
        ground (arith, bitmap_test-bitmap_set ib.bits (k - 1) s w.bytes (omega (arith, w.covers)));
  },
)

-- On a well-formed bitmap, MarkFree of a file number that has a slot frees that slot and leaves
-- every other as it was.
pub mark_free-SlotSet :
    (ib : IndexBitmap) (k : ℕ)
    → IsWellFormed ib
    → 0 < k
    → k ≤ ib.total_slots
    → (after : IndexBitmap) × (mark_free ib k ≡ ok after) × SlotSet ib after k false
unfolding mark_free
mark_free-SlotSet ib k w p q = (
  record ib { bits = bitmap_clear ib.bits (k - 1); dirty = true },
  rw (slot_range-eq ib k p q) refl,
  record {
    well_formed = record {
      bytes = bitmap_clear-IsBitmap ib.bits (k - 1) w.bytes;
      covers = rw length-bitmap_clear w.covers;
      reserved = w.reserved;
    };
    slots = refl;
    reserved = refl;
    dirty = refl;
    state = λ s.
        ground
          (arith, bitmap_test-bitmap_clear ib.bits (k - 1) s w.bytes (omega (arith, w.covers)));
  },
)

-- On a well-formed bitmap, the file number that FindFreeSlot returned can be marked allocated: its
-- slot is then in use and every other as it was, and the next search returns a larger number.
pub mark_allocated-find_free_slot :
    (dev : Device) (index : File) (ib : IndexBitmap) (k : ℕ)
    → IsWellFormed ib
    → find_free_slot dev index ib ≡ ok k
    → (after : IndexBitmap) × (mark_allocated ib k ≡ ok after)
      × SlotSet ib after k true
      × ((m : ℕ) → find_free_slot dev index after ≡ ok m → k < m)
mark_allocated-find_free_slot dev index ib k w h =
    let is = find_free_slot-IsFirstFree dev index ib k w.reserved h in
    let (after, made, set) = mark_allocated-SlotSet ib k w (omega (arith, is.above)) is.below in
    (
      after,
      made,
      set,
      λ m g.
          let next = find_free_slot-IsFirstFree dev index after m set.well_formed.reserved g in
          let low : ib.reserved_slots < m = rw set.reserved at next.above in
          elim (Bool-cases (leb m k)) [
            | inl t ↦ absurd (ground (arith, next.clear, set.state (m - 1), is.first (m - 1)))
            | inr t ↦ ground arith
          ],
    )
