-- ===== src/Volume/IndexBitmap/Slots.antt =====
-- volume/indexbitmap.go: the search for a header slot.
use ods.Base.{
  ℕ, zero, suc, ◌+◌, ◌-◌, ◌≡◌, ◌≤◌, ◌<◌, List, true, false, ok, >>=-eq-ok, ltb, ◌==◌, arith,
  Bool-cases, inl, inr,
}
use ods.Ondisk.Bitmap.{bitmap_test}
use ods.Ondisk.Fid.{number}
use ods.Ondisk.FileHeader.{decode_file_header}
use ods.Volume.Device.{Device, File}
use ods.Volume.File.{file_header_vbn, read_block}
use ods.Volume.IndexBitmap.{
  IndexBitmap, check_slot, find_slot, find_free_slot, find_slot_within, find_free_slot_within,
}

-- The block in the header slot of a file number holds neither a checksum nor a file number.
pub record LooksUnused (dev : Device) (index : File) (file_number : ℕ) : Type 0 where
  pub block : List ℕ
  pub read : read_block dev index (file_header_vbn dev.home file_number) ≡ ok block
  pub no_checksum : (decode_file_header block).0.checksum ≡ 0
  pub no_number : number (decode_file_header block).0.fid ≡ 0

-- File number `k` has the first free slot from slot `from` on.
pub record IsFirstFree (dev : Device) (index : File) (ib : IndexBitmap) (from k : ℕ) : Type 0 where
  pub above : from < k
  pub below : k ≤ ib.total_slots
  pub clear : bitmap_test ib.bits (k - 1) ≡ false
  pub unused : LooksUnused dev index k
  pub first : (s : ℕ) → from ≤ s → s < k - 1 → bitmap_test ib.bits s ≡ true

check_slot-LooksUnused :
    (dev : Device) (index : File) (k out : ℕ)
    → check_slot dev index k ≡ ok out
    → LooksUnused dev index k × (out ≡ k)
unfolding check_slot
check_slot-LooksUnused dev index k out h =
    let (b, r, h') = >>=-eq-ok (read_block dev index (file_header_vbn dev.home k)) _ h in
    let facts : ((decode_file_header b).0.checksum ≡ 0)
        × (number (decode_file_header b).0.fid ≡ 0)
        × (out ≡ k) =
      ground arith in
    (record { block = b; read = r; no_checksum = facts.0; no_number = facts.1 }, facts.2)

LooksUnused-check_slot :
    (dev : Device) (index : File) (k : ℕ) → LooksUnused dev index k → check_slot dev index k ≡ ok k
unfolding check_slot
LooksUnused-check_slot dev index k u = rw u.read (ground (arith, u.no_checksum, u.no_number))

module _ (dev : Device) (index : File) (ib : IndexBitmap) where
  IsFirstFree-here :
      (from k : ℕ)
      → check_slot dev index (from + 1) ≡ ok k
      → bitmap_test ib.bits from ≡ false
      → from < ib.total_slots
      → IsFirstFree dev index ib from k
  IsFirstFree-here from k h c p =
      let (u, e) = check_slot-LooksUnused dev index (from + 1) k h in
      let pred : k - 1 ≡ from = omega (arith, e) in
      record {
        above = omega (arith, e);
        below = omega (arith, e);
        clear = rw pred c;
        unused = rw e u;
        first = λ s p q. absurd (omega arith);
      }

  IsFirstFree-later :
      (from k : ℕ)
      → bitmap_test ib.bits from ≡ true
      → IsFirstFree dev index ib (from + 1) k
      → IsFirstFree dev index ib from k
  IsFirstFree-later from k c h = record {
    above = omega (arith, h.above);
    below = h.below;
    clear = h.clear;
    unused = h.unused;
    first = λ s p q. elim (Bool-cases (s == from)) [
      | inl t ↦ let e : s ≡ from = ground arith in rw e c
      | inr t ↦ h.first s (ground arith) q
    ];
  }

  find_slot-IsFirstFree :
      (n from k : ℕ)
      → find_slot n dev index ib from ≡ ok k
      → from + n ≤ ib.total_slots
      → IsFirstFree dev index ib from k
  unfolding find_slot
  find_slot-IsFirstFree zero from k h p = cc
  find_slot-IsFirstFree (suc n) from k h p = elim (Bool-cases (bitmap_test ib.bits from)) [
    | inl t ↦
        IsFirstFree-later from k t (find_slot-IsFirstFree n (from + 1) k (rw t at h) (omega arith))
    | inr t ↦ IsFirstFree-here from k (rw t at h) t (omega arith)
  ]

  find_slot_within-IsFirstFree :
      (n last_vbn from k : ℕ)
      → find_slot_within n dev index ib last_vbn from ≡ ok k
      → from + n ≤ ib.total_slots
      → IsFirstFree dev index ib from k × (file_header_vbn dev.home k ≤ last_vbn)
  unfolding find_slot_within
  find_slot_within-IsFirstFree zero last_vbn from k h p = cc
  find_slot_within-IsFirstFree (suc n) last_vbn from k h p =
      elim (Bool-cases (ltb last_vbn (file_header_vbn dev.home (from + 1)))) [
        | inl b ↦ absurd (ground (arith, b))
        | inr b ↦ elim (Bool-cases (bitmap_test ib.bits from)) [
          | inl t ↦
              let (is, mapped) =
                find_slot_within-IsFirstFree n last_vbn (from + 1) k (rw (b, t) at h)
                  (omega arith) in
              (IsFirstFree-later from k t is, mapped)
          | inr t ↦
              let now : check_slot dev index (from + 1) ≡ ok k = rw (b, t) at h in
              let mapped : file_header_vbn dev.home (from + 1) ≤ last_vbn = ground arith in
              (
                IsFirstFree-here from k now t (omega arith),
                rw (check_slot-LooksUnused dev index (from + 1) k now).1 mapped,
              )
        ]
      ]

  find_slot_finds :
      (n from s : ℕ)
      → from ≤ s
      → s < from + n
      → bitmap_test ib.bits s ≡ false
      → ((t : ℕ) → from ≤ t → t ≤ s → bitmap_test ib.bits t ≡ false → LooksUnused dev index (t + 1))
      → (k : ℕ) × (find_slot n dev index ib from ≡ ok k) × (k ≤ s + 1)
  unfolding find_slot
  find_slot_finds zero from s p q c u = absurd (omega arith)
  find_slot_finds (suc n) from s p q c u = elim (Bool-cases (bitmap_test ib.bits from)) [
    | inl t ↦ elim (Bool-cases (s == from)) [
      | inl same ↦ let e : s ≡ from = ground arith in absurd (cc (rw e at c, t))
      | inr other ↦
          let more : from + 1 ≤ s = ground arith in
          let (k, run, low) =
            find_slot_finds n (from + 1) s more (omega arith) c (λ i a b. u i (omega arith) b) in
          (k, rw t run, low)
    ]
    | inr t ↦ (
      from + 1,
      rw t (LooksUnused-check_slot dev index (from + 1) (u from (omega arith) p t)),
      omega arith,
    )
  ]

-- The file number that FindFreeSlot returns is behind the reserved ones and no larger than the
-- volume's number of slots; the slot's bit is clear, the header in it looks unused, and every slot
-- before it that is not reserved is in use. The reserved slots are no more than all.
pub find_free_slot-IsFirstFree :
    (dev : Device) (index : File) (ib : IndexBitmap) (k : ℕ)
    → ib.reserved_slots ≤ ib.total_slots
    → find_free_slot dev index ib ≡ ok k
    → IsFirstFree dev index ib ib.reserved_slots k
unfolding find_free_slot
find_free_slot-IsFirstFree dev index ib k p h =
    find_slot-IsFirstFree dev index ib (ib.total_slots - ib.reserved_slots) ib.reserved_slots k h
      (omega arith)

-- FindFreeSlotWithin returns such a slot too, and its header's block is at most the limit given.
pub find_free_slot_within-IsFirstFree :
    (dev : Device) (index : File) (ib : IndexBitmap) (last_vbn k : ℕ)
    → ib.reserved_slots ≤ ib.total_slots
    → find_free_slot_within dev index ib last_vbn ≡ ok k
    → IsFirstFree dev index ib ib.reserved_slots k × (file_header_vbn dev.home k ≤ last_vbn)
unfolding find_free_slot_within
find_free_slot_within-IsFirstFree dev index ib last_vbn k p h =
    find_slot_within-IsFirstFree dev index ib (ib.total_slots - ib.reserved_slots) last_vbn
      ib.reserved_slots k h (omega arith)

-- Where a slot that is not reserved has a clear bit, and the slots with clear bits up to it look
-- unused, FindFreeSlot succeeds, with no later slot.
pub find_free_slot_finds :
    (dev : Device) (index : File) (ib : IndexBitmap) (s : ℕ)
    → ib.reserved_slots ≤ s
    → s < ib.total_slots
    → bitmap_test ib.bits s ≡ false
    → ((t : ℕ)
        → ib.reserved_slots ≤ t
        → t ≤ s
        → bitmap_test ib.bits t ≡ false
        → LooksUnused dev index (t + 1))
    → (k : ℕ) × (find_free_slot dev index ib ≡ ok k) × (k ≤ s + 1)
unfolding find_free_slot
find_free_slot_finds dev index ib s p q c u =
    find_slot_finds dev index ib (ib.total_slots - ib.reserved_slots) ib.reserved_slots s p
      (omega arith) c u
