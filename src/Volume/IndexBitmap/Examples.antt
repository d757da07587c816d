-- ===== src/Volume/IndexBitmap/Examples.antt =====
-- The theorems on header slots at the small volume, whose first three slots are in use.
use ods.Base.{
  ℕ, ◌≡◌, ◌≤◌, ◌<◌, ◌+◌, refl, [], ◌∷◌, ok, arith, true, false, Bool-cases, ◌==◌, inl, inr,
}
use ods.Ondisk.Bitmap.{bitmap_test}
use ods.Ondisk.Fid.{number}
use ods.Ondisk.FileHeader.{header_fields, decode_file_header}
use ods.Ondisk.HomeBlock.{home_fields}
use ods.Volume.Extents.{read_extents, resolve_extent_lbn, resolve_from}
use ods.Volume.File.{file_header_vbn, read_block, is_unwritten}
use ods.Volume.IndexBitmap.{IndexBitmap, check_slot, find_slot, find_free_slot, mark_allocated}
use ods.Volume.IndexBitmap.Slots.{LooksUnused, IsFirstFree, find_free_slot-IsFirstFree}
use ods.Volume.IndexBitmap.Marking.{IsWellFormed, SlotSet, mark_allocated-find_free_slot}
use ods.Volume.TestVolume.{mounted, index_file}

abbrev six_slots : IndexBitmap
six_slots = record { total_slots = 6; reserved_slots = 2; bits = 7 ∷ []; dirty = false }

six_slots-IsWellFormed : IsWellFormed six_slots
six_slots-IsWellFormed = record {
  bytes = omega arith;
  covers = omega arith;
  reserved = omega arith;
}

fourth_free : find_free_slot mounted index_file six_slots ≡ ok 4
unfolding find_free_slot find_slot check_slot bitmap_test read_block is_unwritten file_header_vbn
    read_extents resolve_extent_lbn resolve_from home_fields decode_file_header header_fields number
fourth_free = refl

find_free_slot-IsFirstFree_example : IsFirstFree mounted index_file six_slots 2 4
find_free_slot-IsFirstFree_example =
    find_free_slot-IsFirstFree mounted index_file six_slots 4 (omega arith) fourth_free

third_clear : bitmap_test six_slots.bits 3 ≡ false
unfolding bitmap_test
third_clear = refl

second_set : bitmap_test six_slots.bits 2 ≡ true
unfolding bitmap_test
second_set = refl

clear-LooksUnused :
    (t : ℕ)
    → 2 ≤ t
    → t ≤ 3
    → bitmap_test six_slots.bits t ≡ false
    → LooksUnused mounted index_file (t + 1)
clear-LooksUnused t p q c = elim (Bool-cases (t == 3)) [
  | inl e ↦
      let here : 4 ≡ t + 1 = ground arith in
      rw here at
        (find_free_slot-IsFirstFree mounted index_file six_slots 4 (omega arith) fourth_free).unused
  | inr e ↦ let two : t ≡ 2 = ground arith in absurd (cc (second_set, rw two at c))
]

mark_allocated-find_free_slot_example :
    (after : IndexBitmap) × (mark_allocated six_slots 4 ≡ ok after)
    × SlotSet six_slots after 4 true
    × ((m : ℕ) → find_free_slot mounted index_file after ≡ ok m → 4 < m)
mark_allocated-find_free_slot_example =
    mark_allocated-find_free_slot mounted index_file six_slots 4 six_slots-IsWellFormed fourth_free
