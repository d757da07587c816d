-- ===== src/Volume/WriteFile/Closed.antt =====
-- volume/writefile.go: an allocated file closed, and its header rewritten.
use ods.Base.{
  ℕ, ◌+◌, ◌^◌, ◌<◌, max, ◌≡◌, inl, inr, refl, ap, sym, ◌∙◌, false, not, List, Result, ok, arith,
  leb, ◌==◌, if_so, if_not, Bool-cases,
}
use ods.Base.Word.{u32}
use ods.Ondisk.FileHeader.{FileHeader}
use ods.Volume.Device.{Container}
use ods.Rms.BlockFile.{IsClose, closed_attributes}
use ods.Volume.WriteFile.{
  OpenFile, with_header, with_container, closed_header, close_with_final_byte, volume_file,
  after_close,
}
use ods.Volume.WriteFile.Marks.{IsContainerWrite}
use ods.Volume.WriteFile.Ready.{IsReady}
use ods.Volume.WriteFile.Ready.{rewrite_header_lem}
use ods.Volume.Headers.Fields.{RecAttrInRange-end}
use ods.Ondisk.RecAttr.{RecAttr, RecAttrInRange}
use ods.Volume.WriteFile.Marks.{raise_mark-max, read_block-read_extents, read_extents-other}

RecAttrInRange-closed :
    (max_written final_byte : ℕ) (a : RecAttr)
    → max_written + 1 < 2 ^ 32
    → final_byte < 512
    → RecAttrInRange a
    → RecAttrInRange (closed_attributes max_written final_byte a)
unfolding closed_attributes
RecAttrInRange-closed max_written final_byte a h s r = elim (Bool-cases (max_written == 0)) [
  | inl t ↦ rw t (RecAttrInRange-end a 0 0 (omega arith) (omega arith) r)
  | inr t ↦ elim (Bool-cases (final_byte == 0)) [
    | inl u ↦
        rw (t, u) (RecAttrInRange-end a (u32 (max_written + 1)) 0 (omega arith) (omega arith) r)
    | inr u ↦ rw (t, u) (RecAttrInRange-end a max_written final_byte (omega (arith, h)) s r)
  ]
]

module _ (write_container : Container → ℕ → List ℕ → Result Container)
    (extend : ℕ → OpenFile → Result OpenFile) (capacity : ℕ)
    (container : IsContainerWrite write_container) where
  -- The header that a close records keeps the mark behind what has been written.
  closed_header-fields :
      (max_written final_byte : ℕ) (h : FileHeader)
      → max_written < h.high_water_mark
      → max_written + 1 < 2 ^ 32
      → closed_header max_written final_byte h ≡ record h {
        record_attributes = closed_attributes max_written final_byte h.record_attributes;
      }
  unfolding closed_header
  closed_header-fields max_written final_byte h marked fits = elim (Bool-cases (max_written == 0)) [
    | inl e ↦ if_so _ _ e
    | inr e ↦
        let number : u32 (max_written + 1) ≡ max_written + 1 = omega arith in
        let top : max h.high_water_mark (max_written + 1) ≡ h.high_water_mark =
          omega (arith, marked) in
        if_not _ _ e
        ∙ raise_mark-max (u32 (max_written + 1)) (record h {
          record_attributes = closed_attributes max_written final_byte h.record_attributes;
        })
        ∙ rw (number, top) refl
  ]

  pub close_with_final_byte-IsClose :
      (final_byte : ℕ) (s : OpenFile)
      → IsReady capacity s
      → final_byte < 512
      → (s' : OpenFile) × (close_with_final_byte write_container extend final_byte s ≡ ok s')
        × IsClose (volume_file write_container extend) final_byte s s'
  unfolding volume_file close_with_final_byte
  close_with_final_byte-IsClose final_byte s ready short =
      let fields =
        closed_header-fields s.max_written final_byte s.file.header ready.marked ready.counted in
      let a : RecAttr =
        closed_attributes s.max_written final_byte s.file.header.record_attributes in
      let (c, d, block, rewrote, stored, same) =
        rewrite_header_lem write_container extend s a s.file.header.high_water_mark container
          ready.header
          (RecAttrInRange-closed s.max_written final_byte s.file.header.record_attributes
            ready.counted short ready.header.in_range.record_attributes)
          ready.header.in_range.high_water_mark in
      let after : OpenFile = after_close (with_header d (with_container c s)) in
      let armed : not s.armed ≡ false = ap not ready.armed in
      let inside : leb 512 final_byte ≡ false = ground arith in
      let mark : d.high_water_mark ≡ s.file.header.high_water_mark =
        ap (λ (t : FileHeader). t.high_water_mark) stored.same in
      (
        after,
        if_not _ _ armed ∙ if_not _ _ inside ∙ if_so _ _ ready.writable ∙ rw (fields, rewrote) refl,
        record {
          records_end = ap (λ (t : FileHeader). t.record_attributes) stored.same;
          keeps_blocks = λ v written.
              read_block-read_extents after.device after.file v
                (omega (arith, written, ready.marked, mark))
              ∙ read_extents-other s.device after.device s.file.extents v (same v)
              ∙ sym (
                  read_block-read_extents s.device s.file v (omega (arith, written, ready.marked)));
        },
      )
