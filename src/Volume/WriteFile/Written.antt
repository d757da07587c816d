-- ===== src/Volume/WriteFile/Written.antt =====
-- volume/writefile.go: a block written to an allocated file.
use ods.Base.{
  ℕ, ◌+◌, ◌^◌, ◌≤◌, ◌<◌, max, ◌≡◌, refl, ap, sym, ◌∙◌, false, not, List, Result, ok, arith, length,
  ltb, ◌==◌, if_so, if_not,
}
use ods.Volume.Device.{Container}
use ods.Volume.Extents.{resolve_extent_lbn}
use ods.Rms.BlockFile.{IsWrite}
use ods.Volume.WriteFile.{OpenFile, write_block, volume_file}
use ods.Volume.WriteFile.Marks.{IsContainerWrite}
use ods.Volume.WriteFile.Ready.{IsReady}
use ods.Volume.WriteFile.Ready.{IsRewritable-changed}
use ods.Volume.WriteFile.Marks.{
  noted, note_written-noted, read_block-read_extents, read_here, read_extents-other,
}

module _ (write_container : Container → ℕ → List ℕ → Result Container)
    (extend : ℕ → OpenFile → Result OpenFile) (capacity : ℕ)
    (container : IsContainerWrite write_container) (small : capacity + 1 < 2 ^ 32) where
  write_block-noted :
      (vbn : ℕ) (block : List ℕ) (s : OpenFile) (l : ℕ) (c : Container)
      → IsReady capacity s
      → 0 < vbn
      → vbn ≤ capacity
      → length block ≡ 512
      → resolve_extent_lbn s.file.extents vbn ≡ ok l
      → write_container s.device.container l block ≡ ok c
      → write_block write_container extend vbn block s ≡ ok (noted vbn c s)
  unfolding write_block
  write_block-noted vbn block s l c ready p q size at_ wrote =
      let armed : not s.armed ≡ false = ap not ready.armed in
      let sized : not (length block == 512) ≡ false = ground (arith, size) in
      let positive : (vbn == 0) ≡ false = ground arith in
      let there : ltb s.file.header.record_attributes.highest_block vbn ≡ false =
        no_extension ready.allocated q in
      if_not _ _ armed
      ∙ if_not _ _ sized
      ∙ if_not _ _ positive
      ∙ rw there (
          if_so _ _ ready.writable
          ∙ rw (at_, wrote)
              (ap (λ (t : OpenFile). ok t) (note_written-noted vbn c s (omega arith))))
    where
      no_extension : {a b n : ℕ} → a ≤ b → n ≤ a → ltb b n ≡ false
      no_extension h k = ground arith

  noted-IsReady :
      (vbn : ℕ) (s : OpenFile) (c : Container)
      → IsReady capacity s
      → vbn + 1 < 2 ^ 32
      → c.blocks ≡ s.device.container.blocks
      → IsReady capacity (noted vbn c s)
  noted-IsReady vbn s c ready fits same = record {
    armed = ready.armed;
    writable = ready.writable;
    allocated = ready.allocated;
    placed =
        λ v p q. let (l, at_, inside) = ready.placed v p q in (l, at_, omega (arith, inside, same));
    apart = ready.apart;
    marked = omega (arith, ready.marked);
    counted = omega (arith, ready.counted, fits);
    header =
        IsRewritable-changed s.device s.file c s.file.header.record_attributes
          (max s.file.header.high_water_mark (vbn + 1)) ready.header same
          ready.header.in_range.record_attributes
          (let m = ready.header.in_range.high_water_mark in omega arith);
  }

  pub write_block-IsWrite :
      (vbn : ℕ) (block : List ℕ) (s : OpenFile)
      → IsReady capacity s
      → 0 < vbn
      → vbn ≤ capacity
      → length block ≡ 512
      → (s' : OpenFile) × (write_block write_container extend vbn block s ≡ ok s')
        × IsWrite (volume_file write_container extend) (IsReady capacity) vbn block s s'
  unfolding volume_file
  write_block-IsWrite vbn block s ready p q size =
      let (l, at_, inside) = ready.placed vbn p q in
      let (c, wrote, same_size, reads, others) =
        container.writes s.device.container l block inside size in
      (
        noted vbn c s,
        write_block-noted vbn block s l c ready p q size at_ wrote,
        record {
          stays_ready = noted-IsReady vbn s c ready (omega arith) same_size;
          reads_block =
              read_block-read_extents (noted vbn c s).device (noted vbn c s).file vbn (omega arith)
              ∙ read_here (noted vbn c s).device s.file.extents vbn l at_
              ∙ reads;
          keeps_blocks = λ v before written.
              read_block-read_extents (noted vbn c s).device (noted vbn c s).file v
                (omega (arith, written, ready.marked))
              ∙ read_extents-other s.device (noted vbn c s).device s.file.extents v (λ n e.
                others n (λ same.
                  absurd (
                    omega
                      (arith, before, ready.apart v vbn l (e ∙ ap (λ (k : ℕ). ok k) same) at_))))
              ∙ sym (
                  read_block-read_extents s.device s.file v (omega (arith, written, ready.marked)));
          raises_max = refl;
          keeps_attributes = refl;
        },
      )
