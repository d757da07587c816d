-- ===== src/Volume/WriteFile/Blocks.antt =====
-- volume/writefile.go: an allocated file of a volume as a file of blocks.
use ods.Base.{
  ℕ, ◌+◌, ◌-◌, ◌^◌, ◌<◌, max, ◌≡◌, refl, ap, sym, ◌∙◌, ◌&&◌, List, Result, arith, ltb, ◌==◌,
  if◌then◌else◌,
}
use ods.Base.Word.{u32}
use ods.Ondisk.FileHeader.{FileHeader}
use ods.Volume.Device.{Container}
use ods.Volume.File.{read_block}
use ods.Rms.BlockFile.{IsBlockFile, end_of_file_at}
use ods.Volume.WriteFile.{OpenFile, with_header, set_end_of_file, volume_file}
pub use ods.Volume.WriteFile.Marks.{IsContainerWrite}
pub use ods.Volume.WriteFile.Ready.{IsReady}
use ods.Volume.WriteFile.Ready.{IsRewritable-changed}
use ods.Volume.Headers.Fields.{RecAttrInRange-end}
use ods.Volume.WriteFile.Marks.{raise_mark-max, read_block-read_extents}
use ods.Volume.WriteFile.Written.{write_block-IsWrite}
use ods.Volume.WriteFile.Closed.{close_with_final_byte-IsClose}

module _ (write_container : Container → ℕ → List ℕ → Result Container)
    (extend : ℕ → OpenFile → Result OpenFile) (capacity : ℕ)
    (container : IsContainerWrite write_container) (small : capacity + 1 < 2 ^ 32) where
  set_end_of_file-fields :
      (block byte : ℕ) (s : OpenFile)
      → (n : ℕ) × (n < 2 ^ 32)
        × (set_end_of_file block byte s
            ≡ with_header
                (record s.file.header {
                  record_attributes = end_of_file_at block byte s.file.header.record_attributes;
                  high_water_mark = max s.file.header.high_water_mark n;
                })
                s)
  unfolding set_end_of_file
  set_end_of_file-fields block byte s =
      let n : ℕ = u32 ((if byte == 0 && ltb 0 block then block - 1 else block) + 1) in
      (
        n,
        omega arith,
        ap (λ (t : FileHeader). with_header t s)
            (raise_mark-max n (record s.file.header {
              record_attributes = end_of_file_at block byte s.file.header.record_attributes;
            })),
      )

  pub volume_file-IsBlockFile :
      IsBlockFile (volume_file write_container extend) (IsReady capacity) capacity
  unfolding volume_file
  volume_file-IsBlockFile = record {
    writes = λ vbn block s ready p q size.
        write_block-IsWrite write_container extend capacity container small vbn block s ready p q
          size;
    closes = λ final_byte s ready short.
        close_with_final_byte-IsClose write_container extend capacity container final_byte s ready
          short;
    sets_end = λ block byte s ready long short.
        let (n, bound, e) = set_end_of_file-fields block byte s in
        let after : OpenFile =
          with_header
            (record s.file.header {
              record_attributes = end_of_file_at block byte s.file.header.record_attributes;
              high_water_mark = max s.file.header.high_water_mark n;
            })
            s in
        (
          ap (λ (t : OpenFile). t.file.header.record_attributes) e,
          (λ v written.
              ap (λ (t : OpenFile). read_block t.device t.file v) e
              ∙ read_block-read_extents after.device after.file v
                  (omega (arith, written, ready.marked))
              ∙ sym (
                  read_block-read_extents s.device s.file v
                    (omega (arith, written, ready.marked)))),
          ap (λ (t : OpenFile). t.max_written) e,
          rw e (record {
            armed = ready.armed;
            writable = ready.writable;
            allocated = ready.allocated;
            placed = ready.placed;
            apart = ready.apart;
            marked = omega (arith, ready.marked);
            counted = ready.counted;
            header =
                IsRewritable-changed s.device s.file s.device.container
                  (end_of_file_at block byte s.file.header.record_attributes)
                  (max s.file.header.high_water_mark n) ready.header refl
                  (RecAttrInRange-end s.file.header.record_attributes block byte long short
                    ready.header.in_range.record_attributes)
                  (let m = ready.header.in_range.high_water_mark in omega (arith, bound));
          }),
        );
  }
