-- ===== src/Volume/WriteFile/Marks.antt =====
-- volume/writefile.go: the high-water mark of a file open for write, and the places of its blocks.
use ods.Base.{
  ℕ, ◌+◌, ◌^◌, ◌<◌, max, ◌≡◌, ◌≢◌, inl, inr, refl, ap, ◌∙◌, false, List, Result, ok, Result-cases,
  arith, length, ltb, leb, if◌then◌else◌, if_so, if_not, Bool-cases,
}
use ods.Base.Word.{u32}
use ods.Ondisk.FileHeader.{FileHeader}
use ods.Volume.Device.{Container, Device, File, ExtentLocation}
use ods.Volume.Extents.{resolve_extent_lbn, read_extents}
use ods.Volume.File.{read_block, is_unwritten}
use ods.Volume.WriteFile.{OpenFile, raise_mark, with_header, with_container, note_written}

-- What a container's WriteBlock promises.
pub record IsContainerWrite (write_container : Container → ℕ → List ℕ → Result Container)
    : Type 0 where
  pub writes :
      (c : Container) (l : ℕ) (block : List ℕ)
      → l < c.blocks
      → length block ≡ 512
      → (c' : Container) × (write_container c l block ≡ ok c')
        × (c'.blocks ≡ c.blocks)
        × (c'.read_block l ≡ ok block)
        × ((n : ℕ) → n ≢ l → c'.read_block n ≡ c.read_block n)

pub raise_mark-max :
    (n : ℕ) (h : FileHeader)
    → raise_mark n h ≡ record h { high_water_mark = max h.high_water_mark n }
unfolding raise_mark
raise_mark-max n h = elim (Bool-cases (ltb h.high_water_mark n)) [
  | inl t ↦
      let e : n ≡ max h.high_water_mark n = ground (arith, t) in
      if_so _ _ t ∙ ap (λ (m : ℕ). record h { high_water_mark = m }) e
  | inr t ↦
      let e : h.high_water_mark ≡ max h.high_water_mark n = ground (arith, t) in
      if_not _ _ t ∙ ap (λ (m : ℕ). record h { high_water_mark = m }) e
]

-- The file with a block of its noted as written.
abbrev pub noted : ℕ → Container → OpenFile → OpenFile
noted vbn c s =
    record (with_header
      (record s.file.header { high_water_mark = max s.file.header.high_water_mark (vbn + 1) })
      (with_container c s)) { max_written = max s.max_written vbn }

pub note_written-noted :
    (vbn : ℕ) (c : Container) (s : OpenFile)
    → vbn + 1 < 2 ^ 32
    → note_written vbn (with_container c s) ≡ noted vbn c s
unfolding note_written
note_written-noted vbn c s h =
    let number : u32 (vbn + 1) ≡ vbn + 1 = omega arith in
    let top : (if ltb s.max_written vbn then vbn else s.max_written) ≡ max s.max_written vbn =
      ground arith in
    rw (number, raise_mark-max (vbn + 1) s.file.header, top) refl

-- A block before the high-water mark is read from its place.
pub read_block-read_extents :
    (dev : Device) (f : File) (v : ℕ)
    → v < f.header.high_water_mark
    → read_block dev f v ≡ read_extents dev f.extents v
unfolding read_block is_unwritten
read_block-read_extents dev f v h =
    let e : leb f.header.high_water_mark v ≡ false = ground arith in
    elim (Bool-cases (ltb 39 f.header.ident_offset)) [ inl t ↦ rw (t, e) refl | inr t ↦ rw t refl ]

pub read_here :
    (dev : Device) (extents : List ExtentLocation) (v l : ℕ)
    → resolve_extent_lbn extents v ≡ ok l
    → read_extents dev extents v ≡ dev.container.read_block l
unfolding read_extents
read_here dev extents v l e = rw e refl

-- Places that a change leaves alone read as before.
pub read_extents-other :
    (dev dev' : Device) (extents : List ExtentLocation) (v : ℕ)
    → ((l : ℕ)
        → resolve_extent_lbn extents v ≡ ok l
        → dev'.container.read_block l ≡ dev.container.read_block l)
    → read_extents dev' extents v ≡ read_extents dev extents v
unfolding read_extents
read_extents-other dev dev' extents v h = elim (Result-cases (resolve_extent_lbn extents v)) [
  | inl (l, e) ↦ rw e (h l e)
  | inr (x, e) ↦ rw e refl
]
