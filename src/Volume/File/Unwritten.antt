-- ===== src/Volume/File/Unwritten.antt =====
-- volume/file.go: a file's blocks behind its high-water mark.
use ods.Base.{ℕ, ◌≡◌, ◌<◌, refl, ◌&&◌, ltb, leb, arith, Bool-cases, inl, inr}
use ods.Volume.Device.{Device, File}
use ods.Volume.Extents.{read_extents}
use ods.Volume.File.{is_unwritten, read_block}

-- For a file whose header records a high-water mark, what ReadBlock gives depends on no block at or
-- behind the mark: on two devices that agree on the blocks before it, every block reads the same.
pub read_block_hides :
    (dev other : Device) (f : File) (vbn : ℕ)
    → 39 < f.header.ident_offset
    → ((v : ℕ)
        → v < f.header.high_water_mark
        → read_extents dev f.extents v ≡ read_extents other f.extents v)
    → read_block dev f vbn ≡ read_block other f vbn
unfolding read_block is_unwritten
read_block_hides dev other f vbn marked agree =
    elim (Bool-cases (ltb 39 f.header.ident_offset && leb f.header.high_water_mark vbn)) [
      | inl t ↦ rw t refl
      | inr t ↦ rw t (agree vbn (ground (arith, t)))
    ]
