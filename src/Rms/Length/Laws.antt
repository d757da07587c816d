-- ===== src/Rms/Length/Laws.antt =====
-- rms/reader.go: lengths and record offsets against the blocks of a file.
use ods.Base.{
  ℕ, ◌+◌, ◌-◌, ◌*◌, ◌/◌, ◌%◌, ◌≡◌, ◌≤◌, ◌<◌, Bool, true, ◌&&◌, not, bit_and, leb, ◌==◌, arith,
  Bool-cases, inl, inr, leb→le,
}
use ods.Ondisk.RecAttr.{RecAttr, attr_no_span}
use ods.Volume.Device.{File}
use ods.Volume.File.{used_blocks}
use ods.Rms.Length.{file_byte_length, fixed_record_space, fixed_record_offset}
use native.Mathlib.Nat.{
  mul-div-le, div-add-mod, mod-lt, mul-le-mul_left, mul-le-mul_right, le-div_iff_mul-le,
}

-- For a file whose first free byte is inside a block, UsedBlocks is the number of blocks that the
-- FileByteLength bytes of its data take up, the last one rounded up.
pub used_blocks-file_byte_length :
    (f : File)
    → f.header.record_attributes.first_free_byte < 512
    → used_blocks f ≡ (file_byte_length f.header.record_attributes + 511) / 512
unfolding used_blocks file_byte_length
used_blocks-file_byte_length f h = ground arith

one_row : (space : ℕ) → 0 < space → space ≤ 512 → 0 < 512 / space
one_row space p h = (le-div_iff_mul-le {k = space} {x = 1} {y = 512} p).1 (omega arith)

-- Records do not cross blocks: the test of the attribute.
abbrev pub NoSpan : RecAttr → Type 0
NoSpan attr = not (bit_and attr.attributes attr_no_span == 0) ≡ true

-- The place of index `i` among rows of `per`.
rows : (i per : ℕ) → 0 < per → (i ≡ per * (i / per) + i % per) × (i % per < per)
rows i per p = (omega (arith, div-add-mod i per), mod-lt i p)

-- A row and the records before it in the block leave space for its record.
row_fits : (per space r : ℕ) → space * per ≤ 512 → r < per → r * space + space ≤ 512
row_fits per space r h p = omega (arith, mul-le-mul_right {m = r + 1} {n = per} space (omega arith))

next_row :
    (i per space : ℕ)
    → 0 < per
    → space * per ≤ 512
    → i / per * 512 + i % per * space + space ≤ (i + 1) / per * 512 + (i + 1) % per * space
next_row i per space p h =
    let here = rows i per p in
    let after = rows (i + 1) per p in
    let fits = row_fits per space (i % per) h here.1 in
    elim (Bool-cases ((i + 1) / per == i / per)) [
      | inl t ↦
          let same : (i + 1) / per ≡ i / per = ground arith in
          let row : (i + 1) % per ≡ i % per + 1 = omega (arith, here.0, rw same at after.0) in
          rw (same, row) (omega arith)
      | inr t ↦ elim (Bool-cases (leb (i / per + 1) ((i + 1) / per))) [
        | inl u ↦ omega (arith, leb→le (i / per + 1) ((i + 1) / per) u)
        | inr u ↦
            let low : (i + 1) / per + 1 ≤ i / per = ground arith in
            absurd (omega (arith, here.0, after.0, after.1, mul-le-mul_left per low))
      ]
    ]

-- The record after each, numbered from 1, starts behind it, whether or not records cross blocks.
pub fixed_record_offset_next :
    (attr : RecAttr) (number : ℕ)
    → 0 < attr.max_record_size
    → 0 < number
    → fixed_record_offset attr number + fixed_record_space attr.max_record_size
      ≤ fixed_record_offset attr (number + 1)
unfolding fixed_record_offset
fixed_record_offset_next attr number p n =
    let space : ℕ = fixed_record_space attr.max_record_size in
    let per : ℕ = 512 / space in
    let some_space : 0 < space = unfold fixed_record_space in omega arith in
    let index : number + 1 - 1 ≡ number - 1 + 1 = omega arith in
    let whole : space * per ≤ 512 = mul-div-le 512 space in
    let blocked : Bool = not (bit_and attr.attributes attr_no_span == 0) && leb space 512 in
    elim (Bool-cases blocked) [
      | inl t ↦
          let fit : space ≤ 512 = ground (arith, t) in
          rw (t, index) (next_row (number - 1) per space (one_row space some_space fit) whole)
      | inr t ↦ rw (t, index) (omega arith)
    ]
