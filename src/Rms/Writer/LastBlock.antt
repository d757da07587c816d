-- ===== src/Rms/Writer/LastBlock.antt =====
-- rms/writer.go, finalBlock: the block written at last, and the attributes that a close records.
use ods.Base.{
  ℕ, zero, suc, ◌+◌, ◌-◌, ◌*◌, ◌^◌, ◌≤◌, ◌<◌, ◌≡◌, inl, inr, refl, ap, ◌∙◌, List, [], ◌∷◌, ◌++◌,
  arith, length, slice, replicate, ltb, leb, ◌==◌, Bool-cases, false, length-replicate, if_not,
  if_so, set, length-set,
}
use ods.Base.Word.{u32}
use ods.Ondisk.RecAttr.{RecAttr}
use ods.Rms.BlockFile.{BlockFile, closed_attributes}
use ods.Rms.BlockStream.Bytes.{IsFile}
use ods.Rms.Length.{file_byte_length}
use ods.Rms.Writer.{Writer, is_variable, final_block}

set_behind :
    (xs ys : List ℕ) (i v : ℕ) → length xs ≤ i → set (xs ++ ys) i v ≡ xs ++ set ys (i - length xs) v
set_behind [] ys i v h = ap (λ (k : ℕ). set ys k v) (omega arith)
set_behind (x ∷ xs) ys zero v h = absurd (omega arith)
set_behind (x ∷ xs) ys (suc i) v h =
    let e : i - length xs ≡ suc i - suc (length xs) = omega arith in
    ap (λ (t : List ℕ). x ∷ t) (set_behind xs ys i v (omega arith))
    ∙ ap (λ (k : ℕ). x ∷ (xs ++ set ys k v)) e

-- The last block is a whole one that begins with what is buffered.
pub final_block_split :
    (w : Writer)
    → length w.buf < 512
    → (rest : List ℕ) × (final_block w ≡ w.buf ++ rest) × (length rest ≡ 512 - length w.buf)
unfolding final_block
final_block_split w h =
    let n : ℕ = length w.buf in
    let zeros : List ℕ = replicate (512 - n) 0 in
    let size : length zeros ≡ 512 - n = length-replicate {A = ℕ} (512 - n) 0 in
    elim (Bool-cases (is_variable w.format)) [
      | inr v ↦ (zeros, rw v refl, size)
      | inl v ↦ elim (Bool-cases (leb n 510)) [
        | inr l ↦ (zeros, rw (v, l) refl, size)
        | inl l ↦ (
          set (set zeros (n - n) 255) (n + 1 - n) 255,
          rw (v, l)
              (ap (λ (b : List ℕ). set b (n + 1) 255) (set_behind w.buf zeros n 255 (omega arith))
                ∙ set_behind w.buf (set zeros (n - n) 255) (n + 1) 255 (omega arith)),
          length-set (set zeros (n - n) 255) (n + 1 - n) 255 ∙ length-set zeros (n - n) 255 ∙ size,
        )
      ]
    ]

-- The file that Close leaves has the writer's bytes, and its length is theirs.
pub record IsLeft {S : Type 0} (f : BlockFile S) (before after : S) (content : List ℕ)
    : Type 0 where
  pub whole_blocks : List ℕ
  pub reads : IsFile (f.read_block after) (length content) whole_blocks
  pub begins : slice whole_blocks 0 (length content) ≡ content
  pub long : file_byte_length (f.attributes after) ≡ length content
  pub same_kind :
      (eof : ℕ) × (byte : ℕ) × (f.attributes after
        ≡ record (f.attributes before) { end_of_file_block = eof; first_free_byte = byte })

pub closed_kind :
    (max_written final_byte : ℕ) (attr : RecAttr)
    → (eof : ℕ) × (byte : ℕ) × (closed_attributes max_written final_byte attr
        ≡ record attr { end_of_file_block = eof; first_free_byte = byte })
unfolding closed_attributes
closed_kind max_written final_byte attr = elim (Bool-cases (max_written == 0)) [
  | inl z ↦ (0, 0, if_so _ _ z)
  | inr z ↦ elim (Bool-cases (final_byte == 0)) [
    | inl y ↦ (u32 (max_written + 1), 0, if_not _ _ z ∙ if_so _ _ y)
    | inr y ↦ (max_written, final_byte, if_not _ _ z ∙ if_not _ _ y)
  ]
]

-- The length that the closed file's attributes give.
pub closed_full :
    (max_written : ℕ) (attr : RecAttr)
    → max_written + 1 < 2 ^ 32
    → file_byte_length (closed_attributes max_written 0 attr) ≡ max_written * 512
unfolding closed_attributes file_byte_length
closed_full max_written attr h = elim (Bool-cases (max_written == 0)) [
  | inl z ↦ rw z (ground (arith, z))
  | inr z ↦ let e : (u32 (max_written + 1) == 0) ≡ false = ground arith in rw (z, e) (omega arith)
]

pub closed_part :
    (max_written final_byte : ℕ) (attr : RecAttr)
    → 0 < max_written
    → 0 < final_byte
    → file_byte_length (closed_attributes max_written final_byte attr)
      ≡ (max_written - 1) * 512 + final_byte
unfolding closed_attributes file_byte_length
closed_part max_written final_byte attr h p =
    let e : (max_written == 0) ≡ false = ground arith in
    let e' : (final_byte == 0) ≡ false = ground arith in rw (e, e', e) refl

-- The last block is the only one behind those that were full.
pub the_last :
    (v vbn n : ℕ)
    → 0 < vbn
    → ltb (v + 1) vbn ≡ false
    → v * 512 < (vbn - 1) * 512 + n
    → n < 512
    → v + 1 ≡ vbn
the_last v vbn n p e h short =
    let after : vbn ≤ v + 1 = ground (arith, e) in omega (arith, after, h, short)
