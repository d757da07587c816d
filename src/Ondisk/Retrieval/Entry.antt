-- ===== src/Ondisk/Retrieval/Entry.antt =====
-- ondisk/retrieval.go: one entry of a map area, its bytes as plain arithmetic, and reading it back.
use ods.Base.{
  ℕ, ◌+◌, ◌-◌, ◌*◌, ◌/◌, ◌%◌, ◌≤◌, ◌<◌, ◌^◌, bit_and, bit_or, ◌≡◌, ap, List, [], ◌∷◌, ◌++◌, ok,
  arith, length, get_or, get_or-append, length-append,
}
use ods.Base.Word.{u16, u32, byte_at, ◌<<<◌, ◌>>>◌}
use ods.Ondisk.RecAttr.{join_words}
use ods.Base.Bits.{bit_and_low, bit_and_field, bit_or_field}
use ods.Ondisk.Retrieval.{
  Extent, read_word, read_entry, encode_extent, max_count_format3, encode_format1, encode_format2,
  encode_format3,
}

abbrev pub word_bytes : ℕ → List ℕ
word_bytes w = w % 256 ∷ w / 256 ∷ []

pub record ExtentInRange (e : Extent) : Type 0 where
  pub positive : 1 ≤ e.count
  pub small : e.count ≤ max_count_format3
  pub lbn : e.start_lbn < 2 ^ 32

-- Reading a word that starts `i` bytes behind a prefix.
pub read_word-append :
    (pre ys : List ℕ) (i p : ℕ)
    → p ≡ length pre + i
    → i + 2 ≤ length ys
    → read_word (pre ++ ys) p ≡ ok (byte_at ys i + 256 * byte_at ys (i + 1))
unfolding read_word
read_word-append pre ys i p e h =
    let e1 : length pre + i + 1 ≡ length pre + (i + 1) = omega arith in
    rw e (
      ground (
        arith,
        length-append pre ys,
        get_or-append pre ys i 0,
        ap (λ k. get_or (pre ++ ys) k 0) e1,
        get_or-append pre ys (i + 1) 0,
      ))

word0_format1 :
    (c l : ℕ)
    → 1 ≤ c
    → c ≤ 0x100
    → l ≤ 0x3FFFFF
    → bit_or (bit_or (u16 (1 <<< 14)) (u16 (u16 (bit_and (l >>> 16) 0x3F) <<< 8))) (u16 (c - 1))
      ≡ 2 ^ 14 + l / 2 ^ 16 * 2 ^ 8 + (c - 1)
word0_format1 c l p q r =
    let x : u16 (u16 (bit_and (l >>> 16) 0x3F) <<< 8) ≡ l / 2 ^ 16 * 2 ^ 8 =
      omega (arith, bit_and_low 6 (l / 2 ^ 16)) in
    let y : bit_or (u16 (1 <<< 14)) (l / 2 ^ 16 * 2 ^ 8) ≡ (2 ^ 6 + l / 2 ^ 16) * 2 ^ 8 =
      omega (arith, bit_or_field 14 1 (l / 2 ^ 16 * 2 ^ 8) (omega arith)) in
    let z : u16 (c - 1) ≡ c - 1 = omega arith in
    rw (x, y, z) (omega (arith, bit_or_field 8 (2 ^ 6 + l / 2 ^ 16) (c - 1) (omega arith)))

word0_format2 :
    (c : ℕ) → 1 ≤ c → c ≤ 0x4000 → bit_or (u16 (2 <<< 14)) (u16 (c - 1)) ≡ 2 * 2 ^ 14 + (c - 1)
word0_format2 c p q = omega (arith, bit_or_field 14 2 (u16 (c - 1)) (omega arith))

word0_format3 :
    (c : ℕ)
    → 1 ≤ c
    → c ≤ 0x40000000
    → bit_or (u16 (3 <<< 14)) (u16 (bit_and ((c - 1) >>> 16) 0x3FFF))
      ≡ 3 * 2 ^ 14 + (c - 1) / 2 ^ 16
word0_format3 c p q =
    let x : u16 (bit_and ((c - 1) >>> 16) 0x3FFF) ≡ (c - 1) / 2 ^ 16 =
      omega (arith, bit_and_low 14 ((c - 1) / 2 ^ 16)) in
    rw x (omega (arith, bit_or_field 14 3 ((c - 1) / 2 ^ 16) (omega arith)))

-- What reading back an entry means: the extent, and the place behind the entry's bytes.
abbrev pub ReadsBack : List ℕ → List ℕ → List ℕ → Extent → Type 0
ReadsBack pre enc post e =
    (w : ℕ) × (read_word (pre ++ (enc ++ post)) (length pre) ≡ ok w)
    × (read_entry (pre ++ (enc ++ post)) (length pre) w ≡ ok (e ∷ [], length pre + length enc))

format1_lbn :
    (c l : ℕ)
    → 1 ≤ c
    → c ≤ 0x100
    → l ≤ 0x3FFFFF
    → bit_or (u32 (bit_and (2 ^ 14 + l / 2 ^ 16 * 2 ^ 8 + (c - 1)) 0x3F00 <<< 8)) (l % 2 ^ 16) ≡ l
format1_lbn c l p q r =
    let w : ℕ = 2 ^ 14 + l / 2 ^ 16 * 2 ^ 8 + (c - 1) in
    let x : u32 (bit_and w 0x3F00 <<< 8) ≡ l / 2 ^ 16 * 2 ^ 16 =
      omega (arith, bit_and_field 6 8 w) in
    rw x (omega (arith, bit_or_field 16 (l / 2 ^ 16) (l % 2 ^ 16) (omega arith)))

format1_count :
    (c l : ℕ)
    → 1 ≤ c
    → c ≤ 0x100
    → l ≤ 0x3FFFFF
    → bit_and (2 ^ 14 + l / 2 ^ 16 * 2 ^ 8 + (c - 1)) 0x00FF + 1 ≡ c
format1_count c l p q r = omega (arith, bit_and_low 8 (2 ^ 14 + l / 2 ^ 16 * 2 ^ 8 + (c - 1)))

format1-ReadsBack :
    (pre post : List ℕ) (e : Extent)
    → 1 ≤ e.count
    → e.count ≤ 0x100
    → e.start_lbn ≤ 0x3FFFFF
    → ReadsBack pre (encode_format1 e) post e
unfolding encode_format1 read_entry
format1-ReadsBack pre post e p q r =
    let w : ℕ = 2 ^ 14 + e.start_lbn / 2 ^ 16 * 2 ^ 8 + (e.count - 1) in
    let ys : List ℕ = encode_format1 e ++ post in
    let at0 = read_word-append pre ys 0 (length pre) (omega arith) (omega arith) in
    let at2 = read_word-append pre ys 2 (length pre + 2) (omega arith) (omega arith) in
    (
      w,
      ground (arith, at0, word0_format1 e.count e.start_lbn),
      ground (arith, at2, format1_lbn e.count e.start_lbn, format1_count e.count e.start_lbn),
    )

format2-ReadsBack :
    (pre post : List ℕ) (e : Extent)
    → 1 ≤ e.count
    → e.count ≤ 0x4000
    → e.start_lbn < 2 ^ 32
    → ReadsBack pre (encode_format2 e) post e
unfolding encode_format2 read_entry
format2-ReadsBack pre post e p q r =
    let w : ℕ = 2 * 2 ^ 14 + (e.count - 1) in
    let ys : List ℕ = encode_format2 e ++ post in
    let at0 = read_word-append pre ys 0 (length pre) (omega arith) (omega arith) in
    let at2 = read_word-append pre ys 2 (length pre + 2) (omega arith) (omega arith) in
    let at4 = read_word-append pre ys 4 (length pre + 4) (omega arith) (omega arith) in
    (
      w,
      ground (arith, at0, word0_format2 e.count),
      ground (arith, at2, at4, join_words e.start_lbn, bit_and_low 14 w),
    )

format3-ReadsBack :
    (pre post : List ℕ) (e : Extent) → ExtentInRange e → ReadsBack pre (encode_format3 e) post e
unfolding encode_format3 read_entry
format3-ReadsBack pre post e h =
    let w : ℕ = 3 * 2 ^ 14 + (e.count - 1) / 2 ^ 16 in
    let ys : List ℕ = encode_format3 e ++ post in
    let at0 = read_word-append pre ys 0 (length pre) (omega arith) (omega arith) in
    let at2 = read_word-append pre ys 2 (length pre + 2) (omega arith) (omega arith) in
    let at4 = read_word-append pre ys 4 (length pre + 4) (omega arith) (omega arith) in
    let at6 = read_word-append pre ys 6 (length pre + 6) (omega arith) (omega arith) in
    (
      w,
      ground (arith, at0, word0_format3 e.count),
      ground (arith, at2, at4, at6, join_words e.start_lbn, bit_and_low 14 w),
    )

-- Whatever `encode_extent` writes for an extent, `read_entry` reads the same extent back.
pub encode_extent-ReadsBack :
    (pre post enc : List ℕ) (e : Extent)
    → ExtentInRange e
    → encode_extent e ≡ ok enc
    → ReadsBack pre enc post e
unfolding encode_extent
encode_extent-ReadsBack pre post enc e h k = ground (
  arith,
  format1-ReadsBack pre post e,
  format2-ReadsBack pre post e,
  format3-ReadsBack pre post e h,
)
