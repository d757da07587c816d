-- ===== src/Ondisk/Block.antt =====
-- ondisk/checksum.go and ondisk/endian.go: the block checksum and the swapped longword.
pub mod Sum
use ods.Base.{
  ℕ, zero, suc, ◌+◌, ◌*◌, bit_or, List, Result, ok, err, bad_length, length, ◌==◌, if◌then◌else◌,
}
use ods.Base.Word.{u16, u32, u16_at, put_u16, ◌<<<◌, ◌>>>◌}

abbrev pub block_size : ℕ
block_size = 512

-- The rounds of the loop, with `n` words left to add from word `i` on.
unfoldable pub sum_words : ℕ → List ℕ → ℕ → ℕ → ℕ
sum_words zero block i sum = sum
sum_words (suc n) block i sum = sum_words n block (i + 1) (u32 (sum + u16_at block (i * 2)))

unfoldable pub checksum : List ℕ → Result ℕ
unfolding sum_words
checksum block =
    if length block == block_size then ok (u16 (sum_words 255 block 0 0)) else err bad_length

unfoldable pub decode_swapped_longword : List ℕ → ℕ → ℕ
decode_swapped_longword b i = bit_or (u32 (u16_at b i <<< 16)) (u16_at b (i + 2))

unfoldable pub encode_swapped_longword : List ℕ → ℕ → ℕ → List ℕ
encode_swapped_longword b i val = put_u16 (put_u16 b i (u16 (val >>> 16))) (i + 2) (u16 val)
