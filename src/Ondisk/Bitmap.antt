-- ===== src/Ondisk/Bitmap.antt =====
-- ondisk/bitmap.go: one bit for each cluster, packed from the lowest bit of each byte. An index out
-- of range panics in Go; here such a read gives 0 and such a write changes nothing, and the laws
-- ask for an index in range.
pub mod Laws
use ods.Base.{ℕ, ◌-◌, ◌/◌, ◌%◌, bit_and, bit_or, List, Bool, not, set, ◌==◌}
use ods.Base.Word.{byte_at, ◌<<<◌}

abbrev bit_of : ℕ → ℕ → Bool
bit_of b i = not (bit_and b (1 <<< i) == 0)

-- `b |= 1 << i` and `b &^= 1 << i` on a byte.
abbrev with_bit : ℕ → ℕ → ℕ
with_bit b i = bit_or b (1 <<< i)

abbrev without_bit : ℕ → ℕ → ℕ
without_bit b i = bit_and b (255 - 1 <<< i)

unfoldable pub bitmap_test : List ℕ → ℕ → Bool
bitmap_test bits cluster = bit_of (byte_at bits (cluster / 8)) (cluster % 8)

unfoldable pub bitmap_set : List ℕ → ℕ → List ℕ
bitmap_set bits cluster =
    set bits (cluster / 8) (with_bit (byte_at bits (cluster / 8)) (cluster % 8))

unfoldable pub bitmap_clear : List ℕ → ℕ → List ℕ
bitmap_clear bits cluster =
    set bits (cluster / 8) (without_bit (byte_at bits (cluster / 8)) (cluster % 8))
