-- ===== src/Ondisk/Bitmap/Laws.antt =====
-- ondisk/bitmap.go: one bit, and all others, after setting or clearing it.
use ods.Base.{
  ℕ, zero, suc, ◌/◌, ◌%◌, ◌<◌, ◌≡◌, refl, List, [], ◌∷◌, Bool, true, false, not, ◌&&◌, set, ◌==◌,
  ltb, if◌then◌else◌, arith, length, length-set, get_or-set_self, get_or-set_ne, All, all_below,
  all_below→holds,
}
use ods.Base.Word.{byte_at, IsByte}
use ods.Ondisk.Bitmap.{bit_of, with_bit, without_bit, bitmap_test, bitmap_set, bitmap_clear}

abbrev pub IsBitmap : List ℕ → Type 0
IsBitmap bits = All IsByte bits

pub byte_at-IsByte : (bits : List ℕ) (i : ℕ) → IsBitmap bits → byte_at bits i < 256
byte_at-IsByte [] i h = omega arith
byte_at-IsByte (b ∷ bs) zero (h, hs) = h
byte_at-IsByte (b ∷ bs) (suc i) (h, hs) = byte_at-IsByte bs i hs

set-IsBitmap : (bits : List ℕ) (i v : ℕ) → IsBitmap bits → v < 256 → IsBitmap (set bits i v)
set-IsBitmap [] i v h q = h
set-IsBitmap (b ∷ bs) zero v (h, hs) q = (q, hs)
set-IsBitmap (b ∷ bs) (suc i) v (h, hs) q = (h, set-IsBitmap bs i v hs q)

same : Bool → Bool → Bool
same true b = b
same false b = not b

same→eq : (a b : Bool) → same a b ≡ true → a ≡ b
unfolding same
same→eq true b h = ground arith
same→eq false b h = ground arith

-- Every byte and every pair of bit positions, by evaluation.
with_row : ℕ → ℕ → ℕ → Bool
unfolding same
with_row b i j = same (bit_of (with_bit b i) j) (if i == j then true else bit_of b j)

without_row : ℕ → ℕ → ℕ → Bool
unfolding same
without_row b i j = same (bit_of (without_bit b i) j) (if i == j then false else bit_of b j)

in_byte : ℕ → ℕ → Bool
in_byte b i = ltb (with_bit b i) 256 && ltb (without_bit b i) 256

with_table : all_below 256 (λ b. all_below 8 (λ i. all_below 8 (with_row b i))) ≡ true
unfolding all_below with_row
with_table = refl

without_table : all_below 256 (λ b. all_below 8 (λ i. all_below 8 (without_row b i))) ≡ true
unfolding all_below without_row
without_table = refl

in_byte_table : all_below 256 (λ b. all_below 8 (in_byte b)) ≡ true
unfolding all_below in_byte
in_byte_table = refl

with_bit_lem :
    (b i j : ℕ)
    → b < 256
    → i < 8
    → j < 8
    → bit_of (with_bit b i) j ≡ (if i == j then true else bit_of b j)
with_bit_lem b i j hb hi hj = same→eq _ _ (
    unfold with_row in
    all_below→holds 8 (with_row b i) j
      (all_below→holds 8 (λ i. all_below 8 (with_row b i)) i
        (all_below→holds 256 (λ b. all_below 8 (λ i. all_below 8 (with_row b i))) b with_table hb)
        hi)
      hj)

without_bit_lem :
    (b i j : ℕ)
    → b < 256
    → i < 8
    → j < 8
    → bit_of (without_bit b i) j ≡ (if i == j then false else bit_of b j)
without_bit_lem b i j hb hi hj = same→eq _ _ (
    unfold without_row in
    all_below→holds 8 (without_row b i) j
      (all_below→holds 8 (λ i. all_below 8 (without_row b i)) i
        (all_below→holds 256 (λ b. all_below 8 (λ i. all_below 8 (without_row b i))) b without_table
          hb)
        hi)
      hj)

bit_bytes : (b i : ℕ) → b < 256 → i < 8 → (with_bit b i < 256) × (without_bit b i < 256)
bit_bytes b i hb hi =
    let t =
      all_below→holds 8 (in_byte b) i
        (all_below→holds 256 (λ b. all_below 8 (in_byte b)) b in_byte_table hb) hi in
    unfold in_byte in ground (arith, t)

-- The byte of another cluster, or another bit of the same byte.
cluster_split : (c d : ℕ) → c / 8 ≡ d / 8 → c % 8 ≡ d % 8 → c ≡ d
cluster_split c d h k = omega arith

pub bitmap_set-IsBitmap : (bits : List ℕ) (c : ℕ) → IsBitmap bits → IsBitmap (bitmap_set bits c)
unfolding bitmap_set
bitmap_set-IsBitmap bits c h =
    set-IsBitmap bits (c / 8) _ h
      (bit_bytes (byte_at bits (c / 8)) (c % 8) (byte_at-IsByte bits (c / 8) h) (omega arith)).0

pub bitmap_clear-IsBitmap : (bits : List ℕ) (c : ℕ) → IsBitmap bits → IsBitmap (bitmap_clear bits c)
unfolding bitmap_clear
bitmap_clear-IsBitmap bits c h =
    set-IsBitmap bits (c / 8) _ h
      (bit_bytes (byte_at bits (c / 8)) (c % 8) (byte_at-IsByte bits (c / 8) h) (omega arith)).1

pub length-bitmap_set : (bits : List ℕ) (c : ℕ) → length (bitmap_set bits c) ≡ length bits
unfolding bitmap_set
length-bitmap_set bits c = length-set bits (c / 8) _

pub length-bitmap_clear : (bits : List ℕ) (c : ℕ) → length (bitmap_clear bits c) ≡ length bits
unfolding bitmap_clear
length-bitmap_clear bits c = length-set bits (c / 8) _

-- For a cluster inside the buffer: after BitmapSet its bit is set and every other is as before.
pub bitmap_test-bitmap_set :
    (bits : List ℕ) (c d : ℕ)
    → IsBitmap bits
    → c / 8 < length bits
    → bitmap_test (bitmap_set bits c) d ≡ (if c == d then true else bitmap_test bits d)
unfolding bitmap_test bitmap_set
bitmap_test-bitmap_set bits c d h r = ground (
  arith,
  get_or-set_self bits (c / 8) (with_bit (byte_at bits (c / 8)) (c % 8)) 0 r,
  get_or-set_ne bits (c / 8) (d / 8) (with_bit (byte_at bits (c / 8)) (c % 8)) 0,
  with_bit_lem (byte_at bits (c / 8)) (c % 8) (d % 8) (byte_at-IsByte bits (c / 8) h),
)

-- For a cluster inside the buffer: after BitmapClear its bit is clear and every other is as before.
pub bitmap_test-bitmap_clear :
    (bits : List ℕ) (c d : ℕ)
    → IsBitmap bits
    → c / 8 < length bits
    → bitmap_test (bitmap_clear bits c) d ≡ (if c == d then false else bitmap_test bits d)
unfolding bitmap_test bitmap_clear
bitmap_test-bitmap_clear bits c d h r = ground (
  arith,
  get_or-set_self bits (c / 8) (without_bit (byte_at bits (c / 8)) (c % 8)) 0 r,
  get_or-set_ne bits (c / 8) (d / 8) (without_bit (byte_at bits (c / 8)) (c % 8)) 0,
  without_bit_lem (byte_at bits (c / 8)) (c % 8) (d % 8) (byte_at-IsByte bits (c / 8) h),
)
