-- ===== src/Base/Word.antt =====
-- Little-endian words in a byte slice (encoding/binary, as package ondisk uses it).
use ods.Base.Lists.{get_or-append, length, get_or, set, length-set}
use Prim.Native.Nat.{ℕ, ◌+◌, ◌*◌, ◌/◌, ◌%◌, ◌^◌, ◌<◌}
use mathlib.Core.Path.{◌≡◌, ◌∙◌, ap}
use mathlib.Core.List.{List, [], ◌∷◌, ◌++◌}
use native.Mathlib.Omega.{arith}

abbrev pub u8 : ℕ → ℕ
u8 n = n % 2 ^ 8

abbrev pub u16 : ℕ → ℕ
u16 n = n % 2 ^ 16

abbrev pub u32 : ℕ → ℕ
u32 n = n % 2 ^ 32

infixl 70 ◌<<<◌ ◌>>>◌
abbrev pub ◌<<<◌ : ℕ → ℕ → ℕ
x <<< k = x * 2 ^ k

abbrev pub ◌>>>◌ : ℕ → ℕ → ℕ
x >>> k = x / 2 ^ k

abbrev pub byte_at : List ℕ → ℕ → ℕ
byte_at b i = get_or b i 0

-- binary.LittleEndian.Uint16(b[i:i+2]) and Uint32(b[i:i+4]), for an offset inside the slice.
abbrev pub u16_at : List ℕ → ℕ → ℕ
u16_at b i = byte_at b i + 256 * byte_at b (i + 1)

abbrev pub u32_at : List ℕ → ℕ → ℕ
u32_at b i = u16_at b i + 2 ^ 16 * u16_at b (i + 2)

-- binary.LittleEndian.PutUint16(b[i:i+2], v) and PutUint32(b[i:i+4], v).
abbrev pub put_u16 : List ℕ → ℕ → ℕ → List ℕ
put_u16 b i v = set (set b i (u8 v)) (i + 1) (u8 (v >>> 8))

abbrev pub put_u32 : List ℕ → ℕ → ℕ → List ℕ
put_u32 b i v = put_u16 (put_u16 b i (u16 v)) (i + 2) (u16 (v >>> 16))

abbrev pub IsByte : ℕ → Type 0
IsByte b = b < 256

-- The two bytes of a word stand for it again.
pub split_u16 : (v : ℕ) → v < 2 ^ 16 → u8 v + 256 * u8 (v >>> 8) ≡ v
split_u16 v h = omega arith

pub length-put_u16 : (b : List ℕ) (i v : ℕ) → length (put_u16 b i v) ≡ length b
length-put_u16 b i v = length-set _ (i + 1) _ ∙ length-set b i _

-- Reading `i` bytes behind a prefix.
pub byte_at-append :
    (pre ys : List ℕ) (i p : ℕ) → p ≡ length pre + i → byte_at (pre ++ ys) p ≡ byte_at ys i
byte_at-append pre ys i p e = ap (λ k. get_or (pre ++ ys) k 0) e ∙ get_or-append pre ys i 0

pub u16_at-append :
    (pre ys : List ℕ) (i p : ℕ) → p ≡ length pre + i → u16_at (pre ++ ys) p ≡ u16_at ys i
u16_at-append pre ys i p e =
    ground (arith, byte_at-append pre ys i p, byte_at-append pre ys (i + 1) (p + 1))

-- binary.LittleEndian.Uint64(b[i:i+8]).
abbrev pub u64_at : List ℕ → ℕ → ℕ
u64_at b i = u32_at b i + 2 ^ 32 * u32_at b (i + 4)

-- The bytes of a word, of a longword and of a quadword that stand one after another.
abbrev pub word_bytes : ℕ → List ℕ
word_bytes v = u8 v ∷ u8 (v >>> 8) ∷ []

abbrev pub long_bytes : ℕ → List ℕ
long_bytes v = word_bytes (u16 v) ++ word_bytes (u16 (v >>> 16))

abbrev pub quad_bytes : ℕ → List ℕ
quad_bytes v = long_bytes (u32 v) ++ long_bytes (u32 (v >>> 32))

-- The four bytes of a longword stand for it again.
pub split_u32 : (v : ℕ) → v < 2 ^ 32 → u32_at (long_bytes v) 0 ≡ v
split_u32 v h = omega arith

pub split_u64 : (v : ℕ) → v < 2 ^ 64 → u64_at (quad_bytes v) 0 ≡ v
split_u64 v h =
    let lo : u32_at (long_bytes (u32 v)) 0 ≡ u32 v = split_u32 (u32 v) (omega arith) in
    let hi : u32_at (long_bytes (u32 (v >>> 32))) 0 ≡ u32 (v >>> 32) =
      split_u32 (u32 (v >>> 32)) (omega arith) in
    rw (lo, hi) (omega arith)

pub u32_at-append :
    (pre ys : List ℕ) (i p : ℕ) → p ≡ length pre + i → u32_at (pre ++ ys) p ≡ u32_at ys i
u32_at-append pre ys i p e =
    ground (arith, u16_at-append pre ys i p, u16_at-append pre ys (i + 2) (p + 2))

pub u64_at-append :
    (pre ys : List ℕ) (i p : ℕ) → p ≡ length pre + i → u64_at (pre ++ ys) p ≡ u64_at ys i
u64_at-append pre ys i p e =
    ap (λ k. u64_at (pre ++ ys) k) e
    ∙ ground (
      arith,
      u32_at-append pre ys i (length pre + i),
      u32_at-append pre ys (i + 4) (length pre + i + 4),
    )
