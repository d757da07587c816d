-- ===== src/Base/Bits.antt =====
-- Go's bit operators on disjoint fields and on low masks, as arithmetic.
use Prim.Native.Nat.{
  ℕ, zero, suc, ◌+◌, ◌-◌, ◌*◌, ◌/◌, ◌%◌, ◌^◌, ◌≤◌, ◌<◌, min, max, digits, bit_and, bit_or,
  bit_and-bitwise, bit_or-bitwise,
}
use mathlib.Core.Path.{◌≡◌, refl, ap, sym, ◌∙◌}
use native.Mathlib.Nat.{
  pow-suc, one-le-pow, mod-eq-sub-mul-div, div-div-eq-div-mul, mul-div-le, mul_comm, zero-div,
  zero-mod,
}
use native.Mathlib.Omega.{arith}

abbrev and_digits : ℕ → ℕ → ℕ → ℕ
and_digits = digits (λ b. zero) min

abbrev or_digits : ℕ → ℕ → ℕ → ℕ
or_digits = digits (λ b. b) max

double : (q k : ℕ) → q * 2 ^ suc k ≡ 2 * (q * 2 ^ k)
double q k = omega (arith, ap (λ (t : ℕ). q * t) (pow-suc 2 k))

-- Dividing by `2 ^ suc k` is dividing by 2 and then by `2 ^ k`.
div-pow_suc : (x k : ℕ) → x / 2 / 2 ^ k ≡ x / 2 ^ suc k
div-pow_suc x k =
    div-div-eq-div-mul x 2 (2 ^ k) ∙ ap (λ (t : ℕ). x / t) (mul_comm 2 (2 ^ k) ∙ sym (pow-suc 2 k))

mod-pow_suc : (x k : ℕ) → x % 2 ^ suc k ≡ 2 * (x / 2 % 2 ^ k) + x % 2
mod-pow_suc x k = omega (
  arith,
  mod-eq-sub-mul-div x (2 ^ suc k),
  mod-eq-sub-mul-div (x / 2) (2 ^ k),
  mul-div-le (x / 2) (2 ^ k),
  double (x / 2 ^ suc k) k,
  mul_comm (2 ^ suc k) (x / 2 ^ suc k),
  ap (λ (t : ℕ). 2 ^ k * t) (div-pow_suc x k),
)

-- Each lemma goes digit by digit, with any count `n` of digits that is enough.
and_digits-low : (n k a : ℕ) → a ≤ n → and_digits n a (2 ^ k - 1) ≡ a % 2 ^ k
and_digits-low zero k zero h = omega arith
and_digits-low zero k (suc a) h = absurd (omega arith)
and_digits-low (suc n) k zero h = omega arith
and_digits-low (suc n) zero (suc a) h =
    omega (arith, and_digits-low n zero (suc a / 2) (omega arith))
and_digits-low (suc n) (suc k) (suc a) h =
    let ih = and_digits-low n k (suc a / 2) (omega arith) in
    let e : (2 ^ suc k - 1) / 2 ≡ 2 ^ k - 1 = omega (arith, pow-suc 2 k, one-le-pow k 2) in
    let o : (2 ^ suc k - 1) % 2 ≡ 1 = omega (arith, pow-suc 2 k, one-le-pow k 2) in
    rw (e, o, mod-pow_suc) (omega (arith, ih))

-- `x & (2^k - 1)`
pub bit_and_low : (k a : ℕ) → bit_and a (2 ^ k - 1) ≡ a % 2 ^ k
bit_and_low k a = bit_and-bitwise a (2 ^ k - 1) ∙ and_digits-low a k a (omega arith)

and_digits-field :
    (n j k a : ℕ) → a ≤ n → and_digits n a ((2 ^ j - 1) * 2 ^ k) ≡ a / 2 ^ k % 2 ^ j * 2 ^ k
and_digits-field zero j k zero h = rw (zero-div, zero-mod) (omega arith)
and_digits-field zero j k (suc a) h = absurd (omega arith)
and_digits-field (suc n) j k zero h = rw (zero-div, zero-mod) (omega arith)
and_digits-field (suc n) j zero (suc a) h =
    let e : (2 ^ j - 1) * 1 ≡ 2 ^ j - 1 = omega arith in
    let d : suc a / 1 ≡ suc a = omega arith in
    rw (e, d) (omega (arith, and_digits-low (suc n) j (suc a) h))
and_digits-field (suc n) j (suc k) (suc a) h =
    let ih = and_digits-field n j k (suc a / 2) (omega arith) in
    let e : (2 ^ j - 1) * 2 ^ suc k / 2 ≡ (2 ^ j - 1) * 2 ^ k =
      omega (arith, double (2 ^ j - 1) k) in
    let o : (2 ^ j - 1) * 2 ^ suc k % 2 ≡ 0 = omega (arith, double (2 ^ j - 1) k) in
    rw (e, o, ← div-pow_suc) (omega (arith, ih, double (suc a / 2 / 2 ^ k % 2 ^ j) k))

-- `x & ((2^j - 1) << k)`, a field of `j` bits above `k` others.
pub bit_and_field : (j k a : ℕ) → bit_and a ((2 ^ j - 1) * 2 ^ k) ≡ a / 2 ^ k % 2 ^ j * 2 ^ k
bit_and_field j k a =
    bit_and-bitwise a ((2 ^ j - 1) * 2 ^ k) ∙ and_digits-field a j k a (omega arith)

or_digits-field : (n k q r a : ℕ) → a ≤ n → a ≡ q * 2 ^ k → r < 2 ^ k → or_digits n a r ≡ a + r
or_digits-field zero k q r zero h e f = omega arith
or_digits-field zero k q r (suc a) h e f = absurd (omega arith)
or_digits-field (suc n) k q r zero h e f = omega arith
or_digits-field (suc n) zero q r (suc a) h e f =
    let z : r ≡ 0 = omega arith in
    rw z (
      omega (
        arith,
        or_digits-field n zero (suc a / 2) 0 (suc a / 2) (omega arith) (omega arith) (omega arith),
      ))
or_digits-field (suc n) (suc k) q r (suc a) h e f = ground (
  arith,
  double q k,
  pow-suc 2 k,
  or_digits-field n k q (r / 2) (suc a / 2) (omega arith) (omega (arith, double q k))
      (omega (arith, pow-suc 2 k)),
)

-- `(q << k) | r`, where `r` fits in `k` bits.
pub bit_or_field : (k q r : ℕ) → r < 2 ^ k → bit_or (q * 2 ^ k) r ≡ q * 2 ^ k + r
bit_or_field k q r h =
    bit_or-bitwise (q * 2 ^ k) r
    ∙ or_digits-field (q * 2 ^ k) k q r (q * 2 ^ k) (omega arith) refl h
