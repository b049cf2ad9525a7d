-- ===== src/Prelude/Bits.antt =====
-- The binary digits of a number, and the digits of `bit_or`, `bit_and`, `bit_xor` and of masks.
mod Step
use Prim.Native.Nat.{
  ℕ, zero, suc, ◌+◌, ◌-◌, ◌*◌, ◌/◌, ◌%◌, ◌^◌, ◌≤◌, ◌<◌, min, max, bit_and, bit_or, bit_xor,
  bit_and-bitwise,
}
use Step.{ByDigit, bit_or_step, bit_and_step, bit_xor_step}
use mathlib.Core.Path.{◌≡◌, refl, ap, ◌∙◌}
use native.Mathlib.Nat.{pow-suc, one-le-pow}
use native.Mathlib.Omega.{arith}
use frawk.Prelude.Tests.{ltb, ◌==◌, if◌then◌else◌}

-- Digit `i` of `v`, 0 or 1.
abbrev pub bit : ℕ → ℕ → ℕ
bit v zero = v % 2
bit v (suc i) = bit (v / 2) i

pub bit-bit_or : (i a b : ℕ) → bit (bit_or a b) i ≡ max (bit a i) (bit b i)
bit-bit_or zero a b = omega (arith, bit_or_step a b)
bit-bit_or (suc i) a b = rw (half a b) (bit-bit_or i (a / 2) (b / 2))
  where
    half : (a b : ℕ) → bit_or a b / 2 ≡ bit_or (a / 2) (b / 2)
    half a b = omega (arith, bit_or_step a b)

pub bit-bit_and : (i a b : ℕ) → bit (bit_and a b) i ≡ min (bit a i) (bit b i)
bit-bit_and zero a b = omega (arith, bit_and_step a b)
bit-bit_and (suc i) a b = rw (half a b) (bit-bit_and i (a / 2) (b / 2))
  where
    half : (a b : ℕ) → bit_and a b / 2 ≡ bit_and (a / 2) (b / 2)
    half a b = omega (arith, bit_and_step a b)

pub bit-bit_xor : (i a b : ℕ) → bit (bit_xor a b) i ≡ (bit a i + bit b i) % 2
bit-bit_xor zero a b = omega (arith, bit_xor_step a b)
bit-bit_xor (suc i) a b = rw (half a b) (bit-bit_xor i (a / 2) (b / 2))
  where
    half : (a b : ℕ) → bit_xor a b / 2 ≡ bit_xor (a / 2) (b / 2)
    half a b = omega (arith, bit_xor_step a b)

pub bit-zero : (i : ℕ) → bit 0 i ≡ 0
bit-zero zero = refl
bit-zero (suc i) = bit-zero i

pub bit-lt-two : (v i : ℕ) → bit v i < 2
bit-lt-two v zero = omega arith
bit-lt-two v (suc i) = bit-lt-two (v / 2) i

pub bit-pow : (k i : ℕ) → bit (2 ^ k) i ≡ (if i == k then 1 else 0)
bit-pow zero zero = refl
bit-pow zero (suc i) = ground (arith, bit-zero i)
bit-pow (suc k) zero = ground (arith, pow-suc 2 k)
bit-pow (suc k) (suc i) = rw half (ground (arith, bit-pow k i))
  where
    half : 2 ^ suc k / 2 ≡ 2 ^ k
    half = omega (arith, pow-suc 2 k)

-- A mask of `k` ones.
pub bit-mask : (k i : ℕ) → bit (2 ^ k - 1) i ≡ (if ltb i k then 1 else 0)
bit-mask zero i = ground (arith, bit-zero i)
bit-mask (suc k) zero = ground (arith, pow-suc 2 k, one-le-pow k 2)
bit-mask (suc k) (suc i) = rw half (ground (arith, bit-mask k i))
  where
    half : (2 ^ suc k - 1) / 2 ≡ 2 ^ k - 1
    half = omega (arith, pow-suc 2 k, one-le-pow k 2)

pub bit-eq_zero : (n v i : ℕ) → v < 2 ^ n → n ≤ i → bit v i ≡ 0
bit-eq_zero zero v i h le = rw none (bit-zero i)
  where
    none : v ≡ 0
    none = omega arith
bit-eq_zero (suc n) v zero h le = absurd (omega arith)
bit-eq_zero (suc n) v (suc i) h le =
    bit-eq_zero n (v / 2) i (omega (arith, pow-suc 2 n)) (omega arith)

-- Numbers of `n` digits with the same digits are the same.
pub bit_ext : (n a b : ℕ) → a < 2 ^ n → b < 2 ^ n → ((i : ℕ) → i < n → bit a i ≡ bit b i) → a ≡ b
bit_ext zero a b ha hb h = omega arith
bit_ext (suc n) a b ha hb h = omega (
  arith,
  h 0 (omega arith),
  bit_ext n (a / 2) (b / 2) (omega (arith, pow-suc 2 n)) (omega (arith, pow-suc 2 n))
      (λ i lt. h (suc i) (omega arith)),
)

pub bit_or-lt : (n a b : ℕ) → a < 2 ^ n → b < 2 ^ n → bit_or a b < 2 ^ n
bit_or-lt zero a b ha hb = rw (a_zero, b_zero) (omega arith)
  where
    a_zero : a ≡ 0
    a_zero = omega arith

    b_zero : b ≡ 0
    b_zero = omega arith
bit_or-lt (suc n) a b ha hb = omega (
  arith,
  bit_or_step a b,
  pow-suc 2 n,
  bit_or-lt n (a / 2) (b / 2) (omega (arith, pow-suc 2 n)) (omega (arith, pow-suc 2 n)),
)

pub bit_xor-lt : (n a b : ℕ) → a < 2 ^ n → b < 2 ^ n → bit_xor a b < 2 ^ n
bit_xor-lt zero a b ha hb = rw (a_zero, b_zero) (omega arith)
  where
    a_zero : a ≡ 0
    a_zero = omega arith

    b_zero : b ≡ 0
    b_zero = omega arith
bit_xor-lt (suc n) a b ha hb = omega (
  arith,
  bit_xor_step a b,
  pow-suc 2 n,
  bit_xor-lt n (a / 2) (b / 2) (omega (arith, pow-suc 2 n)) (omega (arith, pow-suc 2 n)),
)

pub le-bit_or : (n a b : ℕ) → a < 2 ^ n → b < 2 ^ n → a ≤ bit_or a b
le-bit_or zero a b ha hb = omega arith
le-bit_or (suc n) a b ha hb = omega (
  arith,
  bit_or_step a b,
  pow-suc 2 n,
  le-bit_or n (a / 2) (b / 2) (omega (arith, pow-suc 2 n)) (omega (arith, pow-suc 2 n)),
)

bit_and-zero-left : (b : ℕ) → bit_and 0 b ≡ 0
bit_and-zero-left b = bit_and-bitwise 0 b

-- `(1 << i) & v`
pub bit_and-pow : (i v : ℕ) → bit_and (2 ^ i) v ≡ bit v i * 2 ^ i
bit_and-pow zero v = omega (arith, bit_and_step 1 v, bit_and-zero-left (v / 2))
bit_and-pow (suc i) v =
    bit_and_step (2 ^ suc i) v
    ∙ rw (half, even)
        (rw (bit_and-pow i (v / 2))
          (omega (arith, ap (λ (t : ℕ). bit (v / 2) i * t) (pow-suc 2 i))))
  where
    half : 2 ^ suc i / 2 ≡ 2 ^ i
    half = omega (arith, pow-suc 2 i)

    even : 2 ^ suc i % 2 ≡ 0
    even = omega (arith, pow-suc 2 i)

pub pow-lt : (i n : ℕ) → i < n → 2 ^ i < 2 ^ n
pow-lt i zero h = absurd (omega arith)
pow-lt zero (suc n) h = omega (arith, pow-suc 2 n, one-le-pow n 2)
pow-lt (suc i) (suc n) h = omega (arith, pow-suc 2 i, pow-suc 2 n, pow-lt i n (omega arith))
