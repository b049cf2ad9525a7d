-- ===== src/Prelude/Bits/Step.antt =====
-- One equation for the lowest digit of each bitwise operation, from the recursion on digits that
-- the native operations stand for.
use Prim.Native.Nat.{
  ℕ, zero, suc, ◌+◌, ◌*◌, ◌/◌, ◌%◌, ◌≤◌, ◌<◌, min, max, differ, bit_and, bit_or, bit_xor, digits,
  bitwise, bit_and-bitwise, bit_or-bitwise, bit_xor-bitwise,
}
use mathlib.Core.Path.{◌≡◌, refl, ◌∙◌}
use native.Mathlib.Omega.{arith}
use native.Mathlib.Decide.{dec_le}

-- The lowest digit of `op` comes from the lowest digits, and the others from the halves.
abbrev pub ByDigit : (ℕ → ℕ → ℕ) → (ℕ → ℕ → ℕ) → Type 0
ByDigit op digit = (v w : ℕ) → op v w ≡ op (v / 2) (w / 2) * 2 + digit (v % 2) (w % 2)

module _ (rest : ℕ → ℕ) (f : ℕ → ℕ → ℕ) where
  abbrev low : ℕ → ℕ → ℕ
  low a b = f (a % 2) (b % 2)

  -- One more unit of fuel than the number's size changes nothing.
  one_more : (n a b : ℕ) → a ≤ n → digits rest f (suc n) a b ≡ digits rest f n a b
  one_more zero zero b h = refl
  one_more zero (suc a) b h = absurd (omega arith)
  one_more (suc n) zero b h = refl
  one_more (suc n) (suc a) b h = rw (one_more n (suc a / 2) (b / 2) (omega arith))

  -- So a number may be given its own size for fuel.
  own_size : (n a b : ℕ) → a ≤ n → digits rest f n a b ≡ bitwise rest f a b
  own_size zero zero b h = refl
  own_size zero (suc a) b h = absurd (omega arith)
  own_size (suc n) a b h = elim (dec_le a n) [
    | yes small ↦ one_more n a b small ∙ own_size n a b small
    | no large ↦ rw (exact large)
  ]
    where
      exact : ¬ (a ≤ n) → suc n ≡ a
      exact large = omega arith

  lowest :
      (a b : ℕ)
      → bitwise rest f (suc a) b ≡ bitwise rest f (suc a / 2) (b / 2) * 2 + f (suc a % 2) (b % 2)
  lowest a b = omega (arith, own_size a (suc a / 2) (b / 2) (omega arith))

pub bit_and_step : ByDigit bit_and min
bit_and_step zero b = simp bit_and-bitwise (omega arith)
bit_and_step (suc a) b = simp bit_and-bitwise (lowest (λ b. 0) min a b)

bit_xor-differ : ByDigit bit_xor differ
bit_xor-differ zero b = simp bit_xor-bitwise (omega arith)
bit_xor-differ (suc a) b = simp bit_xor-bitwise (lowest (λ b. b) differ a b)

differ-digits : (x y : ℕ) → x < 2 → y < 2 → differ x y ≡ (x + y) % 2
differ-digits zero zero h k = refl
differ-digits zero (suc zero) h k = refl
differ-digits (suc zero) zero h k = refl
differ-digits (suc zero) (suc zero) h k = refl
differ-digits (suc (suc x)) y h k = absurd (omega arith)
differ-digits x (suc (suc y)) h k = absurd (omega arith)

pub bit_xor_step : ByDigit bit_xor (λ x y. (x + y) % 2)
bit_xor_step a b =
    omega (arith, bit_xor-differ a b, differ-digits (a % 2) (b % 2) (omega arith) (omega arith))

pub bit_or_step : ByDigit bit_or max
bit_or_step zero b = simp bit_or-bitwise (omega arith)
bit_or_step (suc a) b = simp bit_or-bitwise (lowest (λ b. b) max a b)
