-- ===== src/Pushdown/Words.antt =====
-- The operations of `u64` that src/pushdown.rs calls.
use frawk.Prelude.{
  ℕ, zero, suc, ◌+◌, ◌-◌, ◌*◌, ◌/◌, ◌%◌, ◌^◌, ◌≤◌, ◌<◌, ◌≡◌, arith, ◌==◌, if◌then◌else◌, Bool-cases,
  inl, inr, ap, false, ==→eq,
}
use frawk.Prelude.Bits.{bit}

-- `!v`
abbrev pub complement : ℕ → ℕ
complement v = 2 ^ 64 - 1 - v

-- `v << k` for a `k` below 64
abbrev pub shl : ℕ → ℕ → ℕ
shl v k = v * 2 ^ k % 2 ^ 64

-- The shift amount is taken modulo the width.
abbrev pub wrapping_shl : ℕ → ℕ → ℕ
wrapping_shl v k = shl v (k % 64)

abbrev pub wrapping_sub : ℕ → ℕ → ℕ
wrapping_sub a b = (a + 2 ^ 64 - b) % 2 ^ 64

-- The zero digits below the lowest one, among `n` digits.
unfoldable pub zeros_from : ℕ → ℕ → ℕ
zeros_from zero v = 0
zeros_from (suc n) v = if v % 2 == 1 then 0 else suc (zeros_from n (v / 2))

pub trailing_zeros : ℕ → ℕ
trailing_zeros v = zeros_from 64 v

-- The zero digits above the highest one, among `n` digits.
unfoldable pub zeros_to : ℕ → ℕ → ℕ
zeros_to zero v = 0
zeros_to (suc n) v = if bit v n == 1 then 0 else suc (zeros_to n v)

pub leading_zeros : ℕ → ℕ
leading_zeros v = zeros_to 64 v

zeros_from-le : (n v i : ℕ) → bit v i ≡ 1 → zeros_from n v ≤ i
unfolding zeros_from
zeros_from-le zero v i h = omega arith
zeros_from-le (suc n) v zero h = ground arith
zeros_from-le (suc n) v (suc i) h = ground (arith, zeros_from-le n (v / 2) i h)

zeros_to-lt : (n v i : ℕ) → i < n → bit v i ≡ 1 → i + zeros_to n v < n
unfolding zeros_to
zeros_to-lt zero v i lt h = absurd (omega arith)
zeros_to-lt (suc n) v i lt h = elim (Bool-cases (bit v n == 1)) [
  | inl top ↦ rw top (omega arith)
  | inr clear ↦ rw clear (omega (arith, zeros_to-lt n v i (below clear) h))
]
  where
    below : (bit v n == 1) ≡ false → i < n
    below clear = elim (Bool-cases (i == n)) [
      | inl same ↦ absurd (ground (arith, ap (bit v) (==→eq i n same)))
      | inr other ↦ ground arith
    ]

pub trailing_zeros-le : (v i : ℕ) → bit v i ≡ 1 → trailing_zeros v ≤ i
unfolding trailing_zeros
trailing_zeros-le v i h = zeros_from-le 64 v i h

pub leading_zeros-lt : (v i : ℕ) → i < 64 → bit v i ≡ 1 → i + leading_zeros v < 64
unfolding leading_zeros
leading_zeros-lt v i lt h = zeros_to-lt 64 v i lt h

zeros_to-pos : (n v : ℕ) → bit v n ≡ 0 → 0 < zeros_to (suc n) v
unfolding zeros_to
zeros_to-pos n v h = ground arith

pub leading_zeros-pos : (v : ℕ) → bit v 63 ≡ 0 → 0 < leading_zeros v
unfolding leading_zeros
leading_zeros-pos v h = zeros_to-pos 63 v h
