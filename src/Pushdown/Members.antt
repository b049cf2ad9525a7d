-- ===== src/Pushdown/Members.antt =====
-- Which columns a field set of src/pushdown.rs holds: `get` after each operation.
use frawk.Prelude.{
  ℕ, zero, suc, ◌*◌, ◌^◌, ◌≤◌, ◌<◌, max, lt→ltb, ◌≡◌, ◌↔◌, ap, ◌∙◌, sym, Bool, true, false, not,
  ◌||◌, arith, ltb, ◌==◌, bit_and, bit_or, le→ltb, ltb→lt, ==→eq, ==-refl, Bool-cases, inl, inr,
}
use frawk.Prelude.Bits.{
  bit, bit-bit_or, bit-bit_and, bit-mask, bit_and-pow, bit-lt-two, bit_ext, bit_or-lt, pow-lt,
}
use native.Mathlib.Nat.{mod-eq_of_lt, one-le-pow}
use frawk.Pushdown.Words.{shl, leading_zeros-lt}
use frawk.Pushdown.{
  FieldSet, IsFieldSet, max_index, all, union, max_bit, max_value, fi_mask, get, invoke,
}

pub shl-one : (i : ℕ) → i < 64 → shl 1 i ≡ 2 ^ i
shl-one i h = simp (mod-eq_of_lt (one_times i h)) (omega arith)
  where
    one_times : (i : ℕ) → i < 64 → 1 * 2 ^ i < 2 ^ 64
    one_times i h = omega (arith, pow-lt i 64 h)

digit_test : (d p : ℕ) → d < 2 → 1 ≤ p → not (d * p == 0) ≡ (d == 1)
digit_test zero p h k = ground arith
digit_test (suc zero) p h k = ground arith
digit_test (suc (suc d)) p h k = absurd (omega arith)

-- The test of one bit.
bit_test : (i v : ℕ) → not (bit_and (2 ^ i) v == 0) ≡ (bit v i == 1)
bit_test i v =
    rw (bit_and-pow i v)
      (digit_test (bit v i) (2 ^ i) (bit-lt-two v i) (one-le-pow i 2 (omega arith)))

pub get-bit : (s : FieldSet) (i : ℕ) → i ≤ max_index → get s i ≡ (bit s i == 1)
unfolding get
get-bit s i h = rw (le→ltb max_index i h, shl-one i (omega arith)) (bit_test i s)

pub bit-all : (i : ℕ) → i < 64 → bit all i ≡ 1
bit-all i h = bit-mask 64 i ∙ rw (lt→ltb i 64 h)

-- Beyond the last column a set holds everything or nothing.
pub ltb-false→le : (a b : ℕ) → ltb a b ≡ false → b ≤ a
ltb-false→le a b h = ground arith

digits_or : (d e : ℕ) → d < 2 → e < 2 → (max d e == 1) ≡ ((d == 1) || (e == 1))
digits_or d e h k = ground arith

pub get-beyond : (s : FieldSet) (i : ℕ) → max_index < i → get s i ≡ (s == all)
unfolding get
get-beyond s i h = rw (lt→ltb max_index i h)

pub get-all : (i : ℕ) → get all i ≡ true
get-all i = elim (Bool-cases (ltb max_index i)) [
  | inl beyond ↦ rw (get-beyond all i (ltb→lt max_index i beyond))
  | inr within ↦ rw (
    get-bit all i (ltb-false→le max_index i within),
    bit-all i (omega (arith, ltb-false→le max_index i within)),
  )
]

-- A column is in a union exactly if it is in one of the two sets.
pub get-union :
    (s other : FieldSet) (i : ℕ) → i ≤ max_index → get (union s other) i ≡ (get s i || get other i)
unfolding union
get-union s other i h =
    rw (get-bit (bit_or s other) i h, get-bit s i h, get-bit other i h, bit-bit_or i s other)
      (digits_or (bit s i) (bit other i) (bit-lt-two s i) (bit-lt-two other i))

-- A set of 64 bits stays one.
pub union-IsFieldSet :
    (s other : FieldSet) → IsFieldSet s → IsFieldSet other → IsFieldSet (union s other)
unfolding union
union-IsFieldSet s other h k = bit_or-lt 64 s other h k

-- Masking off `FI` keeps the columns.
pub bit-columns : (s : FieldSet) (i : ℕ) → i ≤ max_index → bit (bit_and fi_mask s) i ≡ bit s i
bit-columns s i h =
    bit-bit_and i fi_mask s
    ∙ rw (bit-mask 63 i, lt→ltb i 63 (omega arith)) (omega (arith, bit-lt-two s i))

pub bit_of_get : (s : FieldSet) (i : ℕ) → i ≤ max_index → get s i ≡ true → bit s i ≡ 1
bit_of_get s i h member = ==→eq (bit s i) 1 (sym (get-bit s i h) ∙ member)

pub lt-max_bit : (s : FieldSet) (i : ℕ) → i ≤ max_index → get s i ≡ true → i < max_bit s
unfolding max_bit
lt-max_bit s i h member = omega (
  arith,
  leading_zeros-lt (bit_and fi_mask s) i (omega arith)
      (bit-columns s i h ∙ bit_of_get s i h member),
)

-- Every column of a set is below its `max_value`, or is one that the set cannot represent.
pub get-lt-max_value : (s : FieldSet) (i : ℕ) → i ≤ max_index → get s i ≡ true → i < max_value s
unfolding max_value
get-lt-max_value s i h member = elim (Bool-cases (s == all)) [
  | inl full ↦ rw full (omega arith)
  | inr part ↦ rw part (lt-max_bit s i h member)
]

not-eq-false : {b : Bool} → not b ≡ false → b ≡ true
not-eq-false {b} h = ground arith

-- `invoke` reports no change exactly if the joined set has no new column and no new `FI`.
pub invoke-unchanged :
    (s other : FieldSet)
    → IsFieldSet s
    → IsFieldSet other
    → ((invoke s other).1 ≡ false) ↔ ((i : ℕ) → i < 64 → bit other i ≤ bit s i)
unfolding invoke union
invoke-unchanged s other h k = (
  λ same i lt.
      rw (← ap (λ v. bit v i) (==→eq (bit_or s other) s (not-eq-false same)))
        (rw (bit-bit_or i s other) (omega arith)),
  λ below. rw (
    bit_ext 64 (bit_or s other) s (bit_or-lt 64 s other h k) h
        (λ i lt. bit-bit_or i s other ∙ omega (arith, below i lt)),
    ==-refl s,
  ),
)
