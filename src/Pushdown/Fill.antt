-- ===== src/Pushdown/Fill.antt =====
-- src/pushdown.rs: `fill`, the columns of a join over a range of columns.
use frawk.Prelude.{
  ℕ, ◌-◌, ◌^◌, ◌≤◌, ◌<◌, ◌≡◌, ap, ◌∙◌, Bool, true, false, ltb, leb, ◌==◌, if◌then◌else◌, min, max,
  le→leb, ltb→lt, bit_and, arith, lt→ltb, lt→leb, Bool-cases, inl, inr,
}
use frawk.Prelude.Bits.{bit, bit-bit_or, bit-bit_xor, bit-bit_and, bit-mask, pow-lt, bit-lt-two}
use native.Mathlib.Nat.{mod-eq_of_lt, one-le-pow}
use frawk.Pushdown.Words.{wrapping_shl, wrapping_sub, trailing_zeros-le, leading_zeros-pos}
use frawk.Pushdown.{FieldSet, max_index, fi_mask, all, get, min_bit, max_bit, between, fill}
use frawk.Pushdown.Members.{
  get-bit, get-all, get-beyond, ltb-false→le, bit-columns, bit_of_get, lt-max_bit,
}

-- The mask of the bits below `k`, as the source computes it.
low_word : (k : ℕ) → k < 64 → wrapping_sub (wrapping_shl 1 k) 1 ≡ 2 ^ k - 1
low_word k h = rw (mod-eq_of_lt h) (omega (arith, pow-lt k 64 h, one-le-pow k 2))

not_full : (k : ℕ) → k < 64 → (k == 64) ≡ false
not_full k h = ground arith

bit-between :
    (left right i : ℕ)
    → left < right
    → right < 64
    → bit (between left right) i ≡ (if leb left i then (if ltb i right then 1 else 0) else 0)
unfolding between
bit-between left right i h k =
    rw
      (not_full right k, not_full left (omega arith), low_word right k, low_word left (omega arith))
      (bit-bit_xor i (2 ^ right - 1) (2 ^ left - 1)
        ∙ rw (bit-mask right i, bit-mask left i) (ground arith))

min_bit-le : (s : FieldSet) (i : ℕ) → i ≤ max_index → get s i ≡ true → min_bit s ≤ i
unfolding min_bit
min_bit-le s i h member = trailing_zeros-le _ i (bit-columns s i h ∙ bit_of_get s i h member)

max_bit-lt : (s : FieldSet) → max_bit s < 64
unfolding max_bit
max_bit-lt s = omega (arith, leading_zeros-pos (bit_and fi_mask s) no_fi)
  where
    no_fi : bit (bit_and fi_mask s) 63 ≡ 0
    no_fi = bit-bit_and 63 fi_mask s ∙ ap (λ d. min d (bit s 63)) (bit-mask 63 63) ∙ omega arith

set_bit : (d : ℕ) → d < 2 → (max d 1 == 1) ≡ true
set_bit d h = ground arith

-- What lies between a column of `s` and a column of `rhs`, within the columns of one word.
fill_within :
    (s rhs : FieldSet) (lo i hi : ℕ)
    → hi ≤ max_index
    → lo ≤ i
    → i ≤ hi
    → get s lo ≡ true
    → get rhs hi ≡ true
    → (rhs == all) ≡ false
    → get (fill s rhs) i ≡ true
unfolding fill
fill_within s rhs lo i hi fits h k in_s in_rhs part =
    let low = min_bit-le s lo (omega arith) in_s in
    let high = lt-max_bit rhs hi fits in_rhs in
    rw (part, lt→leb (max_bit rhs) (min_bit s) (omega arith))
      (get-bit _ i (omega arith)
        ∙ rw
            (
              bit-bit_or i s (between (min_bit s) (max_bit rhs)),
              bit-between (min_bit s) (max_bit rhs) i (omega arith) (max_bit-lt rhs),
            )
            (rw (le→leb (min_bit s) i (omega arith), lt→ltb i (max_bit rhs) (omega arith))
              (set_bit (bit s i) (bit-lt-two s i))))

fill-all : (s rhs : FieldSet) → (rhs == all) ≡ true → fill s rhs ≡ all
unfolding fill
fill-all s rhs full = rw full

true_or_false : {b : Bool} → b ≡ true → b ≡ false → ⊥
true_or_false h k = cc

-- A join over columns `lo` to `hi` reads all of them: if `s` holds `lo` and `rhs` holds `hi`, then
-- after `fill` the set holds every column from `lo` to `hi`.
pub fill_covers :
    (s rhs : FieldSet) (lo i hi : ℕ)
    → lo ≤ i
    → i ≤ hi
    → get s lo ≡ true
    → get rhs hi ≡ true
    → get (fill s rhs) i ≡ true
fill_covers s rhs lo i hi h k in_s in_rhs = elim (Bool-cases (rhs == all)) [
  | inl full ↦ rw (fill-all s rhs full) (get-all i)
  | inr part ↦ elim (Bool-cases (ltb max_index hi)) [
    | inl beyond ↦
        absurd (true_or_false in_rhs (get-beyond rhs hi (ltb→lt max_index hi beyond) ∙ part))
    | inr within ↦ fill_within s rhs lo i hi (ltb-false→le max_index hi within) h k in_s in_rhs part
  ]
]
