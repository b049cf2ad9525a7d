-- ===== src/Pushdown/Grow.antt =====
-- src/pushdown.rs: what a union and `fill` keep.
use frawk.Prelude.{
  ℕ, ◌≡◌, ◌≤◌, ◌<◌, ◌^◌, refl, sym, ◌∙◌, true, ◌==◌, ==→eq, ==-refl, arith, bit_or, ltb, leb,
  ltb→lt, if◌then◌else◌, Bool-cases, inl, inr,
}
use frawk.Prelude.Bits.{bit, bit-bit_or, bit-pow, bit_ext, bit_or-lt, bit_xor-lt, le-bit_or}
use frawk.Pushdown.{
  FieldSet, IsFieldSet, max_index, singleton, all, union, fill, between, min_bit, max_bit, get,
}
use frawk.Pushdown.Words.{wrapping_sub, wrapping_shl}
use frawk.Pushdown.Members.{get-union, get-bit, shl-one, get-beyond, get-all, ltb-false→le}

union-all : (s : FieldSet) → IsFieldSet s → union all s ≡ all
unfolding union
union-all s h =
    omega (arith, le-bit_or 64 all s (omega arith) h, bit_or-lt 64 all s (omega arith) h)

-- A union holds what its first set holds.
pub get-union_left :
    (s t : FieldSet) (i : ℕ) → IsFieldSet t → get s i ≡ true → get (union s t) i ≡ true
get-union_left s t i h held = elim (Bool-cases (ltb max_index i)) [
  | inl beyond ↦
      let full : s ≡ all = ==→eq s all (sym (get-beyond s i (ltb→lt max_index i beyond)) ∙ held) in
      rw (full, union-all t h) (get-all i)
  | inr within ↦ rw (get-union s t i (ltb-false→le max_index i within), held) refl
]

pub by_bits : (a b : ℕ) → IsFieldSet a → IsFieldSet b → ((i : ℕ) → bit a i ≡ bit b i) → a ≡ b
by_bits a b ha hb h = bit_ext 64 a b ha hb (λ i lt. h i)

pub bit_or_comm : (a b : ℕ) → IsFieldSet a → IsFieldSet b → bit_or a b ≡ bit_or b a
bit_or_comm a b ha hb =
    by_bits (bit_or a b) (bit_or b a) (bit_or-lt 64 a b ha hb) (bit_or-lt 64 b a hb ha)
      (λ i. omega (arith, bit-bit_or i a b, bit-bit_or i b a))

pub union_comm : (s t : FieldSet) → IsFieldSet s → IsFieldSet t → union s t ≡ union t s
unfolding union
union_comm s t h k = bit_or_comm s t h k

-- A union holds what its second set holds.
pub get-union_right :
    (s t : FieldSet) (i : ℕ)
    → IsFieldSet s
    → IsFieldSet t
    → get t i ≡ true
    → get (union s t) i ≡ true
get-union_right s t i h k held = rw (union_comm s t h k) (get-union_left t s i h held)

wrapping_sub-lt : (a b : ℕ) → wrapping_sub a b < 2 ^ 64
wrapping_sub-lt a b = omega arith

between-IsFieldSet : (left right : ℕ) → IsFieldSet (between left right)
unfolding between
between-IsFieldSet left right = bit_xor-lt 64 _ _ (mask-lt right) (mask-lt left)
  where
    mask-lt : (n : ℕ) → (if n == 64 then all else wrapping_sub (wrapping_shl 1 n) 1) < 2 ^ 64
    mask-lt n = elim (Bool-cases (n == 64)) [
      | inl full ↦ rw full (omega arith)
      | inr part ↦ rw part (wrapping_sub-lt (wrapping_shl 1 n) 1)
    ]

pub fill-IsFieldSet : (s rhs : FieldSet) → IsFieldSet s → IsFieldSet (fill s rhs)
unfolding fill
fill-IsFieldSet s rhs h = elim (Bool-cases (rhs == all)) [
  | inl full ↦ rw full (omega arith)
  | inr part ↦ elim (Bool-cases (leb (max_bit rhs) (min_bit s))) [
    | inl apart ↦ rw (part, apart) h
    | inr over ↦
        rw (part, over)
          (bit_or-lt 64 s (between (min_bit s) (max_bit rhs)) h
            (between-IsFieldSet (min_bit s) (max_bit rhs)))
  ]
]

-- A singleton holds its column.
pub get-singleton : (i : ℕ) → get (singleton i) i ≡ true
unfolding singleton
get-singleton i = elim (Bool-cases (ltb max_index i)) [
  | inl beyond ↦ rw beyond (get-all i)
  | inr within ↦
      let fits : i ≤ max_index = ltb-false→le max_index i within in
      rw (within, shl-one i (omega arith))
        (get-bit (2 ^ i) i fits ∙ rw (bit-pow i i, ==-refl i) refl)
]
