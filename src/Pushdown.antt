-- ===== src/Pushdown.antt =====
-- src/pushdown.rs: `FieldSet`, a lossy bitset of the columns that a program reads. Bits 0 to 62
-- stand for columns, bit 63 for the header variable `FI`, and the full word for every column.
pub mod Words
pub mod Members
pub mod Fill
pub mod Grow
use frawk.Prelude.{
  ℕ, ◌+◌, ◌-◌, ◌*◌, ◌%◌, ◌^◌, ◌<◌, Bool, true, false, not, ◌&&◌, ltb, leb, ◌==◌, if◌then◌else◌,
  bit_and, bit_or, bit_xor,
}
use frawk.Pushdown.Words.{
  complement, trailing_zeros, leading_zeros, shl, wrapping_shl, wrapping_sub,
}

-- The `u64` of the newtype, a number below 2 ^ 64.
abbrev pub FieldSet : Type 0
FieldSet = ℕ

abbrev pub IsFieldSet : FieldSet → Type 0
IsFieldSet s = s < 2 ^ 64

abbrev pub max_index : ℕ
max_index = 62

abbrev pub fi_index : ℕ
fi_index = 63

abbrev pub fi_mask : ℕ
fi_mask = complement (2 ^ fi_index)

abbrev pub u32_max : ℕ
u32_max = 2 ^ 32 - 1

abbrev pub all : FieldSet
all = complement 0

abbrev pub empty : FieldSet
empty = 0

unfoldable pub singleton : ℕ → FieldSet
singleton index = if ltb max_index index then all else shl 1 index

abbrev pub fi : FieldSet
fi = 2 ^ fi_index

unfoldable pub has_fi : FieldSet → Bool
has_fi s = not (s == all) && not (bit_and fi s == 0)

unfoldable pub is_empty : FieldSet → Bool
is_empty s = s == 0

unfoldable pub union : FieldSet → FieldSet → FieldSet
union s other = bit_or s other

unfoldable pub min_bit : FieldSet → ℕ
min_bit s = trailing_zeros (bit_and fi_mask s)

unfoldable pub max_bit : FieldSet → ℕ
max_bit s = 64 - leading_zeros (bit_and fi_mask s)

unfoldable pub max_value : FieldSet → ℕ
unfolding max_bit
max_value s = if s == all then u32_max else max_bit s

-- Bits `left` up to but not including `right`.
unfoldable pub between : ℕ → ℕ → ℕ
between left right =
    let rest = if right == 64 then all else wrapping_sub (wrapping_shl 1 right) 1 in
    let mask = if left == 64 then all else wrapping_sub (wrapping_shl 1 left) 1 in bit_xor rest mask

unfoldable pub fill : FieldSet → FieldSet → FieldSet
unfolding min_bit max_bit between
fill s rhs =
    if rhs == all
    then all
    else if leb (max_bit rhs) (min_bit s)
    then s
    else bit_or s (between (min_bit s) (max_bit rhs))

unfoldable pub get : FieldSet → ℕ → Bool
get s index = if ltb max_index index then s == all else not (bit_and (shl 1 index) s == 0)

unfoldable pub set : FieldSet → ℕ → FieldSet
set s index = if leb index max_index then bit_or s (shl 1 index) else all

-- `JoinSemiLattice::bottom`
abbrev pub bottom : FieldSet
bottom = empty

-- `JoinSemiLattice::invoke`: the joined set, and whether it changed.
unfoldable pub invoke : FieldSet → FieldSet → FieldSet × Bool
unfolding union
invoke s other = (union s other, not (union s other == s))
