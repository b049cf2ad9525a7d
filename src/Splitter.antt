-- ===== src/Splitter.antt =====
-- src/runtime/splitter/batch.rs: `Stepper`, which cuts a buffer of CSV or TSV text into the fields
-- of one record, from the offsets of its control characters. A `Str` is the list of its bytes.
pub mod Step
pub mod Record
pub mod Fuel
use frawk.Prelude.{
  ℕ, zero, suc, ◌+◌, ◌-◌, ◌%◌, ◌^◌, Option, none, some, List, [], ◌∷◌, ◌++◌, get_elem?, length,
  if◌then◌else◌,
}
use frawk.Pushdown.{FieldSet, get}
use frawk.Pushdown.Words.{wrapping_sub}

pub data InputFormat : Type 0 where
  csv tsv : InputFormat

unfoldable pub sep : InputFormat → ℕ
sep csv = b','
sep tsv = b'\t'

pub data State : Type 0 where
  init bs quote quote_in_quote done : State

pub record Line : Type 0 where
  pub raw : List ℕ
  pub len : ℕ
  pub fields : List (List ℕ)
  pub partial : List ℕ

-- `Line::default`
abbrev pub empty_line : Line
empty_line = record { raw = []; len = 0; fields = []; partial = [] }

unfoldable pub promote_line : Line → Line
promote_line line = record line { fields = line.fields ++ line.partial ∷ []; partial = [] }

unfoldable pub promote_null_line : Line → Line
promote_null_line line = record line { fields = line.fields ++ [] ∷ [] }

unfoldable pub clear : Line → Line
clear line = empty_line

-- The offsets `rel` are `fields` from `start` on; `buf` holds the `buf_len` bytes of the buffer.
pub record Stepper : Type 0 where
  pub ifmt : InputFormat
  pub buf : List ℕ
  pub fields : List ℕ
  pub start : ℕ
  pub prev_ix : ℕ
  pub st : State
  pub line : Line
  pub field_set : FieldSet

abbrev pub drop : ℕ → List ℕ → List ℕ
drop zero xs = xs
drop (suc n) [] = []
drop (suc n) (x ∷ xs) = drop n xs

abbrev pub take : ℕ → List ℕ → List ℕ
take zero xs = []
take (suc n) [] = []
take (suc n) (x ∷ xs) = x ∷ take n xs

-- `Buf::slice_to_str`, whose length is `to.saturating_sub(from)`.
unfoldable pub slice : List ℕ → ℕ → ℕ → List ℕ
slice buf from to = take (to - from) (drop from buf)

unfoldable pub append : Stepper → List ℕ → Stepper
append s str = record s { line = record s.line { partial = s.line.partial ++ str } }

unfoldable pub append_slice : Stepper → ℕ → ℕ → Stepper
unfolding append slice
append_slice s i j = append s (slice s.buf i j)

unfoldable pub push_past : Stepper → ℕ → Stepper
unfolding append_slice
push_past s i = record (append_slice s s.prev_ix i) { prev_ix = suc i }

unfoldable pub promote : Stepper → Stepper
unfolding promote_line
promote s = record s { line = promote_line s.line }

unfoldable pub promote_null : Stepper → Stepper
unfolding promote_null_line
promote_null s = record s { line = promote_null_line s.line }

-- `len += j - line_start` in a release build, on 64 bits: it wraps around if `line_start` is past `j`,
-- where a build with overflow checks panics.
unfoldable pub grow : ℕ → ℕ → ℕ → ℕ
grow len line_start j = (len + wrapping_sub j line_start) % 2 ^ 64

-- `Stepper::get`, whose result is the `prev_ix` of the stepper. The record's text is kept if column 0
-- is read.
unfoldable pub finish : Stepper → ℕ → ℕ → ℕ → Stepper
unfolding slice grow
finish s line_start j cur = record s {
  start = cur;
  line = record s.line {
    raw = if get s.field_set 0 then slice s.buf line_start j else s.line.raw;
    len = grow s.line.len line_start j;
  };
}
