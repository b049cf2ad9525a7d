-- ===== src/FloatParse.antt =====
-- src/runtime/float_parse/mod.rs: the integer parsers `strtoi` and `hextoi`. A byte is a number.
pub mod Decimal
pub mod Hex
use frawk.Prelude.{
  ℕ, zero, suc, ◌+◌, ◌-◌, ◌*◌, ◌^◌, ◌<◌, Bool, true, false, ◌&&◌, ◌||◌, ◌==◌, ltb, leb,
  if◌then◌else◌, Option, none, some, List, [], ◌∷◌, ℤ, pos, negsuc, length,
}
use frawk.Builtins.{Outcome, done, fails, panics}

unfoldable pub is_integer : ℕ → Bool
is_integer c = leb 48 c && leb c 57

-- `checked_mul` and `checked_add` of `i64`, on numbers that are not negative.
unfoldable pub checked : ℕ → Option ℕ
checked n = if ltb n (2 ^ 63) then some n else none

-- `-i`, for an `i` that is not negative
unfoldable pub negated : ℕ → ℤ
negated zero = pos zero
negated (suc n) = negsuc n

unfoldable pub signed : Bool → ℕ → ℤ
unfolding negated
signed neg i = if neg then negated i else pos i

-- The loop of `strtoi`; `none` is the return of 0 on an overflow.
unfoldable pub decimal_loop : List ℕ → ℕ → Option ℕ
unfolding is_integer checked
decimal_loop [] i = some i
decimal_loop (b ∷ bs) i =
    if is_integer b
    then elim (checked (i * 10)) [
      | none ↦ none
      | some j ↦ elim (checked (j + (b - 48))) [ none ↦ none | some k ↦ decimal_loop bs k ]
    ]
    else some i

unfoldable pub answer : Bool → Option ℕ → ℤ
unfolding signed
answer neg none = pos 0
answer neg (some i) = signed neg i

unfoldable pub strtoi : List ℕ → ℤ
unfolding decimal_loop answer
strtoi [] = pos 0
strtoi (b ∷ bs) =
    let neg = b == 45 in answer neg (decimal_loop (if neg || b == 43 then bs else b ∷ bs) 0)

unfoldable pub hex_digit : ℕ → Option ℕ
hex_digit b =
    if leb 65 b && leb b 70
    then some (b - 65 + 10)
    else if leb 97 b && leb b 102
    then some (b - 97 + 10)
    else if leb 48 b && leb b 57
    then some (b - 48)
    else none

unfoldable pub hex_loop : List ℕ → ℕ → Option ℕ
unfolding hex_digit checked
hex_loop [] i = some i
hex_loop (b ∷ bs) i = elim (hex_digit b) [
  | none ↦ some i
  | some digit ↦ elim (checked (i * 16)) [
    | none ↦ none
    | some j ↦ elim (checked (j + digit)) [ none ↦ none | some k ↦ hex_loop bs k ]
  ]
]

-- The text behind the prefix. The slice `bs[0..2]` is out of bounds on a text of less than two bytes:
-- the length is tested for the prefix 0x alone.
unfoldable pub skip_prefix : List ℕ → Outcome (List ℕ)
skip_prefix [] = panics
skip_prefix (b ∷ []) = panics
skip_prefix (b ∷ c ∷ bs) = if b == 48 && (c == 120 || c == 88) then done bs else done (b ∷ c ∷ bs)

unfoldable pub hextoi : List ℕ → Outcome ℤ
unfolding skip_prefix hex_loop answer
hextoi [] = done (pos 0)
hextoi (b ∷ bs) =
    let neg = b == 45 in
    elim (skip_prefix (if neg then bs else b ∷ bs)) [
      | done rest ↦ done (answer neg (hex_loop rest 0))
      | fails ↦ panics
      | panics ↦ panics
    ]
