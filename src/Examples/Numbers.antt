-- ===== src/Examples/Numbers.antt =====
-- src/runtime/float_parse/mod.rs: the integer parsers.
use frawk.Prelude.{◌≡◌, ◌↔◌, [], ◌∷◌, negsuc, arith}
use frawk.Builtins.{panics}
use frawk.FloatParse.{strtoi, hextoi, is_integer, signed}
use frawk.FloatParse.Decimal.{strtoi-value, strtoi-print}
use frawk.FloatParse.Hex.{IsTooShort, hextoi-IsTooShort}

-- "-12x"
strtoi-value_example : strtoi (45 ∷ 49 ∷ 50 ∷ 120 ∷ []) ≡ negsuc 11
unfolding is_integer signed
strtoi-value_example = strtoi-value 45 (49 ∷ 50 ∷ 120 ∷ [])

-- "-407"
strtoi-print_example : strtoi (45 ∷ 52 ∷ 48 ∷ 55 ∷ []) ≡ negsuc 406
strtoi-print_example = strtoi-print (negsuc 406) (omega arith)

-- "-7"
hextoi-IsTooShort_example : (hextoi (45 ∷ 55 ∷ []) ≡ panics) ↔ IsTooShort (45 ∷ 55 ∷ [])
hextoi-IsTooShort_example = hextoi-IsTooShort (45 ∷ 55 ∷ [])
