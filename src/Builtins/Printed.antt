-- ===== src/Builtins/Printed.antt =====
-- src/builtins.rs: the names that the bitwise and floating-point builtins print.
use frawk.Prelude.{String, ◌≡◌, refl, some}
use frawk.Builtins.Function.{Function, Bitwise, FloatFunc}
use frawk.Builtins.Names.{try_from, look_up}

-- `Bitwise::func_name`
unfoldable pub bit_name : Bitwise → String
bit_name Bitwise.complement = "compl"
bit_name Bitwise.and = "and"
bit_name Bitwise.or = "or"
bit_name Bitwise.logical_right_shift = "rshiftl"
bit_name Bitwise.arithmetic_right_shift = "rshift"
bit_name Bitwise.left_shift = "lshift"
bit_name Bitwise.xor = "xor"

-- `FloatFunc::func_name`
unfoldable pub float_name : FloatFunc → String
float_name FloatFunc.cos = "cos"
float_name FloatFunc.sin = "sin"
float_name FloatFunc.atan = "atan"
float_name FloatFunc.log = "log"
float_name FloatFunc.log2 = "log2"
float_name FloatFunc.log10 = "log10"
float_name FloatFunc.sqrt = "sqrt"
float_name FloatFunc.atan2 = "atan2"
float_name FloatFunc.exp = "exp"
float_name FloatFunc.abs = "abs"
float_name FloatFunc.ceil = "ceil"
float_name FloatFunc.floor = "floor"
float_name FloatFunc.round = "round"

-- A bitwise builtin is found under the name that it prints.
try_from-bit_name : (bw : Bitwise) → try_from (bit_name bw) ≡ some (Function.int_func bw)
unfolding try_from look_up bit_name
try_from-bit_name Bitwise.complement = refl
try_from-bit_name Bitwise.and = refl
try_from-bit_name Bitwise.or = refl
try_from-bit_name Bitwise.logical_right_shift = refl
try_from-bit_name Bitwise.arithmetic_right_shift = refl
try_from-bit_name Bitwise.left_shift = refl
try_from-bit_name Bitwise.xor = refl

-- A floating-point builtin is found under the name that it prints.
try_from-float_name : (ff : FloatFunc) → try_from (float_name ff) ≡ some (Function.float_func ff)
unfolding try_from look_up float_name
try_from-float_name FloatFunc.cos = refl
try_from-float_name FloatFunc.sin = refl
try_from-float_name FloatFunc.atan = refl
try_from-float_name FloatFunc.log = refl
try_from-float_name FloatFunc.log2 = refl
try_from-float_name FloatFunc.log10 = refl
try_from-float_name FloatFunc.sqrt = refl
try_from-float_name FloatFunc.atan2 = refl
try_from-float_name FloatFunc.exp = refl
try_from-float_name FloatFunc.abs = refl
try_from-float_name FloatFunc.ceil = refl
try_from-float_name FloatFunc.floor = refl
try_from-float_name FloatFunc.round = refl

-- A bitwise builtin and a floating-point builtin are found under the names that they print.
pub try_from_printed :
    (bw : Bitwise) (ff : FloatFunc)
    → (try_from (bit_name bw) ≡ some (Function.int_func bw))
      × (try_from (float_name ff) ≡ some (Function.float_func ff))
try_from_printed bw ff = (try_from-bit_name bw, try_from-float_name ff)
