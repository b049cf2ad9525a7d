-- ===== src/Examples/Tables.antt =====
-- src/builtins.rs: the table of function names.
use frawk.Prelude.{◌≡◌, ◌↔◌, some}
use frawk.Builtins.Function.{Function, Bitwise, FloatFunc}
use frawk.Builtins.Names.{functions, try_from, Listed, try_from-Listed}
use frawk.Builtins.Printed.{bit_name, float_name, try_from_printed}

try_from-Listed_example :
    (try_from "strlen" ≡ some Function.strlen) ↔ Listed "strlen" Function.strlen functions
try_from-Listed_example = try_from-Listed "strlen" Function.strlen

try_from_printed_example :
    (try_from (bit_name Bitwise.xor) ≡ some (Function.int_func Bitwise.xor))
    × (try_from (float_name FloatFunc.atan2) ≡ some (Function.float_func FloatFunc.atan2))
try_from_printed_example = try_from_printed Bitwise.xor FloatFunc.atan2
