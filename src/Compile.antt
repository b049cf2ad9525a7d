-- ===== src/Compile.antt =====
-- src/compile.rs: the types of registers.
use frawk.Prelude.{Bool, true, false}
use frawk.Result.{Result, ok, err}

pub data Ty : Type 0 where
  int float str : Ty
  map_int_int map_int_float map_int_str map_str_int map_str_float map_str_str : Ty
  iter_int iter_str null : Ty

unfoldable pub is_iter : Ty → Bool
is_iter Ty.iter_int = true
is_iter Ty.iter_str = true
is_iter _ = false

unfoldable pub key_iter : Ty → Result Ty
key_iter Ty.map_int_int = ok Ty.iter_int
key_iter Ty.map_int_float = ok Ty.iter_int
key_iter Ty.map_int_str = ok Ty.iter_int
key_iter Ty.map_str_int = ok Ty.iter_str
key_iter Ty.map_str_float = ok Ty.iter_str
key_iter Ty.map_str_str = ok Ty.iter_str
key_iter _ = err

-- `Ty::iter`
unfoldable pub iter_elem : Ty → Result Ty
iter_elem Ty.iter_int = ok Ty.int
iter_elem Ty.iter_str = ok Ty.str
iter_elem _ = err

unfoldable pub is_array : Ty → Bool
is_array Ty.map_int_int = true
is_array Ty.map_int_float = true
is_array Ty.map_int_str = true
is_array Ty.map_str_int = true
is_array Ty.map_str_float = true
is_array Ty.map_str_str = true
is_array _ = false

unfoldable pub key : Ty → Result Ty
key Ty.map_int_int = ok Ty.int
key Ty.map_int_float = ok Ty.int
key Ty.map_int_str = ok Ty.int
key Ty.map_str_int = ok Ty.str
key Ty.map_str_float = ok Ty.str
key Ty.map_str_str = ok Ty.str
key _ = err

unfoldable pub val : Ty → Result Ty
val Ty.map_str_int = ok Ty.int
val Ty.map_int_int = ok Ty.int
val Ty.map_str_float = ok Ty.float
val Ty.map_int_float = ok Ty.float
val Ty.map_str_str = ok Ty.str
val Ty.map_int_str = ok Ty.str
val _ = err
