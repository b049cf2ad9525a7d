-- ===== src/Types/Flatten.antt =====
-- src/types.rs: `concrete` and `flatten`, from an inferred state to a type of compile.rs.
use frawk.Prelude.{Option, none, some}
use frawk.Result.{Result, ok, err}
use frawk.Types.{BaseTy, null, int, float, str, TVar, iter, scalar, map, State, map_tvar}
use frawk.Compile.{Ty}

concrete_scalar : Option BaseTy → BaseTy
concrete_scalar (some b) = b
concrete_scalar none = null

unfoldable pub concrete : State → TVar BaseTy
unfolding concrete_scalar map_tvar
concrete (some x) = map_tvar concrete_scalar x
concrete none = scalar null

unfoldable pub flatten_base : BaseTy → Ty
flatten_base int = Ty.int
flatten_base float = Ty.float
flatten_base str = Ty.str
flatten_base null = Ty.null

-- An unknown key or value is a string.
unfoldable pub in_map : BaseTy → Ty
unfolding flatten_base
in_map null = Ty.str
in_map ty = flatten_base ty

unfoldable pub map_ty : Ty → Ty → Result Ty
map_ty Ty.int Ty.int = ok Ty.map_int_int
map_ty Ty.int Ty.float = ok Ty.map_int_float
map_ty Ty.int Ty.str = ok Ty.map_int_str
map_ty Ty.str Ty.int = ok Ty.map_str_int
map_ty Ty.str Ty.float = ok Ty.map_str_float
map_ty Ty.str Ty.str = ok Ty.map_str_str
map_ty _ _ = err

unfoldable pub flatten : TVar BaseTy → Result Ty
unfolding flatten_base in_map map_ty
flatten (scalar b) = ok (flatten_base b)
flatten (iter int) = ok Ty.iter_int
flatten (iter null) = ok Ty.iter_str
flatten (iter str) = ok Ty.iter_str
flatten (iter _) = err
flatten (map k v) = map_ty (in_map k) (in_map v)
