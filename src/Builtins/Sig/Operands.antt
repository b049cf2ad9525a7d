-- ===== src/Builtins/Sig/Operands.antt =====
-- src/builtins.rs: the parts of `Function::type_sig` that look at the types of the operands.
use frawk.Prelude.{List, [], ◌∷◌, length, ◌==◌, if◌then◌else◌}
use frawk.Compile.{Ty, is_array, key, val}
use frawk.Builtins.{Outcome, done, fails, ◌>>=◌, at, unwrap, replicate}
use frawk.Builtins.Function.{FloatFunc, Bitwise}
use frawk.Builtins.Arity.{bit_arity, float_arity}

abbrev pub Sig : Type 0
Sig = List Ty × Ty

-- `Bitwise::sig`
unfoldable pub bit_sig : Bitwise → Sig
unfolding bit_arity
bit_sig bw = (replicate (bit_arity bw) Ty.int, Ty.int)

-- `FloatFunc::sig`
unfoldable pub float_sig : FloatFunc → Sig
unfolding float_arity
float_sig ff = (replicate (float_arity ff) Ty.float, Ty.float)

unfoldable pub arith_sig : Ty → Ty → Sig
arith_sig Ty.str _ = (Ty.float ∷ Ty.float ∷ [], Ty.float)
arith_sig _ Ty.str = (Ty.float ∷ Ty.float ∷ [], Ty.float)
arith_sig Ty.float _ = (Ty.float ∷ Ty.float ∷ [], Ty.float)
arith_sig _ Ty.float = (Ty.float ∷ Ty.float ∷ [], Ty.float)
arith_sig _ _ = (Ty.int ∷ Ty.int ∷ [], Ty.int)

-- Unary minus and plus.
unfoldable pub neg_sig : Ty → Sig
neg_sig Ty.str = (Ty.float ∷ [], Ty.float)
neg_sig Ty.float = (Ty.float ∷ [], Ty.float)
neg_sig _ = (Ty.int ∷ [], Ty.int)

unfoldable pub not_sig : Ty → Outcome Sig
not_sig Ty.float = done (Ty.int ∷ [], Ty.int)
not_sig Ty.int = done (Ty.int ∷ [], Ty.int)
not_sig Ty.str = done (Ty.str ∷ [], Ty.int)
not_sig _ = fails

-- The arguments of a comparison.
unfoldable pub compare_sig : Ty → Ty → Outcome Sig
compare_sig Ty.str Ty.str = done (Ty.str ∷ Ty.str ∷ [], Ty.int)
compare_sig Ty.int Ty.int = done (Ty.int ∷ Ty.int ∷ [], Ty.int)
compare_sig Ty.null Ty.int = done (Ty.int ∷ Ty.int ∷ [], Ty.int)
compare_sig Ty.int Ty.null = done (Ty.int ∷ Ty.int ∷ [], Ty.int)
compare_sig Ty.null Ty.null = done (Ty.int ∷ Ty.int ∷ [], Ty.int)
compare_sig _ Ty.str = done (Ty.float ∷ Ty.float ∷ [], Ty.int)
compare_sig Ty.str _ = done (Ty.float ∷ Ty.float ∷ [], Ty.int)
compare_sig Ty.float _ = done (Ty.float ∷ Ty.float ∷ [], Ty.int)
compare_sig _ Ty.float = done (Ty.float ∷ Ty.float ∷ [], Ty.int)
compare_sig _ _ = fails

-- `Contains` and `Delete`.
unfoldable pub key_query_sig : Ty → Outcome Sig
key_query_sig Ty.map_int_int = done (Ty.map_int_int ∷ Ty.int ∷ [], Ty.int)
key_query_sig Ty.map_int_str = done (Ty.map_int_str ∷ Ty.int ∷ [], Ty.int)
key_query_sig Ty.map_int_float = done (Ty.map_int_float ∷ Ty.int ∷ [], Ty.int)
key_query_sig Ty.map_str_int = done (Ty.map_str_int ∷ Ty.str ∷ [], Ty.int)
key_query_sig Ty.map_str_str = done (Ty.map_str_str ∷ Ty.str ∷ [], Ty.int)
key_query_sig Ty.map_str_float = done (Ty.map_str_float ∷ Ty.str ∷ [], Ty.int)
key_query_sig _ = fails

-- The increment `m[k] += v`; the map's value type is added to the third argument's.
unfoldable pub inc_map_array : List Ty → Ty → Outcome Sig
inc_map_array incoming m = do
  v ← unwrap (val m)
  by ← at incoming 2
  k ← unwrap (key m)
  let sums = arith_sig by v
  first ← at sums.0 0
  done (m ∷ k ∷ first ∷ [], sums.1)

unfoldable pub inc_map_sig : List Ty → Outcome Sig
unfolding is_array inc_map_array
inc_map_sig incoming = at incoming 0 >>= λ m. if is_array m then inc_map_array incoming m else fails

unfoldable pub clear_sig : List Ty → Outcome Sig
unfolding is_array
clear_sig incoming =
    if length incoming == 1
    then (do m ← at incoming 0; if is_array m then done (m ∷ [], Ty.int) else fails)
    else fails

unfoldable pub to_int_sig : Ty → Outcome Sig
to_int_sig Ty.null = done (Ty.null ∷ [], Ty.int)
to_int_sig Ty.int = done (Ty.int ∷ [], Ty.int)
to_int_sig Ty.float = done (Ty.float ∷ [], Ty.int)
to_int_sig Ty.str = done (Ty.str ∷ [], Ty.int)
to_int_sig _ = fails

-- `ArrayMax`, `ArrayMin`, `ArraySum` and `ArrayMean`.
unfoldable pub array_sig : Ty → Outcome Sig
array_sig Ty.map_int_int = done (Ty.map_int_int ∷ [], Ty.int)
array_sig Ty.map_int_float = done (Ty.map_int_float ∷ [], Ty.float)
array_sig _ = fails

-- The second argument of `Split` is a map to strings.
unfoldable pub split_sig : Ty → Outcome Sig
split_sig Ty.map_int_str = done (Ty.str ∷ Ty.map_int_str ∷ Ty.str ∷ [], Ty.int)
split_sig Ty.map_str_str = done (Ty.str ∷ Ty.map_str_str ∷ Ty.str ∷ [], Ty.int)
split_sig _ = fails
