-- ===== src/Examples/Calls.antt =====
-- src/builtins.rs: calls of builtins.
use frawk.Prelude.{◌≡◌, ◌≢◌, refl, some, List, [], ◌∷◌, arith}
use frawk.Result.{ok}
use frawk.Compile.{Ty, key, val}
use frawk.Types.{int, float, str, scalar, map, State, val_of}
use frawk.Types.Flatten.{flatten, concrete}
use frawk.Builtins.{done, panics}
use frawk.Builtins.Function.{Function, Unop, Binop}
use frawk.Builtins.Arity.{arity}
use frawk.Builtins.Sig.{sig, type_sig, neg_sig, inc_map_sig, arith_sig}
use frawk.Builtins.Step.{step, step_neg, step_arith}
use frawk.Builtins.Agree.{step-type_sig}
use frawk.Builtins.Safe.{step-ne-panics, type_sig-ne-panics}

abbrev number : State
number = some (scalar (some int))

abbrev prices : State
prices = some (map (some str) (some float))

-- `prices[key] += 1`
abbrev inc_states : List State
inc_states = prices ∷ some (scalar (some str)) ∷ number ∷ []

abbrev inc_tys : List Ty
inc_tys = Ty.map_str_float ∷ Ty.str ∷ Ty.int ∷ []

step-type_sig_example : flatten (concrete (some (scalar (some float)))) ≡ ok Ty.float
unfolding inc_map_sig val key arith_sig val_of step_arith
step-type_sig_example =
    step-type_sig Function.inc_map inc_states inc_tys (Ty.map_str_float ∷ Ty.str ∷ Ty.float ∷ [])
      Ty.float (some (scalar (some float))) (unfold flatten concrete in (refl, (refl, (refl, tt))))
      tt (unfold type_sig arity sig in refl) (unfold step in refl)

-- The negation of a map is inferred to be that map, where the signature returns an integer.
negated_map :
    (step (Function.unop Unop.neg) (prices ∷ []) ≡ done prices)
    × (type_sig (Function.unop Unop.neg) (Ty.map_str_float ∷ []) ≡ done (Ty.int ∷ [], Ty.int))
negated_map = (unfold step step_neg in refl, unfold type_sig arity sig neg_sig in refl)

step-ne-panics_example : step Function.inc_map inc_states ≢ panics
step-ne-panics_example =
    step-ne-panics Function.inc_map inc_states 3 (unfold arity in refl) (omega arith)

type_sig-ne-panics_example : type_sig (Function.binop Binop.plus) [] ≢ panics
type_sig-ne-panics_example = type_sig-ne-panics (Function.binop Binop.plus) []
