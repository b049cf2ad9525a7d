-- ===== src/Examples/Inference.antt =====
-- src/types.rs: variables that are used as numbers, strings and maps.
use mathlib.Core.List.Perm
use frawk.Prelude.{◌≡◌, ◌↔◌, refl, Bool, true, false, none, some, [], ◌∷◌, All, arith}
use frawk.Result.{ok, err}
use frawk.Types.{null, int, str, scalar, map, State}
use frawk.Types.Rule.{var, key, step, eval, sub}
use frawk.Types.Flatten.{flatten, concrete}
use frawk.Types.Join.{step-perm, step_settles}
use frawk.Types.Order.{StateLe, HasProperKey, Below, step_least_upper}
use frawk.Types.Monotone.{flatten-concrete, Unsupported, eval_mono}

abbrev number : State
number = some (scalar (some int))

abbrev word : State
word = some (scalar (some str))

abbrev scores : State
scores = some (map (some str) (some int))

abbrev by_null : State
by_null = some (map (some null) (some null))

step-perm_example : step var none (number ∷ word ∷ []) ≡ step var none (word ∷ number ∷ [])
step-perm_example = step-perm var none (Perm.swap word number [])

step_least_upper_example :
    (s : State) × (c : Bool) × (step var none (number ∷ word ∷ []) ≡ ok (c, s))
    × StateLe none s
    × All (λ d. StateLe d s) (number ∷ word ∷ [])
    × ((v : State)
        → HasProperKey v
        → StateLe none v
        → All (λ d. StateLe d v) (number ∷ word ∷ [])
        → StateLe s v)
step_least_upper_example =
    step_least_upper word none (number ∷ word ∷ []) tt tt (omega arith, (omega arith, tt))

-- A rule makes a string key of two null keys.
null_keys_join : step var by_null (by_null ∷ []) ≡ ok (true, some (map (some str) (some null)))
null_keys_join = unfold step in refl

step_settles_example : step var word (number ∷ word ∷ []) ≡ ok (false, word)
step_settles_example =
    step_settles number word word (number ∷ word ∷ []) true false (unfold step in refl)
      (unfold step in refl)

eval_mono_example : Below (some (scalar (some str))) (eval (sub (key number) none))
eval_mono_example =
    eval_mono (key number) none scores (some (scalar (some str))) tt tt (unfold eval sub in refl)

flatten-concrete_example : (flatten (concrete scores) ≡ err) ↔ Unsupported scores
flatten-concrete_example = flatten-concrete scores
