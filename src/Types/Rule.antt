-- ===== src/Types/Rule.antt =====
-- src/types.rs: `Constraint::eval` on the edges that carry one value, and `Rule::step`.
use frawk.Prelude.{Bool, true, false, Option, none, some, List, [], ◌∷◌, not}
use frawk.Result.{Result, ok, err, ◌>>=◌}
use frawk.Types.{BaseTy, null, int, float, str, TVar, iter, scalar, map, State}

-- The constraints that are evaluated on the state of one node. `CallBuiltin` and `CallUDF` read
-- the network and are not here.
pub data Constraint {ℓ} (T : Type ℓ) : Type ℓ where
  key_in key val_in val iter_val iter_val_in flows : T → Constraint T

unfoldable pub sub {ℓ κ} : {T : Type ℓ} {S : Type κ} → Constraint T → S → Constraint S
sub (key_in _) s = key_in s
sub (key _) s = key s
sub (val_in _) s = val_in s
sub (val _) s = val s
sub (iter_val _) s = iter_val s
sub (iter_val_in _) s = iter_val_in s
sub (flows _) s = flows s

unfoldable pub is_flow {ℓ} : {T : Type ℓ} → Constraint T → Bool
is_flow (flows _) = true
is_flow _ = false

unfoldable pub eval : Constraint State → Result State
eval (key_in none) = ok (some (map none none))
eval (key_in (some (scalar k))) = ok (some (map k none))
eval (key_in (some _)) = err
eval (key none) = ok none
eval (key (some (map s _))) = ok (some (scalar s))
eval (key (some _)) = err
eval (val_in none) = ok (some (map none none))
eval (val_in (some (scalar v))) = ok (some (map none v))
eval (val_in (some _)) = err
eval (val none) = ok none
eval (val (some (map _ s))) = ok (some (scalar s))
eval (val (some _)) = err
eval (iter_val_in none) = ok (some (iter none))
eval (iter_val_in (some (scalar v))) = ok (some (iter v))
eval (iter_val_in (some _)) = err
eval (iter_val none) = ok none
eval (iter_val (some (iter s))) = ok (some (scalar s))
eval (iter_val (some _)) = err
eval (flows s) = ok s

unfoldable pub value_rule : BaseTy → BaseTy → BaseTy
value_rule null x = x
value_rule x null = x
value_rule str _ = str
value_rule _ str = str
value_rule float _ = float
value_rule _ float = float
value_rule int int = int

unfoldable pub join_key : BaseTy → BaseTy → BaseTy
join_key float _ = str
join_key _ float = str
join_key str _ = str
join_key _ str = str
join_key null _ = str
join_key _ null = str
join_key int _ = int

unfoldable pub lift : (BaseTy → BaseTy → BaseTy) → Option BaseTy → Option BaseTy → Option BaseTy
lift f (some x) (some y) = some (f x y)
lift f (some x) none = some x
lift f none (some x) = some x
lift f none none = none

-- `x == y` on base types (`derive(PartialEq)`)
unfoldable pub eq_base : BaseTy → BaseTy → Bool
eq_base null null = true
eq_base int int = true
eq_base float float = true
eq_base str str = true
eq_base _ _ = false

-- Two iterators with known element types must agree.
unfoldable pub same_iter : BaseTy → BaseTy → State → Result State
unfolding eq_base
same_iter x y cur = elim (eq_base x y) [ true ↦ ok cur | false ↦ err ]

-- One round of the loop of `Rule::step`: the current value with the value of one dependency.
unfoldable pub join : State → State → Result State
unfolding value_rule join_key lift same_iter
join none x = ok x
join x none = ok x
join (some (iter x)) (some (iter none)) = ok (some (iter x))
join (some (iter none)) (some (iter x)) = ok (some (iter x))
join (some (iter (some x))) (some (iter (some y))) = same_iter x y (some (iter (some x)))
join (some (scalar x)) (some (scalar none)) = ok (some (scalar x))
join (some (scalar none)) (some (scalar x)) = ok (some (scalar x))
join (some (scalar (some x))) (some (scalar (some y))) = ok (some (scalar (some (value_rule x y))))
join (some (map k1 v1)) (some (map k2 v2)) =
    ok (some (map (lift join_key k1 k2) (lift value_rule v1 v2)))
join (some _) (some _) = err

pub data Rule : Type 0 where
  var : Rule
  const : State → Rule
  always_notify : Rule

eq_option : Option BaseTy → Option BaseTy → Bool
unfolding eq_base
eq_option none none = true
eq_option (some x) (some y) = eq_base x y
eq_option _ _ = false

both : Bool → Bool → Bool
both true b = b
both false b = false

eq_tvar : TVar (Option BaseTy) → TVar (Option BaseTy) → Bool
unfolding eq_option both
eq_tvar (iter x) (iter y) = eq_option x y
eq_tvar (scalar x) (scalar y) = eq_option x y
eq_tvar (map k v) (map k' v') = both (eq_option k k') (eq_option v v')
eq_tvar _ _ = false

-- `prev == &cur` on states
unfoldable pub eq_state : State → State → Bool
unfolding eq_tvar
eq_state none none = true
eq_state (some x) (some y) = eq_tvar x y
eq_state _ _ = false

-- The loop over the dependencies, which leaves at the first error.
unfoldable pub join_all : State → List State → Result State
unfolding join
join_all cur [] = ok cur
join_all cur (d ∷ deps) = join cur d >>= λ next. join_all next deps

-- The new state, and whether it changed.
unfoldable pub step : Rule → State → List State → Result (Bool × State)
unfolding join_all eq_state
step (const tv) prev deps = ok (not (eq_state tv prev), tv)
step always_notify prev deps = ok (true, none)
step var prev deps = join_all prev deps >>= λ cur. ok (not (eq_state prev cur), cur)
