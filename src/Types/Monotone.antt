-- ===== src/Types/Monotone.antt =====
-- Which edges of the type network are monotone, and which states have a register type.
use mathlib.Core.Path.{subst}
use frawk.Prelude.{◌≡◌, ◌↔◌, refl, Option, none, some, arith}
use frawk.Result.{ok, err}
use frawk.Types.{BaseTy, float, iter, scalar, map, State}
use frawk.Types.Rule.{Constraint, key_in, key, val_in, val, iter_val, iter_val_in, flows, sub, eval}
use frawk.Types.Flatten.{concrete, flatten}
use frawk.Types.Order.{ValueLe, KeyLe, IterLe, StateLe, Below, ok-injective}

-- The constraints that take keys and iterated values out of a node's values are not monotone:
-- a null key is not below an integer key.
abbrev pub IsMonotone {ℓ} : {T : Type ℓ} → Constraint T → Type 0
IsMonotone (key_in _) = ⊥
IsMonotone (iter_val_in _) = ⊥
IsMonotone _ = Unit {0}

KeyLe→ValueLe : (x y : Option BaseTy) → KeyLe x y → ValueLe x y
KeyLe→ValueLe x y h = ground arith

IterLe→ValueLe : (x y : Option BaseTy) → IterLe x y → ValueLe x y
IterLe→ValueLe x y h = ground arith

-- Along an edge `Key`, `ValIn`, `Val`, `IterVal` or `Flows`, less information about the source makes
-- no new error, and gives no more information about the target. Nothing is said of the edges `KeyIn`
-- and `IterValIn`, nor of those of calls, `CallBuiltin` and `CallUDF`.
pub eval_mono {ℓ} :
    {T : Type ℓ} (c : Constraint T) (s t b : State)
    → IsMonotone c
    → StateLe s t
    → eval (sub c t) ≡ ok b
    → Below b (eval (sub c s))
unfolding eval sub
eval_mono (key _) none t b m h e = (none, refl, tt)
eval_mono (key _) (some (map k v)) (some (map k' v')) b m h e = (
  some (scalar k),
  refl,
  subst (StateLe (some (scalar k))) (ok-injective e) (KeyLe→ValueLe k k' h.0),
)
eval_mono (key _) (some x) t b m h e = absurd (ground arith)
eval_mono (val_in _) none t b m h e = (some (map none none), refl, ground arith)
eval_mono (val_in _) (some (scalar v)) (some (scalar v')) b m h e =
    (some (map none v), refl, subst (StateLe (some (map none v))) (ok-injective e) (tt, h))
eval_mono (val_in _) (some x) t b m h e = absurd (ground arith)
eval_mono (val _) none t b m h e = (none, refl, tt)
eval_mono (val _) (some (map k v)) (some (map k' v')) b m h e =
    (some (scalar v), refl, subst (StateLe (some (scalar v))) (ok-injective e) h.1)
eval_mono (val _) (some x) t b m h e = absurd (ground arith)
eval_mono (iter_val _) none t b m h e = (none, refl, tt)
eval_mono (iter_val _) (some (iter x)) (some (iter y)) b m h e = (
  some (scalar x),
  refl,
  subst (StateLe (some (scalar x))) (ok-injective e) (IterLe→ValueLe x y h),
)
eval_mono (iter_val _) (some x) t b m h e = absurd (ground arith)
eval_mono (flows _) s t b m h e = (s, refl, subst (StateLe s) (ok-injective e) h)
eval_mono (key_in _) s t b m h e = absurd m
eval_mono (iter_val_in _) s t b m h e = absurd m

-- The states that `flatten` refuses: iterators over floats, and maps with float keys.
abbrev pub Unsupported : State → Type 0
Unsupported (some (iter (some float))) = Unit {0}
Unsupported (some (map (some float) v)) = Unit {0}
Unsupported s = ⊥

-- The inferred type of a variable has no register type exactly if it is such a state.
pub flatten-concrete : (s : State) → (flatten (concrete s) ≡ err) ↔ Unsupported s
unfolding flatten concrete
flatten-concrete none = ground arith
flatten-concrete (some (iter x)) = ground arith
flatten-concrete (some (scalar x)) = ground arith
flatten-concrete (some (map k v)) = ground arith
