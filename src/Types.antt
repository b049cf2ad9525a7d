-- ===== src/Types.antt =====
-- src/types.rs: the values that type inference computes with, and the rules that move them.
pub mod Rule
pub mod Flatten
pub mod Join
pub mod Order
pub mod Monotone
use frawk.Prelude.{Option, none, some}
use frawk.Result.{Result, ok, err}

pub data BaseTy : Type 0 where
  null int float str : BaseTy

pub data TVar {ℓ} (T : Type ℓ) : Type ℓ where
  iter : T → TVar T
  scalar : T → TVar T
  map : T → T → TVar T

-- `TVar::map`
unfoldable pub map_tvar {ℓ κ} : {T : Type ℓ} {S : Type κ} → (T → S) → TVar T → TVar S
map_tvar f (iter t) = iter (f t)
map_tvar f (scalar t) = scalar (f t)
map_tvar f (map k v) = map (f k) (f v)

abbrev pub State : Type 0
State = Option (TVar (Option BaseTy))

-- `TVar::abs`
unfoldable pub abs : TVar BaseTy → State
unfolding map_tvar
abs t = some (map_tvar some t)

unfoldable pub val_of : State → Result State
val_of (some (map k v)) = ok (some (scalar v))
val_of none = ok none
val_of (some (iter t)) = err
val_of (some (scalar t)) = err
