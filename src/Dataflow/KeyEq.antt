-- ===== src/Dataflow/KeyEq.antt =====
-- src/dataflow.rs: the equality that `Key` derives, from the numbers that the source gives to the types
-- of registers and to the variables.
use mathlib.Core.Path.{subst}
use frawk.Prelude.{ℕ, ◌≡◌, ap, ap₂, refl, Bool, true, false, ◌&&◌, ◌==◌, ==→eq, ==-refl, arith}
use frawk.Compile.{Ty}
use frawk.Builtins.Function.{Variable}
use frawk.Dataflow.Keys.{IsEquality}
use frawk.Dataflow.Boilerplate.{Key}

unfoldable pub ty_number : Ty → ℕ
ty_number Ty.int = 0
ty_number Ty.float = 1
ty_number Ty.str = 2
ty_number Ty.map_int_int = 3
ty_number Ty.map_int_float = 4
ty_number Ty.map_int_str = 5
ty_number Ty.map_str_int = 6
ty_number Ty.map_str_float = 7
ty_number Ty.map_str_str = 8
ty_number Ty.iter_int = 9
ty_number Ty.iter_str = 10
ty_number Ty.null = 11

unfoldable pub variable_number : Variable → ℕ
variable_number Variable.argc = 0
variable_number Variable.argv = 1
variable_number Variable.ofs = 2
variable_number Variable.fs = 3
variable_number Variable.rs = 4
variable_number Variable.nf = 5
variable_number Variable.nr = 6
variable_number Variable.filename = 7
variable_number Variable.rstart = 8
variable_number Variable.rlength = 9
variable_number Variable.ors = 10
variable_number Variable.fnr = 11
variable_number Variable.pid = 12
variable_number Variable.fi = 13
variable_number Variable.environ = 14
variable_number Variable.procinfo = 15
variable_number Variable.convfmt = 16

unfoldable pub key_eq : Key → Key → Bool
unfolding ty_number variable_number
key_eq (Key.reg n t) (Key.reg n' t') = (n == n') && (ty_number t == ty_number t')
key_eq (Key.map_key n t) (Key.map_key n' t') = (n == n') && (ty_number t == ty_number t')
key_eq (Key.map_val n t) (Key.map_val n' t') = (n == n') && (ty_number t == ty_number t')
key_eq Key.rng Key.rng = true
key_eq (Key.var v) (Key.var v') = variable_number v == variable_number v'
key_eq (Key.var_key v) (Key.var_key v') = variable_number v == variable_number v'
key_eq (Key.var_val v) (Key.var_val v') = variable_number v == variable_number v'
key_eq (Key.slot n t) (Key.slot n' t') = (n == n') && (ty_number t == ty_number t')
key_eq (Key.func n) (Key.func n') = n == n'
key_eq _ _ = false

pub ty_number-injective : (t t' : Ty) → ty_number t ≡ ty_number t' → t ≡ t'
unfolding ty_number
ty_number-injective t t' h = ground arith

variable_number-injective : (v v' : Variable) → variable_number v ≡ variable_number v' → v ≡ v'
unfolding variable_number
variable_number-injective v v' h = ground arith

key_eq_refl : (k : Key) → key_eq k k ≡ true
unfolding key_eq
key_eq_refl (Key.reg n t) = ground (arith, ==-refl n, ==-refl (ty_number t))
key_eq_refl (Key.map_key n t) = ground (arith, ==-refl n, ==-refl (ty_number t))
key_eq_refl (Key.map_val n t) = ground (arith, ==-refl n, ==-refl (ty_number t))
key_eq_refl Key.rng = refl
key_eq_refl (Key.var v) = ==-refl (variable_number v)
key_eq_refl (Key.var_key v) = ==-refl (variable_number v)
key_eq_refl (Key.var_val v) = ==-refl (variable_number v)
key_eq_refl (Key.slot n t) = ground (arith, ==-refl n, ==-refl (ty_number t))
key_eq_refl (Key.func n) = ==-refl n

both-equal :
    (n n' : ℕ) (t t' : Ty)
    → ((n == n') && (ty_number t == ty_number t')) ≡ true
    → (n ≡ n') × (t ≡ t')
both-equal n n' t t' h = (
  ==→eq n n' (ground (arith, h)),
  ty_number-injective t t' (==→eq (ty_number t) (ty_number t') (ground (arith, h))),
)

same_variable : (v v' : Variable) → (variable_number v == variable_number v') ≡ true → v ≡ v'
same_variable v v' h =
    variable_number-injective v v' (==→eq (variable_number v) (variable_number v') h)

key_eq_sound : (k k' : Key) → key_eq k k' ≡ true → k ≡ k'
unfolding key_eq
key_eq_sound (Key.reg n t) (Key.reg n' t') h =
    let (e, f) = both-equal n n' t t' h in ap₂ Key.reg e f
key_eq_sound (Key.map_key n t) (Key.map_key n' t') h =
    let (e, f) = both-equal n n' t t' h in ap₂ Key.map_key e f
key_eq_sound (Key.map_val n t) (Key.map_val n' t') h =
    let (e, f) = both-equal n n' t t' h in ap₂ Key.map_val e f
key_eq_sound Key.rng Key.rng h = refl
key_eq_sound (Key.var v) (Key.var v') h = ap Key.var (same_variable v v' h)
key_eq_sound (Key.var_key v) (Key.var_key v') h = ap Key.var_key (same_variable v v' h)
key_eq_sound (Key.var_val v) (Key.var_val v') h = ap Key.var_val (same_variable v v' h)
key_eq_sound (Key.slot n t) (Key.slot n' t') h =
    let (e, f) = both-equal n n' t t' h in ap₂ Key.slot e f
key_eq_sound (Key.func n) (Key.func n') h = ap Key.func (==→eq n n' h)
key_eq_sound k k' h = absurd (ground (arith, h))

pub key_eq-IsEquality : IsEquality key_eq
key_eq-IsEquality k k' = (key_eq_sound k k', λ e. subst (λ x. key_eq k x ≡ true) e (key_eq_refl k))
