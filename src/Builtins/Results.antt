-- ===== src/Builtins/Results.antt =====
-- The results of builtins on operands of known types: what `step` and `type_sig` of src/builtins.rs
-- compute from them.
use mathlib.Core.Path.{subst}
use frawk.Prelude.{
  ℕ, zero, suc, ap, ◌≡◌, ◌↔◌, refl, Bool, true, false, ◌||◌, if◌then◌else◌, none, some, List, [],
  ◌∷◌, arith,
}
use frawk.Result.{Result, ok, err}
use frawk.Compile.{Ty, is_array, key, val}
use frawk.Types.{BaseTy, iter, scalar, map, State, val_of}
use frawk.Types.Flatten.{concrete, flatten}
use frawk.Builtins.{Outcome, done, fails, panics, ◌>>=◌, at, unwrap, of_result}
use frawk.Builtins.Function.{Function, Unop}
use frawk.Builtins.Sig.{Sig, arith_sig, neg_sig, inc_map_sig, inc_map_array, array_sig}
use frawk.Builtins.Step.{step_arith, step_neg, step_array}

-- The register types of the arguments are those of their inferred states.
abbrev pub HaveTys : List State → List Ty → Type 0
HaveTys [] [] = Unit {0}
HaveTys (s ∷ ss) (t ∷ ts) = (flatten (concrete s) ≡ ok t) × HaveTys ss ts
HaveTys _ _ = ⊥

-- A scalar that is known to be an integer, a float or a string.
abbrev pub IsKnown : State → Type 0
IsKnown (some (scalar (some BaseTy.int))) = Unit {0}
IsKnown (some (scalar (some BaseTy.float))) = Unit {0}
IsKnown (some (scalar (some BaseTy.str))) = Unit {0}
IsKnown s = ⊥

-- A map whose value type is known to be an integer, a float or a string.
abbrev pub HasKnownVal : State → Type 0
HasKnownVal (some (map k (some BaseTy.int))) = Unit {0}
HasKnownVal (some (map k (some BaseTy.float))) = Unit {0}
HasKnownVal (some (map k (some BaseTy.str))) = Unit {0}
HasKnownVal s = ⊥

abbrev pub AtHead : (State → Type 0) → List State → Type 0
AtHead P [] = ⊥
AtHead P (s ∷ ss) = P s

-- The calls that are compared: all but those of the six builtins that are called for their effect,
-- negation and unary plus of anything but such a scalar (of a map, an iterator or an unknown or null
-- scalar), and increments of anything but such a map.
abbrev pub HasResult : Function → List State → Type 0
HasResult Function.setcol args = ⊥
HasResult Function.set_fi args = ⊥
HasResult Function.close args = ⊥
HasResult Function.update_used_fields args = ⊥
HasResult Function.next_file args = ⊥
HasResult Function.read_line_stdin_fused args = ⊥
HasResult (Function.unop Unop.neg) args = AtHead IsKnown args
HasResult (Function.unop Unop.pos) args = AtHead IsKnown args
HasResult Function.inc_map args = AtHead HasKnownVal args
HasResult _ args = Unit {0}

-- The operands that make arithmetic floating point.
abbrev pub makes_float : State → Bool
makes_float (some (scalar (some BaseTy.str))) = true
makes_float (some (scalar (some BaseTy.float))) = true
makes_float s = false

abbrev pub float_operand : Ty → Bool
float_operand Ty.str = true
float_operand Ty.float = true
float_operand t = false

abbrev pub number_ty : Bool → Ty
number_ty true = Ty.float
number_ty false = Ty.int

pub makes_float-flatten :
    (x : State) (s : Ty) → flatten (concrete x) ≡ ok s → makes_float x ≡ float_operand s
unfolding flatten concrete
makes_float-flatten none s h = ground arith
makes_float-flatten (some (iter x)) s h = ground arith
makes_float-flatten (some (scalar x)) s h = ground arith
makes_float-flatten (some (map k v)) s h = ground arith

pub arith_sig-result :
    (s t : Ty) → (arith_sig s t).1 ≡ number_ty (float_operand s || float_operand t)
unfolding arith_sig
arith_sig-result s t = ground arith

pub step_arith-result :
    (x y : State)
    → flatten (concrete (step_arith x y)) ≡ ok (number_ty (makes_float x || makes_float y))
unfolding step_arith flatten concrete
step_arith-result (some (scalar (some BaseTy.str))) y = ground arith
step_arith-result (some (scalar (some _))) y = ground arith
step_arith-result (some (scalar none)) y = ground arith
step_arith-result (some (iter x)) y = ground arith
step_arith-result (some (map k v)) y = ground arith
step_arith-result none y = ground arith

pub step_arith-arith_sig :
    (x y : State) (s t : Ty)
    → flatten (concrete x) ≡ ok s
    → flatten (concrete y) ≡ ok t
    → flatten (concrete (step_arith x y)) ≡ ok (arith_sig s t).1
step_arith-arith_sig x y s t h k =
    rw (arith_sig-result, ← makes_float-flatten x s h, ← makes_float-flatten y t k)
      (step_arith-result x y)

-- The register type of the guessed state is the one that the signature returns for those operands
-- alone: that of a negated map is the map's, where the signature returns an integer.
pub step_neg-neg_sig :
    (x : State) (t : Ty)
    → flatten (concrete x) ≡ ok t
    → (flatten (concrete (step_neg x)) ≡ ok (neg_sig t).1) ↔ IsKnown x
unfolding flatten concrete step_neg neg_sig
step_neg-neg_sig none t h = ground arith
step_neg-neg_sig (some (iter x)) t h = ground arith
step_neg-neg_sig (some (scalar x)) t h = ground arith
step_neg-neg_sig (some (map k v)) t h = ground arith

pub step_array-array_sig :
    (x : State) (t ret : Ty) (args : List Ty)
    → flatten (concrete x) ≡ ok t
    → array_sig t ≡ done (args, ret)
    → flatten (concrete (step_array x)) ≡ ok ret
unfolding flatten concrete step_array array_sig
step_array-array_sig none t ret args h e = ground arith
step_array-array_sig (some (iter x)) t ret args h e = ground arith
step_array-array_sig (some (scalar x)) t ret args h e = ground arith
step_array-array_sig (some (map k v)) t ret args h e = ground arith

pub val-flatten :
    (m : State) (t s : Ty) (v : State)
    → HasKnownVal m
    → flatten (concrete m) ≡ ok t
    → val_of m ≡ ok v
    → val t ≡ ok s
    → flatten (concrete v) ≡ ok s
unfolding flatten concrete val_of val
val-flatten (some (map k (some BaseTy.int))) t s v known h e e' = ground arith
val-flatten (some (map k (some BaseTy.float))) t s v known h e e' = ground arith
val-flatten (some (map k (some BaseTy.str))) t s v known h e e' = ground arith
val-flatten m t s v known h e e' = ground arith

pub HaveTys-at :
    (args : List State) (tys : List Ty) (i : ℕ) (s : State) (t : Ty)
    → HaveTys args tys
    → at args i ≡ done s
    → at tys i ≡ done t
    → flatten (concrete s) ≡ ok t
HaveTys-at [] tys i s t h a b = cc
HaveTys-at (x ∷ args) [] i s t h a b = cc
HaveTys-at (x ∷ args) (y ∷ tys) zero s t h a b = ground (arith, h.0)
HaveTys-at (x ∷ args) (y ∷ tys) (suc i) s t h a b = HaveTys-at args tys i s t h.1 a b

-- A call that is done, taken apart.
pub bind-eq-done {ℓ κ} :
    {A : Type ℓ} {B : Type κ} (m : Outcome A) (f : A → Outcome B) {b : B}
    → (m >>= f) ≡ done b
    → (a : A) × (m ≡ done a) × (f a ≡ done b)
bind-eq-done (done a) f h = (a, refl, h)
bind-eq-done fails f h = cc
bind-eq-done panics f h = cc

pub done-injective {ℓ} : {A : Type ℓ} {a b : A} → done a ≡ done b → a ≡ b
done-injective h = cc

pub AtHead-at :
    (P : State → Type 0) (args : List State) (x : State) → AtHead P args → at args 0 ≡ done x → P x
AtHead-at P [] x h e = absurd h
AtHead-at P (a ∷ args) x h e = subst P (done-injective e) h

pub unwrap-eq-done {ℓ} : {A : Type ℓ} (r : Result A) {a : A} → unwrap r ≡ done a → r ≡ ok a
unwrap-eq-done (ok a) h = ground arith
unwrap-eq-done err h = cc

pub of_result-eq-done {ℓ} : {A : Type ℓ} (r : Result A) {a : A} → of_result r ≡ done a → r ≡ ok a
of_result-eq-done (ok a) h = ground arith
of_result-eq-done err h = cc

pub if-eq-done {ℓ} :
    {A : Type ℓ} (b : Bool) (m : Outcome A) {a : A} → (if b then m else fails) ≡ done a → m ≡ done a
if-eq-done true m h = h
if-eq-done false m h = cc

pub arith_sig_comm : (s t : Ty) → (arith_sig s t).1 ≡ (arith_sig t s).1
unfolding arith_sig
arith_sig_comm s t = ground arith

-- What a signature of an increment rests on.
pub record IncMapSig (tys : List Ty) (ret : Ty) : Type 0 where
  pub m : Ty
  pub v : Ty
  pub by : Ty
  pub at_m : at tys 0 ≡ done m
  pub val_m : val m ≡ ok v
  pub at_by : at tys 2 ≡ done by
  pub result : (arith_sig by v).1 ≡ ret

pub inc_map_sig-done :
    (tys conv : List Ty) (ret : Ty) → inc_map_sig tys ≡ done (conv, ret) → IncMapSig tys ret
unfolding inc_map_sig inc_map_array
inc_map_sig-done tys conv ret h =
    let array = λ (m : Ty). if is_array m then inc_map_array tys m else fails in
    let (m, at_m, h1) = bind-eq-done (at tys 0) array h in
    let h2 = if-eq-done (is_array m) (inc_map_array tys m) h1 in
    let last : Ty → Ty → Ty → Ty → Outcome Sig =
      λ by v k first. done (m ∷ k ∷ first ∷ [], (arith_sig by v).1) in
    let finish : Ty → Ty → Ty → Outcome Sig = λ by v k. at (arith_sig by v).0 0 >>= last by v k in
    let (v, val_m, h3) =
      bind-eq-done (unwrap (val m)) (λ v. at tys 2 >>= λ by. unwrap (key m) >>= finish by v) h2 in
    let (by, at_by, h4) = bind-eq-done (at tys 2) (λ by. unwrap (key m) >>= finish by v) h3 in
    let (k, _, h5) = bind-eq-done (unwrap (key m)) (finish by v) h4 in
    let (first, _, h6) = bind-eq-done (at (arith_sig by v).0 0) (last by v k) h5 in
    record {
      m = m;
      v = v;
      by = by;
      at_m = at_m;
      val_m = unwrap-eq-done (val m) val_m;
      at_by = at_by;
      result = ap (λ (z : Sig). z.1) (done-injective h6);
    }
