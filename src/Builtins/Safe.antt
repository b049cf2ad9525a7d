-- ===== src/Builtins/Safe.antt =====
-- No call of a builtin's typing functions indexes past its arguments.
use frawk.Prelude.{ℕ, zero, suc, ◌≤◌, ◌<◌, ◌≡◌, ◌≢◌, refl, ap, some, List, [], ◌∷◌, length, arith}
use frawk.Compile.{Ty, key, val}
use frawk.Types.{State, val_of}
use frawk.Builtins.{done, panics, at, replicate}
use frawk.Builtins.Function.{Function, Unop, Binop}
use frawk.Builtins.Arity.{arity, float_arity, bit_arity}
use frawk.Builtins.Sig.{
  sig, type_sig, bit_sig, float_sig, neg_sig, not_sig, compare_sig, arith_sig, key_query_sig,
  inc_map_array, inc_map_sig, clear_sig, to_int_sig, array_sig, split_sig,
}
use frawk.Builtins.Step.{step}

module _ {ℓ} {A : Type ℓ} where
  pub at_found : (xs : List A) (i : ℕ) → i < length xs → (x : A) × (at xs i ≡ done x)
  at_found [] i h = absurd (omega arith)
  at_found (x ∷ xs) zero h = (x, refl)
  at_found (x ∷ xs) (suc i) h = at_found xs i (omega arith)

-- With at least as many arguments as the builtin takes, `step` never indexes past them.
pub step-ne-panics :
    (f : Function) (args : List State) (n : ℕ)
    → arity f ≡ some n
    → n ≤ length args
    → step f args ≢ panics
unfolding arity step val_of
step-ne-panics Function.close args n a h = ground arith
step-ne-panics (Function.unop Unop.not) args n a h = ground arith
step-ne-panics (Function.unop _) args n a h = ground (arith, at_found args 0)
step-ne-panics (Function.binop Binop.plus) args n a h =
    ground (arith, at_found args 0, at_found args 1)
step-ne-panics (Function.binop _) args n a h = ground (arith, at_found args 0, at_found args 1)
step-ne-panics Function.inc_map args n a h = ground (arith, at_found args 0, at_found args 2)
step-ne-panics _ args n a h = ground (arith, at_found args 0)

sig-ne-panics :
    (f : Function) (tys : List Ty) (n : ℕ) → arity f ≡ some n → n ≤ length tys → sig f tys ≢ panics
unfolding arity sig bit_sig float_sig neg_sig not_sig arith_sig compare_sig key_query_sig
    inc_map_array key val inc_map_sig clear_sig to_int_sig array_sig split_sig
sig-ne-panics Function.close tys n a h = ground arith
sig-ne-panics (Function.unop Unop.column) tys n a h = ground arith
sig-ne-panics (Function.unop _) tys n a h = ground (arith, at_found tys 0)
sig-ne-panics (Function.binop Binop.plus) tys n a h = ground (arith, at_found tys 0, at_found tys 1)
sig-ne-panics (Function.binop _) tys n a h = ground (arith, at_found tys 0, at_found tys 1)
sig-ne-panics Function.inc_map tys n a h = ground (arith, at_found tys 0, at_found tys 2)
sig-ne-panics Function.split tys n a h = ground (arith, at_found tys 1)
sig-ne-panics Function.eval tys n a h = ground (arith, at_found tys 1)
sig-ne-panics _ tys n a h = ground (arith, at_found tys 0)

arity_known : (f : Function) → (n : ℕ) × (arity f ≡ some n)
unfolding arity
arity_known Function.close = (1, refl)
arity_known (Function.float_func f) = (float_arity f, refl)
arity_known (Function.int_func f) = (bit_arity f, refl)
arity_known _ = (_, refl)

-- For any builtin and any argument types, `type_sig` returns a signature or an error: it never
-- indexes past its arguments and never unwraps an error.
pub type_sig-ne-panics : (f : Function) (tys : List Ty) → type_sig f tys ≢ panics
unfolding type_sig
type_sig-ne-panics f tys =
    let (n, known) = arity_known f in ground (arith, known, sig-ne-panics f tys n)

length-replicate {ℓ} : {A : Type ℓ} (n : ℕ) (a : A) → length (replicate n a) ≡ n
length-replicate zero a = refl
length-replicate (suc n) a = ap suc (length-replicate n a)

sig-length :
    (f : Function) (tys args : List Ty) (n : ℕ) (ret : Ty)
    → arity f ≡ some n
    → length tys ≡ n
    → sig f tys ≡ done (args, ret)
    → length args ≡ n
unfolding arity sig bit_sig float_sig neg_sig not_sig arith_sig compare_sig key_query_sig
    inc_map_array key val inc_map_sig clear_sig to_int_sig array_sig split_sig
sig-length Function.close tys args n ret a h e = ground arith
sig-length (Function.float_func f) tys args n ret a h e =
    ground (arith, length-replicate (float_arity f) Ty.float)
sig-length (Function.int_func f) tys args n ret a h e =
    ground (arith, length-replicate (bit_arity f) Ty.int)
sig-length (Function.unop Unop.column) tys args n ret a h e = ground arith
sig-length (Function.unop _) tys args n ret a h e = ground (arith, at_found tys 0)
sig-length (Function.binop Binop.plus) tys args n ret a h e =
    ground (arith, at_found tys 0, at_found tys 1)
sig-length (Function.binop _) tys args n ret a h e = ground (arith, at_found tys 0, at_found tys 1)
sig-length Function.inc_map tys args n ret a h e = ground (arith, at_found tys 0, at_found tys 2)
sig-length Function.split tys args n ret a h e = ground (arith, at_found tys 1)
sig-length Function.eval tys args n ret a h e = ground (arith, at_found tys 1)
sig-length _ tys args n ret a h e = ground (arith, at_found tys 0)

-- A signature wants exactly as many arguments as the call passes.
pub type_sig-length :
    (f : Function) (tys args : List Ty) (ret : Ty)
    → type_sig f tys ≡ done (args, ret)
    → length args ≡ length tys
unfolding type_sig
type_sig-length f tys args ret h =
    let (n, known) = arity_known f in ground (arith, known, sig-length f tys args n ret)
