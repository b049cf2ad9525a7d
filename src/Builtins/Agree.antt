-- ===== src/Builtins/Agree.antt =====
-- The two descriptions of a builtin's result agree: the state that type inference guesses with
-- `step`, and the register type that code generation takes from `type_sig`.
use frawk.Prelude.{ap, sym, ◌∙◌, ◌≡◌, List, length, arith}
use frawk.Result.{ok}
use frawk.Compile.{Ty}
use frawk.Types.{BaseTy, scalar, State, val_of, abs}
use frawk.Types.Flatten.{concrete, flatten}
use frawk.Builtins.{Outcome, done, ◌>>=◌, at, of_result}
use frawk.Builtins.Function.{Function, Unop, Binop}
use frawk.Builtins.Arity.{arity}
use frawk.Builtins.Sig.{
  Sig, sig, arith_sig, neg_sig, inc_map_sig, array_sig, type_sig, has_arity, bit_sig, float_sig,
  not_sig, compare_sig, key_query_sig, clear_sig, to_int_sig, split_sig,
}
use frawk.Builtins.Step.{step, step_arith, step_neg, step_array, bit_ret_state, float_ret_state}
use frawk.Builtins.Results.{
  HaveTys, IsKnown, HasKnownVal, AtHead, HasResult, step_arith-arith_sig, step_neg-neg_sig,
  step_array-array_sig, val-flatten, HaveTys-at, bind-eq-done, done-injective, AtHead-at,
  of_result-eq-done, if-eq-done, arith_sig_comm, inc_map_sig-done,
}

module _ (args : List State) (tys : List Ty) (conv : List Ty) (ret : Ty) (s : State)
    (have : HaveTys args tys) where
  arith_agree :
      (do x ← at tys 0; y ← at tys 1; done (arith_sig x y)) ≡ done (conv, ret)
      → (do x ← at args 0; y ← at args 1; done (step_arith x y)) ≡ done s
      → flatten (concrete s) ≡ ok ret
  arith_agree h k =
      let (t, at_t, h') = bind-eq-done (at tys 0) (λ x. at tys 1 >>= λ y. done (arith_sig x y)) h in
      let (u, at_u, h'') = bind-eq-done (at tys 1) (λ y. done (arith_sig t y)) h' in
      let (x, at_x, k') =
        bind-eq-done (at args 0) (λ x. at args 1 >>= λ y. done (step_arith x y)) k in
      let (y, at_y, k'') = bind-eq-done (at args 1) (λ y. done (step_arith x y)) k' in
      ap (λ z. flatten (concrete z)) (sym (done-injective k''))
      ∙ step_arith-arith_sig x y t u (HaveTys-at args tys 0 x t have at_x at_t)
          (HaveTys-at args tys 1 y u have at_y at_u)
      ∙ ap ok (ap (λ (z : Sig). z.1) (done-injective h''))

  neg_agree :
      AtHead IsKnown args
      → (at tys 0 >>= λ t. done (neg_sig t)) ≡ done (conv, ret)
      → (at args 0 >>= λ x. done (step_neg x)) ≡ done s
      → flatten (concrete s) ≡ ok ret
  neg_agree known h k =
      let (t, at_t, h') = bind-eq-done (at tys 0) (λ t. done (neg_sig t)) h in
      let (x, at_x, k') = bind-eq-done (at args 0) (λ x. done (step_neg x)) k in
      ap (λ z. flatten (concrete z)) (sym (done-injective k'))
      ∙ (step_neg-neg_sig x t (HaveTys-at args tys 0 x t have at_x at_t)).1
          (AtHead-at IsKnown args x known at_x)
      ∙ ap ok (ap (λ (z : Sig). z.1) (done-injective h'))

  array_agree :
      (at tys 0 >>= array_sig) ≡ done (conv, ret)
      → (at args 0 >>= λ x. done (step_array x)) ≡ done s
      → flatten (concrete s) ≡ ok ret
  array_agree h k =
      let (t, at_t, h') = bind-eq-done (at tys 0) array_sig h in
      let (x, at_x, k') = bind-eq-done (at args 0) (λ x. done (step_array x)) k in
      ap (λ z. flatten (concrete z)) (sym (done-injective k'))
      ∙ step_array-array_sig x t ret conv (HaveTys-at args tys 0 x t have at_x at_t) h'

  inc_map_agree :
      AtHead HasKnownVal args
      → inc_map_sig tys ≡ done (conv, ret)
      → (do m ← at args 0; v ← of_result (val_of m); y ← at args 2; done (step_arith v y)) ≡ done s
      → flatten (concrete s) ≡ ok ret
  inc_map_agree known h k =
      let inc = inc_map_sig-done tys conv ret h in
      let add : State → State → Outcome State = λ v y. done (step_arith v y) in
      let (x, at_x, k1) =
        bind-eq-done (at args 0) (λ m. of_result (val_of m) >>= λ v. at args 2 >>= add v) k in
      let (v, val_x, k2) = bind-eq-done (of_result (val_of x)) (λ v. at args 2 >>= add v) k1 in
      let (y, at_y, k3) = bind-eq-done (at args 2) (add v) k2 in
      let have_x = HaveTys-at args tys 0 x inc.m have at_x inc.at_m in
      let have_v =
        val-flatten x inc.m inc.v v (AtHead-at HasKnownVal args x known at_x) have_x
          (of_result-eq-done (val_of x) val_x) inc.val_m in
      ap (λ z. flatten (concrete z)) (sym (done-injective k3))
      ∙ step_arith-arith_sig v y inc.v inc.by have_v
          (HaveTys-at args tys 2 y inc.by have at_y inc.at_by)
      ∙ ap ok (arith_sig_comm inc.v inc.by ∙ inc.result)

-- The tables of operand types whose calls all return an integer.
abbrev ReturnsInt : Outcome Sig → Type 0
ReturnsInt m = (conv : List Ty) (ret : Ty) → m ≡ done (conv, ret) → ret ≡ Ty.int

compare_sig-ReturnsInt : (x y : Ty) → ReturnsInt (compare_sig x y)
unfolding compare_sig
compare_sig-ReturnsInt Ty.str y conv ret h = ground arith
compare_sig-ReturnsInt _ y conv ret h = ground arith

not_sig-ReturnsInt : (x : Ty) → ReturnsInt (not_sig x)
unfolding not_sig
not_sig-ReturnsInt x conv ret h = ground arith

key_query_sig-ReturnsInt : (x : Ty) → ReturnsInt (key_query_sig x)
unfolding key_query_sig
key_query_sig-ReturnsInt x conv ret h = ground arith

to_int_sig-ReturnsInt : (x : Ty) → ReturnsInt (to_int_sig x)
unfolding to_int_sig
to_int_sig-ReturnsInt x conv ret h = ground arith

split_sig-ReturnsInt : (x : Ty) → ReturnsInt (split_sig x)
unfolding split_sig
split_sig-ReturnsInt x conv ret h = ground arith

clear_sig-ReturnsInt : (tys : List Ty) → ReturnsInt (clear_sig tys)
unfolding clear_sig
clear_sig-ReturnsInt tys conv ret h = ground arith

bind-ReturnsInt :
    (m : Outcome Ty) (g : Ty → Outcome Sig) → ((t : Ty) → ReturnsInt (g t)) → ReturnsInt (m >>= g)
bind-ReturnsInt m g all conv ret h = let (t, _, h') = bind-eq-done m g h in all t conv ret h'

abbrev compare : List Ty → Outcome Sig
compare tys = do x ← at tys 0; y ← at tys 1; compare_sig x y

compare-ReturnsInt : (tys : List Ty) → ReturnsInt (compare tys)
compare-ReturnsInt tys =
    bind-ReturnsInt (at tys 0) (λ x. at tys 1 >>= compare_sig x)
      λ x. bind-ReturnsInt (at tys 1) (compare_sig x) (compare_sig-ReturnsInt x)

int_agree :
    (m : Outcome Sig) (conv : List Ty) (ret : Ty) (s : State)
    → ReturnsInt m
    → m ≡ done (conv, ret)
    → done (abs (scalar BaseTy.int)) ≡ done s
    → flatten (concrete s) ≡ ok ret
unfolding abs flatten concrete
int_agree m conv ret s all h k =
    ap (λ z. flatten (concrete z)) (sym (done-injective k)) ∙ ap ok (sym (all conv ret h))

sig-step :
    (f : Function) (args : List State) (tys conv : List Ty) (ret : Ty) (s : State)
    → HaveTys args tys
    → HasResult f args
    → sig f tys ≡ done (conv, ret)
    → step f args ≡ done s
    → flatten (concrete s) ≡ ok ret
unfolding sig step
sig-step (Function.binop Binop.plus) args tys conv ret s have has h k =
    arith_agree args tys conv ret s have h k
sig-step (Function.binop Binop.minus) args tys conv ret s have has h k =
    arith_agree args tys conv ret s have h k
sig-step (Function.binop Binop.modulo) args tys conv ret s have has h k =
    arith_agree args tys conv ret s have h k
sig-step (Function.binop Binop.mult) args tys conv ret s have has h k =
    arith_agree args tys conv ret s have h k
sig-step (Function.unop Unop.neg) args tys conv ret s have has h k =
    neg_agree args tys conv ret s have has h k
sig-step (Function.unop Unop.pos) args tys conv ret s have has h k =
    neg_agree args tys conv ret s have has h k
sig-step Function.array_max args tys conv ret s have has h k =
    array_agree args tys conv ret s have h k
sig-step Function.array_min args tys conv ret s have has h k =
    array_agree args tys conv ret s have h k
sig-step Function.array_sum args tys conv ret s have has h k =
    array_agree args tys conv ret s have h k
sig-step Function.array_mean args tys conv ret s have has h k =
    array_agree args tys conv ret s have h k
sig-step Function.inc_map args tys conv ret s have has h k =
    inc_map_agree args tys conv ret s have has h k
sig-step (Function.binop Binop.lt) args tys conv ret s have has h k =
    int_agree _ conv ret s (compare-ReturnsInt tys) h k
sig-step (Function.binop Binop.gt) args tys conv ret s have has h k =
    int_agree _ conv ret s (compare-ReturnsInt tys) h k
sig-step (Function.binop Binop.lte) args tys conv ret s have has h k =
    int_agree _ conv ret s (compare-ReturnsInt tys) h k
sig-step (Function.binop Binop.gte) args tys conv ret s have has h k =
    int_agree _ conv ret s (compare-ReturnsInt tys) h k
sig-step (Function.binop Binop.eq) args tys conv ret s have has h k =
    int_agree _ conv ret s (compare-ReturnsInt tys) h k
sig-step (Function.unop Unop.not) args tys conv ret s have has h k =
    int_agree _ conv ret s (bind-ReturnsInt (at tys 0) not_sig not_sig-ReturnsInt) h k
sig-step Function.contains args tys conv ret s have has h k =
    int_agree _ conv ret s (bind-ReturnsInt (at tys 0) key_query_sig key_query_sig-ReturnsInt) h k
sig-step Function.delete args tys conv ret s have has h k =
    int_agree _ conv ret s (bind-ReturnsInt (at tys 0) key_query_sig key_query_sig-ReturnsInt) h k
sig-step Function.to_int args tys conv ret s have has h k =
    int_agree _ conv ret s (bind-ReturnsInt (at tys 0) to_int_sig to_int_sig-ReturnsInt) h k
sig-step Function.split args tys conv ret s have has h k =
    int_agree _ conv ret s (bind-ReturnsInt (at tys 1) split_sig split_sig-ReturnsInt) h k
sig-step Function.clear args tys conv ret s have has h k =
    int_agree _ conv ret s (clear_sig-ReturnsInt tys) h k
sig-step _ args tys conv ret s have has h k =
    unfold flatten concrete abs bit_sig float_sig bit_ret_state float_ret_state in ground arith

-- Inference and code generation agree: if the arguments have the register types of their states, the
-- call has a signature, and inference guesses a state, then that state's register type is the one
-- that the signature returns. Three kinds of calls are left out: those of setcol, set_fi, close,
-- update_used_fields, next_file and read_line_stdin_fused; negation and unary plus, unless the
-- operand is known to be an integer, float or string scalar; and increments, unless the map's value
-- type is known to be an integer, a float or a string.
pub step-type_sig :
    (f : Function) (args : List State) (tys conv : List Ty) (ret : Ty) (s : State)
    → HaveTys args tys
    → HasResult f args
    → type_sig f tys ≡ done (conv, ret)
    → step f args ≡ done s
    → flatten (concrete s) ≡ ok ret
unfolding type_sig
step-type_sig f args tys conv ret s have has h k =
    sig-step f args tys conv ret s have has
      (if-eq-done (has_arity (arity f) (length tys)) (sig f tys) h) k
