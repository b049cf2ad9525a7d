-- ===== src/Builtins.antt =====
-- src/builtins.rs: the table of builtin functions, with the types that they take and return.
pub mod Function
pub mod Arity
pub mod Names
pub mod Printed
pub mod Sig
pub mod Step
pub mod Safe
pub mod Results
pub mod Agree
use frawk.Prelude.{ℕ, zero, suc, Option, none, some, List, [], ◌∷◌, get_elem?}
use frawk.Result.{Result, ok, err}

-- `fails` is an error value (`err!`), `panics` an index out of bounds or an `unwrap` of an error.
pub data Outcome {ℓ} (A : Type ℓ) : Type ℓ where
  done : A → Outcome A
  fails panics : Outcome A

infixl 5 ◌>>=◌
abbrev pub ◌>>=◌ {ℓ κ} : {A : Type ℓ} {B : Type κ} → Outcome A → (A → Outcome B) → Outcome B
done a >>= f = f a
fails >>= f = fails
panics >>= f = panics

-- `xs[i]`
abbrev pub at {ℓ} : {A : Type ℓ} → List A → ℕ → Outcome A
at xs i = elim (get_elem? xs i) [ none ↦ panics | some x ↦ done x ]

-- `r?`
abbrev pub of_result {ℓ} : {A : Type ℓ} → Result A → Outcome A
of_result (ok a) = done a
of_result err = fails

-- `r.unwrap()`
abbrev pub unwrap {ℓ} : {A : Type ℓ} → Result A → Outcome A
unwrap (ok a) = done a
unwrap err = panics

abbrev pub replicate {ℓ} : {A : Type ℓ} → ℕ → A → List A
replicate zero a = []
replicate (suc n) a = a ∷ replicate n a
