-- ===== src/Builtins/Names.antt =====
-- src/builtins.rs: looking up the builtins that a program can call by name.
mod Table
pub use Table.{functions}
use mathlib.Core.Path.{subst}
use text.Mathlib.Text.{◌==◌}
use frawk.Prelude.{
  String, eq_iff, ap, ◌≡◌, refl, ◌⊎◌, inl, inr, Bool, true, not, ◌&&◌, Option, none, some, List, [],
  ◌∷◌, if◌then◌else◌, arith, ◌↔◌,
}
use frawk.Builtins.Function.{Function, FloatFunc, Bitwise}

-- A map that is filled in this order keeps the last function inserted under a name.
unfoldable pub look_up : List (String × Function) → String → Option Function
look_up [] name = none
look_up (entry ∷ rest) name =
    let later = look_up rest name in
    elim later [ some g ↦ some g | none ↦ if entry.0 == name then some entry.1 else none ]

-- `TryFrom<&str> for Function`
unfoldable pub try_from : String → Option Function
try_from name = look_up functions name

-- The table has the name, with this function beside it.
abbrev pub Listed : String → Function → List (String × Function) → Type 0
Listed name f [] = ⊥
Listed name f (entry ∷ rest) = ((entry.0 ≡ name) × (entry.1 ≡ f)) ⊎ Listed name f rest

unlisted : List (String × Function) → String → Bool
unlisted [] name = true
unlisted (entry ∷ rest) name = not (entry.0 == name) && unlisted rest name

distinct : List (String × Function) → Bool
unfolding unlisted
distinct [] = true
distinct (entry ∷ rest) = unlisted rest entry.0 && distinct rest

look_up-unlisted :
    (t : List (String × Function)) (name : String) → unlisted t name ≡ true → look_up t name ≡ none
unfolding look_up unlisted
look_up-unlisted [] name h = refl
look_up-unlisted (entry ∷ rest) name h = ground (arith, look_up-unlisted rest name)

look_up-Listed :
    (t : List (String × Function)) (name : String) (f : Function)
    → look_up t name ≡ some f
    → Listed name f t
unfolding look_up
look_up-Listed [] name f h = absurd (ground arith)
look_up-Listed (entry ∷ rest) name f h =
    ground (arith, eq_iff entry.0 name, look_up-Listed rest name f)

and-eq_true : {a b : Bool} → (a && b) ≡ true → (a ≡ true) × (b ≡ true)
and-eq_true {a} {b} h = ground arith

Listed-look_up :
    (t : List (String × Function)) (name : String) (f : Function)
    → distinct t ≡ true
    → Listed name f t
    → look_up t name ≡ some f
unfolding look_up distinct
Listed-look_up [] name f d listed = absurd listed
Listed-look_up (entry ∷ rest) name f d (inl here) =
    let new = look_up-unlisted rest entry.0 (and-eq_true d).0 in
    rw (subst (λ k. look_up rest k ≡ none) here.0 new, (eq_iff entry.0 name).1 here.0)
      (ap some here.1)
Listed-look_up (entry ∷ rest) name f d (inr there) =
    let later = Listed-look_up rest name f (and-eq_true d).1 there in rw later refl

functions-distinct : distinct functions ≡ true
unfolding distinct unlisted
functions-distinct = refl

-- A name is looked up as a function exactly if the table has that function beside the name: no
-- entry hides another.
pub try_from-Listed :
    (name : String) (f : Function) → (try_from name ≡ some f) ↔ Listed name f functions
unfolding try_from
try_from-Listed name f =
    (look_up-Listed functions name f, Listed-look_up functions name f functions-distinct)
