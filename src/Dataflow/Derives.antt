-- ===== src/Dataflow/Derives.antt =====
-- src/dataflow.rs: how values flow along the edges of a program's instructions.
use frawk.Prelude.{◌≡◌, ◌≢◌, ◌⊎◌, inl, inr, refl, some, List, [], ◌∷◌}
use frawk.Builtins.{Outcome, done, fails, panics}
use frawk.Dataflow.Boilerplate as Boilerplate
use frawk.Dataflow.Boilerplate.{Key, Flow}
use frawk.Dataflow.Keys.{Op, Said}
use frawk.Dataflow.Program.{Item, ll, hl, Makes}

abbrev pub HasFlow : Key → Key → List Flow → Type 0
HasFlow d s [] = ⊥
HasFlow d s (flow ∷ flows) = (flow ≡ (d, some s)) ⊎ HasFlow d s flows

pub outcome-done : {A : Type 0} (o : Outcome A) → o ≢ fails → o ≢ panics → (x : A) × (o ≡ done x)
outcome-done (done x) h k = (x, refl)
outcome-done fails h k = absurd (h refl)
outcome-done panics h k = absurd (k refl)

module _ {Float Regex : Type 0} where
  abbrev pub Some : (Item Float Regex → Type 0) → List (Item Float Regex) → Type 0
  Some P [] = ⊥
  Some P (item ∷ items) = P item ⊎ Some P items

  -- A call that each such item makes is made by a program that has one.
  pub Some-Makes :
      {J : Type 0} (calls : Item Float Regex → Outcome (List (Op J Key))) (init : List (Op J Key))
      (P : Item Float Regex → Type 0) (op : Op J Key)
      → ((item : Item Float Regex)
          → P item
          → (ops : List (Op J Key)) × (calls item ≡ done ops) × Said op ops)
      → (items : List (Item Float Regex)) → Some P items
      → Makes calls init items op
  Some-Makes calls init P op each [] h = absurd h
  Some-Makes calls init P op each (item ∷ items) (inl h) = inl (each item h)
  Some-Makes calls init P op each (item ∷ items) (inr h) =
      inr (Some-Makes calls init P op each items h)

  -- The item has the edge.
  abbrev pub Links : Key → Key → Item Float Regex → Type 0
  Links d s (ll inst) =
      (flows : List Flow) × (Boilerplate.visit_ll inst ≡ done flows) × HasFlow d s flows
  Links d s (hl func_id inst) = HasFlow d s (Boilerplate.visit_hl inst func_id)

  -- The first key's value derives from the second one's, along the edges of the program.
  pub data Derives (items : List (Item Float Regex)) (k : Key) : Key → Type 0 where
    itself : Derives items k k
    from_edge : {d s : Key} → Derives items k d → Some (Links d s) items → Derives items k s
