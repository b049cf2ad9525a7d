-- ===== src/InputTaint/Accepts.antt =====
-- src/input_taint.rs: the programs that the taint analysis accepts.
use mathlib.Core.Path.{subst}
use frawk.Prelude.{ℕ, ◌≡◌, ◌≢◌, ◌↔◌, refl, Bool, true, false, some, List, [], arith}
use frawk.Builtins.{done}
use frawk.Dataflow.{Analysis, new}
use frawk.Dataflow.Lattice.{Le}
use frawk.Dataflow.Solve.{root}
use frawk.Dataflow.Reach.{Searches, all_edges}
use frawk.Dataflow.Keys.{src}
use frawk.Dataflow.Run.{run}
use frawk.Dataflow.Boilerplate.{Key}
use frawk.Dataflow.KeyEq.{key_eq, key_eq-IsEquality}
use frawk.Dataflow.Program.{Item, Makes, Needed, visit_all, root-visit_all}
use frawk.InputTaint.Taint.{Taint, taint, taint_invoke}
use frawk.InputTaint.Visit.{visit_taint_analysis, accepts}

module _ {Float Regex : Type 0} (dfs : List (ℕ × ℕ) → ℕ → List ℕ) (items : List (Item Float Regex))
    (a : Analysis Taint Key) where
  -- A query of the program depends on a key with a tainted source.
  abbrev pub IsUnsafe : Type 0
  IsUnsafe =
      (k : Key) × Needed visit_taint_analysis [] items k
      × Makes visit_taint_analysis [] items (src k Taint.tainted)

  Le-okay : (t : Taint) → Le taint t Taint.okay → t ≡ Taint.okay
  unfolding taint_invoke
  Le-okay t h = ground arith

  okay-ne-tainted : Le taint Taint.tainted Taint.okay → ⊥
  unfolding taint_invoke
  okay-ne-tainted h = ground arith

  Le-source : (t : Taint) → t ≢ Taint.tainted → Le taint t Taint.okay
  unfolding taint_invoke
  Le-source Taint.okay h = refl
  Le-source Taint.tainted h = absurd (h refl)

  accepts-root :
      (t : Taint)
      → root taint dfs a ≡ some t
      → (b : Bool) × (accepts dfs a ≡ some b) × ((b ≡ true) ↔ Le taint t Taint.okay)
  unfolding accepts taint_invoke
  accepts-root Taint.okay e = (true, rw (e, accepts) refl, (λ h. refl, λ h. refl))
  accepts-root Taint.tainted e = (
    false,
    rw (e, accepts) refl,
    (λ h. absurd (ground (arith, h)), λ h. absurd (ground (arith, h))),
  )

  -- Once a program is visited, if the search finds the nodes that the root reaches, then the analysis
  -- answers, and it accepts the program exactly if no query of it depends on a tainted source.
  pub accepts-IsUnsafe :
      visit_all visit_taint_analysis taint key_eq items (new taint key_eq) ≡ done a
      → Searches dfs (all_edges a) a.sentinel
      → (b : Bool) × (accepts dfs a ≡ some b) × ((b ≡ true) ↔ (¬ IsUnsafe))
  unfolding run
  accepts-IsUnsafe visited searches =
      let (t, e, least) =
        root-visit_all visit_taint_analysis taint key_eq key_eq-IsEquality dfs [] items a visited
          searches in
      let (b, answer, when) = accepts-root t e in
      let (to, from) = least Taint.okay in
      (
        b,
        answer,
        (
          λ yes_b bad.
              let (k, needed, makes) = bad in
              okay-ne-tainted (to (when.0 yes_b) k Taint.tainted needed makes),
          λ safe. when.1 (
              from (λ k x needed makes. Le-source x (λ same. safe (
                k,
                needed,
                subst (λ y. Makes visit_taint_analysis [] items (src k y)) same makes,
              )))),
        ),
      )
