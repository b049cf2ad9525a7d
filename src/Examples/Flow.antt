-- ===== src/Examples/Flow.antt =====
-- Runs of the analyses on small programs.
use frawk.Prelude.{
  ℕ, zero, suc, ◌≡◌, ◌↔◌, ◌⊎◌, inl, inr, refl, Bool, true, false, some, List, [], ◌∷◌,
  if◌then◌else◌, contains, length, arith,
}
use frawk.Compile.{Ty, is_array}
use frawk.Builtins.{done}
use frawk.Bytecode.{Instr}
use frawk.Bytecode.Registers.{accum}
use frawk.Dataflow.{Analysis, new, get_node, add_src, add_dep, add_query}
use frawk.Dataflow.Lattice.{Le}
use frawk.Dataflow.Solve.{root, solve, query_edges}
use frawk.Dataflow.Reach.{Reaches, here, along, Searches, all_edges}
use frawk.Dataflow.Keys.{Op, src, dep, query, Said, Models}
use frawk.Dataflow.Run.{run, apply, run-Models}
use frawk.Dataflow.Needs.{Needs, root-run}
use frawk.Dataflow.Correct.{Solves, solve-Solves}
use frawk.Dataflow.Boilerplate as Boilerplate
use frawk.Dataflow.Boilerplate.{Key, Flow}
use frawk.Dataflow.KeyEq.{key_eq, key_eq-IsEquality}
use frawk.Dataflow.Operands.{Named, Listed, slot_fits, visit_ll-accum}
use frawk.Dataflow.Program.{Item, ll, Needed, Makes, visit_all, root-visit_all}
use frawk.InputTaint.Taint.{Taint, taint, taint_invoke}
use frawk.InputTaint.Visit.{visit_taint_analysis, visit_ll, accepts, deps}
use frawk.InputTaint.Accepts.{IsUnsafe, accepts-IsUnsafe}
use frawk.Dataflow.Derives.{itself, from_edge}
use frawk.InputTaint.Returns.{visit_all-WellTyped}
use frawk.InputTaint.Rejects.{command_of, input_of, accepts-Derives}

-- A search of a graph, which passes over the edges once for each edge.
abbrev pub pass : List (ℕ × ℕ) → List ℕ → List ℕ
pass [] seen = seen
pass (edge ∷ edges) seen =
    let rest = pass edges seen in
    if contains edge.0 rest then (if contains edge.1 rest then rest else edge.1 ∷ rest) else rest

abbrev pub passes : ℕ → List (ℕ × ℕ) → List ℕ → List ℕ
passes zero edges seen = seen
passes (suc n) edges seen = passes n edges (pass edges seen)

abbrev pub search : List (ℕ × ℕ) → ℕ → List ℕ
search edges from = passes (length edges) edges (from ∷ [])

-- A query on node 2, which depends on node 1.
abbrev chain : List (ℕ × ℕ)
chain = (0, 2) ∷ (2, 1) ∷ []

chain-closed : (n : ℕ) → Reaches chain 0 n → (n ≡ 0) ⊎ (n ≡ 1) ⊎ (n ≡ 2)
chain-closed n here = inl refl
chain-closed n (along {d = d} path edge) = ground (arith, edge)

chain-Reaches : (n : ℕ) → (n ≡ 0) ⊎ (n ≡ 1) ⊎ (n ≡ 2) → Reaches chain 0 n
chain-Reaches n (inl e) = rw e here
chain-Reaches n (inr (inl e)) =
    rw e (along (along here (inl (refl, refl))) (inr (inl (refl, refl))))
chain-Reaches n (inr (inr e)) = rw e (along here (inl (refl, refl)))

chain-contains : (n : ℕ) → (contains n (search chain 0) ≡ true) ↔ ((n ≡ 0) ⊎ (n ≡ 1) ⊎ (n ≡ 2))
chain-contains n = (λ h. ground arith, λ h. ground arith)

chain-Searches : Searches search chain 0
chain-Searches n =
    let (to, from) = chain-contains n in
    (λ h. chain-Reaches n (to h), λ path. from (chain-closed n path))

abbrev command : List (Item ℕ (List ℕ))
command =
    ll (Instr.store_const_str (record { index = 2 }) (108 ∷ 115 ∷ []))
    ∷ ll (Instr.mov Ty.str 1 2)
    ∷ ll (Instr.run_cmd (record { index = 3 }) (record { index = 1 }))
    ∷ []

abbrev history : List (Op Taint Key)
history =
    src (Key.reg 3 Ty.int) Taint.tainted
    ∷ query (Key.reg 1 Ty.str)
    ∷ dep (Key.reg 1 Ty.str) (Key.reg 2 Ty.str)
    ∷ src (Key.reg 2 Ty.str) Taint.okay
    ∷ []

abbrev analysis : Analysis Taint Key
analysis = run taint key_eq history

command-visited :
    visit_all visit_taint_analysis taint key_eq command (new taint key_eq) ≡ done analysis
unfolding visit_all visit_taint_analysis visit_ll deps run apply key_eq add_src add_dep add_query
    get_node taint_invoke Boilerplate.visit_ll new is_array
command-visited = refl

analysis-edges : all_edges analysis ≡ chain
unfolding run apply key_eq add_src add_dep add_query get_node taint_invoke new query_edges
analysis-edges = refl

analysis-Searches : Searches search (all_edges analysis) analysis.sentinel
unfolding run apply key_eq add_src add_dep add_query get_node taint_invoke new query_edges
analysis-Searches = chain-Searches

accepts-IsUnsafe_example :
    (b : Bool) × (accepts search analysis ≡ some b)
    × ((b ≡ true) ↔ (¬ IsUnsafe search command analysis))
accepts-IsUnsafe_example =
    accepts-IsUnsafe search command analysis command-visited analysis-Searches

root-visit_all_example :
    (v : Taint) × (root taint search analysis ≡ some v)
    × ((u : Taint)
        → Le taint v u ↔ (
            (k : Key) (x : Taint)
            → Needed visit_taint_analysis [] command k
            → Makes visit_taint_analysis [] command (src k x)
            → Le taint x u))
unfolding run
root-visit_all_example =
    root-visit_all visit_taint_analysis taint key_eq key_eq-IsEquality search [] command analysis
      command-visited analysis-Searches

run-Models_example : Models taint key_eq history (run taint key_eq history)
run-Models_example = run-Models taint key_eq key_eq-IsEquality history

root-run_example :
    (v : Taint) × (root taint search analysis ≡ some v)
    × ((u : Taint)
        → Le taint v u
          ↔ ((k : Key) (x : Taint) → Needs history k → Said (src k x) history → Le taint x u))
root-run_example = root-run taint key_eq key_eq-IsEquality search history analysis-Searches

solve-Solves_example :
    (b : Analysis Taint Key) × (solve taint search analysis ≡ some b)
    × Solves taint key_eq search analysis b
solve-Solves_example =
    let m = run-Models taint key_eq key_eq-IsEquality history in
    solve-Solves taint key_eq search analysis analysis-Searches m.valid m.unsolved

visit_ll-accum_example :
    (flows : List Flow) × (Boilerplate.visit_ll {Float = ℕ} {Regex = List ℕ} (Instr.mov Ty.str 1 2)
      ≡ done flows)
    × ((r : ℕ × Ty) → Named r flows → Listed r ((1, Ty.str) ∷ (2, Ty.str) ∷ []))
unfolding accum slot_fits
visit_ll-accum_example =
    visit_ll-accum (Instr.mov Ty.str 1 2) ((1, Ty.str) ∷ (2, Ty.str) ∷ []) refl refl

-- The same program with a column in place of the constant.
abbrev interpolated : List (Item ℕ (List ℕ))
interpolated =
    ll (Instr.get_column (record { index = 2 }) (record { index = 4 }))
    ∷ ll (Instr.mov Ty.str 1 2)
    ∷ ll (Instr.run_cmd (record { index = 3 }) (record { index = 1 }))
    ∷ []

abbrev tainted_analysis : Analysis Taint Key
tainted_analysis = run taint key_eq (
    src (Key.reg 3 Ty.int) Taint.tainted
    ∷ query (Key.reg 1 Ty.str)
    ∷ dep (Key.reg 1 Ty.str) (Key.reg 2 Ty.str)
    ∷ src (Key.reg 2 Ty.str) Taint.tainted
    ∷ [])

interpolated-visited :
    visit_all visit_taint_analysis taint key_eq interpolated (new taint key_eq)
    ≡ done tainted_analysis
unfolding visit_all visit_taint_analysis visit_ll deps run apply key_eq add_src add_dep add_query
    get_node taint_invoke Boilerplate.visit_ll new is_array
interpolated-visited = refl

interpolated-Searches : Searches search (all_edges tainted_analysis) tainted_analysis.sentinel
unfolding run apply key_eq add_src add_dep add_query get_node taint_invoke new query_edges
interpolated-Searches = chain-Searches

accepts-Derives_example : accepts search tainted_analysis ≡ some false
unfolding command_of input_of Boilerplate.visit_ll is_array
accepts-Derives_example =
    accepts-Derives search interpolated tainted_analysis interpolated-visited interpolated-Searches
      (Key.reg 1 Ty.str) (Key.reg 2 Ty.str) (inr (inr (inl refl))) (inl refl)
      (from_edge itself (inr (inl (_, refl, inl refl))))

visit_all-WellTyped_example :
    (b : Analysis Taint Key) × (visit_all visit_taint_analysis taint key_eq command
        (new taint key_eq)
      ≡ done b)
unfolding accum slot_fits
visit_all-WellTyped_example =
    visit_all-WellTyped command (new taint key_eq)
      ((_, refl, refl), ((_, refl, refl), ((_, refl, refl), tt)))
