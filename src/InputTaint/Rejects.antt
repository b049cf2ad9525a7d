-- ===== src/InputTaint/Rejects.antt =====
-- src/input_taint.rs: the programs that run a command with user input in it.
use frawk.Prelude.{
  ℕ, ◌≡◌, ◌≢◌, inl, inr, refl, ap, ◌∙◌, false, Option, none, some, List, [], ◌∷◌, arith, Bool-cases,
}
use frawk.Builtins.{done, fails, panics}
use frawk.Bytecode.{Instr, FileSpec}
use frawk.Dataflow.{Analysis, new}
use frawk.Dataflow.Reach.{Searches, all_edges}
use frawk.Dataflow.Keys.{Op, src, dep, query, Said}
use frawk.Dataflow.Boilerplate as Boilerplate
use frawk.Dataflow.Boilerplate.{Key, Flow, of_reg}
use frawk.Dataflow.Derives.{
  HasFlow, outcome-done, Some, Some-Makes, Links, Derives, itself, from_edge,
}
use frawk.Dataflow.KeyEq.{key_eq}
use frawk.Dataflow.Program.{Item, ll, hl, Needed, asked, further, visit_all}
use frawk.InputTaint.Taint.{Taint, taint}
use frawk.InputTaint.Visit.{deps, visit_hl, visit_ll, visit_taint_analysis, accepts}
use frawk.InputTaint.Accepts.{IsUnsafe, accepts-IsUnsafe}

-- The register whose text the instruction passes to the shell.
unfoldable pub command_of : {Float Regex : Type 0} → Instr Float Regex → Option Key
command_of (Instr.read_err _ cmd false) = some (of_reg cmd)
command_of (Instr.next_line _ cmd false) = some (of_reg cmd)
command_of (Instr.print_all (some (cmd, FileSpec.cmd)) _) = some (of_reg cmd)
command_of (Instr.printf (some (cmd, FileSpec.cmd)) _ _) = some (of_reg cmd)
command_of (Instr.run_cmd _ cmd) = some (of_reg cmd)
command_of _ = none

-- The register that the instruction sets from the input, from a file or from a command's result.
unfoldable pub input_of : {Float Regex : Type 0} → Instr Float Regex → Option Key
input_of (Instr.get_column dst _) = some (of_reg dst)
input_of (Instr.read_err dst _ _) = some (of_reg dst)
input_of (Instr.next_line dst _ _) = some (of_reg dst)
input_of (Instr.read_err_stdin dst) = some (of_reg dst)
input_of (Instr.next_line_stdin dst) = some (of_reg dst)
input_of (Instr.run_cmd dst _) = some (of_reg dst)
input_of _ = none

HasFlow-deps : (d s : Key) (flows : List Flow) → HasFlow d s flows → Said (dep d s) (deps flows)
unfolding deps
HasFlow-deps d s [] h = absurd h
HasFlow-deps d s ((d', none) ∷ flows) (inl h) = absurd (ground (arith, h))
HasFlow-deps d s ((d', none) ∷ flows) (inr h) = HasFlow-deps d s flows h
HasFlow-deps d s ((d', some s') ∷ flows) (inl h) = inl cc
HasFlow-deps d s ((d', some s') ∷ flows) (inr h) = inr (HasFlow-deps d s flows h)

module _ {Float Regex : Type 0} where
  command-ne-fails :
      (inst : Instr Float Regex) (k : Key) → command_of inst ≡ some k → visit_ll inst ≢ fails
  unfolding command_of visit_ll
  command-ne-fails inst k h = λ e. ground arith

  command-ne-panics :
      (inst : Instr Float Regex) (k : Key) → command_of inst ≡ some k → visit_ll inst ≢ panics
  unfolding command_of visit_ll
  command-ne-panics inst k h = λ e. ground arith

  command-Said :
      (inst : Instr Float Regex) (k : Key) (ops : List (Op Taint Key))
      → command_of inst ≡ some k
      → visit_ll inst ≡ done ops
      → Said (query k) ops
  unfolding command_of visit_ll
  command-Said inst k ops h e = ground arith

  input-ne-fails :
      (inst : Instr Float Regex) (k : Key) → input_of inst ≡ some k → visit_ll inst ≢ fails
  unfolding input_of visit_ll
  input-ne-fails inst k h = λ e. ground arith

  input-ne-panics :
      (inst : Instr Float Regex) (k : Key) → input_of inst ≡ some k → visit_ll inst ≢ panics
  unfolding input_of visit_ll
  input-ne-panics inst k h = λ e. ground arith

  input-Said :
      (inst : Instr Float Regex) (k : Key) (ops : List (Op Taint Key))
      → input_of inst ≡ some k
      → visit_ll inst ≡ done ops
      → Said (src k Taint.tainted) ops
  unfolding input_of visit_ll
  input-Said inst k ops h e = ground arith

  pub flow-ne-fails :
      (inst : Instr Float Regex) (flows : List Flow)
      → Boilerplate.visit_ll inst ≡ done flows
      → visit_ll inst ≢ fails
  unfolding visit_ll
  flow-ne-fails inst flows h = λ e. ground arith

  pub flow-ne-panics :
      (inst : Instr Float Regex) (flows : List Flow)
      → Boilerplate.visit_ll inst ≡ done flows
      → visit_ll inst ≢ panics
  unfolding visit_ll
  flow-ne-panics inst flows h = λ e. ground arith

  flow-Said :
      (inst : Instr Float Regex) (flows : List Flow) (d s : Key) (ops : List (Op Taint Key))
      → Boilerplate.visit_ll inst ≡ done flows
      → HasFlow d s flows
      → visit_ll inst ≡ done ops
      → Said (dep d s) ops
  unfolding visit_ll Boilerplate.visit_ll
  flow-Said inst flows d s ops h flow e = ground (arith, HasFlow-deps d s flows flow)

  -- The item runs the text of the register as a command.
  abbrev pub Runs : Key → Item Float Regex → Type 0
  Runs k (ll inst) = command_of inst ≡ some k
  Runs k (hl _ _) = ⊥

  -- The item sets the register from outside of the program.
  abbrev pub Reads : Key → Item Float Regex → Type 0
  Reads k (ll inst) = input_of inst ≡ some k
  Reads k (hl _ _) = ⊥

  abbrev CallsFor : Op Taint Key → Item Float Regex → Type 0
  CallsFor op item =
      (ops : List (Op Taint Key)) × (visit_taint_analysis item ≡ done ops) × Said op ops

  Runs-query : (k : Key) (item : Item Float Regex) → Runs k item → CallsFor (query k) item
  unfolding visit_taint_analysis
  Runs-query k (ll inst) h =
      let (ops, e) =
        outcome-done (visit_ll inst) (command-ne-fails inst k h) (command-ne-panics inst k h) in
      (ops, e, command-Said inst k ops h e)
  Runs-query k (hl _ _) h = absurd h

  Reads-src :
      (k : Key) (item : Item Float Regex) → Reads k item → CallsFor (src k Taint.tainted) item
  unfolding visit_taint_analysis
  Reads-src k (ll inst) h =
      let (ops, e) =
        outcome-done (visit_ll inst) (input-ne-fails inst k h) (input-ne-panics inst k h) in
      (ops, e, input-Said inst k ops h e)
  Reads-src k (hl _ _) h = absurd h

  Links-dep : (d s : Key) (item : Item Float Regex) → Links d s item → CallsFor (dep d s) item
  unfolding visit_taint_analysis visit_hl
  Links-dep d s (ll inst) (flows, h, flow) =
      let (ops, e) =
        outcome-done (visit_ll inst) (flow-ne-fails inst flows h) (flow-ne-panics inst flows h) in
      (ops, e, flow-Said inst flows d s ops h flow e)
  Links-dep d s (hl func_id inst) h =
      (deps (Boilerplate.visit_hl inst func_id), refl, HasFlow-deps d s _ h)

  Derives-Needed :
      (items : List (Item Float Regex)) (k s : Key)
      → Some (Runs k) items
      → Derives items k s
      → Needed visit_taint_analysis [] items s
  Derives-Needed items k s runs itself =
      asked (Some-Makes visit_taint_analysis [] (Runs k) (query k) (Runs-query k) items runs)
  Derives-Needed items k s runs (from_edge {d = d} path links) =
      further (Derives-Needed items k d runs path)
        (Some-Makes visit_taint_analysis [] (Links d s) (dep d s) (Links-dep d s) items links)

  -- Once a program is visited, if the search finds the nodes that the root reaches, then the program
  -- is rejected if it runs a command (other than by system2) whose text derives, along the edges of
  -- its instructions, from a register that it sets from outside.
  pub accepts-Derives :
      (dfs : List (ℕ × ℕ) → ℕ → List ℕ) (items : List (Item Float Regex)) (a : Analysis Taint Key)
      → visit_all visit_taint_analysis taint key_eq items (new taint key_eq) ≡ done a
      → Searches dfs (all_edges a) a.sentinel
      → (command input : Key) → Some (Runs command) items
      → Some (Reads input) items
      → Derives items command input
      → accepts dfs a ≡ some false
  accepts-Derives dfs items a visited searches command input runs reads derives =
      let (b, answer, safe) = accepts-IsUnsafe dfs items a visited searches in
      let bad : IsUnsafe dfs items a = (
        input,
        Derives-Needed items command input runs derives,
        Some-Makes visit_taint_analysis [] (Reads input) (src input Taint.tainted) (Reads-src input)
            items reads,
      ) in
      elim (Bool-cases b) [
        | inl yes_b ↦ absurd (safe.0 yes_b bad)
        | inr no_b ↦ answer ∙ ap some no_b
      ]
