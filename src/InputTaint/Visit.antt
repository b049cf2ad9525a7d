-- ===== src/InputTaint/Visit.antt =====
-- src/input_taint.rs: the calls that `TaintedStringAnalysis` makes for an instruction, and its answer.
use frawk.Prelude.{ℕ, Bool, true, false, Option, none, some, List, [], ◌∷◌, if◌then◌else◌}
use frawk.Builtins.{Outcome, done, ◌>>=◌}
use frawk.Bytecode.{Instr, HighLevel, FileSpec}
use frawk.Dataflow.{Analysis}
use frawk.Dataflow.Solve.{root}
use frawk.Dataflow.Keys.{Op, src, dep, query}
use frawk.Dataflow.Boilerplate as Boilerplate
use frawk.Dataflow.Boilerplate.{Key, Flow, of_reg}
use frawk.Dataflow.Program.{Item, ll, hl}
use frawk.InputTaint.Taint.{Taint, taint}

-- The visitor of the edges: a flow without a source has no effect.
unfoldable pub deps : List Flow → List (Op Taint Key)
deps [] = []
deps ((dst, none) ∷ flows) = deps flows
deps ((dst, some from) ∷ flows) = dep dst from ∷ deps flows

unfoldable pub visit_hl : HighLevel → ℕ → List (Op Taint Key)
unfolding deps
visit_hl inst cur_fn_id = deps (Boilerplate.visit_hl inst cur_fn_id)

unfoldable pub visit_ll : {Float Regex : Type 0} → Instr Float Regex → Outcome (List (Op Taint Key))
unfolding deps
visit_ll (Instr.read_err dst cmd is_file) =
    done (src (of_reg dst) Taint.tainted ∷ (if is_file then [] else query (of_reg cmd) ∷ []))
visit_ll (Instr.next_line dst cmd is_file) =
    done (src (of_reg dst) Taint.tainted ∷ (if is_file then [] else query (of_reg cmd) ∷ []))
visit_ll (Instr.get_column dst _) = done (src (of_reg dst) Taint.tainted ∷ [])
visit_ll (Instr.read_err_stdin dst) = done (src (of_reg dst) Taint.tainted ∷ [])
visit_ll (Instr.next_line_stdin dst) = done (src (of_reg dst) Taint.tainted ∷ [])
visit_ll (Instr.store_const_str dst _) = done (src (of_reg dst) Taint.okay ∷ [])
visit_ll (Instr.store_const_int dst _) = done (src (of_reg dst) Taint.okay ∷ [])
visit_ll (Instr.store_const_float dst _) = done (src (of_reg dst) Taint.okay ∷ [])
visit_ll (Instr.print_all (some (cmd, FileSpec.cmd)) _) = done (query (of_reg cmd) ∷ [])
visit_ll (Instr.printf (some (cmd, FileSpec.cmd)) _ _) = done (query (of_reg cmd) ∷ [])
visit_ll (Instr.run_cmd dst cmd) = done (query (of_reg cmd) ∷ src (of_reg dst) Taint.tainted ∷ [])
visit_ll inst = Boilerplate.visit_ll inst >>= λ flows. done (deps flows)

-- `visit_taint_analysis`
unfoldable pub visit_taint_analysis :
    {Float Regex : Type 0} → Item Float Regex → Outcome (List (Op Taint Key))
unfolding visit_ll visit_hl
visit_taint_analysis (ll inst) = visit_ll inst
visit_taint_analysis (hl func_id inst) = done (visit_hl inst func_id)

unfoldable is_okay : Taint → Bool
is_okay Taint.okay = true
is_okay Taint.tainted = false

-- `ok`
unfoldable pub accepts : (List (ℕ × ℕ) → ℕ → List ℕ) → Analysis Taint Key → Option Bool
unfolding is_okay root
accepts dfs a = elim (root taint dfs a) [ none ↦ none | some t ↦ some (is_okay t) ]
