-- ===== src/UsedFields/Visit.antt =====
-- src/pushdown.rs: the calls that `UsedFieldAnalysis` makes for an instruction, and `solve`.
use frawk.Prelude.{
  ℕ, pos, Bool, true, false, Option, none, some, List, [], ◌∷◌, ◌++◌, if◌then◌else◌,
}
use frawk.Builtins.{Outcome, done, ◌>>=◌}
use frawk.Builtins.Function.{Variable}
use frawk.Bytecode.{Instr, HighLevel}
use frawk.Pushdown.{FieldSet, union, fill}
use frawk.Dataflow.{Analysis}
use frawk.Dataflow.Solve as Solve
use frawk.Dataflow.Keys.{Op, src, dep, query}
use frawk.Dataflow.Boilerplate as Boilerplate
use frawk.Dataflow.Boilerplate.{Key, Flow, of_reg}
use frawk.Dataflow.KeyEq.{key_eq}
use frawk.Dataflow.Program.{Item, ll, hl}
use frawk.UsedFields.Sets.{Fields, fields, all_fields, fi_fields, one_field}

-- `UsedFieldAnalysis::default`, the latest call first.
abbrev pub init : List (Op Fields Key)
init =
    src (Key.var_key Variable.fi) all_fields
    ∷ src (Key.var_val Variable.fi) fi_fields
    ∷ src Key.rng all_fields
    ∷ []

-- The visitor of the edges that are followed: a value that is not from a key is column 0.
unfoldable pub followed : List Flow → List (Op Fields Key)
followed [] = []
followed ((dst, none) ∷ flows) = src dst (one_field 0) ∷ followed flows
followed ((dst, some from) ∷ flows) = dep dst from ∷ followed flows

-- The visitor of all other edges: the value may be any column.
unfoldable pub any_field : List Flow → List (Op Fields Key)
any_field [] = []
any_field (flow ∷ flows) = src flow.0 all_fields ∷ any_field flows

unfoldable pub visit_hl : HighLevel → ℕ → List (Op Fields Key)
unfolding followed
visit_hl inst cur_fn_id = followed (Boilerplate.visit_hl inst cur_fn_id)

-- The instructions in the arm of `visit_ll` that adds dependencies.
unfoldable pub follows_edges : {Float Regex : Type 0} → Instr Float Regex → Bool
follows_edges (Instr.load_var_str_map _ Variable.fi) = true
follows_edges (Instr.store_var_str_map Variable.fi _) = true
follows_edges (Instr.lookup _ _ _ _) = true
follows_edges (Instr.store _ _ _ _) = true
follows_edges (Instr.iter_begin _ _ _) = true
follows_edges (Instr.iter_get_next _ _ _) = true
follows_edges (Instr.mov _ _ _) = true
follows_edges _ = false

unfoldable pub visit_ll :
    {Float Regex : Type 0} → Instr Float Regex → Outcome (List (Op Fields Key))
unfolding followed any_field follows_edges
visit_ll (Instr.store_const_int dst (pos i)) = done (src (of_reg dst) (one_field i) ∷ [])
visit_ll (Instr.get_column dst col_reg) =
    done (query (of_reg col_reg) ∷ src (of_reg dst) all_fields ∷ [])
visit_ll (Instr.join_csv dst start last) =
    done (query (of_reg start) ∷ query (of_reg last) ∷ src (of_reg dst) all_fields ∷ [])
visit_ll (Instr.join_tsv dst start last) =
    done (query (of_reg start) ∷ query (of_reg last) ∷ src (of_reg dst) all_fields ∷ [])
visit_ll (Instr.join_columns dst start last _) =
    done (query (of_reg start) ∷ query (of_reg last) ∷ src (of_reg dst) all_fields ∷ [])
visit_ll inst = Boilerplate.visit_ll inst >>= λ flows.
    done (if follows_edges inst then followed flows else any_field flows)

-- What `visit_ll` pushes to `joins`.
unfoldable pub joins_of : {Float Regex : Type 0} → Instr Float Regex → List (Key × Key)
joins_of (Instr.join_csv _ start last) = (of_reg start, of_reg last) ∷ []
joins_of (Instr.join_tsv _ start last) = (of_reg start, of_reg last) ∷ []
joins_of (Instr.join_columns _ start last _) = (of_reg start, of_reg last) ∷ []
joins_of _ = []

-- `visit_used_fields`
unfoldable pub visit_used_fields :
    {Float Regex : Type 0} → Item Float Regex → Outcome (List (Op Fields Key))
unfolding visit_ll visit_hl
visit_used_fields (ll inst) = visit_ll inst
visit_used_fields (hl func_id inst) = done (visit_hl inst func_id)

unfoldable pub all_joins : {Float Regex : Type 0} → List (Item Float Regex) → List (Key × Key)
unfolding joins_of
all_joins [] = []
all_joins (ll inst ∷ items) = joins_of inst ++ all_joins items
all_joins (hl _ _ ∷ items) = all_joins items

module _ (dfs : List (ℕ × ℕ) → ℕ → List ℕ) where
  -- The loop of `solve` over the joins.
  unfoldable pub add_joins : List (Key × Key) → Analysis Fields Key → FieldSet → Option FieldSet
  unfolding Solve.query
  add_joins [] a res = some res
  add_joins ((l, r) ∷ joins) a res = elim (Solve.query fields key_eq dfs a l) [
    | none ↦ none
    | some (b, l_flds) ↦ elim (Solve.query fields key_eq dfs b r) [
      | none ↦ none
      | some (c, r_flds) ↦ add_joins joins c (union res (fill l_flds.0 r_flds.0))
    ]
  ]

  -- `UsedFieldAnalysis::solve`. `root` solves the analysis and reads the weight of the sentinel.
  unfoldable pub used_fields : List (Key × Key) → Analysis Fields Key → Option FieldSet
  unfolding add_joins Solve.solve
  used_fields joins a = elim (Solve.solve fields dfs a) [
    | none ↦ none
    | some b ↦ add_joins joins b (b.weight b.sentinel).0
  ]
