-- ===== src/Examples/Used.antt =====
-- A run of the analysis of the used fields.
use frawk.Prelude.{
  ℕ, pos, ◌≡◌, ◌↔◌, ◌⊎◌, inl, inr, refl, true, some, List, [], ◌∷◌, contains, arith,
}
use frawk.Compile.{Ty}
use frawk.Builtins.{done}
use frawk.Bytecode.{Instr}
use frawk.Pushdown.{FieldSet}
use frawk.Dataflow.{Analysis, new, get_node, add_src, add_dep, add_query}
use frawk.Dataflow.Solve.{query_edges}
use frawk.Dataflow.Reach.{Reaches, here, along, Searches, all_edges}
use frawk.Dataflow.Keys.{Op, src, query}
use frawk.Dataflow.Run.{run, apply}
use frawk.Dataflow.Boilerplate.{Key}
use frawk.Dataflow.KeyEq.{key_eq}
use frawk.Dataflow.Program.{Item, ll, visit_all}
use frawk.Examples.Flow.{search}
use frawk.UsedFields.Sets.{Fields, fields, all_fields, one_field}
use frawk.UsedFields.Visit.{init, visit_used_fields, visit_ll, all_joins, used_fields}
use frawk.UsedFields.Covers.{Covers, used_fields-Covers}

-- A join of the columns 2 to 4.
abbrev join_program : List (Item ℕ (List ℕ))
join_program =
    ll (Instr.store_const_int (record { index = 1 }) (pos 2))
    ∷ ll (Instr.store_const_int (record { index = 3 }) (pos 4))
    ∷ ll (Instr.join_csv (record { index = 5 }) (record { index = 1 }) (record { index = 3 }))
    ∷ []

abbrev join_calls : List (Op Fields Key)
join_calls =
    src (Key.reg 5 Ty.str) all_fields
    ∷ query (Key.reg 3 Ty.int)
    ∷ query (Key.reg 1 Ty.int)
    ∷ src (Key.reg 3 Ty.int) (one_field 4)
    ∷ src (Key.reg 1 Ty.int) (one_field 2)
    ∷ init

abbrev join_analysis : Analysis Fields Key
join_analysis = run fields key_eq join_calls

join-visited :
    visit_all visit_used_fields fields key_eq join_program (run fields key_eq init)
    ≡ done join_analysis
unfolding visit_all visit_used_fields visit_ll run apply
join-visited = refl

abbrev fan : List (ℕ × ℕ)
fan = (0, 4) ∷ (0, 5) ∷ []

join-edges : all_edges join_analysis ≡ fan
unfolding run apply key_eq add_src add_dep add_query get_node new query_edges
join-edges = refl

fan-closed : (n : ℕ) → Reaches fan 0 n → (n ≡ 0) ⊎ (n ≡ 4) ⊎ (n ≡ 5)
fan-closed n here = inl refl
fan-closed n (along {d = d} path edge) = ground (arith, edge)

fan-Reaches : (n : ℕ) → (n ≡ 0) ⊎ (n ≡ 4) ⊎ (n ≡ 5) → Reaches fan 0 n
fan-Reaches n (inl e) = rw e here
fan-Reaches n (inr (inl e)) = rw e (along here (inl (refl, refl)))
fan-Reaches n (inr (inr e)) = rw e (along here (inr (inl (refl, refl))))

fan-contains : (n : ℕ) → (contains n (search fan 0) ≡ true) ↔ ((n ≡ 0) ⊎ (n ≡ 4) ⊎ (n ≡ 5))
fan-contains n = (λ h. ground arith, λ h. ground arith)

fan-Searches : Searches search fan 0
fan-Searches n =
    let (to, from) = fan-contains n in (λ h. fan-Reaches n (to h), λ path. from (fan-closed n path))

join-Searches : Searches search (all_edges join_analysis) join_analysis.sentinel
unfolding run apply key_eq add_src add_dep add_query get_node new query_edges
join-Searches = fan-Searches

used_fields-Covers_example :
    (res : FieldSet) × (used_fields search (all_joins join_program) join_analysis ≡ some res)
    × Covers search join_program join_analysis res
used_fields-Covers_example =
    used_fields-Covers search join_program join_analysis join-visited join-Searches
