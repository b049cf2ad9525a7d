-- ===== src/UsedFields/Covers.antt =====
-- src/pushdown.rs: the columns that `UsedFieldAnalysis::solve` returns.
use mathlib.Core.Path.{subst}
use frawk.Prelude.{ℕ, ◌≡◌, ◌≤◌, ◌↔◌, ◌⊎◌, inl, inr, refl, ap, ◌∙◌, true, some, List, [], ◌∷◌}
use frawk.Builtins.{done}
use frawk.Pushdown.{FieldSet, get}
use frawk.Pushdown.Members.{get-all}
use frawk.Pushdown.Fill.{fill_covers}
use frawk.Pushdown.Grow.{get-union_right, get-singleton}
use frawk.Dataflow.{Analysis}
use frawk.Dataflow.Lattice.{Le}
use frawk.Dataflow.Solve as Solve
use frawk.Dataflow.Reach.{Searches, all_edges}
use frawk.Dataflow.Correct.{Solves, solve-Solves}
use frawk.Dataflow.Keys.{Op, src, dep, query, Said, Models}
use frawk.Dataflow.Run.{run, run-Models}
use frawk.Dataflow.Query as Chain
use frawk.Dataflow.Query.{Uses, onward, query_lem}
use frawk.Dataflow.Boilerplate.{Key}
use frawk.Dataflow.KeyEq.{key_eq, key_eq-IsEquality}
use frawk.Dataflow.Program.{Item, Makes, visit_all, visit_all-History}
use frawk.Dataflow.Derives.{Some, Some-Makes, Links, Derives, itself, from_edge}
use frawk.UsedFields.Sets.{Fields, fields, fields_invoke, all_fields, one_field}
use frawk.UsedFields.Visit.{init, visit_used_fields, all_joins, add_joins, used_fields}
use frawk.UsedFields.Joins.{Answers, add_joins_lem, Some-Within, all_answer}
use frawk.UsedFields.Reads.{
  Reads, JoinsFrom, Holds, Reads-Asks, Holds-Asks, JoinsFrom-Asks, Links-Asks,
}

-- What a value holds, each value above it holds.
get-Le : (s t : Fields) (i : ℕ) → Le fields s t → get s.0 i ≡ true → get t.0 i ≡ true
unfolding fields_invoke
get-Le s t i h held =
    subst (λ u. get u i ≡ true) (ap (λ u. u.0) h) (get-union_right t.0 s.0 i t.1 s.1 held)

module _ {Float Regex : Type 0} (items : List (Item Float Regex)) (ops : List (Op Fields Key))
    (said : (op : Op Fields Key) → Said op ops ↔ Makes visit_used_fields init items op) where
  -- The calls follow the edges of the program up to a key that may be any column.
  abbrev Follows : Key → Key → Type 0
  Follows k k' = Uses ops k k' ⊎ ((d : Key) × Uses ops k d × Said (src d all_fields) ops)

  Some-link :
      (d s : Key) (rest : List (Item Float Regex))
      → Some (Links d s) rest
      → Makes visit_used_fields init rest (dep d s)
        ⊎ Makes visit_used_fields init rest (src d all_fields)
  Some-link d s [] h = absurd h
  Some-link d s (item ∷ rest) (inl h) = elim (Links-Asks d s item h) [
    | inl asks ↦ inl (inl asks)
    | inr asks ↦ inr (inl asks)
  ]
  Some-link d s (item ∷ rest) (inr h) = elim (Some-link d s rest h) [
    | inl makes ↦ inl (inr makes)
    | inr makes ↦ inr (inr makes)
  ]

  Derives-Follows : (k k' : Key) → Derives items k k' → Follows k k'
  Derives-Follows k k' itself = inl Chain.itself
  Derives-Follows k k' (from_edge {d = d} path link) = elim (Derives-Follows k d path) [
    | inl uses ↦ elim (Some-link d k' items link) [
      | inl makes ↦ inl (onward uses ((said (dep d k')).1 makes))
      | inr makes ↦ inr (d, uses, (said (src d all_fields)).1 makes)
    ]
    | inr other ↦ inr other
  ]

  -- A value above the sources that a key depends on holds the constants that the key derives from.
  get-above :
      (v : Fields) (k k' : Key) (i : ℕ)
      → ((k'' : Key) (x : Fields) → Uses ops k k'' → Said (src k'' x) ops → Le fields x v)
      → Derives items k k'
      → Some (Holds k' i) items
      → get v.0 i ≡ true
  get-above v k k' i above derives holds = elim (Derives-Follows k k' derives) [
    | inl uses ↦
        let makes =
          Some-Makes visit_used_fields init (Holds k' i) (src k' (one_field i)) (Holds-Asks k' i)
            items holds in
        get-Le (one_field i) v i
          (above k' (one_field i) uses ((said (src k' (one_field i))).1 makes)) (get-singleton i)
    | inr other ↦
        let (d, uses, sourced) = other in
        get-Le all_fields v i (above d all_fields uses sourced) (get-all i)
  ]

module _ {Float Regex : Type 0} (dfs : List (ℕ × ℕ) → ℕ → List ℕ) (items : List (Item Float Regex))
    (a : Analysis Fields Key) where
  -- The set holds each column that the program reads, and each that a join of it covers.
  pub record Covers (res : FieldSet) : Type 0 where
    pub reads :
        (col k : Key) (i : ℕ)
        → Some (Reads col) items
        → Derives items col k
        → Some (Holds k i) items
        → get res i ≡ true
    pub joins :
        (start last k k' : Key) (lo i hi : ℕ)
        → Some (JoinsFrom start last) items
        → Derives items start k
        → Some (Holds k lo) items
        → Derives items last k'
        → Some (Holds k' hi) items
        → lo ≤ i
        → i ≤ hi
        → get res i ≡ true

  used_fields_of_solve :
      (b : Analysis Fields Key)
      → Solve.solve fields dfs a ≡ some b
      → used_fields dfs (all_joins items) a
        ≡ add_joins dfs (all_joins items) b (b.weight b.sentinel).0
  unfolding used_fields
  used_fields_of_solve b e = rw (e, used_fields) refl

  module _ (ops : List (Op Fields Key))
      (said : (op : Op Fields Key) → Said op ops ↔ Makes visit_used_fields init items op)
      (m : Models fields key_eq ops a) (b : Analysis Fields Key)
      (s : Solves fields key_eq dfs a b) where
    -- A query that the program makes has a value below the root's, above what its key depends on.
    answered :
        (k : Key)
        → Makes visit_used_fields init items (query k)
        → (v : Fields) × Answers dfs b k v
          × Le fields v (b.weight b.sentinel)
          × ((k' : Key) (x : Fields) → Uses ops k k' → Said (src k' x) ops → Le fields x v)
    answered k makes = query_lem fields key_eq dfs ops a b m s k ((said (query k)).1 makes)

    solved-Covers :
        (res : FieldSet) × (add_joins dfs (all_joins items) b (b.weight b.sentinel).0 ≡ some res)
        × Covers res
    solved-Covers =
        let answers =
          all_answer dfs b items (λ k makes. let (v, e, le, above) = answered k makes in (v, e)) in
        let (res, e, keeps, adds) =
          add_joins_lem dfs b (all_joins items) (b.weight b.sentinel).0 (b.weight b.sentinel).1
            answers in
        (
          res,
          e,
          record {
            reads = λ col k i read derives holds.
                let makes =
                  Some-Makes visit_used_fields init (Reads col) (query col) (Reads-Asks col) items
                    read in
                let (v, answer, le, above) = answered col makes in
                keeps i (
                  get-Le v (b.weight b.sentinel) i le
                    (get-above items ops said v col k i above derives holds));
            joins = λ start last k k' lo i hi join from_start holds_lo from_last holds_hi h h'.
                let ask_start =
                  Some-Makes visit_used_fields init (JoinsFrom start last) (query start)
                    (λ item h. (JoinsFrom-Asks start last item h).0) items join in
                let ask_last =
                  Some-Makes visit_used_fields init (JoinsFrom start last) (query last)
                    (λ item h. (JoinsFrom-Asks start last item h).1) items join in
                let (v, answer_v, le_v, above_v) = answered start ask_start in
                let (w, answer_w, le_w, above_w) = answered last ask_last in
                adds start last v w i (Some-Within dfs b start last items join) answer_v answer_w (
                  fill_covers v.0 w.0 lo i hi h h'
                    (get-above items ops said v start k lo above_v from_start holds_lo)
                    (get-above items ops said w last k' hi above_w from_last holds_hi));
          },
        )

  -- Once a program is visited, if the search finds the nodes that the root reaches, then the analysis
  -- returns a set. If the register of a column that the program reads derives from a constant, then
  -- the set holds that column; if those of the first and last column of a join derive from constants,
  -- then it holds every column from the one to the other.
  pub used_fields-Covers :
      visit_all visit_used_fields fields key_eq items (run fields key_eq init) ≡ done a
      → Searches dfs (all_edges a) a.sentinel
      → (res : FieldSet) × (used_fields dfs (all_joins items) a ≡ some res) × Covers res
  unfolding used_fields
  used_fields-Covers visited searches =
      let (ops, same, said) =
        visit_all-History visit_used_fields fields key_eq items init a visited in
      let m =
        subst (Models fields key_eq ops) same (run-Models fields key_eq key_eq-IsEquality ops) in
      let (b, e, s) = solve-Solves fields key_eq dfs a searches m.valid m.unsolved in
      let (res, f, covers) = solved-Covers ops said m b s in
      (res, used_fields_of_solve b e ∙ f, covers)
