-- ===== src/Dataflow/Reach.antt =====
-- src/dataflow.rs: the nodes that a query depends on, and the edges that `Analysis::populate` adds.
use frawk.Prelude.{
  ℕ, ◌≡◌, ◌↔◌, ◌⊎◌, Bool-cases, ==-refl, inl, inr, refl, true, List, [], ◌∷◌, ◌==◌, ==→eq, arith,
  contains,
}
use frawk.Dataflow.{Analysis}
use frawk.Dataflow.Solve.{query_edges}
use frawk.Dataflow.Gather.{Edge}

-- A path of edges leads from one node to the other.
pub data Reaches (edges : List (ℕ × ℕ)) (from : ℕ) : ℕ → Type 0 where
  here : Reaches edges from from
  along : {d s : ℕ} → Reaches edges from d → Edge d s edges → Reaches edges from s

-- What petgraph documents of a depth-first search: it visits the nodes that can be reached.
abbrev pub Searches : (List (ℕ × ℕ) → ℕ → List ℕ) → List (ℕ × ℕ) → ℕ → Type 0
Searches dfs edges from = (n : ℕ) → (contains n (dfs edges from) ≡ true) ↔ Reaches edges from n

pub Edge-query_edges :
    (sentinel d s : ℕ) (queries : List ℕ) (edges : List (ℕ × ℕ))
    → Edge d s edges
    → Edge d s (query_edges sentinel queries edges)
unfolding query_edges
Edge-query_edges sentinel d s [] edges h = h
Edge-query_edges sentinel d s (q ∷ queries) edges h =
    Edge-query_edges sentinel d s queries ((sentinel, q) ∷ edges) (inr h)

-- The sentinel depends on every query.
pub Edge-query :
    (sentinel q : ℕ) (queries : List ℕ) (edges : List (ℕ × ℕ))
    → contains q queries ≡ true
    → Edge sentinel q (query_edges sentinel queries edges)
unfolding query_edges
Edge-query sentinel q [] edges h = absurd (ground arith)
Edge-query sentinel q (q' ∷ queries) edges h = elim (Bool-cases (q' == q)) [
  | inl found ↦
      Edge-query_edges sentinel sentinel q queries ((sentinel, q') ∷ edges)
        (inl (refl, ==→eq q' q found))
  | inr other ↦ Edge-query sentinel q queries ((sentinel, q') ∷ edges) (ground (arith, h))
]

pub query_edges-Edge :
    (sentinel d s : ℕ) (queries : List ℕ) (edges : List (ℕ × ℕ))
    → Edge d s (query_edges sentinel queries edges)
    → ((sentinel ≡ d) × (contains s queries ≡ true)) ⊎ Edge d s edges
unfolding query_edges
query_edges-Edge sentinel d s [] edges h = inr h
query_edges-Edge sentinel d s (q ∷ queries) edges h =
    elim (query_edges-Edge sentinel d s queries ((sentinel, q) ∷ edges) h) [
      | inl query ↦ inl (query.0, ground (arith, query.1))
      | inr (inl new) ↦ inl (new.0, rw new.1 (ground (arith, ==-refl s)))
      | inr (inr old) ↦ inr old
    ]

-- The edges of the graph that is solved.
abbrev pub all_edges : {J K : Type 0} → Analysis J K → List (ℕ × ℕ)
all_edges a = query_edges a.sentinel a.queries a.edges
