-- ===== src/Dataflow/Solve.antt =====
-- src/dataflow.rs: `Analysis::populate` and `Analysis::solve`.
use frawk.Prelude.{
  ℕ, zero, suc, ◌+◌, ◌*◌, Bool, true, false, ◌||◌, Option, none, some, List, [], ◌∷◌, ◌==◌,
  if◌then◌else◌, length, contains,
}
use frawk.WorkList.{WorkList, empty, extend, pop}
use frawk.Dataflow.{JoinSemiLattice, Analysis, update, get_node}

-- The nodes that depend on a node (`neighbors_directed(n, Incoming)`).
unfoldable pub incoming : ℕ → List (ℕ × ℕ) → List ℕ
incoming n [] = []
incoming n ((dst, src) ∷ edges) =
    let rest = incoming n edges in if src == n then dst ∷ rest else rest

-- The edges of `populate`, from the sentinel to each query.
unfoldable pub query_edges : ℕ → List ℕ → List (ℕ × ℕ) → List (ℕ × ℕ)
query_edges sentinel [] edges = edges
query_edges sentinel (node ∷ queries) edges =
    query_edges sentinel queries ((sentinel, node) ∷ edges)

module _ {J : Type 0} (l : JoinSemiLattice J) where
  -- The loop over the outgoing edges of `n`, on weights where that of `n` is taken out.
  unfoldable pub gather : (ℕ → J) → ℕ → List (ℕ × ℕ) → J → Bool → J × Bool
  gather w n [] start changed = (start, changed)
  gather w n ((dst, src) ∷ edges) start changed =
      let joined = if dst == n then l.invoke start (w src) else (start, false) in
      gather w n edges joined.0 (changed || joined.1)

  -- One round of the loop of `solve`: the new weights and work list.
  unfoldable pub relax : List (ℕ × ℕ) → (ℕ → J) → ℕ → WorkList → (ℕ → J) × WorkList
  unfolding gather incoming
  relax edges w n wl =
      let taken = update w n l.bottom in
      let (start, changed) = gather taken n edges (w n) false in
      (update taken n start, if changed then extend wl (incoming n edges) else wl)

  -- The loop of `solve`; `none` if the fuel is used up.
  unfoldable pub drain : ℕ → List (ℕ × ℕ) → (ℕ → J) → WorkList → Option (ℕ → J)
  drain zero edges w wl = none
  drain (suc fuel) edges w wl = elim (pop wl) [
    | none ↦ some w
    | some (n, wl') ↦ let (w', next) = relax edges w n wl' in drain fuel edges w' next
  ]

  -- A node is visited again at most once for each change of a node that it depends on.
  abbrev pub enough : ℕ → ℕ → ℕ → ℕ
  enough count edges waiting = suc (count * l.height * suc edges + waiting)

  module _ {K : Type 0} (dfs : List (ℕ × ℕ) → ℕ → List ℕ) where
    -- `populate`: the analysis with the edges to its queries, and the nodes that its result may
    -- depend on. The order of petgraph's depth-first search is a parameter.
    unfoldable pub populate : Analysis J K → Analysis J K × WorkList
    unfolding query_edges
    populate a =
        let edges = query_edges a.sentinel a.queries a.edges in
        (record a { edges = edges }, extend empty (dfs edges a.sentinel))

    unfoldable pub solve : Analysis J K → Option (Analysis J K)
    unfolding populate drain
    solve a =
        if a.solved
        then some a
        else let (b, wl) = populate a in
          elim (drain (enough b.count (length b.edges) (length wl.mem)) b.edges b.weight wl) [
            | none ↦ none
            | some w ↦ some (record b { weight = w; solved = true })
          ]

    -- `root`: the weight of the sentinel once the constraints are solved.
    unfoldable pub root : Analysis J K → Option J
    unfolding solve
    root a = elim (solve a) [ none ↦ none | some b ↦ some (b.weight b.sentinel) ]

module _ {J K : Type 0} (l : JoinSemiLattice J) (eq : K → K → Bool)
    (dfs : List (ℕ × ℕ) → ℕ → List ℕ) where
  -- `query`: the analysis once it is solved, and the weight of the key's node; `none` also if the key
  -- is not a query, where the source panics.
  unfoldable pub query : Analysis J K → K → Option (Analysis J K × J)
  unfolding solve get_node
  query a k = elim (solve l dfs a) [
    | none ↦ none
    | some b ↦
        let (c, ix) = get_node l eq b k in
        if contains ix c.queries then some (c, c.weight ix) else none
  ]
