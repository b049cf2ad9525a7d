-- ===== src/Dataflow/Correct.antt =====
-- src/dataflow.rs: what `Analysis::solve` and `Analysis::root` return.
use mathlib.Core.Path.{subst}
use frawk.Prelude.{ℕ, ◌≡◌, ◌<◌, inl, inr, refl, sym, ◌∙◌, Bool, true, false, some, List, length}
use frawk.WorkList.{WorkList, empty, extend}
use frawk.WorkList.Order.{IsSynced}
use frawk.WorkList.Extend.{extend-IsSynced, contains-extend}
use frawk.Dataflow.{JoinSemiLattice, Analysis}
use frawk.Dataflow.Lattice.{Le-refl}
use frawk.Dataflow.Solve.{drain, enough, solve}
use frawk.Dataflow.Gather.{Edge}
use frawk.Dataflow.Round.{Invariant}
use frawk.Dataflow.Least.{IsLeast, drain-IsLeast}
use frawk.Dataflow.Fuel.{Bounded, drain-returns, potential-lt-enough}
use frawk.Dataflow.Valid.{IsValid}
use frawk.Dataflow.Reach.{Reaches, here, along, Searches, query_edges-Edge, all_edges}

empty-IsSynced : IsSynced empty
empty-IsSynced = record { same = λ n. refl; distinct = tt }

module _ {J K : Type 0} (l : JoinSemiLattice J) (eq : K → K → Bool)
    (dfs : List (ℕ × ℕ) → ℕ → List ℕ) (a : Analysis J K) where
  -- At the nodes that the sentinel can reach, the weights of `b` are the least that are above those of
  -- `a` and respect the edges from these nodes. At the others they are above those of `a`, and below
  -- any weights above those of `a` that respect every edge. The rest of `b` is that of `a` with the
  -- edges to its queries.
  pub record Solves (b : Analysis J K) : Type 0 where
    pub edges : b.edges ≡ all_edges a
    pub sentinel : b.sentinel ≡ a.sentinel
    pub nodes : b.nodes ≡ a.nodes
    pub queries : b.queries ≡ a.queries
    pub solved : b.solved ≡ true
    pub least : IsLeast l (all_edges a) a.weight (Reaches (all_edges a) a.sentinel) b.weight

  abbrev found : List ℕ
  found = dfs (all_edges a) a.sentinel

  abbrev start : WorkList
  start = extend empty found

  start-IsSynced : IsSynced start
  start-IsSynced = extend-IsSynced empty found empty-IsSynced

  module _ (searches : Searches dfs (all_edges a) a.sentinel) where
    start-Invariant :
        Invariant l (all_edges a) a.weight (Reaches (all_edges a) a.sentinel) a.weight start
    start-Invariant = record {
      synced = start-IsSynced;
      above = λ m. Le-refl l (a.weight m);
      stable = λ d s e v. inl (contains-extend d empty found empty-IsSynced ∙ (searches d).1 v);
      below = λ g solution m v. solution.above m v;
      bounded = λ g solution m v. solution.above m v;
    }

    module _ (valid : IsValid eq a) where
      pub Edge-lt : (d s : ℕ) → Edge d s (all_edges a) → (d < a.count) × (s < a.count)
      Edge-lt d s e = elim (query_edges-Edge a.sentinel d s a.queries a.edges e) [
        | inl query ↦ (subst (λ k. k < a.count) query.0 valid.sentinel-lt, valid.query-lt s query.1)
        | inr old ↦ valid.edge-lt d s old
      ]

      reached-lt : (n : ℕ) → Reaches (all_edges a) a.sentinel n → n < a.count
      reached-lt n here = valid.sentinel-lt
      reached-lt n (along {d = d} path e) = (Edge-lt d n e).1

      start-Bounded : Bounded a.count start.mem
      start-Bounded k e =
          reached-lt k ((searches k).0 (sym (contains-extend k empty found empty-IsSynced) ∙ e))

      solve-drain :
          (w : ℕ → J)
          → a.solved ≡ false
          → drain l
              (enough l a.count (length (all_edges a)) (length start.mem))
              (all_edges a)
              a.weight
              start
            ≡ some w
          → solve l dfs a ≡ some (record a { edges = all_edges a; weight = w; solved = true })
      unfolding solve
      solve-drain w new e = rw (new, e) refl

      -- If an analysis is valid and not solved yet, and the search finds the nodes that the root
      -- reaches, then `solve` returns. At the nodes that a query depends on, the root among them, its
      -- weights are the least that are above the first ones there and respect the edges from these
      -- nodes. At every other node its weight is above the first one, and below that of any weights
      -- above the first ones that respect every edge.
      pub solve-Solves : a.solved ≡ false → (b : Analysis J K) × (solve l dfs a ≡ some b) × Solves b
      solve-Solves new =
          let (w, e) =
            drain-returns l _ a.count (all_edges a) a.weight start (λ d s h. (Edge-lt d s h).0)
              start-IsSynced start-Bounded
              (potential-lt-enough l a.count (all_edges a) a.weight start) in
          (
            record a { edges = all_edges a; weight = w; solved = true },
            solve-drain w new e,
            record {
              edges = refl;
              sentinel = refl;
              nodes = refl;
              queries = refl;
              solved = refl;
              least =
                  drain-IsLeast l (all_edges a) a.weight (Reaches (all_edges a) a.sentinel)
                    (λ d s h path. along path h) _ a.weight w start start-Invariant e;
            },
          )
