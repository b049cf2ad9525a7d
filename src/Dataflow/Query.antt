-- ===== src/Dataflow/Query.antt =====
-- src/dataflow.rs: what `Analysis::query` returns for one key of a solved analysis.
use mathlib.Core.Path.{subst}
use frawk.Prelude.{ℕ, ◌≡◌, refl, sym, Bool, true, some, List, contains, arith}
use frawk.Dataflow.{JoinSemiLattice, Analysis, look_up, get_node}
use frawk.Dataflow.Lattice.{Le, Le-refl, Le_trans}
use frawk.Dataflow.Solve as Solve
use frawk.Dataflow.Solve.{solve}
use frawk.Dataflow.Gather.{Edge}
use frawk.Dataflow.Reach.{Reaches, here, along, all_edges, Edge-query_edges, Edge-query}
use frawk.Dataflow.Correct.{Solves}
use frawk.Dataflow.Keys.{Op, src, dep, query, Said, At, Models}

-- The first key depends on the second one.
pub data Uses {J K : Type 0} (ops : List (Op J K)) (k : K) : K → Type 0 where
  itself : Uses ops k k
  onward : {d s : K} → Uses ops k d → Said (dep d s) ops → Uses ops k s

module _ {J K : Type 0} (l : JoinSemiLattice J) (eq : K → K → Bool)
    (dfs : List (ℕ × ℕ) → ℕ → List ℕ) where
  solve_solved : (b : Analysis J K) → b.solved ≡ true → solve l dfs b ≡ some b
  unfolding solve
  solve_solved b h = rw h refl

  get_node-At : (b : Analysis J K) (k : K) (i : ℕ) → At l eq b k i → get_node l eq b k ≡ (b, i)
  unfolding get_node
  get_node-At b k i h = rw (h, get_node) refl

  query-At :
      (b : Analysis J K) (k : K) (i : ℕ)
      → b.solved ≡ true
      → At l eq b k i
      → contains i b.queries ≡ true
      → Solve.query l eq dfs b k ≡ some (b, b.weight i)
  unfolding Solve.query
  query-At b k i solved at queried =
      rw (solve_solved b solved, get_node-At b k i at, queried, Solve.query, solve, get_node) refl

  module _ (ops : List (Op J K)) (a b : Analysis J K) (m : Models l eq ops a)
      (s : Solves l eq dfs a b) where
    same_node : (k : K) (i j : ℕ) → At l eq a k i → At l eq a k j → i ≡ j
    same_node k i j h h' = ground (arith, h, h')

    -- A key's value is above that of each key that it depends on.
    Uses-Le :
        (k k' : K) (i : ℕ)
        → At l eq a k i
        → Reaches (all_edges a) a.sentinel i
        → Uses ops k k'
        → (j : ℕ) × At l eq a k' j
          × Reaches (all_edges a) a.sentinel j
          × Le l (b.weight j) (b.weight i)
    Uses-Le k k' i at path itself = (i, at, path, Le-refl l (b.weight i))
    Uses-Le k k' i at path (onward {d = d} uses said) =
        let (j, at_j, path_j, le) = Uses-Le k d i at path uses in
        let (j', n, at_d, at_s, e) = m.linked d k' said in
        let edge =
          subst (λ x. Edge x n (all_edges a)) (same_node d j' j at_d at_j)
            (Edge-query_edges a.sentinel j' n a.queries a.edges e) in
        (
          n,
          at_s,
          along path_j edge,
          Le_trans l (b.weight n) (b.weight j) (b.weight i) (s.least.respects j n edge path_j) le,
        )

    -- A query of a solved analysis returns a value that the root is above, and that is above each
    -- source of a key that the queried one depends on.
    pub query_lem :
        (k : K)
        → Said (query k) ops
        → (v : J) × (Solve.query l eq dfs b k ≡ some (b, v))
          × Le l v (b.weight b.sentinel)
          × ((k' : K) (x : J) → Uses ops k k' → Said (src k' x) ops → Le l x v)
    query_lem k asked =
        let (i, at, queried) = m.asked k asked in
        let from_root = Edge-query a.sentinel i a.queries a.edges queried in
        let start = along here from_root in
        (
          b.weight i,
          query-At b k i s.solved (subst (λ nodes. look_up eq k nodes ≡ some i) (sym s.nodes) at)
              (subst (λ qs. contains i qs ≡ true) (sym s.queries) queried),
          subst (λ n. Le l (b.weight i) (b.weight n)) (sym s.sentinel)
              (s.least.respects a.sentinel i from_root here),
          λ k' x uses said.
              let (j, at_j, path, le) = Uses-Le k k' i at start uses in
              let (n, at_n, from_src) = m.fed k' x said in
              let weight_le =
                subst (λ z. Le l x (a.weight z)) (same_node k' n j at_n at_j) from_src in
              Le_trans l x (b.weight j) (b.weight i)
                (Le_trans l x (a.weight j) (b.weight j) weight_le (s.least.above j)) le,
        )
