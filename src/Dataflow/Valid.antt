-- ===== src/Dataflow/Valid.antt =====
-- src/dataflow.rs: the nodes that an `Analysis` refers to are nodes of its graph.
use frawk.Prelude.{
  ℕ, suc, ◌≤◌, ◌<◌, ◌≡◌, inl, inr, refl, Bool, true, false, Option, none, some, ◌∷◌, ==→eq,
  if◌then◌else◌, arith, contains,
}
use frawk.Dataflow.{JoinSemiLattice, Analysis, look_up, new, get_node, add_src, add_dep, add_query}
use frawk.Dataflow.Gather.{Edge}

module _ {J K : Type 0} (eq : K → K → Bool) where
  pub record IsValid (a : Analysis J K) : Type 0 where
    pub sentinel-lt : a.sentinel < a.count
    pub node-lt : (k : K) (ix : ℕ) → look_up eq k a.nodes ≡ some ix → ix < a.count
    pub edge-lt : (d s : ℕ) → Edge d s a.edges → (d < a.count) × (s < a.count)
    pub query-lt : (q : ℕ) → contains q a.queries ≡ true → q < a.count

  module _ (l : JoinSemiLattice J) where
    pub new-IsValid : IsValid (new l eq)
    unfolding new
    new-IsValid = record {
      sentinel-lt = omega arith;
      node-lt = λ k ix h. absurd (ground (arith, h));
      edge-lt = λ d s h. absurd h;
      query-lt = λ q h. absurd (ground (arith, h));
    }

    -- A new node leaves the others in the graph.
    pub grown-IsValid :
        (a : Analysis J K) (k : K) (w : ℕ → J)
        → IsValid a
        → IsValid (record a { nodes = (k, a.count) ∷ a.nodes; weight = w; count = suc a.count })
    grown-IsValid a k w h = record {
      sentinel-lt = omega (arith, h.sentinel-lt);
      node-lt = λ k' ix e. by_key k' ix (eq k k') e;
      edge-lt = λ d s e. let (x, y) = h.edge-lt d s e in (omega (arith, x), omega (arith, y));
      query-lt = λ q e. omega (arith, h.query-lt q e);
    }
      where
        by_key :
            (k' : K) (ix : ℕ) (same : Bool)
            → (if same then some a.count else look_up eq k' a.nodes) ≡ some ix
            → ix < suc a.count
        by_key k' ix true e = ground (arith, e)
        by_key k' ix false e = omega (arith, h.node-lt k' ix e)

    pub get_node-IsValid :
        (a : Analysis J K) (k : K)
        → IsValid a
        → IsValid (get_node l eq a k).0 × ((get_node l eq a k).1 < (get_node l eq a k).0.count)
    unfolding get_node
    get_node-IsValid a k h = by_found (look_up eq k a.nodes) refl
      where
        by_found :
            (r : Option ℕ)
            → look_up eq k a.nodes ≡ r
            → IsValid (get_node l eq a k).0 × ((get_node l eq a k).1 < (get_node l eq a k).0.count)
        by_found none e = rw (e, get_node) (grown-IsValid a k _ h, omega arith)
        by_found (some ix) e = rw (e, get_node) (h, h.node-lt k ix e)

    pub add_src-IsValid :
        (a : Analysis J K) (k : K) (v : J) → IsValid a → IsValid (add_src l eq a k v)
    unfolding add_src
    add_src-IsValid a k v h =
        let b = (get_node-IsValid a k h).0 in
        record {
          sentinel-lt = b.sentinel-lt;
          node-lt = b.node-lt;
          edge-lt = b.edge-lt;
          query-lt = b.query-lt;
        }

    get_node-count-le : (a : Analysis J K) (k : K) → a.count ≤ (get_node l eq a k).0.count
    unfolding get_node
    get_node-count-le a k = ground arith

    pub add_dep-IsValid :
        (a : Analysis J K) (dst src : K) → IsValid a → IsValid (add_dep l eq a dst src)
    unfolding add_dep
    add_dep-IsValid a dst src h =
        let b = get_node-IsValid a dst h in
        let c = get_node-IsValid (get_node l eq a dst).0 src b.0 in
        let grew = get_node-count-le (get_node l eq a dst).0 src in
        record {
          sentinel-lt = c.0.sentinel-lt;
          node-lt = c.0.node-lt;
          edge-lt = λ d s e. elim e [
            | inl new ↦ (omega (arith, new.0, b.1, grew), omega (arith, new.1, c.1))
            | inr old ↦ c.0.edge-lt d s old
          ];
          query-lt = c.0.query-lt;
        }

    pub add_query-IsValid : (a : Analysis J K) (k : K) → IsValid a → IsValid (add_query l eq a k)
    unfolding add_query
    add_query-IsValid a k h =
        let b = get_node-IsValid a k h in
        record {
          sentinel-lt = b.0.sentinel-lt;
          node-lt = b.0.node-lt;
          edge-lt = b.0.edge-lt;
          query-lt = λ q e. ground (arith, e, b.1, b.0.query-lt q, ==→eq (get_node l eq a k).1 q);
        }
