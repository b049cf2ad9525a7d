-- ===== src/Dataflow/Needs.antt =====
-- src/dataflow.rs: what `Analysis::root` returns, in terms of the keys that the calls named.
use mathlib.Core.Path.{subst}
use frawk.Prelude.{ℕ, ◌≡◌, ◌↔◌, ◌⊎◌, inl, inr, refl, sym, Bool, some, List, arith}
use frawk.Dataflow.{JoinSemiLattice, Analysis}
use frawk.Dataflow.Lattice.{Le, Le_trans}
use frawk.Dataflow.Solve.{root}
use frawk.Dataflow.Reach.{
  Reaches, here, along, Searches, all_edges, Edge-query_edges, Edge-query, query_edges-Edge,
}
use frawk.Dataflow.Root.{root_lem}
use frawk.Dataflow.Keys.{Op, src, dep, query, Said, IsEquality, At, Models}
use frawk.Dataflow.Run.{run, run-Models}

-- A query needs the key: it is a query, or a key that is needed depends on it.
pub data Needs {J K : Type 0} (ops : List (Op J K)) : K → Type 0 where
  asked : {k : K} → Said (query k) ops → Needs ops k
  further : {d s : K} → Needs ops d → Said (dep d s) ops → Needs ops s

module _ {J K : Type 0} (l : JoinSemiLattice J) (eq : K → K → Bool) where
  module _ (ops : List (Op J K)) (a : Analysis J K) (m : Models l eq ops a) where
    same_node : (k : K) (i j : ℕ) → At l eq a k i → At l eq a k j → i ≡ j
    same_node k i j h h' = ground (arith, h, h')

    -- The nodes that the sentinel reaches are those of the keys that are needed.
    Needs-Reaches :
        (k : K) → Needs ops k → (i : ℕ) × At l eq a k i × Reaches (all_edges a) a.sentinel i
    Needs-Reaches k (asked said) =
        let (i, at, q) = m.asked k said in
        (i, at, along here (Edge-query a.sentinel i a.queries a.edges q))
    Needs-Reaches k (further {d = d} needs said) =
        let (i, at, path) = Needs-Reaches d needs in
        let (i', j, at_d, at_s, e) = m.linked d k said in
        let edge = Edge-query_edges a.sentinel i' j a.queries a.edges e in
        (
          j,
          at_s,
          along (subst (Reaches (all_edges a) a.sentinel) (same_node d i i' at at_d) path) edge,
        )

    Reaches-Needs :
        (i : ℕ)
        → Reaches (all_edges a) a.sentinel i
        → (a.sentinel ≡ i) ⊎ ((k : K) × At l eq a k i × Needs ops k)
    Reaches-Needs i here = inl refl
    Reaches-Needs i (along {d = d} path edge) =
        elim (query_edges-Edge a.sentinel d i a.queries a.edges edge) [
          | inl wanted ↦ let (k, at, said) = m.asks i wanted.1 in inr (k, at, asked said)
          | inr old ↦
              let (kd, ks, at_d, at_s, said) = m.links d i old in
              elim (Reaches-Needs d path) [
                | inl start ↦ absurd (m.apart kd (subst (At l eq a kd) (sym start) at_d))
                | inr before ↦
                    let (k, at, needs) = before in
                    inr
                      (ks, at_s, further (subst (Needs ops) (m.distinct k kd d at at_d) needs) said)
              ]
        ]

    weights-sources :
        (u : J)
        → ((n : ℕ) → Reaches (all_edges a) a.sentinel n → Le l (a.weight n) u)
          ↔ ((k : K) (x : J) → Needs ops k → Said (src k x) ops → Le l x u)
    weights-sources u = (
      λ h k x needs said.
          let (i, at, path) = Needs-Reaches k needs in
          let (j, at', le) = m.fed k x said in
          Le_trans l x (a.weight j) u le
            (h j (subst (Reaches (all_edges a) a.sentinel) (same_node k i j at at') path)),
      λ h n path. m.feeds n u (λ k x at said. elim (Reaches-Needs n path) [
        | inl start ↦ absurd (m.apart k (subst (At l eq a k) (sym start) at))
        | inr (k', at', needs) ↦ h k x (subst (Needs ops) (m.distinct k' k n at' at) needs) said
      ]),
    )

  module _ (is_eq : IsEquality eq) (dfs : List (ℕ × ℕ) → ℕ → List ℕ) (ops : List (Op J K)) where
    abbrev pub built : Analysis J K
    built = run l eq ops

    -- For an analysis that any calls have built, if the search finds the nodes that the root reaches,
    -- then `root` returns, with the least value that is above each source of a key that a query needs.
    pub root-run :
        Searches dfs (all_edges built) built.sentinel
        → (v : J) × (root l dfs built ≡ some v)
          × ((u : J) → Le l v u ↔ ((k : K) (x : J) → Needs ops k → Said (src k x) ops → Le l x u))
    root-run searches =
        let m = run-Models l eq is_eq ops in
        let (v, e, least) = root_lem l eq dfs built searches m.valid m.unsolved in
        (
          v,
          e,
          λ u.
              let (to, from) = least u in
              let (to', from') = weights-sources ops built m u in
              (λ h. to' (to h), λ h. from (from' h)),
        )
