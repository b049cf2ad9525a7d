-- ===== src/Dataflow/Root.antt =====
-- src/dataflow.rs: what `Analysis::root` returns, in terms of the sources.
use frawk.Prelude.{ℕ, ◌≡◌, ◌↔◌, refl, ap, ◌∙◌, Bool, false, some, List}
use frawk.Dataflow.{JoinSemiLattice, Analysis}
use frawk.Dataflow.Lattice.{Le, Le-refl, Le_trans}
use frawk.Dataflow.Solve.{solve, root}
use frawk.Dataflow.Valid.{IsValid}
use frawk.Dataflow.Reach.{all_edges, Reaches, here, along, Searches}
use frawk.Dataflow.Correct.{Solves, solve-Solves}

module _ {J K : Type 0} (l : JoinSemiLattice J) (eq : K → K → Bool)
    (dfs : List (ℕ × ℕ) → ℕ → List ℕ) (a : Analysis J K) where
  -- The root is below each value that is above the nodes that it reaches.
  root-Le :
      (u : J) (b : Analysis J K)
      → ((n : ℕ) → Reaches (all_edges a) a.sentinel n → Le l (a.weight n) u)
      → Solves l eq dfs a b
      → Le l (b.weight a.sentinel) u
  root-Le u b above s =
      s.least.below (λ n. u) (record { above = above; respects = λ d n e path. Le-refl l u })
        a.sentinel here

  -- The root is above every node that it reaches.
  Le-root :
      (b : Analysis J K) (n : ℕ)
      → Solves l eq dfs a b
      → Reaches (all_edges a) a.sentinel n
      → Le l (b.weight n) (b.weight a.sentinel)
  Le-root b n s here = Le-refl l (b.weight a.sentinel)
  Le-root b n s (along {d = d} path e) =
      Le_trans l (b.weight n) (b.weight d) (b.weight a.sentinel) (s.least.respects d n e path)
        (Le-root b d s path)

  root_of_solve :
      (b : Analysis J K) → solve l dfs a ≡ some b → root l dfs a ≡ some (b.weight b.sentinel)
  unfolding root
  root_of_solve b e = rw (e, root) refl

  -- `root` returns, with the least value that is above the weight of each node that a query depends
  -- on.
  pub root_lem :
      Searches dfs (all_edges a) a.sentinel
      → IsValid eq a
      → a.solved ≡ false
      → (v : J) × (root l dfs a ≡ some v)
        × ((u : J)
            → Le l v u ↔ ((n : ℕ) → Reaches (all_edges a) a.sentinel n → Le l (a.weight n) u))
  root_lem searches valid new =
      let (b, e, s) = solve-Solves l eq dfs a searches valid new in
      (
        b.weight a.sentinel,
        root_of_solve b e ∙ ap (λ n. some (b.weight n)) s.sentinel,
        λ u. (
          λ h n path.
              Le_trans l (a.weight n) (b.weight n) u (s.least.above n)
                (Le_trans l (b.weight n) (b.weight a.sentinel) u (Le-root b n s path) h),
          λ above. root-Le u b above s,
        ),
      )
