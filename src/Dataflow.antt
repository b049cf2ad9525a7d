-- ===== src/Dataflow.antt =====
-- src/dataflow.rs: the framework of the static analyses. A graph has a lattice value at each node,
-- and an edge from a node to each node that its value depends on.
pub mod Lattice
pub mod Solve
pub mod Gather
pub mod Round
pub mod Least
pub mod Fuel
pub mod Valid
pub mod Reach
pub mod Correct
pub mod Keys
pub mod Run
pub mod Needs
pub mod Boilerplate
pub mod Operands
pub mod KeyEq
pub mod Program
pub mod Query
pub mod Derives
pub mod Root
use frawk.Prelude.{
  ℕ, zero, suc, ◌+◌, ◌≤◌, ◌<◌, ◌≡◌, Bool, true, false, Option, none, some, List, [], ◌∷◌, ◌==◌,
  if◌then◌else◌, contains,
}

-- What the analyses rely on: `invoke` is a join, it reports every change, and a value changes at
-- most `height` times.
pub record IsLawful {J : Type 0} (bottom : J) (invoke : J → J → J × Bool) : Type 0 where
  pub join_idem : (a : J) → (invoke a a).0 ≡ a
  pub join_comm : (a b : J) → (invoke a b).0 ≡ (invoke b a).0
  pub join_assoc : (a b c : J) → (invoke (invoke a b).0 c).0 ≡ (invoke a (invoke b c).0).0
  pub join_bottom : (a : J) → (invoke a bottom).0 ≡ a
  pub unchanged : (a b : J) → (invoke a b).1 ≡ false → (invoke a b).0 ≡ a
  pub rank : J → ℕ
  pub height : ℕ
  pub rank-le : (a : J) → rank a ≤ height
  pub rank-lt : (a b : J) → (invoke a b).1 ≡ true → rank a < rank (invoke a b).0

-- `trait JoinSemiLattice`, with `Func = ()` as in each of its implementations. `invoke` returns the
-- new value of `self` and whether that changed.
pub record JoinSemiLattice (J : Type 0) : Type 0 where
  pub bottom : J
  pub invoke : J → J → J × Bool
  pub lawful : IsLawful bottom invoke
  pub open lawful use *

-- `Analysis`. The nodes are numbered in the order of their creation. The edges stand in the order
-- in which petgraph walks them, the newest first. The set of queries is the list of its members.
pub record Analysis (J K : Type 0) : Type 0 where
  pub sentinel : ℕ
  pub nodes : List (K × ℕ)
  pub count : ℕ
  pub weight : ℕ → J
  pub edges : List (ℕ × ℕ)
  pub queries : List ℕ
  pub solved : Bool

abbrev pub update {ℓ} : {J : Type ℓ} → (ℕ → J) → ℕ → J → ℕ → J
update w n v m = if n == m then v else w m

abbrev pub look_up {ℓ} : {K : Type ℓ} → (K → K → Bool) → K → List (K × ℕ) → Option ℕ
look_up eq k [] = none
look_up eq k (entry ∷ rest) = if eq entry.0 k then some entry.1 else look_up eq k rest

module _ {J K : Type 0} (l : JoinSemiLattice J) (eq : K → K → Bool) where
  -- `Analysis::default`
  unfoldable pub new : Analysis J K
  new = record {
    sentinel = 0;
    nodes = [];
    count = 1;
    weight = λ n. l.bottom;
    edges = [];
    queries = [];
    solved = false;
  }

  unfoldable pub get_node : Analysis J K → K → Analysis J K × ℕ
  get_node a k = elim (look_up eq k a.nodes) [
    | some ix ↦ (a, ix)
    | none ↦ (
      record a {
        nodes = (k, a.count) ∷ a.nodes;
        weight = update a.weight a.count l.bottom;
        count = suc a.count;
      },
      a.count,
    )
  ]

  unfoldable pub add_src : Analysis J K → K → J → Analysis J K
  unfolding get_node
  add_src a k v =
      let (b, ix) = get_node a k in
      record b { weight = update b.weight ix (l.invoke v (b.weight ix)).0 }

  -- The edge leads from the node that depends to the node that it depends on.
  unfoldable pub add_dep : Analysis J K → K → K → Analysis J K
  unfolding get_node
  add_dep a dst src =
      let (b, dst_ix) = get_node a dst in
      let (c, src_ix) = get_node b src in record c { edges = (dst_ix, src_ix) ∷ c.edges }

  unfoldable pub add_query : Analysis J K → K → Analysis J K
  unfolding get_node
  add_query a k =
      let (b, ix) = get_node a k in
      record b { queries = if contains ix b.queries then b.queries else ix ∷ b.queries }
