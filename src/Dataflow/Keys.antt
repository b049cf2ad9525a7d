-- ===== src/Dataflow/Keys.antt =====
-- src/dataflow.rs: the operations that an analysis is built with, and what its graph has of them.
use mathlib.Core.Path.{subst}
use frawk.Prelude.{
  ℕ, suc, ◌≡◌, ◌↔◌, ◌⊎◌, inl, inr, refl, sym, ap, ◌∙◌, Bool, true, false, Option, none, some, List,
  [], ◌∷◌, ◌<◌, ◌==◌, arith, contains, Bool-cases,
}
use frawk.Dataflow.{JoinSemiLattice, Analysis, look_up, update, get_node}
use frawk.Dataflow.Lattice.{Le, Le-bottom}
use frawk.Dataflow.Gather.{Edge}
use frawk.Dataflow.Valid.{IsValid, grown-IsValid}

-- A call of `add_src`, `add_dep` or `add_query`.
pub data Op (J K : Type 0) : Type 0 where
  src : K → J → Op J K
  dep : K → K → Op J K
  query : K → Op J K

abbrev pub Said : {J K : Type 0} → Op J K → List (Op J K) → Type 0
Said op [] = ⊥
Said op (op' ∷ ops) = (op' ≡ op) ⊎ Said op ops

-- What `K : Eq + Hash` promises.
abbrev pub IsEquality : {K : Type 0} → (K → K → Bool) → Type 0
IsEquality {K = K} eq = (k k' : K) → (eq k k' ≡ true) ↔ (k ≡ k')

module _ {J K : Type 0} (l : JoinSemiLattice J) (eq : K → K → Bool) where
  abbrev pub At : Analysis J K → K → ℕ → Type 0
  At a k i = look_up eq k a.nodes ≡ some i

  -- The graph has the nodes, edges, queries and sources of the operations, and no others.
  pub record Models (ops : List (Op J K)) (a : Analysis J K) : Type 0 where
    pub valid : IsValid eq a
    pub unsolved : a.solved ≡ false
    pub distinct : (k k' : K) (i : ℕ) → At a k i → At a k' i → k ≡ k'
    pub apart : (k : K) → ¬ At a k a.sentinel
    pub asked : (k : K) → Said (query k) ops → (i : ℕ) × At a k i × (contains i a.queries ≡ true)
    pub asks : (i : ℕ) → contains i a.queries ≡ true → (k : K) × At a k i × Said (query k) ops
    pub linked :
        (d s : K) → Said (dep d s) ops → (i : ℕ) × (j : ℕ) × At a d i × At a s j × Edge i j a.edges
    pub links :
        (i j : ℕ) → Edge i j a.edges → (d : K) × (s : K) × At a d i × At a s j × Said (dep d s) ops
    pub fed : (k : K) (x : J) → Said (src k x) ops → (i : ℕ) × At a k i × Le l x (a.weight i)
    pub feeds :
        (i : ℕ) (u : J)
        → ((k : K) (x : J) → At a k i → Said (src k x) ops → Le l x u)
        → Le l (a.weight i) u

  module _ (is_eq : IsEquality eq) where
    some-injective : (i j : ℕ) → some i ≡ some j → i ≡ j
    some-injective i j h = cc

    module _ (a : Analysis J K) (k : K) (missing : look_up eq k a.nodes ≡ none)
        (valid : IsValid eq a) where
      abbrev grown : Analysis J K
      grown = record a {
        nodes = (k, a.count) ∷ a.nodes;
        weight = update a.weight a.count l.bottom;
        count = suc a.count;
      }

      -- A key that has a node keeps it.
      At-grown : (k' : K) (i : ℕ) → At a k' i → At grown k' i
      At-grown k' i h = elim (Bool-cases (eq k k')) [
        | inl same ↦
            absurd (
              ground
                (arith, sym missing ∙ ap (λ x. look_up eq x a.nodes) ((is_eq k k').0 same) ∙ h))
        | inr other ↦ rw other h
      ]

      grown-At : (k' : K) (i : ℕ) → At grown k' i → ((k ≡ k') × (i ≡ a.count)) ⊎ At a k' i
      grown-At k' i h = elim (Bool-cases (eq k k')) [
        | inl same ↦ inl ((is_eq k k').0 same, ground (arith, h, same))
        | inr other ↦ inr (ground (arith, h, other))
      ]

      grown-weight : (i : ℕ) → i < a.count → grown.weight i ≡ a.weight i
      grown-weight i h = ground (arith, h)

      grown-Models : (ops : List (Op J K)) → Models ops a → Models ops grown
      grown-Models ops m = record {
        valid = grown-IsValid eq l a k _ valid;
        unsolved = m.unsolved;
        distinct = λ k1 k2 i h1 h2. elim (grown-At k1 i h1) [
          | inl new1 ↦ elim (grown-At k2 i h2) [
            | inl new2 ↦ sym new1.0 ∙ new2.0
            | inr old2 ↦ absurd (omega (arith, new1.1, valid.node-lt k2 i old2))
          ]
          | inr old1 ↦ elim (grown-At k2 i h2) [
            | inl new2 ↦ absurd (omega (arith, new2.1, valid.node-lt k1 i old1))
            | inr old2 ↦ m.distinct k1 k2 i old1 old2
          ]
        ];
        apart = λ k1 h. elim (grown-At k1 a.sentinel h) [
          | inl new1 ↦ absurd (omega (arith, new1.1, valid.sentinel-lt))
          | inr old1 ↦ m.apart k1 old1
        ];
        asked = λ k1 h. let (i, at, q) = m.asked k1 h in (i, At-grown k1 i at, q);
        asks = λ i h. let (k1, at, q) = m.asks i h in (k1, At-grown k1 i at, q);
        linked = λ d s h.
            let (i, j, at_d, at_s, e) = m.linked d s h in
            (i, j, At-grown d i at_d, At-grown s j at_s, e);
        links = λ i j e.
            let (d, s, at_d, at_s, h) = m.links i j e in
            (d, s, At-grown d i at_d, At-grown s j at_s, h);
        fed = λ k1 x h.
            let (i, at, le) = m.fed k1 x h in
            (
              i,
              At-grown k1 i at,
              subst (λ y. Le l x y) (sym (grown-weight i (valid.node-lt k1 i at))) le,
            );
        feeds = λ i u h. elim (Bool-cases (a.count == i)) [
          | inl last ↦ rw last (Le-bottom l u)
          | inr earlier ↦ rw earlier (m.feeds i u (λ k1 x at said. h k1 x (At-grown k1 i at) said))
        ];
      }

    -- `get_node` leaves the graph a model of the same operations, and returns the node of its key.
    pub get_node-Models :
        (ops : List (Op J K)) (a : Analysis J K) (k : K)
        → Models ops a
        → Models ops (get_node l eq a k).0 × At (get_node l eq a k).0 k (get_node l eq a k).1
    unfolding get_node
    get_node-Models ops a k m = by_found (look_up eq k a.nodes) refl
      where
        by_found :
            (r : Option ℕ)
            → look_up eq k a.nodes ≡ r
            → Models ops (get_node l eq a k).0 × At (get_node l eq a k).0 k (get_node l eq a k).1
        by_found none e =
            rw (e, get_node) (grown-Models a k e m.valid ops m, rw ((is_eq k k).1 refl) refl)
        by_found (some ix) e = rw (e, get_node) (m, e)

    -- A second call keeps the node that a first call returned.
    pub get_node-At :
        (ops : List (Op J K)) (a : Analysis J K) (k k' : K) (i : ℕ)
        → Models ops a
        → At a k' i
        → At (get_node l eq a k).0 k' i
    unfolding get_node
    get_node-At ops a k k' i m at = by_found (look_up eq k a.nodes) refl
      where
        by_found : (r : Option ℕ) → look_up eq k a.nodes ≡ r → At (get_node l eq a k).0 k' i
        by_found none e = rw (e, get_node) (At-grown a k e m.valid k' i at)
        by_found (some ix) e = rw (e, get_node) at
