-- ===== src/Dataflow/Run.antt =====
-- src/dataflow.rs: an analysis that is built by calls of `add_src`, `add_dep` and `add_query`.
use mathlib.Core.Path.{subst}
use frawk.Prelude.{
  ℕ, ◌≡◌, ◌⊎◌, inl, inr, refl, Bool, true, List, [], ◌∷◌, ◌==◌, ==→eq, ==-refl, if◌then◌else◌,
  arith, contains, Bool-cases,
}
use frawk.Dataflow.{JoinSemiLattice, Analysis, update, new, get_node, add_src, add_dep, add_query}
use frawk.Dataflow.Lattice.{
  Le, Le-refl, Le-bottom, Le_trans, Le-join_left, Le-join_right, join-least,
}
use frawk.Dataflow.Valid.{new-IsValid, add_src-IsValid, add_dep-IsValid, add_query-IsValid}
use frawk.Dataflow.Keys.{Op, src, dep, query, IsEquality, At, Models, get_node-Models, get_node-At}

src-injective : {J K : Type 0} (k k' : K) (x x' : J) → src k x ≡ src k' x' → (k ≡ k') × (x ≡ x')
src-injective k k' x x' h = (cc, cc)

dep-injective :
    {J K : Type 0} (d d' s s' : K) → ◌≡◌ {A = Op J K} (dep d s) (dep d' s') → (d ≡ d') × (s ≡ s')
dep-injective d d' s s' h = (cc, cc)

query-injective : {J K : Type 0} (k k' : K) → ◌≡◌ {A = Op J K} (query k) (query k') → k ≡ k'
query-injective k k' h = cc

-- The members of the set of queries after `insert`.
abbrev with_query : ℕ → List ℕ → List ℕ
with_query ix queries = if contains ix queries then queries else ix ∷ queries

with_query-old :
    (ix i : ℕ) (queries : List ℕ)
    → contains i queries ≡ true
    → contains i (with_query ix queries) ≡ true
with_query-old ix i queries h = ground arith

with_query-new : (ix : ℕ) (queries : List ℕ) → contains ix (with_query ix queries) ≡ true
with_query-new ix queries = ground (arith, ==-refl ix)

with_query-cases :
    (ix i : ℕ) (queries : List ℕ)
    → contains i (with_query ix queries) ≡ true
    → (ix ≡ i) ⊎ (contains i queries ≡ true)
with_query-cases ix i queries h = elim (Bool-cases (ix == i)) [
  | inl same ↦ inl (==→eq ix i same)
  | inr other ↦ inr (ground (arith, h, other))
]

module _ {J K : Type 0} (l : JoinSemiLattice J) (eq : K → K → Bool) where
  unfoldable pub apply : Op J K → Analysis J K → Analysis J K
  apply (src k x) a = add_src l eq a k x
  apply (dep d s) a = add_dep l eq a d s
  apply (query k) a = add_query l eq a k

  -- The analysis after some operations, the latest of which stands first.
  unfoldable pub run : List (Op J K) → Analysis J K
  run [] = new l eq
  run (op ∷ ops) = apply op (run ops)

  module _ (is_eq : IsEquality eq) where
    -- Joining a source into a node takes nothing from any node.
    weight-src : (w : ℕ → J) (ix i : ℕ) (x : J) → Le l (w i) (update w ix (l.invoke x (w ix)).0 i)
    weight-src w ix i x = elim (Bool-cases (ix == i)) [
      | inl same ↦
          let at_i : ix ≡ i = ==→eq ix i same in
          rw same (subst (λ j. Le l (w j) (l.invoke x (w ix)).0) at_i (Le-join_right l x (w ix)))
      | inr other ↦ rw other (Le-refl l (w i))
    ]

    new-Models : Models l eq [] (new l eq)
    unfolding new
    new-Models = record {
      valid = new-IsValid eq l;
      unsolved = refl;
      distinct = λ k k' i h h'. absurd (ground (arith, h));
      apart = λ k h. absurd (ground (arith, h));
      asked = λ k h. absurd h;
      asks = λ i h. absurd (ground (arith, h));
      linked = λ d s h. absurd h;
      links = λ i j h. absurd h;
      fed = λ k x h. absurd h;
      feeds = λ i u h. Le-bottom l u;
    }

    module _ (ops : List (Op J K)) (a : Analysis J K) (m : Models l eq ops a) where
      src-Models : (k : K) (x : J) → Models l eq (src k x ∷ ops) (add_src l eq a k x)
      unfolding add_src
      src-Models k x =
          let b = get_node-Models l eq is_eq ops a k m in
          let ix = (get_node l eq a k).1 in
          let w = (get_node l eq a k).0.weight in
          record {
            valid = add_src-IsValid eq l a k x m.valid;
            unsolved = b.0.unsolved;
            distinct = b.0.distinct;
            apart = b.0.apart;
            asked =
                λ k1 h. elim h [ inl e ↦ absurd (ground (arith, e)) | inr h' ↦ b.0.asked k1 h' ];
            asks = λ i h. let (k1, at, said) = b.0.asks i h in (k1, at, inr said);
            linked =
                λ d s h. elim h [ inl e ↦ absurd (ground (arith, e)) | inr h' ↦ b.0.linked d s h' ];
            links = λ i j h.
                let (d, s, at_d, at_s, said) = b.0.links i j h in (d, s, at_d, at_s, inr said);
            fed = λ k1 y h. elim h [
              | inl e ↦
                  let same = src-injective k k1 x y e in
                  (
                    ix,
                    subst (λ z. At l eq (get_node l eq a k).0 z ix) same.0 b.1,
                    rw (==-refl ix) (
                        subst (λ z. Le l z (l.invoke x (w ix)).0) same.1 (Le-join_left l x (w ix))),
                  )
              | inr h' ↦
                  let (i, at, le) = b.0.fed k1 y h' in
                  (
                    i,
                    at,
                    Le_trans l y (w i) (update w ix (l.invoke x (w ix)).0 i) le
                        (weight-src w ix i x),
                  )
            ];
            feeds = λ i u h. elim (Bool-cases (ix == i)) [
              | inl same ↦
                  let at_i : ix ≡ i = ==→eq ix i same in
                  rw same (
                    join-least l x (w ix) u
                      (h k x (subst (At l eq (get_node l eq a k).0 k) at_i b.1) (inl refl))
                      (b.0.feeds ix u (λ k1 y at said.
                        h k1 y (subst (At l eq (get_node l eq a k).0 k1) at_i at) (inr said))))
              | inr other ↦ rw other (b.0.feeds i u (λ k1 y at said. h k1 y at (inr said)))
            ];
          }

      dep-Models : (d s : K) → Models l eq (dep d s ∷ ops) (add_dep l eq a d s)
      unfolding add_dep
      dep-Models d s =
          let b = get_node-Models l eq is_eq ops a d m in
          let c = get_node-Models l eq is_eq ops (get_node l eq a d).0 s b.0 in
          let at_d =
            get_node-At l eq is_eq ops (get_node l eq a d).0 s d (get_node l eq a d).1 b.0 b.1 in
          record {
            valid = add_dep-IsValid eq l a d s m.valid;
            unsolved = c.0.unsolved;
            distinct = c.0.distinct;
            apart = c.0.apart;
            asked =
                λ k1 h. elim h [ inl e ↦ absurd (ground (arith, e)) | inr h' ↦ c.0.asked k1 h' ];
            asks = λ i h. let (k1, at, said) = c.0.asks i h in (k1, at, inr said);
            linked = λ d1 s1 h. elim h [
              | inl e ↦
                  let same = dep-injective d d1 s s1 e in
                  (
                    (get_node l eq a d).1,
                    (get_node l eq (get_node l eq a d).0 s).1,
                    subst (λ z. At l eq (add_dep l eq a d s) z (get_node l eq a d).1) same.0 at_d,
                    subst
                        (λ z.
                          At l eq (add_dep l eq a d s) z (get_node l eq (get_node l eq a d).0 s).1)
                        same.1 c.1,
                    inl (refl, refl),
                  )
              | inr h' ↦ let (i, j, x, y, e) = c.0.linked d1 s1 h' in (i, j, x, y, inr e)
            ];
            links = λ i j h. elim h [
              | inl e ↦ (
                d,
                s,
                subst (λ z. At l eq (add_dep l eq a d s) d z) e.0 at_d,
                subst (λ z. At l eq (add_dep l eq a d s) s z) e.1 c.1,
                inl refl,
              )
              | inr h' ↦ let (d1, s1, x, y, said) = c.0.links i j h' in (d1, s1, x, y, inr said)
            ];
            fed =
                λ k1 y h. elim h [ inl e ↦ absurd (ground (arith, e)) | inr h' ↦ c.0.fed k1 y h' ];
            feeds = λ i u h. c.0.feeds i u (λ k1 y at said. h k1 y at (inr said));
          }

      query-Models : (k : K) → Models l eq (query k ∷ ops) (add_query l eq a k)
      unfolding add_query
      query-Models k =
          let b = get_node-Models l eq is_eq ops a k m in
          let ix = (get_node l eq a k).1 in
          let queries = (get_node l eq a k).0.queries in
          record {
            valid = add_query-IsValid eq l a k m.valid;
            unsolved = b.0.unsolved;
            distinct = b.0.distinct;
            apart = b.0.apart;
            asked = λ k1 h. elim h [
              | inl e ↦ (
                ix,
                subst (λ z. At l eq (get_node l eq a k).0 z ix) (query-injective k k1 e) b.1,
                with_query-new ix queries,
              )
              | inr h' ↦ let (i, at, q) = b.0.asked k1 h' in (i, at, with_query-old ix i queries q)
            ];
            asks = λ i h. elim (with_query-cases ix i queries h) [
              | inl same ↦ (k, subst (At l eq (get_node l eq a k).0 k) same b.1, inl refl)
              | inr h' ↦ let (k1, at, said) = b.0.asks i h' in (k1, at, inr said)
            ];
            linked =
                λ d s h. elim h [ inl e ↦ absurd (ground (arith, e)) | inr h' ↦ b.0.linked d s h' ];
            links = λ i j h.
                let (d, s, at_d, at_s, said) = b.0.links i j h in (d, s, at_d, at_s, inr said);
            fed =
                λ k1 y h. elim h [ inl e ↦ absurd (ground (arith, e)) | inr h' ↦ b.0.fed k1 y h' ];
            feeds = λ i u h. b.0.feeds i u (λ k1 y at said. h k1 y at (inr said));
          }

    -- After any calls the graph has a node of its own for each key that they named, and exactly their
    -- edges, queries and sources; the analysis is valid and not solved.
    pub run-Models : (ops : List (Op J K)) → Models l eq ops (run ops)
    unfolding run apply
    run-Models [] = new-Models
    run-Models (src k x ∷ ops) = src-Models ops (run ops) (run-Models ops) k x
    run-Models (dep d s ∷ ops) = dep-Models ops (run ops) (run-Models ops) d s
    run-Models (query k ∷ ops) = query-Models ops (run ops) (run-Models ops) k
