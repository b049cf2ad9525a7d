-- ===== src/Dataflow/Round.antt =====
-- src/dataflow.rs: the invariant of the loop of `Analysis::solve`, and the weights after one round.
use mathlib.Core.Path.{subst}
use frawk.Prelude.{
  ℕ, ◌≡◌, ◌⊎◌, inl, inr, refl, sym, ◌∙◌, Bool, true, false, List, [], ◌∷◌, ◌==◌, ==→eq, ==-refl,
  arith, Bool-cases, contains,
}
use frawk.WorkList.{WorkList}
use frawk.WorkList.Order.{IsSynced}
use frawk.Dataflow.{JoinSemiLattice, update}
use frawk.Dataflow.Lattice.{Le, Le-refl, Le-bottom, Le_trans}
use frawk.Dataflow.Solve.{gather, incoming}
use frawk.Dataflow.Gather.{Edge, gather-start, gather-Edge, gather-least, gather_unchanged}

pub contains-incoming :
    (d n : ℕ) (edges : List (ℕ × ℕ)) → Edge d n edges → contains d (incoming n edges) ≡ true
unfolding incoming
contains-incoming d n [] h = absurd h
contains-incoming d n ((d', s) ∷ edges) (inl here) = rw (here.0, here.1, ==-refl n, ==-refl d) refl
contains-incoming d n ((d', s) ∷ edges) (inr there) =
    ground (arith, contains-incoming d n edges there)

abbrev pub Anywhere : ℕ → Type 0
Anywhere m = Unit {0}

module _ {J : Type 0} (l : JoinSemiLattice J) (edges : List (ℕ × ℕ)) (first : ℕ → J) where
  -- Values that, at the nodes of `Among`, are above the first weights and respect the edges from them.
  pub record IsSolution (Among : ℕ → Type 0) (g : ℕ → J) : Type 0 where
    pub above : (m : ℕ) → Among m → Le l (first m) (g m)
    pub respects : (d s : ℕ) → Edge d s edges → Among d → Le l (g s) (g d)

  -- `w` is nowhere in `Among` above values of that kind.
  abbrev pub IsBelow : (ℕ → Type 0) → (ℕ → J) → Type 0
  IsBelow Among w = (g : ℕ → J) → IsSolution Among g → (m : ℕ) → Among m → Le l (w m) (g m)

  module _ (Visited : ℕ → Type 0) where
    pub record Invariant (w : ℕ → J) (wl : WorkList) : Type 0 where
      pub synced : IsSynced wl
      pub above : (m : ℕ) → Le l (first m) (w m)
      pub stable :
          (d s : ℕ) → Edge d s edges → Visited d → (contains d wl.mem ≡ true) ⊎ Le l (w s) (w d)
      pub below : IsBelow Visited w
      pub bounded : IsBelow Anywhere w

module _ {J : Type 0} (l : JoinSemiLattice J) (edges : List (ℕ × ℕ)) (w : ℕ → J) (n : ℕ) where
  abbrev pub taken : ℕ → J
  taken = update w n l.bottom

  abbrev pub gathered : J × Bool
  gathered = gather l taken n edges (w n) false

  abbrev pub after : ℕ → J
  after = update taken n gathered.0

  pub after_self : after n ≡ gathered.0
  after_self = rw (==-refl n) refl

  pub after-other : (m : ℕ) → (n == m) ≡ false → after m ≡ w m
  after-other m h = rw h refl

  taken-other : (m : ℕ) → (n == m) ≡ false → taken m ≡ w m
  taken-other m h = rw h refl

  pub Le-after : (m : ℕ) → Le l (w m) (after m)
  Le-after m = elim (Bool-cases (n == m)) [
    | inl own ↦
        let same : n ≡ m = ==→eq n m own in
        subst (λ k. Le l (w k) (after k)) same
          (subst (λ v. Le l (w n) v) (sym after_self) (gather-start l taken n edges (w n) false))
    | inr other ↦ subst (λ v. Le l (w m) v) (sym (after-other m other)) (Le-refl l (w m))
  ]

  pub after_unchanged : gathered.1 ≡ false → (m : ℕ) → after m ≡ w m
  after_unchanged h m = elim (Bool-cases (n == m)) [
    | inl own ↦
        let same : n ≡ m = ==→eq n m own in
        subst (λ k. after k ≡ w k) same (after_self ∙ gather_unchanged l taken n edges (w n) h)
    | inr other ↦ after-other m other
  ]

  -- The node's own dependencies are respected after the round.
  pub after-own : (s : ℕ) → Edge n s edges → Le l (after s) (after n)
  after-own s h = elim (Bool-cases (n == s)) [
    | inl own ↦
        let same : n ≡ s = ==→eq n s own in
        subst (λ k. Le l (after k) (after n)) same (Le-refl l (after n))
    | inr other ↦
        subst (λ v. Le l v (after n)) (taken-other s other ∙ sym (after-other s other))
          (subst (λ v. Le l (taken s) v) (sym after_self)
            (gather-Edge l taken n edges (w n) false s h))
  ]

  module _ (first : ℕ → J) (Among : ℕ → Type 0)
      (closed : (d s : ℕ) → Edge d s edges → Among d → Among s) where
    pub after-IsBelow : IsBelow l edges first Among w → IsBelow l edges first Among after
    after-IsBelow h g solution m v = elim (Bool-cases (n == m)) [
      | inl own ↦
          let same : n ≡ m = ==→eq n m own in
          subst (λ k. Le l (after k) (g k)) same
            (subst (λ v. Le l v (g n)) (sym after_self)
              (gather-least l taken n edges (w n) false (g n) (h g solution n (own_Among same))
                (λ s e.
                  Le_trans l (taken s) (g s) (g n) (taken-below s (closed n s e (own_Among same)))
                    (solution.respects n s e (own_Among same)))))
      | inr other ↦ subst (λ x. Le l x (g m)) (sym (after-other m other)) (h g solution m v)
    ]
      where
        own_Among : n ≡ m → Among n
        own_Among same = subst Among (sym same) v

        taken-below : (s : ℕ) → Among s → Le l (taken s) (g s)
        taken-below s within = elim (Bool-cases (n == s)) [
          | inl own ↦ rw own (Le-bottom l (g s))
          | inr other ↦ rw other (h g solution s within)
        ]
