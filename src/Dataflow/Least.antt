-- ===== src/Dataflow/Least.antt =====
-- src/dataflow.rs: the loop of `Analysis::solve` and the least solution of the constraints.
use mathlib.Core.Path.{subst}
use frawk.Prelude.{
  ℕ, zero, suc, ◌≡◌, ◌≢◌, ◌⊎◌, inl, inr, refl, sym, ◌∙◌, Bool, true, false, Option, none, some,
  List, [], ◌∷◌, ◌==◌, ==→eq, if◌then◌else◌, arith, Bool-cases, contains,
}
use frawk.WorkList.{WorkList, extend, pop}
use frawk.WorkList.Order.{IsSynced, pop-IsSynced}
use frawk.WorkList.Extend.{extend-IsSynced, contains-extend, pop-mem}
use frawk.Dataflow.{JoinSemiLattice}
use frawk.Dataflow.Lattice.{Le, Le_trans}
use frawk.Dataflow.Solve.{incoming, relax, drain}
use frawk.Dataflow.Gather.{Edge}
use frawk.Dataflow.Round.{
  IsBelow, Anywhere, Invariant, contains-incoming, gathered, after, Le-after, after_unchanged,
  after-own, after-other, after-IsBelow,
}

some-injective {ℓ} : {A : Type ℓ} (x y : A) → some x ≡ some y → x ≡ y
some-injective x y e = cc

-- The work list after a round.
abbrev pub waiting : Bool → WorkList → List ℕ → WorkList
waiting c wl nodes = if c then extend wl nodes else wl

pub waiting-IsSynced :
    (c : Bool) (wl : WorkList) (nodes : List ℕ) → IsSynced wl → IsSynced (waiting c wl nodes)
waiting-IsSynced true wl nodes h = extend-IsSynced wl nodes h
waiting-IsSynced false wl nodes h = h

contains-waiting :
    (k : ℕ) (c : Bool) (wl : WorkList) (nodes : List ℕ)
    → IsSynced wl
    → contains k wl.mem ≡ true
    → contains k (waiting c wl nodes).mem ≡ true
contains-waiting k true wl nodes h old = contains-extend k wl nodes h ∙ rw old refl
contains-waiting k false wl nodes h old = old

contains-waiting_new :
    (k : ℕ) (c : Bool) (wl : WorkList) (nodes : List ℕ)
    → IsSynced wl
    → c ≡ true
    → contains k nodes ≡ true
    → contains k (waiting c wl nodes).mem ≡ true
contains-waiting_new k true wl nodes h e new = contains-extend k wl nodes h ∙ ground (arith, new)
contains-waiting_new k false wl nodes h e new = absurd (ground arith)

still_waiting :
    (d n : ℕ) (wl wl' : WorkList)
    → pop wl ≡ some (n, wl')
    → (n == d) ≡ false
    → contains d wl.mem ≡ true
    → contains d wl'.mem ≡ true
still_waiting d n wl wl' p other h =
    let old = subst (λ m. contains d m ≡ true) (pop-mem wl wl' n p) h in ground (arith, old)

module _ {J : Type 0} (l : JoinSemiLattice J) (edges : List (ℕ × ℕ)) where
  pub drain_done :
      (fuel : ℕ) (w : ℕ → J) (wl : WorkList)
      → pop wl ≡ none
      → drain l (suc fuel) edges w wl ≡ some w
  unfolding drain
  drain_done fuel w wl p = rw (p, drain) refl

  pub drain_stop :
      (fuel : ℕ) (w w' : ℕ → J) (wl : WorkList)
      → pop wl ≡ none
      → drain l (suc fuel) edges w wl ≡ some w'
      → w ≡ w'
  unfolding drain
  drain_stop fuel w w' wl p h = some-injective w w' (sym (rw (p, drain) refl) ∙ h)

  pub drain_next :
      (fuel : ℕ) (w : ℕ → J) (r : Option (ℕ → J)) (n : ℕ) (wl wl' : WorkList)
      → pop wl ≡ some (n, wl')
      → drain l (suc fuel) edges w wl ≡ r
      → drain l fuel edges
          (after l edges w n)
          (waiting (gathered l edges w n).1 wl' (incoming n edges))
        ≡ r
  unfolding drain relax
  drain_next fuel w r n wl wl' p h = sym (rw (p, drain) refl) ∙ h

  drain_zero : (w w' : ℕ → J) (wl : WorkList) → drain l 0 edges w wl ≢ some w'
  unfolding drain
  drain_zero w w' wl h = ground (arith, h)

-- What the loop leaves. At the visited nodes the values are above the first ones, respect the edges
-- from there, and no smaller values do; and nowhere are they above values that respect every edge.
module _ {J : Type 0} (l : JoinSemiLattice J) (edges : List (ℕ × ℕ)) (first : ℕ → J)
    (Visited : ℕ → Type 0) where
  pub record IsLeast (w : ℕ → J) : Type 0 where
    pub above : (m : ℕ) → Le l (first m) (w m)
    pub respects : (d s : ℕ) → Edge d s edges → Visited d → Le l (w s) (w d)
    pub below : IsBelow l edges first Visited w
    pub bounded : IsBelow l edges first Anywhere w

module _ {J : Type 0} (l : JoinSemiLattice J) (edges : List (ℕ × ℕ)) (first : ℕ → J)
    (Visited : ℕ → Type 0) (closed : (d s : ℕ) → Edge d s edges → Visited d → Visited s) where
  module _ (w : ℕ → J) (n : ℕ) (wl wl' : WorkList) (p : pop wl ≡ some (n, wl'))
      (inv : Invariant l edges first Visited w wl) where
    abbrev left : WorkList
    left = waiting (gathered l edges w n).1 wl' (incoming n edges)

    abbrev Stays : ℕ → ℕ → Type 0
    Stays d s = (contains d left.mem ≡ true) ⊎ Le l (after l edges w n s) (after l edges w n d)

    synced' : IsSynced wl'
    synced' = pop-IsSynced wl wl' n inv.synced p

    -- An edge whose source was visited, from another node.
    Stays-source : (d : ℕ) → (n == d) ≡ false → Edge d n edges → Visited d → Stays d n
    Stays-source d other e v = elim (Bool-cases (gathered l edges w n).1) [
      | inl changed ↦ inl (
          contains-waiting_new d (gathered l edges w n).1 wl' (incoming n edges) synced' changed
            (contains-incoming d n edges e))
      | inr same ↦ elim (inv.stable d n e v) [
        | inl waits ↦ inl (
            contains-waiting d (gathered l edges w n).1 wl' (incoming n edges) synced'
              (still_waiting d n wl wl' p other waits))
        | inr le ↦ inr (
            subst (λ x. Le l x (after l edges w n d)) (sym (after_unchanged l edges w n same n))
              (subst (λ x. Le l (w n) x) (sym (after_unchanged l edges w n same d)) le))
      ]
    ]

    Stays-apart :
        (d s : ℕ) → (n == d) ≡ false → (n == s) ≡ false → Edge d s edges → Visited d → Stays d s
    Stays-apart d s other apart e v = elim (inv.stable d s e v) [
      | inl waits ↦ inl (
          contains-waiting d (gathered l edges w n).1 wl' (incoming n edges) synced'
            (still_waiting d n wl wl' p other waits))
      | inr le ↦ inr (
          subst (λ x. Le l x (after l edges w n d)) (sym (after-other l edges w n s apart))
            (subst (λ x. Le l (w s) x) (sym (after-other l edges w n d other)) le))
    ]

    stays : (d s : ℕ) → Edge d s edges → Visited d → Stays d s
    stays d s e v = elim (Bool-cases (n == d)) [
      | inl own ↦
          let same : n ≡ d = ==→eq n d own in
          inr (
            subst (λ k. Le l (after l edges w n s) (after l edges w n k)) same
              (after-own l edges w n s (subst (λ k. Edge k s edges) (sym same) e)))
      | inr other ↦ elim (Bool-cases (n == s)) [
        | inl source ↦
            let same : n ≡ s = ==→eq n s source in
            subst (λ k. Stays d k) same
              (Stays-source d other (subst (λ k. Edge d k edges) (sym same) e) v)
        | inr apart ↦ Stays-apart d s other apart e v
      ]
    ]

    round-Invariant : Invariant l edges first Visited (after l edges w n) left
    round-Invariant = record {
      synced = waiting-IsSynced (gathered l edges w n).1 wl' (incoming n edges) synced';
      above = λ m.
          Le_trans l (first m) (w m) (after l edges w n m) (inv.above m) (Le-after l edges w n m);
      stable = stays;
      below = after-IsBelow l edges w n first Visited closed inv.below;
      bounded = after-IsBelow l edges w n first Anywhere (λ d s e v. tt) inv.bounded;
    }

  pop-none-mem : (wl : WorkList) → pop wl ≡ none → wl.mem ≡ []
  unfolding pop
  pop-none-mem wl h = by_queue wl.mem refl
    where
      by_queue : (q : List ℕ) → wl.mem ≡ q → wl.mem ≡ []
      by_queue [] e = e
      by_queue (m ∷ q) e = absurd (ground (arith, e))

  settled :
      (w : ℕ → J) (wl : WorkList)
      → Invariant l edges first Visited w wl
      → pop wl ≡ none
      → IsLeast l edges first Visited w
  settled w wl inv p = record {
    above = inv.above;
    respects = λ d s e v. elim (inv.stable d s e v) [
      | inl waits ↦
          absurd (nothing_waits d (subst (λ m. contains d m ≡ true) (pop-none-mem wl p) waits))
      | inr le ↦ le
    ];
    below = inv.below;
    bounded = inv.bounded;
  }
    where
      nothing_waits : (d : ℕ) → contains d [] ≡ true → ⊥
      nothing_waits d h = ground (arith, h)

  pub drain-IsLeast :
      (fuel : ℕ) (w w' : ℕ → J) (wl : WorkList)
      → Invariant l edges first Visited w wl
      → drain l fuel edges w wl ≡ some w'
      → IsLeast l edges first Visited w'
  drain-IsLeast zero w w' wl inv h = absurd (drain_zero l edges w w' wl h)
  drain-IsLeast (suc fuel) w w' wl inv h = by_pop (pop wl) refl (drain-IsLeast fuel)
    where
      by_pop :
          (r : Option (ℕ × WorkList))
          → pop wl ≡ r
          → ((v v' : ℕ → J) (q : WorkList)
              → Invariant l edges first Visited v q
              → drain l fuel edges v q ≡ some v'
              → IsLeast l edges first Visited v')
          → IsLeast l edges first Visited w'
      by_pop none p ih =
          subst (IsLeast l edges first Visited) (drain_stop l edges fuel w w' wl p h)
            (settled w wl inv p)
      by_pop (some (n, wl')) p ih =
          ih (after l edges w n) w' (left w n wl wl' p inv) (round-Invariant w n wl wl' p inv)
            (drain_next l edges fuel w (some w') n wl wl' p h)
