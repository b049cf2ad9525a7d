-- ===== src/Dataflow/Gather.antt =====
-- src/dataflow.rs: what the loop over the outgoing edges of a node computes.
use mathlib.Core.Path.{subst}
use frawk.Prelude.{
  ℕ, ◌≤◌, ◌<◌, ◌≡◌, ◌⊎◌, inl, inr, refl, sym, ap, ◌∙◌, Bool, true, false, ◌||◌, List, [], ◌∷◌, ◌==◌,
  ==→eq, ==-refl, if◌then◌else◌, arith, Bool-cases,
}
use frawk.Dataflow.{JoinSemiLattice}
use frawk.Dataflow.Lattice.{Le, Le-refl, Le_trans, Le-join_left, Le-join_right, join-least}
use frawk.Dataflow.Solve.{gather}

-- The edge stands in the list.
abbrev pub Edge : ℕ → ℕ → List (ℕ × ℕ) → Type 0
Edge d s [] = ⊥
Edge d s (e ∷ edges) = ((e.0 ≡ d) × (e.1 ≡ s)) ⊎ Edge d s edges

true_or_false : true ≡ false → ⊥
true_or_false h = cc

module _ {J : Type 0} (l : JoinSemiLattice J) (w : ℕ → J) (n : ℕ) where
  abbrev pulled : ℕ → ℕ → J → J × Bool
  pulled d s start = if d == n then l.invoke start (w s) else (start, false)

  Le-pulled : (d s : ℕ) (start : J) → Le l start (pulled d s start).0
  Le-pulled d s start = elim (Bool-cases (d == n)) [
    | inl own ↦ rw own (Le-join_left l start (w s))
    | inr other ↦ rw other (Le-refl l start)
  ]

  -- The result is above the start,
  pub gather-start :
      (edges : List (ℕ × ℕ)) (start : J) (c : Bool) → Le l start (gather l w n edges start c).0
  unfolding gather
  gather-start [] start c = Le-refl l start
  gather-start ((d, s) ∷ edges) start c =
      Le_trans l start (pulled d s start).0 _ (Le-pulled d s start)
        (gather-start edges (pulled d s start).0 (c || (pulled d s start).1))

  Le-pulled-own : (d s : ℕ) (start : J) → d ≡ n → Le l (w s) (pulled d s start).0
  Le-pulled-own d s start e =
      let own : (d == n) ≡ true = rw e (==-refl n) in rw own (Le-join_right l start (w s))

  -- and above the weight of each node that `n` depends on.
  pub gather-Edge :
      (edges : List (ℕ × ℕ)) (start : J) (c : Bool) (s : ℕ)
      → Edge n s edges
      → Le l (w s) (gather l w n edges start c).0
  unfolding gather
  gather-Edge [] start c s h = absurd h
  gather-Edge ((d, s') ∷ edges) start c s (inl here) =
      Le_trans l (w s) (pulled d s' start).0 _ (rw (← here.1) (Le-pulled-own d s' start here.0))
        (gather-start edges (pulled d s' start).0 (c || (pulled d s' start).1))
  gather-Edge ((d, s') ∷ edges) start c s (inr there) =
      gather-Edge edges (pulled d s' start).0 (c || (pulled d s' start).1) s there

  pulled-Le :
      (d s : ℕ) (start u : J) → Le l start u → (d ≡ n → Le l (w s) u) → Le l (pulled d s start).0 u
  pulled-Le d s start u h k = elim (Bool-cases (d == n)) [
    | inl own ↦ rw own (join-least l start (w s) u h (k (==→eq d n own)))
    | inr other ↦ rw other h
  ]

  -- It is the least such value.
  pub gather-least :
      (edges : List (ℕ × ℕ)) (start : J) (c : Bool) (u : J)
      → Le l start u
      → ((s : ℕ) → Edge n s edges → Le l (w s) u)
      → Le l (gather l w n edges start c).0 u
  unfolding gather
  gather-least [] start c u h k = h
  gather-least ((d, s) ∷ edges) start c u h k =
      gather-least edges (pulled d s start).0 (c || (pulled d s start).1) u
        (pulled-Le d s start u h (λ e. k s (inl (e, refl)))) (λ s' there. k s' (inr there))

  gather_flag : (edges : List (ℕ × ℕ)) (start : J) → (gather l w n edges start true).1 ≡ true
  unfolding gather
  gather_flag [] start = refl
  gather_flag ((d, s) ∷ edges) start = gather_flag edges (pulled d s start).0

  pulled_unchanged :
      (d s : ℕ) (start : J) → (pulled d s start).1 ≡ false → (pulled d s start).0 ≡ start
  pulled_unchanged d s start h = elim (Bool-cases (d == n)) [
    | inl own ↦ rw own (l.unchanged start (w s) (rw own at h))
    | inr other ↦ rw other refl
  ]

  run_flag :
      (edges : List (ℕ × ℕ)) (start : J) (c d r : Bool)
      → c ≡ d
      → (gather l w n edges start c).1 ≡ r
      → (gather l w n edges start d).1 ≡ r
  run_flag edges start c d r e h = subst (λ b. (gather l w n edges start b).1 ≡ r) e h

  value_flag :
      (edges : List (ℕ × ℕ)) (start : J) (d : Bool) (v : J)
      → false ≡ d
      → (gather l w n edges start false).0 ≡ v
      → (gather l w n edges start d).0 ≡ v
  value_flag edges start d v e h = subst (λ b. (gather l w n edges start b).0 ≡ v) e h

  rank_flag :
      (edges : List (ℕ × ℕ)) (start : J) (d : Bool) (k : ℕ)
      → false ≡ d
      → k < l.rank (gather l w n edges start false).0
      → k < l.rank (gather l w n edges start d).0
  rank_flag edges start d k e h = subst (λ b. k < l.rank (gather l w n edges start b).0) e h

  -- Without a change the result is the start.
  pub gather_unchanged :
      (edges : List (ℕ × ℕ)) (start : J)
      → (gather l w n edges start false).1 ≡ false
      → (gather l w n edges start false).0 ≡ start
  unfolding gather
  gather_unchanged [] start h = refl
  gather_unchanged ((d, s) ∷ edges) start h = elim (Bool-cases (pulled d s start).1) [
    | inl changed ↦ absurd (
        true_or_false (
          sym (gather_flag edges (pulled d s start).0)
          ∙ run_flag edges (pulled d s start).0 _ true false changed h))
    | inr same ↦ value_flag edges (pulled d s start).0 _ start (sym same) (
        gather_unchanged edges (pulled d s start).0
          (run_flag edges (pulled d s start).0 _ false false same h)
        ∙ pulled_unchanged d s start same)
  ]

  pulled_rank :
      (d s : ℕ) (start : J)
      → (pulled d s start).1 ≡ true
      → l.rank start < l.rank (pulled d s start).0
  pulled_rank d s start h = elim (Bool-cases (d == n)) [
    | inl own ↦ rw own (l.rank-lt start (w s) (rw own at h))
    | inr other ↦ absurd (true_or_false (sym (rw other at h)))
  ]

  gather_rank_le :
      (edges : List (ℕ × ℕ)) (start : J) (c : Bool)
      → l.rank start ≤ l.rank (gather l w n edges start c).0
  unfolding gather
  gather_rank_le [] start c = omega arith
  gather_rank_le ((d, s) ∷ edges) start c =
      let rest = gather_rank_le edges (pulled d s start).0 (c || (pulled d s start).1) in
      elim (Bool-cases (pulled d s start).1) [
        | inl changed ↦ omega (arith, pulled_rank d s start changed, rest)
        | inr same ↦ omega (arith, ap l.rank (pulled_unchanged d s start same), rest)
      ]

  -- A change raises the rank.
  pub gather_rank :
      (edges : List (ℕ × ℕ)) (start : J)
      → (gather l w n edges start false).1 ≡ true
      → l.rank start < l.rank (gather l w n edges start false).0
  unfolding gather
  gather_rank [] start h = absurd (true_or_false (sym h))
  gather_rank ((d, s) ∷ edges) start h = elim (Bool-cases (pulled d s start).1) [
    | inl changed ↦ omega (
      arith,
      pulled_rank d s start changed,
      gather_rank_le edges (pulled d s start).0 (pulled d s start).1,
    )
    | inr same ↦
        let later =
          gather_rank edges (pulled d s start).0
            (run_flag edges (pulled d s start).0 _ false true same h) in
        rank_flag edges (pulled d s start).0 _ (l.rank start) (sym same)
          (omega (arith, ap l.rank (pulled_unchanged d s start same), later))
  ]
