-- ===== src/Dataflow/Fuel.antt =====
-- src/dataflow.rs: how many rounds the loop of `Analysis::solve` takes.
use mathlib.Core.Path.{subst}
use frawk.Prelude.{
  ℕ, zero, suc, ◌+◌, ◌*◌, ◌-◌, ◌≤◌, ◌<◌, ◌≡◌, inl, inr, refl, sym, ap, ◌∙◌, Bool, true, false,
  Option, none, some, List, [], ◌∷◌, ◌==◌, ==→eq, ==-refl, arith, Bool-cases, contains, length,
}
use frawk.WorkList.{WorkList, pop}
use frawk.WorkList.Order.{IsSynced, pop-IsSynced}
use frawk.WorkList.Extend.{contains-extend, length-extend, pop-mem}
use frawk.Dataflow.{JoinSemiLattice}
use frawk.Dataflow.Solve.{incoming, drain, enough}
use frawk.Dataflow.Gather.{Edge, gather_rank}
use frawk.Dataflow.Round.{taken, gathered, after, after_unchanged, after-other, after_self}
use frawk.Dataflow.Least.{waiting, waiting-IsSynced, drain_next, drain_done}

length-incoming : (n : ℕ) (edges : List (ℕ × ℕ)) → length (incoming n edges) ≤ length edges
unfolding incoming
length-incoming n [] = omega arith
length-incoming n ((d, s) ∷ edges) = ground (arith, length-incoming n edges)

-- Every node that waits is a node of the graph.
abbrev pub Bounded : ℕ → List ℕ → Type 0
Bounded count nodes = (k : ℕ) → contains k nodes ≡ true → k < count

incoming-Bounded :
    (count n : ℕ) (edges : List (ℕ × ℕ))
    → ((d s : ℕ) → Edge d s edges → d < count)
    → Bounded count (incoming n edges)
unfolding incoming
incoming-Bounded count n [] h k e = absurd (ground arith)
incoming-Bounded count n ((d, s) ∷ edges) h k e = ground (
  arith,
  ==→eq d k,
  h d s (inl (refl, refl)),
  incoming-Bounded count n edges (λ d' s' i. h d' s' (inr i)) k,
)

waiting-Bounded :
    (count : ℕ) (c : Bool) (wl : WorkList) (nodes : List ℕ)
    → IsSynced wl
    → Bounded count wl.mem
    → Bounded count nodes
    → Bounded count (waiting c wl nodes).mem
waiting-Bounded count true wl nodes s h g k e =
    let found = sym (contains-extend k wl nodes s) ∙ e in ground (arith, h k, g k)
waiting-Bounded count false wl nodes s h g k e = h k e

popped-Bounded :
    (count n : ℕ) (wl wl' : WorkList)
    → pop wl ≡ some (n, wl')
    → Bounded count wl.mem
    → Bounded count wl'.mem
popped-Bounded count n wl wl' p h k e =
    let b = subst (λ q. Bounded count q) (pop-mem wl wl' n p) h in ground (arith, b k)

module _ {J : Type 0} (l : JoinSemiLattice J) where
  -- How often the weights of the first nodes may still change.
  room : ℕ → (ℕ → J) → ℕ
  room zero w = 0
  room (suc count) w = room count w + (l.height - l.rank (w count))

  room_same : (count : ℕ) (w w' : ℕ → J) → ((m : ℕ) → w' m ≡ w m) → room count w' ≡ room count w
  unfolding room
  room_same zero w w' h = refl
  room_same (suc count) w w' h = omega (arith, room_same count w w' h, ap l.rank (h count))

  room_beyond :
      (count n : ℕ) (w w' : ℕ → J)
      → ((m : ℕ) → (n == m) ≡ false → w' m ≡ w m)
      → count ≤ n
      → room count w' ≡ room count w
  unfolding room
  room_beyond zero n w w' h b = refl
  room_beyond (suc count) n w w' h b =
      omega
        (arith, room_beyond count n w w' h (omega arith), ap l.rank (h count (ground (arith, b))))

  -- A change of one node's weight leaves less room.
  room-lt :
      (count n : ℕ) (w w' : ℕ → J)
      → ((m : ℕ) → (n == m) ≡ false → w' m ≡ w m)
      → l.rank (w n) < l.rank (w' n)
      → n < count
      → room count w' < room count w
  unfolding room
  room-lt zero n w w' h r b = absurd (omega arith)
  room-lt (suc count) n w w' h r b = elim (Bool-cases (n == count)) [
    | inl last ↦
        let same : n ≡ count = ==→eq n count last in
        let bound = l.rank-le (w' count) in
        let rises = subst (λ k. l.rank (w k) < l.rank (w' k)) same r in
        omega (arith, room_beyond count n w w' h (omega arith), bound, rises)
    | inr earlier ↦
        omega (arith, room-lt count n w w' h r (ground arith), ap l.rank (h count earlier))
  ]

  room-le : (count : ℕ) (w : ℕ → J) → room count w ≤ count * l.height
  unfolding room
  room-le zero w = omega arith
  room-le (suc count) w = grind (arith, room-le count w)

  -- A bound on the rounds that are left.
  pub potential : ℕ → List (ℕ × ℕ) → (ℕ → J) → WorkList → ℕ
  unfolding room
  potential count edges w wl = room count w * suc (length edges) + length wl.mem

  times_mono : (a b c : ℕ) → a ≤ b → a * c ≤ b * c
  times_mono a b c h = grind arith

  scaled : (a b c : ℕ) → a < b → a * c + c ≤ b * c
  scaled a b c h = grind arith

  module _ (count : ℕ) (edges : List (ℕ × ℕ)) (w : ℕ → J) (n : ℕ) (wl wl' : WorkList) where
    abbrev left : WorkList
    left = waiting (gathered l edges w n).1 wl' (incoming n edges)

    potential-lt :
        IsSynced wl
        → Bounded count wl.mem
        → pop wl ≡ some (n, wl')
        → potential count edges (after l edges w n) left < potential count edges w wl
    unfolding potential
    potential-lt s b p = elim (Bool-cases (gathered l edges w n).1) [
      | inl changed ↦
          let rises =
            subst (λ v. l.rank (w n) < l.rank v) (sym (after_self l edges w n))
              (gather_rank l (taken l edges w n) n edges (w n) changed) in
          let less =
            room-lt count n w (after l edges w n) (after-other l edges w n) rises
              (b n (in_queue wl.mem popped)) in
          omega (
            arith,
            scaled (room count (after l edges w n)) (room count w) (suc (length edges)) less,
            longer (gathered l edges w n).1,
            length-incoming n edges,
            ap length popped,
          )
      | inr same ↦ omega (
        arith,
        ap (λ k. k * suc (length edges))
            (room_same count w (after l edges w n) (after_unchanged l edges w n same)),
        shorter (gathered l edges w n).1 same,
        ap length popped,
      )
    ]
      where
        popped : wl.mem ≡ n ∷ wl'.mem
        popped = pop-mem wl wl' n p

        in_queue : (q : List ℕ) → q ≡ n ∷ wl'.mem → contains n q ≡ true
        in_queue q e = rw e (ground (arith, ==-refl n))

        longer :
            (c : Bool)
            → length (waiting c wl' (incoming n edges)).mem
              ≤ length wl'.mem + length (incoming n edges)
        longer true = length-extend wl' (incoming n edges) (pop-IsSynced wl wl' n s p)
        longer false = omega arith

        shorter :
            (c : Bool) → c ≡ false → length (waiting c wl' (incoming n edges)).mem ≡ length wl'.mem
        shorter c e = rw e refl

  -- With the potential below the fuel the loop ends.
  pub drain-returns :
      (fuel count : ℕ) (edges : List (ℕ × ℕ)) (w : ℕ → J) (wl : WorkList)
      → ((d s : ℕ) → Edge d s edges → d < count)
      → IsSynced wl
      → Bounded count wl.mem
      → potential count edges w wl < fuel
      → (w' : ℕ → J) × (drain l fuel edges w wl ≡ some w')
  drain-returns zero count edges w wl e s b h = absurd (omega arith)
  drain-returns (suc fuel) count edges w wl e s b h =
      by_pop (pop wl) refl (drain-returns fuel count edges)
    where
      by_pop :
          (r : Option (ℕ × WorkList))
          → pop wl ≡ r
          → ((v : ℕ → J) (q : WorkList)
              → ((d s : ℕ) → Edge d s edges → d < count)
              → IsSynced q
              → Bounded count q.mem
              → potential count edges v q < fuel
              → (w' : ℕ → J) × (drain l fuel edges v q ≡ some w'))
          → (w' : ℕ → J) × (drain l (suc fuel) edges w wl ≡ some w')
      by_pop none p ih = (w, drain_done l edges fuel w wl p)
      by_pop (some (n, wl')) p ih =
          let s' = pop-IsSynced wl wl' n s p in
          let c = (gathered l edges w n).1 in
          let (w', e') =
            ih (after l edges w n) (waiting c wl' (incoming n edges)) e
              (waiting-IsSynced c wl' (incoming n edges) s')
              (waiting-Bounded count c wl' (incoming n edges) s' (popped-Bounded count n wl wl' p b)
                (incoming-Bounded count n edges e))
              (omega (arith, potential-lt count edges w n wl wl' s b p)) in
          (w', sym (drain_next l edges fuel w (drain l (suc fuel) edges w wl) n wl wl' p refl) ∙ e')

  pub potential-lt-enough :
      (count : ℕ) (edges : List (ℕ × ℕ)) (w : ℕ → J) (wl : WorkList)
      → potential count edges w wl < enough l count (length edges) (length wl.mem)
  unfolding potential
  potential-lt-enough count edges w wl =
      omega
        (arith, times_mono (room count w) (count * l.height) (suc (length edges)) (room-le count w))
