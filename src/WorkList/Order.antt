-- ===== src/WorkList/Order.antt =====
-- `WorkList` of src/common.rs against a plain queue of distinct nodes.
use mathlib.Core.Path.{subst}
use frawk.Prelude.{
  ℕ, ◌≡◌, inl, inr, refl, ap, sym, ◌∙◌, false, some, List, [], ◌∷◌, ◌++◌, ◌||◌, ◌==◌, ==→eq,
  if◌then◌else◌, contains, arith, Bool-cases,
}
use frawk.WorkList.{WorkList, remove, insert, pop_front, pop}

pub contains-append :
    (n x : ℕ) (xs : List ℕ) → contains n (xs ++ x ∷ []) ≡ (x == n || contains n xs)
contains-append n x [] = ground arith
contains-append n x (y ∷ ys) = ground (arith, contains-append n x ys)

pub contains-remove :
    (n x : ℕ) (xs : List ℕ) → contains n (remove x xs) ≡ (if x == n then false else contains n xs)
unfolding remove
contains-remove n x [] = ground arith
contains-remove n x (y ∷ ys) = ground (arith, contains-remove n x ys)

-- No node stands twice.
abbrev pub Distinct : List ℕ → Type 0
Distinct [] = Unit {0}
Distinct (x ∷ xs) = (contains x xs ≡ false) × Distinct xs

-- The set and the queue hold the same nodes, each once.
pub record IsSynced (wl : WorkList) : Type 0 where
  pub same : (n : ℕ) → contains n wl.set ≡ contains n wl.mem
  pub distinct : Distinct wl.mem

Distinct-append :
    (x : ℕ) (xs : List ℕ) → Distinct xs → contains x xs ≡ false → Distinct (xs ++ x ∷ [])
Distinct-append x [] d h = (refl, tt)
Distinct-append x (y ∷ ys) d h =
    (ground (arith, contains-append y x ys), Distinct-append x ys d.1 (ground arith))

-- What `insert` does to the queue: a node that waits already is not added again.
pub insert-mem :
    (wl : WorkList) (t : ℕ)
    → IsSynced wl
    → (insert wl t).mem ≡ (if contains t wl.mem then wl.mem else wl.mem ++ t ∷ [])
unfolding insert
insert-mem wl t h = ground (arith, h.same t)

-- Inserting a node keeps the set and the queue of the work list in step: they hold the same nodes,
-- each once.
pub insert-IsSynced : (wl : WorkList) (t : ℕ) → IsSynced wl → IsSynced (insert wl t)
unfolding insert
insert-IsSynced wl t h = elim (Bool-cases (contains t wl.set)) [
  | inl old ↦ rw old h
  | inr new ↦ rw new (record {
    same = λ n. ground (arith, contains-append n t wl.mem, h.same n);
    distinct = Distinct-append t wl.mem h.distinct (sym (h.same t) ∙ new);
  })
]

some-injective : {A : Type 0} (x y : A) → some x ≡ some y → x ≡ y
some-injective x y e = cc

pop_front-IsSynced :
    (set mem : List ℕ) (wl : WorkList) (n : ℕ)
    → ((n : ℕ) → contains n set ≡ contains n mem)
    → Distinct mem
    → pop_front set mem ≡ some (n, wl)
    → IsSynced wl
unfolding pop_front
pop_front-IsSynced set [] wl n same d e = cc
pop_front-IsSynced set (x ∷ mem) wl n same d e =
    subst IsSynced
      (ap (λ (p : ℕ × WorkList). p.1)
        (some-injective (x, record { set = remove x set; mem = mem }) (n, wl) e))
      (record {
        same = λ k. contains-remove k x set ∙ ground (arith, same k, ==→eq x k, d.0);
        distinct = d.1;
      })

-- Taking a node off the work list keeps the set and the queue in step: they hold the same nodes,
-- each once.
pub pop-IsSynced : (wl wl' : WorkList) (n : ℕ) → IsSynced wl → pop wl ≡ some (n, wl') → IsSynced wl'
unfolding pop
pop-IsSynced wl wl' n h e = pop_front-IsSynced wl.set wl.mem wl' n h.same h.distinct e

-- Inserting a node and taking one off keep the set and the queue of a work list in step: they hold the
-- same nodes, each once.
pub insert-pop-IsSynced :
    (wl : WorkList) (t : ℕ)
    → IsSynced wl
    → IsSynced (insert wl t)
      × ((wl' : WorkList) (n : ℕ) → pop (insert wl t) ≡ some (n, wl') → IsSynced wl')
insert-pop-IsSynced wl t h =
    let inserted = insert-IsSynced wl t h in
    (inserted, λ wl' n e. pop-IsSynced (insert wl t) wl' n inserted e)
