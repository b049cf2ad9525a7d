-- ===== src/WorkList/Extend.antt =====
-- `WorkList::extend` and `pop` of src/common.rs, as they act on the queue.
use mathlib.Core.Path.{subst}
use frawk.Prelude.{
  ℕ, suc, ◌+◌, ◌≤◌, ◌≡◌, refl, ap, sym, ◌∙◌, Bool, true, some, List, [], ◌∷◌, ◌||◌, ◌==◌, ==→eq,
  if◌then◌else◌, contains, length, length-append, arith,
}
use frawk.WorkList.{WorkList, insert, extend, pop}
use frawk.WorkList.Order.{IsSynced, insert-mem, insert-IsSynced, contains-append}

pub extend-IsSynced : (wl : WorkList) (ts : List ℕ) → IsSynced wl → IsSynced (extend wl ts)
unfolding extend
extend-IsSynced wl [] h = h
extend-IsSynced wl (t ∷ ts) h = extend-IsSynced (insert wl t) ts (insert-IsSynced wl t h)

contains-insert :
    (k t : ℕ) (wl : WorkList)
    → IsSynced wl
    → contains k (insert wl t).mem ≡ (contains k wl.mem || t == k)
contains-insert k t wl h =
    ap (contains k) (insert-mem wl t h) ∙ ground (arith, contains-append k t wl.mem, ==→eq t k)

or_assoc : (a b c : Bool) → ((a || b) || c) ≡ (a || (if b then true else c))
or_assoc a b c = ground arith

-- Extending the list adds the new nodes, and no others.
pub contains-extend :
    (k : ℕ) (wl : WorkList) (ts : List ℕ)
    → IsSynced wl
    → contains k (extend wl ts).mem ≡ (contains k wl.mem || contains k ts)
unfolding extend
contains-extend k wl [] h = ground arith
contains-extend k wl (t ∷ ts) h =
    contains-extend k (insert wl t) ts (insert-IsSynced wl t h)
    ∙ ap (λ b. b || contains k ts) (contains-insert k t wl h)
    ∙ or_assoc (contains k wl.mem) (t == k) (contains k ts)

length-insert :
    (wl : WorkList) (t : ℕ) → IsSynced wl → length (insert wl t).mem ≤ suc (length wl.mem)
length-insert wl t h =
    subst (λ (m : List ℕ). length m ≤ suc (length wl.mem)) (sym (insert-mem wl t h))
      (ground (arith, length-append wl.mem (t ∷ [])))

pub length-extend :
    (wl : WorkList) (ts : List ℕ)
    → IsSynced wl
    → length (extend wl ts).mem ≤ length wl.mem + length ts
unfolding extend
length-extend wl [] h = omega arith
length-extend wl (t ∷ ts) h =
    omega (arith, length-extend (insert wl t) ts (insert-IsSynced wl t h), length-insert wl t h)

-- What a node is taken off.
pub pop-mem : (wl wl' : WorkList) (n : ℕ) → pop wl ≡ some (n, wl') → wl.mem ≡ n ∷ wl'.mem
unfolding pop
pop-mem wl wl' n h = by_queue wl.mem refl
  where
    by_queue : (q : List ℕ) → wl.mem ≡ q → wl.mem ≡ n ∷ wl'.mem
    by_queue [] e = absurd (ground (arith, e))
    by_queue (m ∷ q) e = ground (arith, e)
