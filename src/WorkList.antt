-- ===== src/WorkList.antt =====
-- src/common.rs: `WorkList`, a queue that holds each node at most once. The nodes are numbers, as
-- in every use of it; the hash set is the list of its members.
pub mod Order
pub mod Extend
use frawk.Prelude.{
  ℕ, Bool, true, false, Option, none, some, List, [], ◌∷◌, ◌++◌, ◌==◌, if◌then◌else◌, contains,
}

pub record WorkList : Type 0 where
  pub set : List ℕ
  pub mem : List ℕ

abbrev pub empty : WorkList
empty = record { set = []; mem = [] }

-- `HashSet::remove`
unfoldable pub remove : ℕ → List ℕ → List ℕ
remove n [] = []
remove n (x ∷ xs) = let rest = remove n xs in if x == n then rest else x ∷ rest

-- `set.insert` tells whether the member is new.
unfoldable pub insert : WorkList → ℕ → WorkList
insert wl t = if contains t wl.set then wl else record { set = t ∷ wl.set; mem = wl.mem ++ t ∷ [] }

unfoldable pub extend : WorkList → List ℕ → WorkList
extend wl [] = wl
extend wl (t ∷ ts) = extend (insert wl t) ts

pop_front : List ℕ → List ℕ → Option (ℕ × WorkList)
pop_front set [] = none
pop_front set (next ∷ mem) = some (next, record { set = remove next set; mem = mem })

unfoldable pub pop : WorkList → Option (ℕ × WorkList)
unfolding pop_front
pop wl = pop_front wl.set wl.mem
