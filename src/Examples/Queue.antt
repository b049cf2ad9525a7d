-- ===== src/Examples/Queue.antt =====
-- src/common.rs: the work list.
use frawk.Prelude.{ℕ, ◌≡◌, refl, some}
use frawk.WorkList.{WorkList, empty, insert, remove, pop}
use frawk.WorkList.Order.{IsSynced, insert-pop-IsSynced}

empty-IsSynced : IsSynced empty
empty-IsSynced = record { same = λ n. refl; distinct = tt }

insert-pop-IsSynced_example :
    IsSynced (insert empty 3)
    × ((wl' : WorkList) (n : ℕ) → pop (insert empty 3) ≡ some (n, wl') → IsSynced wl')
insert-pop-IsSynced_example = insert-pop-IsSynced empty 3 empty-IsSynced

popped : pop (insert empty 3) ≡ some (3, empty)
unfolding insert pop remove
popped = refl
