-- ===== src/Stages/Carried.antt =====
-- src/cross_stage.rs: the members of the two sets that `compute_slots` returns.
use frawk.Prelude.{ℕ, ◌≡◌, refl, ap, ◌∙◌, true, ◌&&◌, ◌||◌, Option, List, [], ◌∷◌, ◌++◌, arith}
use frawk.Builtins.{done}
use frawk.Stages.{
  RegTy, reg_eq, has, intersection, collect, SlotOps, compute_par, get_ref, compute_slots,
}
use frawk.Stages.Counter.{reg_eq→eq}

has-append : (r : RegTy) (xs ys : List RegTy) → has r (xs ++ ys) ≡ (has r xs || has r ys)
unfolding has
has-append r [] ys = refl
has-append r (x ∷ xs) ys = ground (arith, has-append r xs ys)

has_same : (r x : RegTy) (ys : List RegTy) → reg_eq x r ≡ true → has x ys ≡ has r ys
has_same r x ys h = ap (λ y. has y ys) (reg_eq→eq x r h)

has-intersection :
    (r : RegTy) (xs ys : List RegTy) → has r (intersection xs ys) ≡ (has r xs && has r ys)
unfolding has intersection
has-intersection r [] ys = refl
has-intersection r (x ∷ xs) ys = ground (arith, has-intersection r xs ys, has_same r x ys)

has-collect : (r : RegTy) (xs : List RegTy) → has r (collect xs) ≡ has r xs
unfolding has collect
has-collect r [] = refl
has-collect r (x ∷ xs) = ground (arith, has-collect r xs, has_same r x (collect xs))

-- A register is stored by the first stage exactly if that stage and a later one refer to it, and by the
-- main loop exactly if the last stage and an earlier one refer to it. A stage that the script does not
-- have refers to none.
pub has-compute_slots :
    (begin main_loop end : Option ℕ) (refs : List (List RegTy)) (b l e : List RegTy) (r : RegTy)
    → get_ref refs begin ≡ done b
    → get_ref refs main_loop ≡ done l
    → get_ref refs end ≡ done e
    → (slots : SlotOps) × (compute_slots begin main_loop end refs ≡ done slots)
      × (has r slots.begin_stores ≡ (has r b && (has r l || has r e)))
      × (has r slots.loop_stores ≡ (has r e && (has r b || has r l)))
unfolding compute_slots compute_par
has-compute_slots begin main_loop end refs b l e r hb hl he = (
  compute_par b l e,
  rw (hb, hl, he) refl,
  has-collect r _
      ∙ has-append r (intersection b l) (intersection b e)
      ∙ ground (arith, has-intersection r b l, has-intersection r b e),
  has-collect r _
      ∙ has-append r (intersection l e) (intersection b e)
      ∙ ground (arith, has-intersection r l e, has-intersection r b e),
)
