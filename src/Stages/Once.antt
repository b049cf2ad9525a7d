-- ===== src/Stages/Once.antt =====
-- src/cross_stage.rs: the sets that `compute_slots` returns name each register once.
use mathlib.Core.Path.{subst}
use frawk.Prelude.{
  ℕ, ◌≡◌, refl, ap, ◌∙◌, Bool-cases, inl, inr, false, ◌||◌, Option, List, [], ◌∷◌, ◌++◌, arith,
}
use frawk.Builtins.{Outcome, done, ◌>>=◌}
use frawk.Builtins.Results.{done-injective}
use frawk.Stages.{RegTy, reg_eq, has, collect, SlotOps, compute_par, get_ref, compute_slots}
use frawk.Stages.Counter.{reg_eq→eq, reg_eq_refl}

abbrev pub IsOnce : List RegTy → Type 0
IsOnce [] = Unit {0}
IsOnce (r ∷ rs) = (has r rs ≡ false) × IsOnce rs

pub has_last : (r x : RegTy) (rs : List RegTy) → has r (rs ++ x ∷ []) ≡ (has r rs || reg_eq x r)
unfolding has
has_last r x [] = ground arith
has_last r x (y ∷ rs) = ground (arith, has_last r x rs)

other_reg : (x y : RegTy) → reg_eq x y ≡ false → reg_eq y x ≡ false
other_reg x y h = elim (Bool-cases (reg_eq y x)) [
  | inl same ↦ absurd (ground (arith, h, ap (λ z. reg_eq z y) (reg_eq→eq y x same), reg_eq_refl y))
  | inr other ↦ other
]

pub IsOnce-append :
    (x : RegTy) (rs : List RegTy) → IsOnce rs → has x rs ≡ false → IsOnce (rs ++ x ∷ [])
unfolding has
IsOnce-append x [] o h = (refl, tt)
IsOnce-append x (y ∷ rs) o h = (
  has_last y x rs ∙ ground (arith, o.0, other_reg y x, h),
  IsOnce-append x rs o.1 (ground (arith, h)),
)

collect-IsOnce : (xs : List RegTy) → IsOnce (collect xs)
unfolding collect
collect-IsOnce [] = tt
collect-IsOnce (x ∷ xs) = elim (Bool-cases (has x (collect xs))) [
  | inl old ↦ rw old (collect-IsOnce xs)
  | inr new ↦ rw new (new, collect-IsOnce xs)
]

compute_par-IsOnce :
    (b l e : List RegTy)
    → IsOnce (compute_par b l e).begin_stores × IsOnce (compute_par b l e).loop_stores
unfolding compute_par
compute_par-IsOnce b l e = (collect-IsOnce _, collect-IsOnce _)

pub compute_slots-IsOnce :
    (begin main_loop end : Option ℕ) (refs : List (List RegTy)) (slots : SlotOps)
    → compute_slots begin main_loop end refs ≡ done slots
    → IsOnce slots.begin_stores × IsOnce slots.loop_stores
unfolding compute_slots
compute_slots-IsOnce begin main_loop end refs slots h =
    by_refs (get_ref refs begin) (get_ref refs main_loop) (get_ref refs end) h
  where
    by_refs :
        (b l e : Outcome (List RegTy))
        → (b >>= λ x. l >>= λ y. e >>= λ z. done (compute_par x y z)) ≡ done slots
        → IsOnce slots.begin_stores × IsOnce slots.loop_stores
    by_refs (done b) (done l) (done e) h =
        subst (λ s. IsOnce s.begin_stores × IsOnce s.loop_stores) (done-injective h)
          (compute_par-IsOnce b l e)
    by_refs (done b) (done l) _ h = cc
    by_refs (done b) _ e h = cc
    by_refs _ l e h = cc
