-- ===== src/Stages/Combine.antt =====
-- src/interp.rs: `Slots::combine`, which joins the slots of a worker into those of the main thread,
-- with the method of the trait `Agg` for the type of each slot.
use frawk.Prelude.{◌≡◌, refl, ◌∙◌, ap, List, [], ◌∷◌, map}
use frawk.Compile.{Ty}
use frawk.Stages.{RegTy}

module _ {V : Type 0} (agg : Ty → V → V → V) where
  unfoldable pub combine : (RegTy → V) → (RegTy → V) → RegTy → V
  combine slots other cell = agg cell.1 (slots cell) (other cell)

  -- The results of the workers are combined in the order in which they arrive.
  unfoldable pub combine_all : (RegTy → V) → List (RegTy → V) → RegTy → V
  unfolding combine
  combine_all slots [] = slots
  combine_all slots (result ∷ results) = combine_all (combine slots result) results

  -- The combination of the first value with the others, one by one.
  abbrev pub aggregate : Ty → V → List V → V
  aggregate ty v [] = v
  aggregate ty v (w ∷ ws) = aggregate ty (agg ty v w) ws

  -- If each worker leaves the value of its own register in the slot, the combined slots hold the
  -- combination of these values.
  pub combine_all-aggregate :
      (cell : RegTy) (slots : RegTy → V) (left : (RegTy → V) × (RegTy → V) → RegTy → V)
      (value : (RegTy → V) × (RegTy → V) → V)
      → ((worker : (RegTy → V) × (RegTy → V)) → left worker cell ≡ value worker)
      → (workers : List ((RegTy → V) × (RegTy → V)))
      → combine_all slots (map left workers) cell
        ≡ aggregate cell.1 (slots cell) (map value workers)
  unfolding combine_all combine
  combine_all-aggregate cell slots left value h [] = refl
  combine_all-aggregate cell slots left value h (worker ∷ workers) =
      combine_all-aggregate cell (combine slots (left worker)) left value h workers
      ∙ ap (λ w. aggregate cell.1 (agg cell.1 (slots cell) w) (map value workers)) (h worker)
