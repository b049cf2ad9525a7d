-- ===== src/InputTaint/Returns.antt =====
-- src/compile.rs and src/input_taint.rs: the programs that the taint analysis can visit.
use frawk.Prelude.{ℕ, ◌≡◌, refl, ◌∙◌, true, List, [], ◌∷◌}
use frawk.Compile.{Ty}
use frawk.Builtins.{done}
use frawk.Bytecode.Registers.{accum}
use frawk.Dataflow.{Analysis}
use frawk.Dataflow.Boilerplate.{Key}
use frawk.Dataflow.Derives.{outcome-done}
use frawk.Dataflow.Keys.{Op}
use frawk.Dataflow.KeyEq.{key_eq}
use frawk.Dataflow.Operands.{slot_fits, visit_ll-accum}
use frawk.Dataflow.Program.{Item, ll, hl, visit_all, apply_all}
use frawk.InputTaint.Taint.{Taint, taint}
use frawk.InputTaint.Visit.{visit_ll, visit_hl, visit_taint_analysis}
use frawk.InputTaint.Rejects.{flow-ne-fails, flow-ne-panics}

abbrev applied :
    (Float Regex : Type 0) → List (Op Taint Key) → Analysis Taint Key → Analysis Taint Key
applied Float Regex ops a =
    apply_all (visit_taint_analysis {Float = Float} {Regex = Regex}) taint key_eq ops a

module _ {Float Regex : Type 0} where
  -- Each instruction has registers that `accum` lists, and each slot is a `u32`.
  abbrev pub WellTyped : List (Item Float Regex) → Type 0
  WellTyped [] = Unit
  WellTyped (ll inst ∷ items) =
      ((rs : List (ℕ × Ty)) × (accum inst ≡ done rs) × (slot_fits inst ≡ true)) × WellTyped items
  WellTyped (hl _ _ ∷ items) = WellTyped items

  visit_all-step :
      (item : Item Float Regex) (items : List (Item Float Regex)) (ops : List (Op Taint Key))
      (a : Analysis Taint Key)
      → visit_taint_analysis item ≡ done ops
      → visit_all visit_taint_analysis taint key_eq (item ∷ items) a
        ≡ visit_all visit_taint_analysis taint key_eq items (applied Float Regex ops a)
  unfolding visit_all
  visit_all-step item items ops a h = rw (h, visit_all) refl

  -- If `accum` lists the registers of each instruction of a program, and each slot is a `u32`, then
  -- the loop of the taint analysis over the program returns an analysis.
  pub visit_all-WellTyped :
      (items : List (Item Float Regex)) (a : Analysis Taint Key)
      → WellTyped items
      → (b : Analysis Taint Key) × (visit_all visit_taint_analysis taint key_eq items a ≡ done b)
  unfolding visit_all visit_taint_analysis
  visit_all-WellTyped [] a typed = (a, refl)
  visit_all-WellTyped (ll inst ∷ items) a ((rs, h, fits), typed) =
      let (flows, e, named) = visit_ll-accum inst rs h fits in
      let (ops, f) =
        outcome-done (visit_ll inst) (flow-ne-fails inst flows e) (flow-ne-panics inst flows e) in
      let (b, g) = visit_all-WellTyped items (applied Float Regex ops a) typed in
      (b, visit_all-step (ll inst) items ops a f ∙ g)
  visit_all-WellTyped (hl func_id inst ∷ items) a typed =
      let ops = visit_hl inst func_id in
      let (b, g) = visit_all-WellTyped items (applied Float Regex ops a) typed in
      (b, visit_all-step (hl func_id inst) items ops a refl ∙ g)
