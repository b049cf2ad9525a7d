-- ===== src/Stages/Frames.antt =====
-- src/compile.rs: the instructions that pass registers between the stages, put into the functions of
-- the stages. A basic block is the list of its statements; those that are added are all low-level.
use frawk.Prelude.{ℕ, zero, suc, Option, none, some, List, [], ◌∷◌}
use frawk.Result.{Result}
use frawk.Compile.{Ty}
use frawk.Builtins.{Outcome, done, at, ◌>>=◌, of_result}
use frawk.Bytecode.{Instr}
use frawk.Dataflow.Program.{Item}
use frawk.Stages.{Stage, main, par, RegTy, load_slot_instr, store_slot_instr, compute_slots}
use frawk.Stages.Counter.{SlotCounter, no_slots, get_slot}

pub record Frame (Float Regex : Type 0) : Type 0 where
  pub blocks : List (List (Item Float Regex))
  pub entry : ℕ
  pub exit : ℕ

abbrev pub set_item {ℓ} : {A : Type ℓ} → List A → ℕ → A → List A
set_item [] i v = []
set_item (x ∷ xs) zero v = v ∷ xs
set_item (x ∷ xs) (suc i) v = x ∷ set_item xs i v

module _ {Float Regex : Type 0} where
  -- `insts.push_front`, if there is an instruction.
  abbrev pub push_front :
      Option (Instr Float Regex) → List (Item Float Regex) → List (Item Float Regex)
  push_front none insts = insts
  push_front (some inst) insts = Item.ll inst ∷ insts

  -- The loops of `load_slots` and of `store_slots`, over the statements of the block.
  module _ (instr : ℕ → Ty → ℕ → Result (Option (Instr Float Regex))) where
    unfoldable pub each_slot :
        List RegTy
        → SlotCounter
        → List (Item Float Regex)
        → Outcome (List (Item Float Regex) × SlotCounter)
    each_slot [] ctr insts = done (insts, ctr)
    each_slot (reg ∷ regs) ctr insts =
        of_result (instr reg.0 reg.1 (get_slot ctr reg).0) >>= λ inst.
        each_slot regs (get_slot ctr reg).1 (push_front inst insts)

  unfoldable pub load_slots :
      Frame Float Regex → List RegTy → SlotCounter → Outcome (Frame Float Regex × SlotCounter)
  load_slots frame regs ctr = do
    stream ← at frame.blocks frame.entry
    (insts, ctr') ← each_slot load_slot_instr regs ctr stream
    done (record frame { blocks = set_item frame.blocks frame.entry insts }, ctr')

  unfoldable pub store_slots :
      Frame Float Regex → List RegTy → SlotCounter → Outcome (Frame Float Regex × SlotCounter)
  store_slots frame regs ctr = do
    stream ← at frame.blocks frame.exit
    (insts, ctr') ← each_slot store_slot_instr regs ctr stream
    done (record frame { blocks = set_item frame.blocks frame.exit insts }, ctr')

  -- A method of `self.frames[off]`, if the script has the stage.
  abbrev pub on_frame :
      (Frame Float Regex → List RegTy → SlotCounter → Outcome (Frame Float Regex × SlotCounter))
      → Option ℕ
      → List RegTy
      → List (Frame Float Regex) × SlotCounter
      → Outcome (List (Frame Float Regex) × SlotCounter)
  on_frame method none regs (frames, ctr) = done (frames, ctr)
  on_frame method (some off) regs (frames, ctr) = do
    frame ← at frames off
    (frame', ctr') ← method frame regs ctr
    done (set_item frames off frame', ctr')

  -- `Typer::add_slots`, on what `get_global_refs` returns.
  unfoldable pub add_slots :
      Stage ℕ → List (List RegTy) → List (Frame Float Regex) → Outcome (List (Frame Float Regex))
  add_slots (main off) global_refs frames = done frames
  add_slots (par begin main_loop end) global_refs frames = do
    slots ← compute_slots begin main_loop end global_refs
    stored ← on_frame store_slots begin slots.begin_stores (frames, no_slots)
    loaded ← on_frame load_slots main_loop slots.begin_stores stored
    stored' ← on_frame store_slots main_loop slots.loop_stores loaded
    (frames', ctr) ← on_frame load_slots end slots.loop_stores stored'
    done frames'
