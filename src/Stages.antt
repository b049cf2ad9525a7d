-- ===== src/Stages.antt =====
-- src/common.rs and src/cross_stage.rs: the stages of a parallel script, and the registers that one
-- stage passes to another. A hash set of registers is the list of its members.
pub mod Cancel
pub mod Counter
pub mod Frames
pub mod Carried
pub mod Combine
pub mod Once
pub mod Machine
pub mod Puts
pub mod Transfer
pub mod Whole
pub mod Stitch
use frawk.Prelude.{
  ℕ, pos, Bool, true, false, ◌&&◌, Option, none, some, List, [], ◌∷◌, ◌++◌, ◌==◌, if◌then◌else◌,
}
use frawk.Result.{Result, ok, err}
use frawk.Compile.{Ty}
use frawk.Builtins.{Outcome, done, at, ◌>>=◌}
use frawk.Bytecode.{Instr}
use frawk.Dataflow.KeyEq.{ty_number}

pub data ExecutionStrategy : Type 0 where
  serial shard_per_record shard_per_file : ExecutionStrategy

pub data Stage {ℓ} (T : Type ℓ) : Type ℓ where
  main : T → Stage T
  par : Option T → Option T → Option T → Stage T

-- `ExecutionStrategy::num_workers`, of the number of processors.
unfoldable pub num_workers : ℕ → ExecutionStrategy → ℕ
num_workers cpus ExecutionStrategy.serial = 1
num_workers cpus _ = cpus

unfoldable pub stage : ExecutionStrategy → Stage (Unit {0})
stage ExecutionStrategy.serial = main tt
stage _ = par none none none

abbrev pub items {ℓ} : {T : Type ℓ} → Option T → List T
items none = []
items (some t) = t ∷ []

-- `Stage::iter`
unfoldable pub iter {ℓ} : {T : Type ℓ} → Stage T → List T
iter (main t) = t ∷ []
iter (par begin main_loop end) = items begin ++ items main_loop ++ items end

-- A register and its type.
abbrev pub RegTy : Type 0
RegTy = ℕ × Ty

unfoldable pub reg_eq : RegTy → RegTy → Bool
unfolding ty_number
reg_eq r r' = (r.0 == r'.0) && (ty_number r.1 == ty_number r'.1)

-- `HashSet::contains`
unfoldable pub has : RegTy → List RegTy → Bool
has r [] = false
has r (x ∷ xs) = if reg_eq x r then true else has r xs

-- `HashSet::intersection`
unfoldable pub intersection : List RegTy → List RegTy → List RegTy
intersection [] ys = []
intersection (x ∷ xs) ys = if has x ys then x ∷ intersection xs ys else intersection xs ys

-- `collect` into a hash set.
unfoldable pub collect : List RegTy → List RegTy
collect [] = []
collect (x ∷ xs) = let rest = collect xs in if has x rest then rest else x ∷ rest

pub record SlotOps : Type 0 where
  pub begin_stores : List RegTy
  pub loop_stores : List RegTy

unfoldable pub load_slot_instr :
    {Float Regex : Type 0} → ℕ → Ty → ℕ → Result (Option (Instr Float Regex))
load_slot_instr reg Ty.null slot = ok none
load_slot_instr reg Ty.iter_int slot = err
load_slot_instr reg Ty.iter_str slot = err
load_slot_instr reg ty slot = ok (some (Instr.load_slot ty (pos slot) reg))

unfoldable pub store_slot_instr :
    {Float Regex : Type 0} → ℕ → Ty → ℕ → Result (Option (Instr Float Regex))
store_slot_instr reg Ty.null slot = ok none
store_slot_instr reg Ty.iter_int slot = err
store_slot_instr reg Ty.iter_str slot = err
store_slot_instr reg ty slot = ok (some (Instr.store_slot ty (pos slot) reg))

unfoldable pub compute_par : List RegTy → List RegTy → List RegTy → SlotOps
unfolding intersection collect
compute_par begin_refs loop_refs end_refs = record {
  begin_stores = collect (intersection begin_refs loop_refs ++ intersection begin_refs end_refs);
  loop_stores = collect (intersection loop_refs end_refs ++ intersection begin_refs end_refs);
}

-- The references of a stage, none if the script has no such stage.
unfoldable pub get_ref : List (List RegTy) → Option ℕ → Outcome (List RegTy)
get_ref global_refs none = done []
get_ref global_refs (some i) = at global_refs i

unfoldable pub compute_slots : Option ℕ → Option ℕ → Option ℕ → List (List RegTy) → Outcome SlotOps
unfolding get_ref compute_par
compute_slots begin main_loop end global_refs = do
  begin_refs ← get_ref global_refs begin
  loop_refs ← get_ref global_refs main_loop
  end_refs ← get_ref global_refs end
  done (compute_par begin_refs loop_refs end_refs)
