-- ===== src/Examples/Passing.antt =====
-- src/cross_stage.rs and src/compile.rs: registers that pass from stage to stage.
use frawk.Prelude.{
  negsuc, get_elem?, ◌+◌, arith, ℕ, pos, ◌≡◌, refl, true, ◌&&◌, ◌||◌, some, List, [], ◌∷◌,
}
use frawk.Compile.{Ty, is_iter}
use frawk.Builtins.{done}
use frawk.Bytecode.{Instr}
use frawk.Dataflow.Program.{Item}
use frawk.Stages.{
  RegTy, reg_eq, has, get_ref, SlotOps, compute_slots, compute_par, intersection, collect, par,
  load_slot_instr, store_slot_instr,
}
use frawk.Stages.Carried.{has-compute_slots}
use frawk.Stages.Counter.{get_slot}
use frawk.Stages.Frames.{Frame, add_slots, load_slots, store_slots, each_slot}
use frawk.Stages.Cancel.{sentinel, get_code, cancelled, cancel_all, get_code-cancel_all}
use frawk.Stages.Machine.{exec, exec_all, put, take_slot, is_copied}
use frawk.Stages.Combine.{combine, combine_all}
use frawk.Stages.Whole.{Stitched}
use frawk.Stages.Stitch.{add_slots-Stitched}

abbrev count_reg : RegTy
count_reg = (1, Ty.int)

abbrev name_reg : RegTy
name_reg = (4, Ty.str)

abbrev begin_refs : List RegTy
begin_refs = name_reg ∷ []

abbrev loop_refs : List RegTy
loop_refs = count_reg ∷ []

abbrev end_refs : List RegTy
end_refs = count_reg ∷ name_reg ∷ []

has-compute_slots_example :
    (slots : SlotOps) × (compute_slots
        (some 0)
        (some 1)
        (some 2)
        (begin_refs ∷ loop_refs ∷ end_refs ∷ [])
      ≡ done slots)
    × (has name_reg slots.begin_stores
        ≡ (has name_reg begin_refs && (has name_reg loop_refs || has name_reg end_refs)))
    × (has name_reg slots.loop_stores
        ≡ (has name_reg end_refs && (has name_reg begin_refs || has name_reg loop_refs)))
has-compute_slots_example =
    has-compute_slots (some 0) (some 1) (some 2) (begin_refs ∷ loop_refs ∷ end_refs ∷ []) begin_refs
      loop_refs end_refs name_reg (unfold get_ref in refl) (unfold get_ref in refl)
      (unfold get_ref in refl)

abbrev before : Frame ℕ ℕ
before = record { blocks = [] ∷ [] ∷ []; entry = 0; exit = 1 }

-- A register of the first and the last stage passes through the main loop, before its own.
passes_through :
    add_slots
      (par (some 0) (some 1) (some 2))
      (begin_refs ∷ loop_refs ∷ end_refs ∷ [])
      (before ∷ before ∷ before ∷ [])
    ≡ done (
        record before { blocks = [] ∷ (Item.ll (Instr.store_slot Ty.str (pos 0) 4) ∷ []) ∷ [] }
        ∷ record before {
          blocks =
              (Item.ll (Instr.load_slot Ty.str (pos 0) 4) ∷ [])
              ∷ (Item.ll (Instr.store_slot Ty.str (pos 0) 4)
                  ∷ Item.ll (Instr.store_slot Ty.int (pos 0) 1)
                  ∷ [])
              ∷ [];
        }
        ∷ record before {
          blocks =
              (Item.ll (Instr.load_slot Ty.str (pos 0) 4)
                ∷ Item.ll (Instr.load_slot Ty.int (pos 0) 1)
                ∷ [])
              ∷ []
              ∷ [];
        }
        ∷ [])
unfolding add_slots compute_slots compute_par intersection collect has reg_eq load_slots store_slots
    each_slot get_slot load_slot_instr store_slot_instr
passes_through = refl

add_slots-Stitched_example :
    (frames' : List (Frame ℕ ℕ)) × (first' main_loop' last' : Frame ℕ ℕ) × (add_slots
        (par (some 0) (some 1) (some 2))
        (begin_refs ∷ loop_refs ∷ end_refs ∷ [])
        (before ∷ before ∷ before ∷ [])
      ≡ done frames')
    × (get_elem? frames' 0 ≡ some first')
    × (get_elem? frames' 1 ≡ some main_loop')
    × (get_elem? frames' 2 ≡ some last')
    × Stitched ℕ
        (record { begin_stores = name_reg ∷ []; loop_stores = count_reg ∷ name_reg ∷ [] })
        before
        before
        before
        first'
        main_loop'
        last'
add_slots-Stitched_example =
    add_slots-Stitched ℕ 0 1 2 (begin_refs ∷ loop_refs ∷ end_refs ∷ [])
      (before ∷ before ∷ before ∷ []) before before before
      (record { begin_stores = name_reg ∷ []; loop_stores = count_reg ∷ name_reg ∷ [] })
      (λ e. omega (arith, e)) (λ e. omega (arith, e)) (λ e. omega (arith, e)) refl refl refl
      (λ e. omega (arith, e)) ([], refl) ([], refl) ([], refl) ([], refl)
      (unfold compute_slots compute_par intersection collect has reg_eq get_ref in refl)
      (unfold is_iter in (refl, tt)) (unfold is_iter in (refl, (refl, tt)))

-- Two workers leave the counts 2 and 5 in the slot, and the last stage loads their sum.
counts_summed :
    (exec_all
        (λ ty. 0)
        {Float = ℕ}
        {Regex = ℕ}
        (Item.ll (Instr.load_slot Ty.int (pos 0) 1) ∷ [])
        (
          λ r. 0,
          combine_all
              (λ ty v w. v + w)
              (exec_all
                (λ ty. 0)
                {Float = ℕ}
                {Regex = ℕ}
                (Item.ll (Instr.store_slot Ty.int (pos 0) 1) ∷ [])
                (λ r. 2, λ cell. 0)).1
              ((exec_all
                  (λ ty. 0)
                  {Float = ℕ}
                  {Regex = ℕ}
                  (Item.ll (Instr.store_slot Ty.int (pos 0) 1) ∷ [])
                  (λ r. 5, λ cell. 0)).1
                ∷ []),
        )).0
      count_reg
    ≡ 7
unfolding exec_all exec combine_all combine put take_slot is_copied reg_eq
counts_summed = refl

get_code-cancel_all_example :
    (get_code (cancel_all sentinel (negsuc 0 ∷ pos 3 ∷ [])) ≡ some (negsuc 0))
    × (cancelled (cancel_all sentinel (negsuc 0 ∷ pos 3 ∷ [])) ≡ true)
get_code-cancel_all_example =
    get_code-cancel_all (negsuc 0 ∷ pos 3 ∷ []) (omega arith, (omega arith, tt))
