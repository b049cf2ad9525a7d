-- ===== src/Stages/Stitch.antt =====
-- src/compile.rs: when `add_slots` returns, on a script with the three stages.
use mathlib.Core.Path.{subst}
use frawk.Prelude.{
  ℕ, pos, get_elem?, ◌≡◌, ◌≢◌, refl, ◌∙◌, ap, false, Option, none, some, All, List, [], ◌∷◌, arith,
}
use frawk.Result.{Result, ok}
use frawk.Compile.{Ty, is_iter}
use frawk.Builtins.{Outcome, done, ◌>>=◌}
use frawk.Bytecode.{Instr}
use frawk.Dataflow.Program.{Item}
use frawk.Stages.{RegTy, SlotOps, par, compute_slots, load_slot_instr, store_slot_instr}
use frawk.Stages.Counter.{SlotCounter, no_slots, get_slot}
use frawk.Stages.Frames.{
  Frame, each_slot, load_slots, store_slots, set_item, push_front, on_frame, add_slots,
}
use frawk.Stages.Whole.{Stitched, load_slots-Kept, past, written, add_slots_done}

-- Iterators do not cross from stage to stage.
abbrev pub NoIterators : List RegTy → Type 0
NoIterators = All (λ r. is_iter r.1 ≡ false)

bind_done :
    {A B : Type 0} (m : Outcome A) (f : A → Outcome B) {a : A} {b : B}
    → m ≡ done a
    → f a ≡ done b
    → (m >>= f) ≡ done b
bind_done m f e h = ap (λ x. x >>= f) e ∙ h

module _ {Float Regex : Type 0} where
  each_slot_done :
      (instr : ℕ → Ty → ℕ → Result (Option (Instr Float Regex)))
      → ((n : ℕ) (ty : Ty) (s : ℕ)
          → is_iter ty ≡ false
          → (i : Option (Instr Float Regex)) × (instr n ty s ≡ ok i))
      → (regs : List RegTy) (ctr : SlotCounter) (insts : List (Item Float Regex)) → NoIterators regs
      → (r : List (Item Float Regex) × SlotCounter) × (each_slot instr regs ctr insts ≡ done r)
  unfolding each_slot
  each_slot_done instr works [] ctr insts ok_ = ((insts, ctr), refl)
  each_slot_done instr works (reg ∷ regs) ctr insts ok_ =
      let (i, e) = works reg.0 reg.1 (get_slot ctr reg).0 ok_.0 in
      let (r, f) =
        each_slot_done instr works regs (get_slot ctr reg).1 (push_front i insts) ok_.1 in
      (r, rw e f)

  store_works :
      (n : ℕ) (ty : Ty) (s : ℕ)
      → is_iter ty ≡ false
      → (i : Option (Instr Float Regex)) × (store_slot_instr n ty s ≡ ok i)
  unfolding store_slot_instr is_iter
  store_works n Ty.null s h = (none, refl)
  store_works n Ty.iter_int s h = cc
  store_works n Ty.iter_str s h = cc
  store_works n ty s h = (some (Instr.store_slot ty (pos s) n), refl)

  load_works :
      (n : ℕ) (ty : Ty) (s : ℕ)
      → is_iter ty ≡ false
      → (i : Option (Instr Float Regex)) × (load_slot_instr n ty s ≡ ok i)
  unfolding load_slot_instr is_iter
  load_works n Ty.null s h = (none, refl)
  load_works n Ty.iter_int s h = cc
  load_works n Ty.iter_str s h = cc
  load_works n ty s h = (some (Instr.load_slot ty (pos s) n), refl)

  store_slots_done :
      (f : Frame Float Regex) (regs : List RegTy) (ctr : SlotCounter)
      (old : List (Item Float Regex))
      → get_elem? f.blocks f.exit ≡ some old
      → NoIterators regs
      → (r : Frame Float Regex × SlotCounter) × (store_slots f regs ctr ≡ done r)
  unfolding store_slots
  store_slots_done f regs ctr old e ok_ =
      let (p, h) = each_slot_done store_slot_instr store_works regs ctr old ok_ in
      ((record f { blocks = set_item f.blocks f.exit p.0 }, p.1), ground (arith, e, h))

  load_slots_done :
      (f : Frame Float Regex) (regs : List RegTy) (ctr : SlotCounter)
      (old : List (Item Float Regex))
      → get_elem? f.blocks f.entry ≡ some old
      → NoIterators regs
      → (r : Frame Float Regex × SlotCounter) × (load_slots f regs ctr ≡ done r)
  unfolding load_slots
  load_slots_done f regs ctr old e ok_ =
      let (p, h) = each_slot_done load_slot_instr load_works regs ctr old ok_ in
      ((record f { blocks = set_item f.blocks f.entry p.0 }, p.1), ground (arith, e, h))

  on_frame_done :
      (method : Frame Float Regex
        → List RegTy
        → SlotCounter
        → Outcome (Frame Float Regex × SlotCounter))
      → (off : ℕ) (regs : List RegTy) (frames : List (Frame Float Regex)) (ctr : SlotCounter)
      → (frame : Frame Float Regex) (r : Frame Float Regex × SlotCounter)
      → get_elem? frames off ≡ some frame
      → method frame regs ctr ≡ done r
      → on_frame method (some off) regs (frames, ctr) ≡ done (set_item frames off r.0, r.1)
  on_frame_done method off regs frames ctr frame r e h = ground (arith, e, h)

  -- The block is one of the function's.
  abbrev pub HasBlock : Frame Float Regex → ℕ → Type 0
  HasBlock f block = (old : List (Item Float Regex)) × (get_elem? f.blocks block ≡ some old)

  -- In a script with the three stages, each a function of its own, whose main loop does not end in the
  -- block in which it begins: if the blocks in which the stages begin and end are there, and no
  -- iterator is among the registers that `compute_slots` returns, then `add_slots` returns. The block
  -- in which the first stage ends then begins with stores, the main loop begins with loads and ends
  -- with stores, and the last stage begins with loads. Once the stores of the first stage and the loads
  -- of the main loop have run on the same slots, each register with a value in the set between these
  -- stages has in the main loop the value that it had in the first stage. Once each worker has run the
  -- stores of the main loop, their slots are combined, with any function for the values of each type,
  -- and the last stage has run its loads, each register with a value in the set between these two has
  -- in the last stage the combination of the values that it had in the workers.
  pub add_slots-Stitched :
      (V : Type 0) (b l e : ℕ) (refs : List (List RegTy)) (frames : List (Frame Float Regex))
      → (first main_loop last : Frame Float Regex) (slots : SlotOps) → b ≢ l
      → l ≢ e
      → b ≢ e
      → get_elem? frames b ≡ some first
      → get_elem? frames l ≡ some main_loop
      → get_elem? frames e ≡ some last
      → main_loop.entry ≢ main_loop.exit
      → HasBlock first first.exit
      → HasBlock main_loop main_loop.entry
      → HasBlock main_loop main_loop.exit
      → HasBlock last last.entry
      → compute_slots (some b) (some l) (some e) refs ≡ done slots
      → NoIterators slots.begin_stores
      → NoIterators slots.loop_stores
      → (frames' : List (Frame Float Regex)) × (first' main_loop' last' : Frame Float Regex)
        × (add_slots (par (some b) (some l) (some e)) refs frames ≡ done frames')
        × (get_elem? frames' b ≡ some first')
        × (get_elem? frames' l ≡ some main_loop')
        × (get_elem? frames' e ≡ some last')
        × Stitched V slots first main_loop last first' main_loop' last'
  unfolding add_slots
  add_slots-Stitched V b l e refs frames first main_loop last slots bl le be hb hl he blocks x1 x2
        x3 x4 computed ok1 ok2 =
      let (p1, m1) = store_slots_done first slots.begin_stores no_slots x1.0 x1.1 ok1 in
      let frames1 = set_item frames b p1.0 in
      let o1 = on_frame_done store_slots b slots.begin_stores frames no_slots first p1 hb m1 in
      let hl1 = past frames frames1 b l p1.0 refl bl hl in
      let (p2, m2) = load_slots_done main_loop slots.begin_stores p1.1 x2.0 x2.1 ok1 in
      let frames2 = set_item frames1 l p2.0 in
      let o2 = on_frame_done load_slots l slots.begin_stores frames1 p1.1 main_loop p2 hl1 m2 in
      let hl2 = written frames1 frames2 l main_loop p2.0 refl hl1 in
      let kept = (load_slots-Kept main_loop p2.0 slots.begin_stores p1.1 p2.1 m2).0 in
      let x3' = ap (get_elem? p2.0.blocks) kept.exit ∙ kept.others main_loop.exit blocks ∙ x3.1 in
      let (p3, m3) = store_slots_done p2.0 slots.loop_stores p2.1 x3.0 x3' ok2 in
      let frames3 = set_item frames2 l p3.0 in
      let o3 = on_frame_done store_slots l slots.loop_stores frames2 p2.1 p2.0 p3 hl2 m3 in
      let he1 = past frames frames1 b e p1.0 refl be he in
      let he3 = past frames2 frames3 l e p3.0 refl le (past frames1 frames2 l e p2.0 refl le he1) in
      let (p4, m4) = load_slots_done last slots.loop_stores p3.1 x4.0 x4.1 ok2 in
      let frames4 = set_item frames3 e p4.0 in
      let o4 = on_frame_done load_slots e slots.loop_stores frames3 p3.1 last p4 he3 m4 in
      let result : add_slots (par (some b) (some l) (some e)) refs frames ≡ done frames4 =
        bind_done _ _ computed
          (bind_done _ _ o1 (bind_done _ _ o2 (bind_done _ _ o3 (bind_done _ _ o4 refl)))) in
      let (slots', computed', first', main_loop', last', l1, l2, l3, stitched) =
        add_slots_done V b l e refs frames frames4 first main_loop last bl le be hb hl he blocks
          result in
      let same : slots' ≡ slots = cc in
      (
        frames4,
        first',
        main_loop',
        last',
        result,
        l1,
        l2,
        l3,
        subst (λ s. Stitched V s first main_loop last first' main_loop' last') same stitched,
      )
