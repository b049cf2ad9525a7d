-- ===== src/Stages/Transfer.antt =====
-- src/compile.rs: what one stage stores, the next one loads.
use mathlib.Core.Path.{subst}
use frawk.Prelude.{
  ℕ, zero, suc, get_elem?, ◌≡◌, ◌≢◌, refl, ◌∙◌, sym, ap, true, Option, none, some, List, [], ◌∷◌,
  ◌++◌, map, arith, Bool-cases, inl, inr,
}
use frawk.Compile.{Ty}
use frawk.Builtins.{Outcome, done, fails, panics, ◌>>=◌}
use frawk.Dataflow.Program.{Item}
use frawk.Stages.{RegTy, reg_eq, has, load_slot_instr, store_slot_instr}
use frawk.Stages.Counter.{SlotCounter, IsDistinct, Keeps, slot_of, reg_eq→eq}
use frawk.Stages.Once.{IsOnce}
use frawk.Stages.Combine.{combine_all, aggregate, combine_all-aggregate}
use frawk.Stages.Puts.{each_slot-Puts, makes_store, makes_load}
use frawk.Stages.Frames.{Frame, each_slot, load_slots, store_slots, set_item}
use frawk.Stages.Machine.{
  Assigned, registers, store_of, load_of, exec_all, exec_all-store, exec_all-load, stored_lem,
  loaded_lem,
}

pub get_elem?-set_item :
    {A : Type 0} (xs : List A) (i : ℕ) (x y : A)
    → get_elem? xs i ≡ some x
    → get_elem? (set_item xs i y) i ≡ some y
get_elem?-set_item [] i x y h = cc
get_elem?-set_item (z ∷ xs) zero x y h = refl
get_elem?-set_item (z ∷ xs) (suc i) x y h = get_elem?-set_item xs i x y h

slot_known :
    (ctr : SlotCounter) (r : RegTy) (pairs : List (RegTy × ℕ))
    → Assigned ctr pairs
    → has r (registers pairs) ≡ true
    → (s : ℕ) × (slot_of r ctr.slots ≡ some s)
unfolding has
slot_known ctr r [] a h = absurd (ground (arith, h))
slot_known ctr r ((r', s') ∷ pairs) a h = elim (Bool-cases (reg_eq r' r)) [
  | inl same ↦ (s', subst (λ x. slot_of x ctr.slots ≡ some s') (reg_eq→eq r' r same) a.0)
  | inr other ↦ slot_known ctr r pairs a.1 (ground (arith, other, h))
]

-- A statement about each of the registers that has a value.
abbrev pub EachValue : List RegTy → (RegTy → Type 0) → Type 0
EachValue regs P = (r : RegTy) → has r regs ≡ true → r.1 ≢ Ty.null → P r

module _ {Float Regex : Type 0} where
  -- Each worker, the first one being the main thread, runs the stores on its registers and its slots.
  -- The slots are then combined, and the next stage runs the loads: the register has there the
  -- combination of the values that it had in the workers.
  abbrev pub Combines : Type 0 → RegTy → List (Item Float Regex) → List (Item Float Regex) → Type 0
  Combines V r stores loads =
      (initial : Ty → V) (agg : Ty → V → V → V)
      → (first : (RegTy → V) × (RegTy → V)) (others : List ((RegTy → V) × (RegTy → V)))
      → (there : RegTy → V)
      → (exec_all initial loads (
        there,
        combine_all agg (exec_all initial stores first).1
            (map (λ w. (exec_all initial stores w).1) others),
      )).0
          r
        ≡ aggregate agg r.1 (first.0 r) (map (λ w. w.0 r) others)

  -- The register has in the next stage the value that it had in the one before.
  abbrev pub Passes : Type 0 → RegTy → List (Item Float Regex) → List (Item Float Regex) → Type 0
  Passes V r stores loads =
      (initial : Ty → V) (here there slots : RegTy → V)
      → (exec_all initial loads (there, (exec_all initial stores (here, slots)).1)).0 r ≡ here r

-- With no other workers, nothing is combined.
pub Combines→Passes :
    {Float Regex : Type 0} (V : Type 0) (regs : List RegTy) (stores loads : List (Item Float Regex))
    → EachValue regs (λ r. Combines V r stores loads)
    → EachValue regs (λ r. Passes V r stores loads)
unfolding combine_all
Combines→Passes V regs stores loads h r m ne initial here there slots =
    h r m ne initial (λ ty v w. v) (here, slots) [] there

runs :
    (Float Regex : Type 0) {V : Type 0}
    → (ctr ctr' : SlotCounter) → IsDistinct ctr
    → Keeps ctr ctr'
    → IsDistinct ctr'
    → (ps qs : List (RegTy × ℕ)) → Assigned ctr ps
    → Assigned ctr' qs
    → IsOnce (registers qs)
    → (r : RegTy) → has r (registers ps) ≡ true
    → has r (registers qs) ≡ true
    → Combines {Float = Float} {Regex = Regex} V r (map store_of ps) (map load_of qs)
runs Float Regex {V = V} ctr ctr' d keep d' ps qs a a' o r m m' initial agg first others there =
    let (s, e) = slot_known ctr r ps a m in
    let left = λ (w : (RegTy → V) × (RegTy → V)).
      (exec_all initial {Float = Float} {Regex = Regex} (map store_of ps) w).1 in
    let own : (w : (RegTy → V) × (RegTy → V)) → left w (s, r.1) ≡ w.0 r = λ w.
      ap (λ st. st.1 (s, r.1)) (exec_all-store initial Float Regex ps w.0 w.1)
      ∙ stored_lem initial ctr d w.0 ps w.1 r s a e m in
    let shared = combine_all agg (left first) (map left others) in
    ap (λ st. st.0 r) (exec_all-load initial Float Regex qs there shared)
    ∙ loaded_lem initial ctr' d' qs there shared r s a' o (keep r s e) m'
    ∙ combine_all-aggregate agg (s, r.1) (left first) left (λ w. w.0 r) own others
    ∙ ap (λ v. aggregate agg r.1 v (map (λ w. w.0 r) others)) (own first)

module _ {Float Regex : Type 0} where
  -- The statements of the block are those of the first frame's, behind new ones.
  abbrev pub Extends : List (Item Float Regex) → ℕ → Frame Float Regex → Frame Float Regex → Type 0
  Extends new block f f' =
      (old : List (Item Float Regex)) × (get_elem? f.blocks block ≡ some old)
      × (get_elem? f'.blocks block ≡ some (new ++ old))

  module _ (f f' : Frame Float Regex) (block : ℕ) (ctr' : SlotCounter) where
    abbrev pub put_back :
        List (Item Float Regex) × SlotCounter → Outcome (Frame Float Regex × SlotCounter)
    put_back (insts, c) = done (record f { blocks = set_item f.blocks block insts }, c)

    by_insts :
        (r : Outcome (List (Item Float Regex) × SlotCounter))
        → (r >>= put_back) ≡ done (f', ctr')
        → (insts : List (Item Float Regex)) × (r ≡ done (insts, ctr'))
          × (record f { blocks = set_item f.blocks block insts } ≡ f')
    by_insts (done (insts, c)) h = (insts, cc, cc)
    by_insts fails h = cc
    by_insts panics h = cc

    -- The block of a frame that a loop has put instructions into.
    pub by_block :
        (loop : List (Item Float Regex) → Outcome (List (Item Float Regex) × SlotCounter))
        → (found : Option (List (Item Float Regex))) → get_elem? f.blocks block ≡ found
        → ((elim found [ none ↦ panics | some x ↦ done x ]) >>= λ old. loop old >>= put_back)
          ≡ done (f', ctr')
        → (old insts : List (Item Float Regex)) × (get_elem? f.blocks block ≡ some old)
          × (get_elem? f'.blocks block ≡ some insts)
          × (loop old ≡ done (insts, ctr'))
          × (record f { blocks = set_item f.blocks block insts } ≡ f')
    by_block loop none e h = cc
    by_block loop (some old) e h =
        let (insts, run, eq) = by_insts (loop old) h in
        (
          old,
          insts,
          e,
          ap (λ g. get_elem? g.blocks block) (sym eq)
              ∙ get_elem?-set_item f.blocks block old insts e,
          run,
          eq,
        )

  module _ {V : Type 0} where
    -- What the first stage stores, the next one loads: the block in which the first stage ends begins
    -- with stores, that in which the next stage begins with loads, and once these have run, each
    -- register with a value that the loops were given has in the next stage the combination of its
    -- values in the workers of the first. The counter at the start gives no slot to two registers of a
    -- type, and no register is given twice.
    pub load_slots-store_slots :
        (f f' g g' : Frame Float Regex) (regs : List RegTy) (ctr ctr' ctr'' : SlotCounter)
        → IsDistinct ctr
        → IsOnce regs
        → store_slots f regs ctr ≡ done (f', ctr')
        → load_slots g regs ctr' ≡ done (g', ctr'')
        → (stores loads : List (Item Float Regex)) × Extends stores f.exit f f'
          × Extends loads g.entry g g'
          × EachValue regs (λ r. Combines V r stores loads)
    unfolding store_slots load_slots
    load_slots-store_slots f f' g g' regs ctr ctr' ctr'' d o hs hl =
        let (old, insts, e, e', loop, same) =
          by_block f f' f.exit ctr' (each_slot store_slot_instr regs ctr)
            (get_elem? f.blocks f.exit) refl hs in
        let (old2, insts2, e2, e2', loop2, same2) =
          by_block g g' g.entry ctr'' (each_slot load_slot_instr regs ctr')
            (get_elem? g.blocks g.entry) refl hl in
        let (ps, eq, a, found, keep, distinct, named, once) =
          each_slot-Puts store_slot_instr store_of makes_store regs ctr ctr' old insts loop in
        let (qs, eq2, a2, found2, keep2, distinct2, named2, once2) =
          each_slot-Puts load_slot_instr load_of makes_load regs ctr' ctr'' old2 insts2 loop2 in
        (
          map store_of ps,
          map load_of qs,
          (old, e, e' ∙ ap some eq),
          (old2, e2, e2' ∙ ap some eq2),
          λ r m ne.
              runs Float Regex ctr' ctr'' (distinct d) keep2 (distinct2 (distinct d)) ps qs a a2
                (once2 o) r (found r m ne) (found2 r m ne),
        )
