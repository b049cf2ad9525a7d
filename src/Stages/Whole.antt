-- ===== src/Stages/Whole.antt =====
-- src/compile.rs: `add_slots` on the functions of the three stages of a script.
use mathlib.Core.Path.{subst}
use frawk.Prelude.{
  ℕ, zero, suc, get_elem?, ◌≡◌, ◌≢◌, refl, ◌∙◌, sym, ap, Option, none, some, List, [], ◌∷◌,
}
use frawk.Builtins.{Outcome, done, fails, panics, ◌>>=◌}
use frawk.Dataflow.Program.{Item}
use frawk.Stages.{RegTy, SlotOps, par, compute_slots, load_slot_instr, store_slot_instr}
use frawk.Stages.Counter.{SlotCounter, IsDistinct, no_slots, no_slots-IsDistinct}
use frawk.Stages.Puts.{each_slot-Puts, makes_store, makes_load}
use frawk.Stages.Frames.{Frame, each_slot, load_slots, store_slots, set_item, on_frame, add_slots}
use frawk.Stages.Machine.{store_of, load_of}
use frawk.Stages.Once.{IsOnce, compute_slots-IsOnce}
use frawk.Stages.Transfer.{
  Extends, Passes, Combines, EachValue, Combines→Passes, by_block, get_elem?-set_item,
  load_slots-store_slots,
}

-- The bind of a call that returns.
done_inv :
    {A B : Type 0} (m : Outcome A) (f : A → Outcome B) {b : B}
    → (m >>= f) ≡ done b
    → (a : A) × (m ≡ done a) × (f a ≡ done b)
done_inv (done a) f h = (a, refl, h)
done_inv fails f h = cc
done_inv panics f h = cc

get_elem?-set_item_other :
    {A : Type 0} (xs : List A) (i j : ℕ) (y : A)
    → i ≢ j
    → get_elem? (set_item xs i y) j ≡ get_elem? xs j
get_elem?-set_item_other [] i j y ne = refl
get_elem?-set_item_other (x ∷ xs) zero zero y ne = absurd (ne refl)
get_elem?-set_item_other (x ∷ xs) zero (suc j) y ne = refl
get_elem?-set_item_other (x ∷ xs) (suc i) zero y ne = refl
get_elem?-set_item_other (x ∷ xs) (suc i) (suc j) y ne =
    get_elem?-set_item_other xs i j y (λ e. ne (ap suc e))

module _ {Float Regex : Type 0} where
  -- The frame has changed in one block at most.
  pub record Kept (block : ℕ) (f f' : Frame Float Regex) : Type 0 where
    pub entry : f'.entry ≡ f.entry
    pub exit : f'.exit ≡ f.exit
    pub others : (i : ℕ) → block ≢ i → get_elem? f'.blocks i ≡ get_elem? f.blocks i

  set_item-Kept :
      (f f' : Frame Float Regex) (block : ℕ) (insts : List (Item Float Regex))
      → record f { blocks = set_item f.blocks block insts } ≡ f'
      → Kept block f f'
  set_item-Kept f f' block insts e = record {
    entry = ap (λ g. g.entry) (sym e);
    exit = ap (λ g. g.exit) (sym e);
    others = λ i ne.
        ap (λ g. get_elem? g.blocks i) (sym e) ∙ get_elem?-set_item_other f.blocks block i insts ne;
  }

  pub store_slots-Kept :
      (f f' : Frame Float Regex) (regs : List RegTy) (ctr ctr' : SlotCounter)
      → store_slots f regs ctr ≡ done (f', ctr')
      → Kept f.exit f f' × (IsDistinct ctr → IsDistinct ctr')
  unfolding store_slots
  store_slots-Kept f f' regs ctr ctr' h =
      let (old, insts, e, e', loop, same) =
        by_block f f' f.exit ctr' (each_slot store_slot_instr regs ctr) (get_elem? f.blocks f.exit)
          refl h in
      let (ps, eq, a, found, keep, distinct, named, once) =
        each_slot-Puts store_slot_instr store_of makes_store regs ctr ctr' old insts loop in
      (set_item-Kept f f' f.exit insts same, distinct)

  pub load_slots-Kept :
      (f f' : Frame Float Regex) (regs : List RegTy) (ctr ctr' : SlotCounter)
      → load_slots f regs ctr ≡ done (f', ctr')
      → Kept f.entry f f' × (IsDistinct ctr → IsDistinct ctr')
  unfolding load_slots
  load_slots-Kept f f' regs ctr ctr' h =
      let (old, insts, e, e', loop, same) =
        by_block f f' f.entry ctr' (each_slot load_slot_instr regs ctr) (get_elem? f.blocks f.entry)
          refl h in
      let (ps, eq, a, found, keep, distinct, named, once) =
        each_slot-Puts load_slot_instr load_of makes_load regs ctr ctr' old insts loop in
      (set_item-Kept f f' f.entry insts same, distinct)

  -- The function of a stage, before and after a method.
  on_frame_lem :
      (method : Frame Float Regex
        → List RegTy
        → SlotCounter
        → Outcome (Frame Float Regex × SlotCounter))
      → (off : ℕ) (regs : List RegTy) (frames : List (Frame Float Regex)) (ctr : SlotCounter)
      → (frame : Frame Float Regex) → (result : List (Frame Float Regex) × SlotCounter)
      → get_elem? frames off ≡ some frame
      → on_frame method (some off) regs (frames, ctr) ≡ done result
      → (frame' : Frame Float Regex) × (method frame regs ctr ≡ done (frame', result.1))
        × (set_item frames off frame' ≡ result.0)
  on_frame_lem method off regs frames ctr frame result e h = by_found (get_elem? frames off) e h
    where
      Changed : Type 0
      Changed =
          (frame' : Frame Float Regex) × (method frame regs ctr ≡ done (frame', result.1))
          × (set_item frames off frame' ≡ result.0)

      by_method :
          (r : Outcome (Frame Float Regex × SlotCounter))
          → method frame regs ctr ≡ r
          → (r >>= λ (frame', ctr'). done (set_item frames off frame', ctr')) ≡ done result
          → Changed
      by_method (done (frame', ctr')) m k =
          let pair : (set_item frames off frame', ctr') ≡ result = cc in
          (frame', m ∙ ap (λ p. done (frame', p.1)) pair, ap (λ p. p.0) pair)
      by_method fails m k = cc
      by_method panics m k = cc

      by_found :
          (found : Option (Frame Float Regex))
          → found ≡ some frame
          → ((elim found [ none ↦ panics | some x ↦ done x ]) >>= λ x.
              method x regs ctr >>= λ (frame', ctr'). done (set_item frames off frame', ctr'))
            ≡ done result
          → Changed
      by_found none e h = cc
      by_found (some x) e h =
          let same : x ≡ frame = cc in
          by_method (method frame regs ctr) refl (
            subst
              (λ y.
                (method y regs ctr >>= λ (frame', ctr'). done (set_item frames off frame', ctr'))
                ≡ done result)
              same h)

  -- The functions of the three stages, before and after: what the first one stores reaches each worker
  -- of the main loop, and what the workers store reaches the last one, combined.
  pub record Stitched (V : Type 0) (slots : SlotOps)
      (first main_loop last first' main_loop' last' : Frame Float Regex) : Type 0 where
    pub stores : List (Item Float Regex)
    pub loads : List (Item Float Regex)
    pub loop_stores : List (Item Float Regex)
    pub end_loads : List (Item Float Regex)
    pub at_first : Extends stores first.exit first first'
    pub at_entry : Extends loads main_loop.entry main_loop main_loop'
    pub at_exit : Extends loop_stores main_loop.exit main_loop main_loop'
    pub at_last : Extends end_loads last.entry last last'
    pub to_loop : EachValue slots.begin_stores (λ r. Passes V r stores loads)
    pub to_end : EachValue slots.loop_stores (λ r. Combines V r loop_stores end_loads)

  -- The two methods on the main loop touch different blocks.
  both_blocks :
      (f f1 f2 : Frame Float Regex) (loads stores : List (Item Float Regex))
      → f.entry ≢ f.exit
      → Kept f.entry f f1
      → Kept f1.exit f1 f2
      → Extends loads f.entry f f1
      → Extends stores f1.exit f1 f2
      → Extends loads f.entry f f2 × Extends stores f.exit f f2
  both_blocks f f1 f2 loads stores ne k k' (old, e, e') (old', g, g') = (
    (old, e, k'.others f.entry (λ same. ne (sym same ∙ k.exit)) ∙ e'),
    (
      old',
      sym (k.others f.exit ne) ∙ ap (get_elem? f1.blocks) (sym k.exit) ∙ g,
      ap (get_elem? f2.blocks) (sym k.exit) ∙ g',
    ),
  )

  -- A lookup behind a write to another place.
  pub past :
      (xs ys : List (Frame Float Regex)) (i j : ℕ) (y : Frame Float Regex)
      {o : Option (Frame Float Regex)}
      → set_item xs i y ≡ ys
      → i ≢ j
      → get_elem? xs j ≡ o
      → get_elem? ys j ≡ o
  past xs ys i j y e ne h =
      ap (λ x. get_elem? x j) (sym e) ∙ get_elem?-set_item_other xs i j y ne ∙ h

  pub written :
      (xs ys : List (Frame Float Regex)) (i : ℕ) (x y : Frame Float Regex)
      → set_item xs i y ≡ ys
      → get_elem? xs i ≡ some x
      → get_elem? ys i ≡ some y
  written xs ys i x y e h = ap (λ z. get_elem? z i) (sym e) ∙ get_elem?-set_item xs i x y h

  -- The four calls of `add_slots`.
  stitch :
      (V : Type 0) (b l e : ℕ) (slots : SlotOps) (frames : List (Frame Float Regex))
      → (r1 r2 r3 r4 : List (Frame Float Regex) × SlotCounter)
      → (first main_loop last : Frame Float Regex) → b ≢ l
      → l ≢ e
      → b ≢ e
      → get_elem? frames b ≡ some first
      → get_elem? frames l ≡ some main_loop
      → get_elem? frames e ≡ some last
      → main_loop.entry ≢ main_loop.exit
      → IsOnce slots.begin_stores × IsOnce slots.loop_stores
      → on_frame store_slots (some b) slots.begin_stores (frames, no_slots) ≡ done r1
      → on_frame load_slots (some l) slots.begin_stores r1 ≡ done r2
      → on_frame store_slots (some l) slots.loop_stores r2 ≡ done r3
      → on_frame load_slots (some e) slots.loop_stores r3 ≡ done r4
      → (first' main_loop' last' : Frame Float Regex) × (get_elem? r4.0 b ≡ some first')
        × (get_elem? r4.0 l ≡ some main_loop')
        × (get_elem? r4.0 e ≡ some last')
        × Stitched V slots first main_loop last first' main_loop' last'
  stitch V b l e slots frames r1 r2 r3 r4 first main_loop last bl le be hb hl he blocks once m1 m2
        m3 m4 =
      let (f1, c1, s1) =
        on_frame_lem store_slots b slots.begin_stores frames no_slots first r1 hb m1 in
      let hl1 = past frames r1.0 b l f1 s1 bl hl in
      let (g1, c2, s2) =
        on_frame_lem load_slots l slots.begin_stores r1.0 r1.1 main_loop r2 hl1 m2 in
      let hl2 = written r1.0 r2.0 l main_loop g1 s2 hl1 in
      let (g2, c3, s3) = on_frame_lem store_slots l slots.loop_stores r2.0 r2.1 g1 r3 hl2 m3 in
      let he3 =
        past r2.0 r3.0 l e g2 s3 le
          (past r1.0 r2.0 l e g1 s2 le (past frames r1.0 b e f1 s1 be he)) in
      let (k1, c4, s4) = on_frame_lem load_slots e slots.loop_stores r3.0 r3.1 last r4 he3 m4 in
      let lb : l ≢ b = λ same. bl (sym same) in
      let hb3 =
        past r2.0 r3.0 l b g2 s3 lb
          (past r1.0 r2.0 l b g1 s2 lb (written frames r1.0 b first f1 s1 hb)) in
      let (kf, df) = store_slots-Kept first f1 slots.begin_stores no_slots r1.1 c1 in
      let (kl, dl) = load_slots-Kept main_loop g1 slots.begin_stores r1.1 r2.1 c2 in
      let (ks, ds) = store_slots-Kept g1 g2 slots.loop_stores r2.1 r3.1 c3 in
      let (stores, loads, x1, x2, pass) =
        load_slots-store_slots {V = V} first f1 main_loop g1 slots.begin_stores no_slots r1.1 r2.1
          no_slots-IsDistinct once.0 c1 c2 in
      let (stores', loads', y1, y2, pass') =
        load_slots-store_slots {V = V} g1 g2 last k1 slots.loop_stores r2.1 r3.1 r4.1
          (dl (df no_slots-IsDistinct)) once.1 c3 c4 in
      let (z1, z2) = both_blocks main_loop g1 g2 loads stores' blocks kl ks x2 y1 in
      (
        f1,
        g2,
        k1,
        past r3.0 r4.0 e b k1 s4 (λ same. be (sym same)) hb3,
        past r3.0 r4.0 e l k1 s4 (λ same. le (sym same)) (written r2.0 r3.0 l g1 g2 s3 hl2),
        written r3.0 r4.0 e last k1 s4 he3,
        record {
          stores = stores;
          loads = loads;
          loop_stores = stores';
          end_loads = loads';
          at_first = x1;
          at_entry = z1;
          at_exit = z2;
          at_last = y2;
          to_loop = Combines→Passes V slots.begin_stores stores loads pass;
          to_end = pass';
        },
      )

  -- What `add_slots` returns on a script with the three stages.
  pub add_slots_done :
      (V : Type 0) (b l e : ℕ) (refs : List (List RegTy))
      (frames frames' : List (Frame Float Regex))
      → (first main_loop last : Frame Float Regex) → b ≢ l
      → l ≢ e
      → b ≢ e
      → get_elem? frames b ≡ some first
      → get_elem? frames l ≡ some main_loop
      → get_elem? frames e ≡ some last
      → main_loop.entry ≢ main_loop.exit
      → add_slots (par (some b) (some l) (some e)) refs frames ≡ done frames'
      → (slots : SlotOps) × (compute_slots (some b) (some l) (some e) refs ≡ done slots)
        × (first' main_loop' last' : Frame Float Regex) × (get_elem? frames' b ≡ some first')
        × (get_elem? frames' l ≡ some main_loop')
        × (get_elem? frames' e ≡ some last')
        × Stitched V slots first main_loop last first' main_loop' last'
  unfolding add_slots
  add_slots_done V b l e refs frames frames' first main_loop last bl le be hb hl he blocks h =
      let (slots, computed, h1) = done_inv (compute_slots (some b) (some l) (some e) refs) _ h in
      let (r1, m1, h2) =
        done_inv (on_frame store_slots (some b) slots.begin_stores (frames, no_slots)) _ h1 in
      let (r2, m2, h3) = done_inv (on_frame load_slots (some l) slots.begin_stores r1) _ h2 in
      let (r3, m3, h4) = done_inv (on_frame store_slots (some l) slots.loop_stores r2) _ h3 in
      let (r4, m4, h5) = done_inv (on_frame load_slots (some e) slots.loop_stores r3) _ h4 in
      let (first', main_loop', last', l1, l2, l3, stitched) =
        stitch V b l e slots frames r1 r2 r3 r4 first main_loop last bl le be hb hl he blocks
          (compute_slots-IsOnce (some b) (some l) (some e) refs slots computed) m1 m2 m3 m4 in
      let same : r4.0 ≡ frames' = cc h5 in
      (
        slots,
        computed,
        first',
        main_loop',
        last',
        ap (λ x. get_elem? x b) (sym same) ∙ l1,
        ap (λ x. get_elem? x l) (sym same) ∙ l2,
        ap (λ x. get_elem? x e) (sym same) ∙ l3,
        stitched,
      )
