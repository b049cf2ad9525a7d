-- ===== src/Stages/Machine.antt =====
-- src/interp.rs: what the slot instructions do to the registers of an interpreter and to its slots. A
-- slot is found under its number and its type, as the runtime keeps a vector of slots for each type.
use frawk.Prelude.{
  ℕ, pos, ◌≡◌, refl, ◌∙◌, ap, ap₂, sym, Bool, true, false, All, some, List, [], ◌∷◌, map,
  if◌then◌else◌, arith, Bool-cases, inl, inr,
}
use mathlib.Core.Path.{subst}
use frawk.Compile.{Ty}
use frawk.Bytecode.{Instr}
use frawk.Dataflow.Program.{Item}
use frawk.Stages.{RegTy, reg_eq, has}
use frawk.Stages.Counter.{SlotCounter, IsDistinct, slot_of, reg_eq→eq, reg_eq_refl}
use frawk.Stages.Once.{IsOnce}

-- Each pair is a register and its slot.
abbrev pub Assigned : SlotCounter → List (RegTy × ℕ) → Type 0
Assigned ctr = All (λ p. slot_of p.0 ctr.slots ≡ some p.1)

abbrev pub registers : List (RegTy × ℕ) → List RegTy
registers [] = []
registers (p ∷ pairs) = p.0 ∷ registers pairs

module _ {Float Regex : Type 0} where
  abbrev pub store_of : RegTy × ℕ → Item Float Regex
  store_of p = Item.ll (Instr.store_slot p.0.1 (pos p.1) p.0.0)

  abbrev pub load_of : RegTy × ℕ → Item Float Regex
  load_of p = Item.ll (Instr.load_slot p.0.1 (pos p.1) p.0.0)

same_slot :
    (ctr : SlotCounter) (r : RegTy) (s s' : ℕ)
    → slot_of r ctr.slots ≡ some s
    → slot_of r ctr.slots ≡ some s'
    → s ≡ s'
same_slot ctr r s s' h k = ground (arith, h, k)

-- The types whose slot a load copies: it takes a string or a map out of its slot.
unfoldable pub is_copied : Ty → Bool
is_copied Ty.int = true
is_copied Ty.float = true
is_copied ty = false

module _ {V : Type 0} (initial : Ty → V) where
  -- The values of the registers, or those of the slots.
  unfoldable pub put : (RegTy → V) → RegTy → V → RegTy → V
  put values r v r' = if reg_eq r r' then v else values r'

  -- The slots after a load: the slot of a value that is taken out has its type's initial value.
  unfoldable pub take_slot : RegTy → (RegTy → V) → RegTy → V
  unfolding put is_copied
  take_slot cell slots = if is_copied cell.1 then slots else put slots cell (initial cell.1)

  module _ {Float Regex : Type 0} where
    -- The registers and the slots after an instruction. Only the two slot instructions are run, which
    -- `load_slot_instr` and `store_slot_instr` make for no iterator and no null, where the runtime
    -- panics.
    unfoldable pub exec : Item Float Regex → (RegTy → V) × (RegTy → V) → (RegTy → V) × (RegTy → V)
    unfolding put take_slot
    exec (Item.ll (Instr.load_slot ty (pos slot) dst)) (regs, slots) =
        (put regs (dst, ty) (slots (slot, ty)), take_slot (slot, ty) slots)
    exec (Item.ll (Instr.store_slot ty (pos slot) src)) (regs, slots) =
        (regs, put slots (slot, ty) (regs (src, ty)))
    exec _ state = state

    unfoldable pub exec_all :
        List (Item Float Regex) → (RegTy → V) × (RegTy → V) → (RegTy → V) × (RegTy → V)
    exec_all [] state = state
    exec_all (item ∷ rest) state = exec_all rest (exec item state)

  pub stored : (RegTy → V) → List (RegTy × ℕ) → (RegTy → V) → RegTy → V
  stored regs [] slots = slots
  stored regs ((r, s) ∷ pairs) slots = stored regs pairs (put slots (s, r.1) (regs r))

  pub loaded : List (RegTy × ℕ) → (RegTy → V) × (RegTy → V) → (RegTy → V) × (RegTy → V)
  loaded [] state = state
  loaded ((r, s) ∷ pairs) (regs, slots) =
      loaded pairs (put regs r (slots (s, r.1)), take_slot (s, r.1) slots)

  module _ (Float Regex : Type 0) where
    pub exec_all-store :
        (pairs : List (RegTy × ℕ)) (regs slots : RegTy → V)
        → exec_all {Float = Float} {Regex = Regex} (map store_of pairs) (regs, slots)
          ≡ (regs, stored regs pairs slots)
    unfolding exec exec_all stored
    exec_all-store [] regs slots = refl
    exec_all-store ((r, s) ∷ pairs) regs slots =
        exec_all-store pairs regs (put slots (s, r.1) (regs r))

    pub exec_all-load :
        (pairs : List (RegTy × ℕ)) (regs slots : RegTy → V)
        → exec_all {Float = Float} {Regex = Regex} (map load_of pairs) (regs, slots)
          ≡ loaded pairs (regs, slots)
    unfolding exec exec_all loaded
    exec_all-load [] regs slots = refl
    exec_all-load ((r, s) ∷ pairs) regs slots =
        exec_all-load pairs (put regs r (slots (s, r.1))) (take_slot (s, r.1) slots)

  put_self : (values : RegTy → V) (r : RegTy) (v : V) → put values r v r ≡ v
  unfolding put
  put_self values r v = rw (reg_eq_refl r) refl

  -- A store puts the register's value into its slot, or leaves the slot of another register alone.
  put_slot :
      (ctr : SlotCounter)
      → IsDistinct ctr
      → (regs slots : RegTy → V) (r r' : RegTy) (s s' : ℕ) → slot_of r ctr.slots ≡ some s
      → slot_of r' ctr.slots ≡ some s'
      → slots (s, r.1) ≡ regs r
      → put slots (s', r'.1) (regs r') (s, r.1) ≡ regs r
  unfolding put
  put_slot ctr d regs slots r r' s s' h h' e = elim (Bool-cases (reg_eq (s', r'.1) (s, r.1))) [
    | inl same ↦
        let cell = reg_eq→eq (s', r'.1) (s, r.1) same in
        rw same (ap regs (d.apart r' r s (h' ∙ ap (λ c. some c.0) cell) h (ap (λ c. c.1) cell)))
    | inr other ↦ rw other e
  ]

  stored_keeps :
      (ctr : SlotCounter)
      → IsDistinct ctr
      → (regs : RegTy → V) (pairs : List (RegTy × ℕ)) (slots : RegTy → V) (r : RegTy) (s : ℕ)
      → Assigned ctr pairs
      → slot_of r ctr.slots ≡ some s
      → slots (s, r.1) ≡ regs r
      → stored regs pairs slots (s, r.1) ≡ regs r
  unfolding stored
  stored_keeps ctr d regs [] slots r s a h e = e
  stored_keeps ctr d regs ((r', s') ∷ pairs) slots r s a h e =
      stored_keeps ctr d regs pairs (put slots (s', r'.1) (regs r')) r s a.1 h
        (put_slot ctr d regs slots r r' s s' h a.0 e)

  -- A register that is stored is in its slot at the end.
  pub stored_lem :
      (ctr : SlotCounter)
      → IsDistinct ctr
      → (regs : RegTy → V) (pairs : List (RegTy × ℕ)) (slots : RegTy → V) (r : RegTy) (s : ℕ)
      → Assigned ctr pairs
      → slot_of r ctr.slots ≡ some s
      → has r (registers pairs) ≡ true
      → stored regs pairs slots (s, r.1) ≡ regs r
  unfolding stored has
  stored_lem ctr d regs [] slots r s a h m = absurd (ground (arith, m))
  stored_lem ctr d regs ((r', s') ∷ pairs) slots r s a h m = elim (Bool-cases (reg_eq r' r)) [
    | inl same ↦
        let e = reg_eq→eq r' r same in
        let first = same_slot ctr r s' s (subst (λ x. slot_of x ctr.slots ≡ some s') e a.0) h in
        stored_keeps ctr d regs pairs (put slots (s', r'.1) (regs r')) r s a.1 h (
          subst (λ c. put slots (s', r'.1) (regs r') c ≡ regs r)
            (ap₂ (λ x y. (x, y)) first (ap (λ x. x.1) e))
            (put_self slots (s', r'.1) (regs r') ∙ ap regs e))
    | inr other ↦
        stored_lem ctr d regs pairs (put slots (s', r'.1) (regs r')) r s a.1 h
          (ground (arith, other, m))
  ]

  -- A load leaves the slot of another register alone.
  take_slot_other :
      (ctr : SlotCounter)
      → IsDistinct ctr
      → (slots : RegTy → V) (r r' : RegTy) (s s' : ℕ) → slot_of r ctr.slots ≡ some s
      → slot_of r' ctr.slots ≡ some s'
      → reg_eq r' r ≡ false
      → take_slot (s', r'.1) slots (s, r.1) ≡ slots (s, r.1)
  unfolding put take_slot
  take_slot_other ctr d slots r r' s s' h h' other = elim (Bool-cases (is_copied r'.1)) [
    | inl copied ↦ rw copied refl
    | inr taken ↦ elim (Bool-cases (reg_eq (s', r'.1) (s, r.1))) [
      | inl same ↦
          let cell = reg_eq→eq (s', r'.1) (s, r.1) same in
          let eq = d.apart r' r s (h' ∙ ap (λ c. some c.0) cell) h (ap (λ c. c.1) cell) in
          absurd (ground (arith, other, ap (λ x. reg_eq x r) eq, reg_eq_refl r))
      | inr apart ↦ rw (taken, apart) refl
    ]
  ]

  loaded_other :
      (pairs : List (RegTy × ℕ)) (regs slots : RegTy → V) (r : RegTy)
      → has r (registers pairs) ≡ false
      → (loaded pairs (regs, slots)).0 r ≡ regs r
  unfolding loaded has put
  loaded_other [] regs slots r h = refl
  loaded_other ((r', s') ∷ pairs) regs slots r h =
      loaded_other pairs (put regs r' (slots (s', r'.1))) (take_slot (s', r'.1) slots) r
        (ground (arith, h))
      ∙ ground (arith, h)

  -- A register that is loaded, and only once, has at the end the value that its slot had.
  pub loaded_lem :
      (ctr : SlotCounter)
      → IsDistinct ctr
      → (pairs : List (RegTy × ℕ)) (regs slots : RegTy → V) (r : RegTy) (s : ℕ) → Assigned ctr pairs
      → IsOnce (registers pairs)
      → slot_of r ctr.slots ≡ some s
      → has r (registers pairs) ≡ true
      → (loaded pairs (regs, slots)).0 r ≡ slots (s, r.1)
  unfolding loaded has
  loaded_lem ctr d [] regs slots r s a o h m = absurd (ground (arith, m))
  loaded_lem ctr d ((r', s') ∷ pairs) regs slots r s a o h m = elim (Bool-cases (reg_eq r' r)) [
    | inl same ↦
        let eq = reg_eq→eq r' r same in
        let first = same_slot ctr r s' s (subst (λ x. slot_of x ctr.slots ≡ some s') eq a.0) h in
        loaded_other pairs (put regs r' (slots (s', r'.1))) (take_slot (s', r'.1) slots) r
          (subst (λ x. has x (registers pairs) ≡ false) eq o.0)
        ∙ ap (put regs r' (slots (s', r'.1))) (sym eq)
        ∙ put_self regs r' (slots (s', r'.1))
        ∙ ap₂ (λ x y. slots (x, y.1)) first eq
    | inr other ↦
        loaded_lem ctr d pairs (put regs r' (slots (s', r'.1))) (take_slot (s', r'.1) slots) r s a.1
          o.1 h (ground (arith, other, m))
        ∙ take_slot_other ctr d slots r r' s s' h a.0 other
  ]
