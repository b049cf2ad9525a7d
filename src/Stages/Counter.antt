-- ===== src/Stages/Counter.antt =====
-- src/compile.rs: `SlotCounter`. A map is the list of its entries, the last one first; the counts of
-- the types are a function, 0 where no entry is.
use mathlib.Core.Path.{subst}
use frawk.Prelude.{
  ℕ, ◌+◌, ◌<◌, ◌≡◌, ◌⊎◌, ap, ap₂, sym, refl, ◌∙◌, true, Option, none, some, List, [], ◌∷◌, ◌==◌,
  ==→eq, ==-refl, if◌then◌else◌, arith, Bool-cases, inl, inr,
}
use frawk.Compile.{Ty}
use frawk.Dataflow.KeyEq.{ty_number, ty_number-injective}
use frawk.Stages.{RegTy, reg_eq}

pub record SlotCounter : Type 0 where
  pub slots : List (RegTy × ℕ)
  pub counter : Ty → ℕ

abbrev pub no_slots : SlotCounter
no_slots = record { slots = []; counter = λ ty. 0 }

unfoldable pub slot_of : RegTy → List (RegTy × ℕ) → Option ℕ
slot_of r [] = none
slot_of r ((r', slot) ∷ rest) = if reg_eq r' r then some slot else slot_of r rest

abbrev count : Ty → (Ty → ℕ) → Ty → ℕ
count ty counter t = if ty_number ty == ty_number t then counter ty + 1 else counter t

new_slot : SlotCounter → RegTy → Option ℕ → ℕ × SlotCounter
new_slot ctr reg (some c) = (c, ctr)
new_slot ctr reg none = (
  ctr.counter reg.1,
  record { slots = (reg, ctr.counter reg.1) ∷ ctr.slots; counter = count reg.1 ctr.counter },
)

unfoldable pub get_slot : SlotCounter → RegTy → ℕ × SlotCounter
unfolding slot_of new_slot
get_slot ctr reg = new_slot ctr reg (slot_of reg ctr.slots)

pub reg_eq→eq : (r r' : RegTy) → reg_eq r r' ≡ true → r ≡ r'
unfolding reg_eq
reg_eq→eq (n, t) (n', t') h =
    ap₂ (λ a b. (a, b)) (ground (arith, h))
      (ty_number-injective t t' (ground (arith, h, ==→eq (ty_number t) (ty_number t'))))

pub reg_eq_refl : (r : RegTy) → reg_eq r r ≡ true
unfolding reg_eq
reg_eq_refl (n, t) = rw (==-refl n, ==-refl (ty_number t)) refl

-- Each slot that is in use is below the count of its type, and no two registers of a type share one.
pub record IsDistinct (ctr : SlotCounter) : Type 0 where
  pub below : (r : RegTy) (s : ℕ) → slot_of r ctr.slots ≡ some s → s < ctr.counter r.1
  pub apart :
      (r r' : RegTy) (s : ℕ)
      → slot_of r ctr.slots ≡ some s
      → slot_of r' ctr.slots ≡ some s
      → r.1 ≡ r'.1
      → r ≡ r'

-- The slots of the first counter are those of the second.
abbrev pub Keeps : SlotCounter → SlotCounter → Type 0
Keeps ctr ctr' = (r : RegTy) (s : ℕ) → slot_of r ctr.slots ≡ some s → slot_of r ctr'.slots ≡ some s

pub no_slots-IsDistinct : IsDistinct no_slots
unfolding slot_of
no_slots-IsDistinct = record { below = λ r s h. cc; apart = λ r r' s h k e. cc }

reg_eq-sym : (r r' : RegTy) → reg_eq r r' ≡ reg_eq r' r
unfolding reg_eq
reg_eq-sym (n, t) (n', t') = ground arith

by_old :
    (ctr : SlotCounter) (reg : RegTy) (found : Option ℕ)
    → slot_of reg ctr.slots ≡ found
    → slot_of reg (new_slot ctr reg found).1.slots ≡ some (new_slot ctr reg found).0
unfolding new_slot slot_of
by_old ctr reg (some c) h = h
by_old ctr reg none h = rw (reg_eq_refl reg) refl

-- The slot that is returned is the register's.
pub get_slot-slot_of :
    (ctr : SlotCounter) (reg : RegTy)
    → slot_of reg (get_slot ctr reg).1.slots ≡ some (get_slot ctr reg).0
unfolding get_slot
get_slot-slot_of ctr reg = by_old ctr reg (slot_of reg ctr.slots) refl

Keeps-new_slot :
    (ctr : SlotCounter) (reg : RegTy) (found : Option ℕ)
    → slot_of reg ctr.slots ≡ found
    → Keeps ctr (new_slot ctr reg found).1
unfolding new_slot slot_of
Keeps-new_slot ctr reg (some c) h r s k = k
Keeps-new_slot ctr reg none h r s k = elim (Bool-cases (reg_eq reg r)) [
  | inl same ↦
      absurd
        (ground (arith, k, h, subst (λ x. slot_of x ctr.slots ≡ none) (reg_eq→eq reg r same) h))
  | inr other ↦ rw other k
]

pub Keeps-get_slot : (ctr : SlotCounter) (reg : RegTy) → Keeps ctr (get_slot ctr reg).1
unfolding get_slot
Keeps-get_slot ctr reg = Keeps-new_slot ctr reg (slot_of reg ctr.slots) refl

-- An entry of the map after a new one is put in front.
entry_cases :
    (ctr : SlotCounter) (reg r : RegTy) (s : ℕ)
    → slot_of r (new_slot ctr reg none).1.slots ≡ some s
    → ((reg ≡ r) × (ctr.counter reg.1 ≡ s)) ⊎ (slot_of r ctr.slots ≡ some s)
unfolding new_slot slot_of
entry_cases ctr reg r s h = elim (Bool-cases (reg_eq reg r)) [
  | inl same ↦ inl (reg_eq→eq reg r same, ground (arith, h))
  | inr other ↦ inr (ground (arith, h))
]

count_self : (counter : Ty → ℕ) (t : Ty) (s : ℕ) → counter t ≡ s → s < count t counter t
count_self counter t s h = rw (==-refl (ty_number t)) (omega (arith, h))

count_grows : (counter : Ty → ℕ) (ty t : Ty) (s : ℕ) → s < counter t → s < count ty counter t
count_grows counter ty t s h = elim (Bool-cases (ty_number ty == ty_number t)) [
  | inl same ↦ rw same (
      omega
        (arith, h, ap counter (ty_number-injective ty t (==→eq (ty_number ty) (ty_number t) same))))
  | inr other ↦ rw other h
]

-- A slot that is in use is not the next one of its type.
next_is_new :
    (ctr : SlotCounter)
    → IsDistinct ctr
    → (reg r r' : RegTy) (s : ℕ) → (reg ≡ r) × (ctr.counter reg.1 ≡ s)
    → slot_of r' ctr.slots ≡ some s
    → r'.1 ≡ r.1
    → ⊥
next_is_new ctr d reg r r' s new old same =
    let next = ap (λ x. ctr.counter x.1) new.0 in
    omega (arith, d.below r' s old, new.1, next, ap ctr.counter same)

new_slot-IsDistinct :
    (ctr : SlotCounter) (reg : RegTy) (found : Option ℕ)
    → IsDistinct ctr
    → IsDistinct (new_slot ctr reg found).1
unfolding new_slot
new_slot-IsDistinct ctr reg (some c) d = d
new_slot-IsDistinct ctr reg none d = record {
  below = λ r s h. elim (entry_cases ctr reg r s h) [
    | inl new ↦
        subst (λ x. s < count reg.1 ctr.counter x.1) new.0 (count_self ctr.counter reg.1 s new.1)
    | inr old ↦ count_grows ctr.counter reg.1 r.1 s (d.below r s old)
  ];
  apart = λ r r' s h k same. elim (entry_cases ctr reg r s h) [
    | inl new ↦ elim (entry_cases ctr reg r' s k) [
      | inl new' ↦ sym new.0 ∙ new'.0
      | inr old ↦ absurd (next_is_new ctr d reg r r' s new old (sym same))
    ]
    | inr old ↦ elim (entry_cases ctr reg r' s k) [
      | inl new ↦ absurd (next_is_new ctr d reg r' r s new old same)
      | inr old' ↦ d.apart r r' s old old' same
    ]
  ];
}

pub get_slot-IsDistinct :
    (ctr : SlotCounter) (reg : RegTy) → IsDistinct ctr → IsDistinct (get_slot ctr reg).1
unfolding get_slot
get_slot-IsDistinct ctr reg = new_slot-IsDistinct ctr reg (slot_of reg ctr.slots)
