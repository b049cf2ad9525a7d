-- ===== src/Stages/Puts.antt =====
-- src/compile.rs: the instructions that the loops of `load_slots` and of `store_slots` add.
use mathlib.Core.Path.{subst}
use frawk.Prelude.{
  ℕ, ◌≡◌, ◌≢◌, ◌⊎◌, refl, ◌∙◌, sym, ap, true, false, ◌||◌, Option, none, List, [], ◌∷◌, ◌++◌, map,
  arith, Bool-cases, inl, inr,
}
use frawk.Result.{Result, ok, err}
use frawk.Compile.{Ty}
use frawk.Builtins.{done, ◌>>=◌, of_result}
use frawk.Bytecode.{Instr}
use frawk.Dataflow.Program.{Item}
use frawk.Stages.{RegTy, reg_eq, has, load_slot_instr, store_slot_instr}
use frawk.Stages.Counter.{
  SlotCounter, IsDistinct, Keeps, get_slot, get_slot-IsDistinct, get_slot-slot_of, Keeps-get_slot,
  reg_eq→eq, reg_eq_refl,
}
use frawk.Stages.Once.{IsOnce, has_last, IsOnce-append}
use frawk.Stages.Frames.{each_slot, push_front}
use frawk.Stages.Machine.{Assigned, registers, store_of, load_of}

Assigned-append :
    (ctr : SlotCounter) (ps qs : List (RegTy × ℕ))
    → Assigned ctr ps
    → Assigned ctr qs
    → Assigned ctr (ps ++ qs)
Assigned-append ctr [] qs h k = k
Assigned-append ctr (p ∷ ps) qs h k = (h.0, Assigned-append ctr ps qs h.1 k)

has-registers :
    (r : RegTy) (ps : List (RegTy × ℕ)) (p : RegTy × ℕ)
    → (has r (registers ps) ≡ true) ⊎ (p.0 ≡ r)
    → has r (registers (ps ++ p ∷ [])) ≡ true
unfolding has
has-registers r [] p (inl h) = absurd (ground (arith, h))
has-registers r [] p (inr e) = rw (ap (λ x. reg_eq x r) e ∙ reg_eq_refl r) refl
has-registers r (q ∷ ps) p (inl h) = elim (Bool-cases (reg_eq q.0 r)) [
  | inl same ↦ rw same refl
  | inr other ↦ rw other (has-registers r ps p (inl (ground (arith, h, other))))
]
has-registers r (q ∷ ps) p (inr e) = elim (Bool-cases (reg_eq q.0 r)) [
  | inl same ↦ rw same refl
  | inr other ↦ rw other (has-registers r ps p (inr e))
]

registers_last :
    (ps : List (RegTy × ℕ)) (p : RegTy × ℕ) → registers (ps ++ p ∷ []) ≡ registers ps ++ p.0 ∷ []
registers_last [] p = refl
registers_last (q ∷ ps) p = ap (λ t. q.0 ∷ t) (registers_last ps p)

has-registers_last :
    (r : RegTy) (ps : List (RegTy × ℕ)) (p : RegTy × ℕ)
    → has r (registers (ps ++ p ∷ [])) ≡ (has r (registers ps) || reg_eq p.0 r)
has-registers_last r ps p = ap (has r) (registers_last ps p) ∙ has_last r p.0 (registers ps)

IsOnce-registers_last :
    (ps : List (RegTy × ℕ)) (p : RegTy × ℕ)
    → IsOnce (registers ps)
    → has p.0 (registers ps) ≡ false
    → IsOnce (registers (ps ++ p ∷ []))
IsOnce-registers_last ps p o h =
    subst IsOnce (sym (registers_last ps p)) (IsOnce-append p.0 (registers ps) o h)

Ty-null : (ty : Ty) → (ty ≡ Ty.null) ⊎ (ty ≢ Ty.null)
Ty-null Ty.null = inl refl
Ty-null ty = inr (λ h. ground (arith, h))

module _ {Float Regex : Type 0} where
  map_last :
      (f : RegTy × ℕ → Item Float Regex) (ps : List (RegTy × ℕ)) (p : RegTy × ℕ)
      (rest : List (Item Float Regex))
      → map f ps ++ f p ∷ rest ≡ map f (ps ++ p ∷ []) ++ rest
  map_last f [] p rest = refl
  map_last f (q ∷ ps) p rest = ap (λ t. f q ∷ t) (map_last f ps p rest)

  -- What a loop puts in front of a block: an instruction for each register with a value, and its slot.
  abbrev pub Puts :
      (RegTy × ℕ → Item Float Regex)
      → List RegTy
      → SlotCounter
      → SlotCounter
      → List (Item Float Regex)
      → List (Item Float Regex)
      → Type 0
  Puts of regs ctr ctr' insts insts' =
      (pairs : List (RegTy × ℕ)) × (insts' ≡ map of pairs ++ insts)
      × Assigned ctr' pairs
      × ((r : RegTy) → has r regs ≡ true → r.1 ≢ Ty.null → has r (registers pairs) ≡ true)
      × Keeps ctr ctr'
      × (IsDistinct ctr → IsDistinct ctr')
      × ((r : RegTy) → has r (registers pairs) ≡ true → has r regs ≡ true)
      × (IsOnce regs → IsOnce (registers pairs))

  module _ (instr : ℕ → Ty → ℕ → Result (Option (Instr Float Regex)))
      (of : RegTy × ℕ → Item Float Regex)
      (makes : (r : RegTy) (s : ℕ) (i : Option (Instr Float Regex))
        → instr r.0 r.1 s ≡ ok i
        → ((i ≡ none) × (r.1 ≡ Ty.null))
          ⊎ ((insts : List (Item Float Regex)) → push_front i insts ≡ of (r, s) ∷ insts)) where
    -- The register of the first pair, put at the end, and the ones of the others.
    put_one :
        (reg : RegTy) (regs : List RegTy) (ctr ctr' : SlotCounter)
        (insts insts' : List (Item Float Regex))
        → (i : Option (Instr Float Regex)) → instr reg.0 reg.1 (get_slot ctr reg).0 ≡ ok i
        → Puts of regs (get_slot ctr reg).1 ctr' (push_front i insts) insts'
        → Puts of (reg ∷ regs) ctr ctr' insts insts'
    unfolding has
    put_one reg regs ctr ctr' insts insts' i e (pairs, eq, a, found, keep, distinct, named, once) =
        elim (makes reg (get_slot ctr reg).0 i e) [
          | inl null ↦ (
            pairs,
            eq ∙ ap (λ j. map of pairs ++ push_front j insts) null.0,
            a,
            λ r m ne. elim (Bool-cases (reg_eq reg r)) [
              | inl same ↦ absurd (ne (sym (ap (λ x. x.1) (reg_eq→eq reg r same)) ∙ null.1))
              | inr other ↦ found r (ground (arith, m, other)) ne
            ],
            λ r s k. keep r s (Keeps-get_slot ctr reg r s k),
            λ d. distinct (get_slot-IsDistinct ctr reg d),
            λ r m. ground (arith, named r m),
            λ o. once o.1,
          )
          | inr pushed ↦ (
            pairs ++ (reg, (get_slot ctr reg).0) ∷ [],
            eq
                ∙ ap (λ t. map of pairs ++ t) (pushed insts)
                ∙ map_last of pairs (reg, (get_slot ctr reg).0) insts,
            Assigned-append ctr' pairs ((reg, (get_slot ctr reg).0) ∷ []) a
                (keep reg (get_slot ctr reg).0 (get_slot-slot_of ctr reg), tt),
            λ r m ne.
                has-registers r pairs (reg, (get_slot ctr reg).0)
                  (elim (Bool-cases (reg_eq reg r)) [
                    | inl same ↦ inr (reg_eq→eq reg r same)
                    | inr other ↦ inl (found r (ground (arith, m, other)) ne)
                  ]),
            λ r s k. keep r s (Keeps-get_slot ctr reg r s k),
            λ d. distinct (get_slot-IsDistinct ctr reg d),
            λ r m.
                let last = has-registers_last r pairs (reg, (get_slot ctr reg).0) in
                ground (arith, named r, m, last),
            λ o.
                IsOnce-registers_last pairs (reg, (get_slot ctr reg).0) (once o.1)
                  (not_named reg pairs (named reg) o.0),
          )
        ]
      where
        not_named :
            (x : RegTy) (ps : List (RegTy × ℕ))
            → (has x (registers ps) ≡ true → has x regs ≡ true)
            → has x regs ≡ false
            → has x (registers ps) ≡ false
        not_named x ps all h = ground (arith, all, h)

    pub each_slot-Puts :
        (regs : List RegTy) (ctr ctr' : SlotCounter) (insts insts' : List (Item Float Regex))
        → each_slot instr regs ctr insts ≡ done (insts', ctr')
        → Puts of regs ctr ctr' insts insts'
    unfolding each_slot has
    each_slot-Puts [] ctr ctr' insts insts' h =
        let same : (insts ≡ insts') × (ctr ≡ ctr') = ground (arith, h) in
        (
          [],
          sym same.0,
          tt,
          λ r m. absurd (ground (arith, m)),
          subst (λ c. Keeps ctr c) same.1 (λ r s k. k),
          subst (λ c. IsDistinct ctr → IsDistinct c) same.1 (λ d. d),
          λ r m. m,
          λ o. o,
        )
    each_slot-Puts (reg ∷ regs) ctr ctr' insts insts' h =
        by_instr (λ i. each_slot-Puts regs (get_slot ctr reg).1 ctr' (push_front i insts) insts')
          (instr reg.0 reg.1 (get_slot ctr reg).0) refl h
      where
        by_instr :
            ((i : Option (Instr Float Regex))
              → each_slot instr regs (get_slot ctr reg).1 (push_front i insts) ≡ done (insts', ctr')
              → Puts of regs (get_slot ctr reg).1 ctr' (push_front i insts) insts')
            → (r : Result (Option (Instr Float Regex))) → instr reg.0 reg.1 (get_slot ctr reg).0 ≡ r
            → (of_result r >>= λ i. each_slot instr regs (get_slot ctr reg).1 (push_front i insts))
              ≡ done (insts', ctr')
            → Puts of (reg ∷ regs) ctr ctr' insts insts'
        by_instr ih (ok i) e k = put_one reg regs ctr ctr' insts insts' i e (ih i k)
        by_instr ih err e k = cc

  pub makes_store :
      (r : RegTy) (s : ℕ) (i : Option (Instr Float Regex))
      → store_slot_instr r.0 r.1 s ≡ ok i
      → ((i ≡ none) × (r.1 ≡ Ty.null))
        ⊎ ((insts : List (Item Float Regex)) → push_front i insts ≡ store_of (r, s) ∷ insts)
  unfolding store_slot_instr
  makes_store (n, ty) s i h = elim (Ty-null ty) [
    | inl null ↦ inl (ground (arith, null, h), null)
    | inr other ↦ inr (λ insts. ground (arith, h, other))
  ]

  pub makes_load :
      (r : RegTy) (s : ℕ) (i : Option (Instr Float Regex))
      → load_slot_instr r.0 r.1 s ≡ ok i
      → ((i ≡ none) × (r.1 ≡ Ty.null))
        ⊎ ((insts : List (Item Float Regex)) → push_front i insts ≡ load_of (r, s) ∷ insts)
  unfolding load_slot_instr
  makes_load (n, ty) s i h = elim (Ty-null ty) [
    | inl null ↦ inl (ground (arith, null, h), null)
    | inr other ↦ inr (λ insts. ground (arith, h, other))
  ]
