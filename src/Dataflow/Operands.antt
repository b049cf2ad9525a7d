-- ===== src/Dataflow/Operands.antt =====
-- src/dataflow.rs and src/bytecode.rs: the registers that the edges of an instruction name, and those
-- that `Instr::accum` lists.
use frawk.Prelude.{
  ℕ, ◌≡◌, ◌≢◌, ◌⊎◌, Bool-cases, inl, inr, Bool, true, false, refl, pos, negsuc, ◌^◌, Option, none,
  some, List, [], ◌∷◌, ltb, arith,
}
use frawk.Compile.{Ty, is_array, key, val, key_iter, iter_elem}
use frawk.Builtins.{Outcome, done, fails, panics}
use frawk.Bytecode.{Instr}
use frawk.Bytecode.Registers.{accum}
use frawk.Dataflow.Boilerplate.{Key, Flow, of_reg, visit_ll, each_arg}

abbrev pub Listed : ℕ × Ty → List (ℕ × Ty) → Type 0
Listed r [] = ⊥
Listed r (r' ∷ rs) = (r' ≡ r) ⊎ Listed r rs

-- The register that a key is about.
abbrev pub Names : ℕ × Ty → Key → Type 0
Names r (Key.reg n ty) = (n, ty) ≡ r
Names r (Key.map_key n ty) = (n, ty) ≡ r
Names r (Key.map_val n ty) = (n, ty) ≡ r
Names r _ = ⊥

abbrev pub SourceNames : ℕ × Ty → Option Key → Type 0
SourceNames r none = ⊥
SourceNames r (some k) = Names r k

abbrev pub Named : ℕ × Ty → List Flow → Type 0
Named r [] = ⊥
Named r (flow ∷ flows) = Names r flow.0 ⊎ SourceNames r flow.1 ⊎ Named r flows

Named-each_arg :
    (r : ℕ × Ty) (dst : Key) (args : List (ℕ × Ty))
    → Named r (each_arg dst args)
    → Names r dst ⊎ Listed r args
Named-each_arg r dst [] h = absurd h
Named-each_arg r dst ((n, ty) ∷ args) h = ground (arith, h, Named-each_arg r dst args)

-- The slot of the instruction, if it has one, is a `u32`.
unfoldable pub slot_fits : {Float Regex : Type 0} → Instr Float Regex → Bool
slot_fits (Instr.load_slot _ (pos n) _) = ltb n (2 ^ 32)
slot_fits (Instr.load_slot _ (negsuc _) _) = false
slot_fits (Instr.store_slot _ (pos n) _) = ltb n (2 ^ 32)
slot_fits (Instr.store_slot _ (negsuc _) _) = false
slot_fits _ = true

unfoldable is_sprintf : {Float Regex : Type 0} → Instr Float Regex → Bool
is_sprintf (Instr.sprintf _ _ _) = true
is_sprintf _ = false

module _ {Float Regex : Type 0} where
  visit_ll-ne-panics :
      (i : Instr Float Regex) (rs : List (ℕ × Ty))
      → slot_fits i ≡ true
      → accum i ≡ done rs
      → visit_ll i ≢ panics
  unfolding accum visit_ll key val key_iter iter_elem slot_fits
  visit_ll-ne-panics i rs fits h = λ e. ground arith

  visit_ll-ne-fails : (i : Instr Float Regex) → visit_ll i ≢ fails
  unfolding visit_ll key val key_iter iter_elem
  visit_ll-ne-fails i = λ e. ground arith

  Named-accum :
      (i : Instr Float Regex) (flows : List Flow) (rs : List (ℕ × Ty)) (r : ℕ × Ty)
      → visit_ll i ≡ done flows
      → accum i ≡ done rs
      → is_sprintf i ≡ false
      → Named r flows
      → Listed r rs
  unfolding accum visit_ll key val key_iter iter_elem is_array is_sprintf
  Named-accum i flows rs r h k other named = ground arith

  Named-sprintf :
      (i : Instr Float Regex) (flows : List Flow) (rs : List (ℕ × Ty)) (r : ℕ × Ty)
      → visit_ll i ≡ done flows
      → accum i ≡ done rs
      → is_sprintf i ≡ true
      → Named r flows
      → Listed r rs
  unfolding accum visit_ll is_sprintf
  Named-sprintf (Instr.sprintf dst format args) flows rs r h k special named =
      ground (arith, Named-each_arg r (of_reg dst) args)
  Named-sprintf i flows rs r h k special named = absurd (ground (arith, special))

  -- If `accum` lists the registers of an instruction and its slot is a `u32`, then the visitor returns
  -- the instruction's edges, and they name no other register.
  pub visit_ll-accum :
      (i : Instr Float Regex) (rs : List (ℕ × Ty))
      → accum i ≡ done rs
      → slot_fits i ≡ true
      → (flows : List Flow) × (visit_ll i ≡ done flows)
        × ((r : ℕ × Ty) → Named r flows → Listed r rs)
  visit_ll-accum i rs h fits = by_outcome (visit_ll i) refl
    where
      by_outcome :
          (o : Outcome (List Flow))
          → visit_ll i ≡ o
          → (flows : List Flow) × (visit_ll i ≡ done flows)
            × ((r : ℕ × Ty) → Named r flows → Listed r rs)
      by_outcome fails e = absurd (visit_ll-ne-fails i e)
      by_outcome panics e = absurd (visit_ll-ne-panics i rs fits h e)
      by_outcome (done flows) e = (
        flows,
        e,
        λ r named. elim (Bool-cases (is_sprintf i)) [
          | inl special ↦ Named-sprintf i flows rs r e h special named
          | inr other ↦ Named-accum i flows rs r e h other named
        ],
      )
