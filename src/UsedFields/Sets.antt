-- ===== src/UsedFields/Sets.antt =====
-- src/pushdown.rs: the 64-bit field sets as a lattice of the dataflow framework.
use mathlib.Core.HLevel.{Σ_prop_path}
use native.Mathlib.Bridge.{le_prop}
use frawk.Prelude.{
  ℕ, ◌≡◌, ◌<◌, ◌*◌, ◌%◌, ◌^◌, ◌∙◌, Bool, true, not, ◌==◌, ==→eq, ==-refl, arith, bit_or, ltb,
  Bool-cases, inl, inr,
}
use frawk.Prelude.Bits.{bit-bit_or, bit-zero, bit_or-lt, le-bit_or}
use frawk.Pushdown.{FieldSet, IsFieldSet, singleton, all, empty, fi, union, invoke, max_index}
use frawk.Pushdown.Members.{union-IsFieldSet}
use frawk.Pushdown.Grow.{by_bits, bit_or_comm}
use frawk.Dataflow.{JoinSemiLattice, IsLawful}

-- A field set that fits its word.
abbrev pub Fields : Type 0
Fields = (s : FieldSet) × IsFieldSet s

pub Fields_ext : (s t : Fields) → s.0 ≡ t.0 → s ≡ t
Fields_ext s t h = Σ_prop_path (λ v. le_prop) {u = s} {v = t} h

-- `invoke` of `FieldSet`
unfoldable pub fields_invoke : Fields → Fields → Fields × Bool
fields_invoke s t = ((union s.0 t.0, union-IsFieldSet s.0 t.0 s.1 t.1), (invoke s.0 t.0).1)

union_idem : (a : ℕ) → IsFieldSet a → bit_or a a ≡ a
union_idem a h =
    by_bits (bit_or a a) a (bit_or-lt 64 a a h h) h (λ i. bit-bit_or i a a ∙ omega arith)

union_assoc :
    (a b c : ℕ)
    → IsFieldSet a
    → IsFieldSet b
    → IsFieldSet c
    → bit_or (bit_or a b) c ≡ bit_or a (bit_or b c)
union_assoc a b c ha hb hc =
    let ab = bit_or-lt 64 a b ha hb in
    let bc = bit_or-lt 64 b c hb hc in
    by_bits (bit_or (bit_or a b) c) (bit_or a (bit_or b c)) (bit_or-lt 64 (bit_or a b) c ab hc)
      (bit_or-lt 64 a (bit_or b c) ha bc)
      (λ i. omega (
        arith,
        bit-bit_or i (bit_or a b) c,
        bit-bit_or i a b,
        bit-bit_or i a (bit_or b c),
        bit-bit_or i b c,
      ))

union-empty : (a : ℕ) → IsFieldSet a → bit_or a 0 ≡ a
union-empty a h =
    by_bits (bit_or a 0) a (bit_or-lt 64 a 0 h (omega arith)) h
      (λ i. omega (arith, bit-bit_or i a 0, bit-zero i))

changed-lt : (a b : ℕ) → IsFieldSet a → IsFieldSet b → not (bit_or a b == a) ≡ true → a < bit_or a b
changed-lt a b ha hb h = ground (arith, h, le-bit_or 64 a b ha hb, ==-refl a)

pub fields_invoke-IsLawful : IsLawful (empty, omega arith) fields_invoke
unfolding fields_invoke union invoke
fields_invoke-IsLawful = record {
  join_idem = λ a. Fields_ext _ _ (union_idem a.0 a.1);
  join_comm = λ a b. Fields_ext _ _ (bit_or_comm a.0 b.0 a.1 b.1);
  join_assoc = λ a b c. Fields_ext _ _ (union_assoc a.0 b.0 c.0 a.1 b.1 c.1);
  join_bottom = λ a. Fields_ext _ _ (union-empty a.0 a.1);
  unchanged = λ a b h. Fields_ext _ _ (==→eq (bit_or a.0 b.0) a.0 (ground (arith, h)));
  rank = λ a. a.0;
  height = 2 ^ 64;
  rank-le = λ a. omega (arith, a.1);
  rank-lt = λ a b h. changed-lt a.0 b.0 a.1 b.1 h;
}

abbrev pub fields : JoinSemiLattice Fields
fields = record {
  bottom = (empty, omega arith);
  invoke = fields_invoke;
  lawful = fields_invoke-IsLawful;
}

mod-lt : (v : ℕ) → v % 2 ^ 64 < 2 ^ 64
mod-lt v = omega arith

pub singleton-IsFieldSet : (i : ℕ) → IsFieldSet (singleton i)
unfolding singleton
singleton-IsFieldSet i = elim (Bool-cases (ltb max_index i)) [
  | inl beyond ↦ rw beyond (omega arith)
  | inr within ↦ rw within (mod-lt (1 * 2 ^ i))
]

abbrev pub all_fields : Fields
all_fields = (all, omega arith)

abbrev pub fi_fields : Fields
fi_fields = (fi, omega arith)

abbrev pub one_field : ℕ → Fields
one_field i = (singleton i, singleton-IsFieldSet i)
