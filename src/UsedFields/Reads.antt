-- ===== src/UsedFields/Reads.antt =====
-- src/pushdown.rs: what an instruction reads, and the calls that the analysis makes for it.
use frawk.Prelude.{ℕ, pos, ◌≡◌, ◌≢◌, ◌⊎◌, inl, inr, refl, Option, none, some, List, [], ◌∷◌, arith}
use frawk.Builtins.{done, fails, panics}
use frawk.Bytecode.{Instr}
use frawk.Dataflow.Keys.{Op, src, dep, query, Said}
use frawk.Dataflow.Boilerplate as Boilerplate
use frawk.Dataflow.Boilerplate.{Key, Flow, of_reg}
use frawk.Dataflow.Derives.{HasFlow, outcome-done, Links}
use frawk.Dataflow.Program.{Item, ll, hl}
use frawk.UsedFields.Sets.{Fields, all_fields, one_field}
use frawk.UsedFields.Visit.{followed, any_field, visit_hl, visit_ll, joins_of, visit_used_fields}

-- The register that holds the number of the column that is read.
unfoldable pub column_of : {Float Regex : Type 0} → Instr Float Regex → Option Key
column_of (Instr.get_column _ col) = some (of_reg col)
column_of _ = none

-- The register that the instruction sets to a constant, and the constant, if it is a column's number.
unfoldable pub const_of : {Float Regex : Type 0} → Instr Float Regex → Option (Key × ℕ)
const_of (Instr.store_const_int dst (pos i)) = some (of_reg dst, i)
const_of _ = none

HasFlow-followed :
    (d s : Key) (flows : List Flow) → HasFlow d s flows → Said (dep d s) (followed flows)
unfolding followed
HasFlow-followed d s [] h = absurd h
HasFlow-followed d s ((d', none) ∷ flows) (inl h) = absurd (ground (arith, h))
HasFlow-followed d s ((d', none) ∷ flows) (inr h) = inr (HasFlow-followed d s flows h)
HasFlow-followed d s ((d', some s') ∷ flows) (inl h) = inl cc
HasFlow-followed d s ((d', some s') ∷ flows) (inr h) = inr (HasFlow-followed d s flows h)

HasFlow-any_field :
    (d s : Key) (flows : List Flow) → HasFlow d s flows → Said (src d all_fields) (any_field flows)
unfolding any_field
HasFlow-any_field d s [] h = absurd h
HasFlow-any_field d s ((d', from) ∷ flows) (inl h) = inl cc
HasFlow-any_field d s ((d', from) ∷ flows) (inr h) = inr (HasFlow-any_field d s flows h)

module _ {Float Regex : Type 0} where
  abbrev pub Asks : Op Fields Key → Item Float Regex → Type 0
  Asks op item = (ops : List (Op Fields Key)) × (visit_used_fields item ≡ done ops) × Said op ops

  -- The item reads the column with the number in the register.
  abbrev pub Reads : Key → Item Float Regex → Type 0
  Reads k (ll inst) = column_of inst ≡ some k
  Reads k (hl _ _) = ⊥

  -- The item reads the columns from the number in one register to that in the other.
  abbrev pub JoinsFrom : Key → Key → Item Float Regex → Type 0
  JoinsFrom start last (ll inst) = joins_of inst ≡ (start, last) ∷ []
  JoinsFrom start last (hl _ _) = ⊥

  -- The item sets the register to the constant.
  abbrev pub Holds : Key → ℕ → Item Float Regex → Type 0
  Holds k i (ll inst) = const_of inst ≡ some (k, i)
  Holds k i (hl _ _) = ⊥

  column-visit_ll :
      (inst : Instr Float Regex) (k : Key)
      → column_of inst ≡ some k
      → (dst : Key) × (visit_ll inst ≡ done (query k ∷ src dst all_fields ∷ []))
  unfolding column_of visit_ll
  column-visit_ll (Instr.get_column dst col) k h = (of_reg dst, cc)
  column-visit_ll inst k h = absurd (ground (arith, h))

  const-visit_ll :
      (inst : Instr Float Regex) (k : Key) (i : ℕ)
      → const_of inst ≡ some (k, i)
      → visit_ll inst ≡ done (src k (one_field i) ∷ [])
  unfolding const_of visit_ll
  const-visit_ll (Instr.store_const_int dst (pos j)) k i h = cc
  const-visit_ll inst k i h = absurd (ground (arith, h))

  joins-visit_ll :
      (inst : Instr Float Regex) (start last : Key)
      → joins_of inst ≡ (start, last) ∷ []
      → (dst : Key) × (visit_ll inst ≡ done (query start ∷ query last ∷ src dst all_fields ∷ []))
  unfolding joins_of visit_ll
  joins-visit_ll (Instr.join_csv dst _ _) start last h = (of_reg dst, cc)
  joins-visit_ll (Instr.join_tsv dst _ _) start last h = (of_reg dst, cc)
  joins-visit_ll (Instr.join_columns dst _ _ _) start last h = (of_reg dst, cc)
  joins-visit_ll inst start last h = absurd (ground (arith, h))

  flow-ne-fails :
      (inst : Instr Float Regex) (flows : List Flow)
      → Boilerplate.visit_ll inst ≡ done flows
      → visit_ll inst ≢ fails
  unfolding visit_ll
  flow-ne-fails inst flows h = λ e. ground arith

  flow-ne-panics :
      (inst : Instr Float Regex) (flows : List Flow)
      → Boilerplate.visit_ll inst ≡ done flows
      → visit_ll inst ≢ panics
  unfolding visit_ll
  flow-ne-panics inst flows h = λ e. ground arith

  flow-Said :
      (inst : Instr Float Regex) (flows : List Flow) (d s : Key) (ops : List (Op Fields Key))
      → Boilerplate.visit_ll inst ≡ done flows
      → HasFlow d s flows
      → visit_ll inst ≡ done ops
      → Said (dep d s) ops ⊎ Said (src d all_fields) ops
  unfolding visit_ll Boilerplate.visit_ll
  flow-Said inst flows d s ops h flow e =
      ground (arith, HasFlow-followed d s flows flow, HasFlow-any_field d s flows flow)

  pub Reads-Asks : (k : Key) (item : Item Float Regex) → Reads k item → Asks (query k) item
  unfolding visit_used_fields
  Reads-Asks k (ll inst) h = let (dst, e) = column-visit_ll inst k h in (_, e, inl refl)
  Reads-Asks k (hl _ _) h = absurd h

  pub Holds-Asks :
      (k : Key) (i : ℕ) (item : Item Float Regex) → Holds k i item → Asks (src k (one_field i)) item
  unfolding visit_used_fields
  Holds-Asks k i (ll inst) h = (_, const-visit_ll inst k i h, inl refl)
  Holds-Asks k i (hl _ _) h = absurd h

  pub JoinsFrom-Asks :
      (start last : Key) (item : Item Float Regex)
      → JoinsFrom start last item
      → Asks (query start) item × Asks (query last) item
  unfolding visit_used_fields
  JoinsFrom-Asks start last (ll inst) h =
      let (dst, e) = joins-visit_ll inst start last h in ((_, e, inl refl), (_, e, inr (inl refl)))
  JoinsFrom-Asks start last (hl _ _) h = absurd h

  -- An edge is followed, or its target may be any column.
  pub Links-Asks :
      (d s : Key) (item : Item Float Regex)
      → Links d s item
      → Asks (dep d s) item ⊎ Asks (src d all_fields) item
  unfolding visit_used_fields visit_hl
  Links-Asks d s (ll inst) (flows, h, flow) =
      let (ops, e) =
        outcome-done (visit_ll inst) (flow-ne-fails inst flows h) (flow-ne-panics inst flows h) in
      elim (flow-Said inst flows d s ops h flow e) [
        | inl said ↦ inl (ops, e, said)
        | inr said ↦ inr (ops, e, said)
      ]
  Links-Asks d s (hl func_id inst) h =
      inl (followed (Boilerplate.visit_hl inst func_id), refl, HasFlow-followed d s _ h)

  -- An instruction pushes one join at most.
  pub joins_of-cases :
      (inst : Instr Float Regex)
      → (joins_of inst ≡ []) ⊎ ((l : Key) × (r : Key) × (joins_of inst ≡ (l, r) ∷ []))
  unfolding joins_of
  joins_of-cases (Instr.join_csv _ start last) = inr (of_reg start, of_reg last, refl)
  joins_of-cases (Instr.join_tsv _ start last) = inr (of_reg start, of_reg last, refl)
  joins_of-cases (Instr.join_columns _ start last _) = inr (of_reg start, of_reg last, refl)
  joins_of-cases _ = inl refl
