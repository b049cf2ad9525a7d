-- ===== src/UsedFields/Joins.antt =====
-- src/pushdown.rs: the loop of `UsedFieldAnalysis::solve` over the joins.
use mathlib.Core.Path.{subst}
use frawk.Prelude.{ℕ, ◌≡◌, ◌⊎◌, inl, inr, refl, sym, ◌∙◌, true, some, List, [], ◌∷◌, ◌++◌}
use frawk.Pushdown.{FieldSet, IsFieldSet, union, fill, get}
use frawk.Pushdown.Members.{union-IsFieldSet}
use frawk.Pushdown.Grow.{get-union_left, get-union_right, fill-IsFieldSet}
use frawk.Dataflow.{Analysis}
use frawk.Dataflow.Solve as Solve
use frawk.Dataflow.Keys.{query}
use frawk.Dataflow.Boilerplate.{Key}
use frawk.Dataflow.KeyEq.{key_eq}
use frawk.Dataflow.Program.{Item, ll, hl, Makes}
use frawk.Dataflow.Derives.{Some}
use frawk.UsedFields.Sets.{Fields, fields}
use frawk.UsedFields.Visit.{init, visit_used_fields, joins_of, all_joins, add_joins}
use frawk.UsedFields.Reads.{JoinsFrom, JoinsFrom-Asks, joins_of-cases}

some-second : {A B : Type 0} (x y : A × B) → some x ≡ some y → x.1 ≡ y.1
some-second x y e = cc

module _ (dfs : List (ℕ × ℕ) → ℕ → List ℕ) (b : Analysis Fields Key) where
  -- The key's query returns the value.
  abbrev pub Answers : Key → Fields → Type 0
  Answers k v = Solve.query fields key_eq dfs b k ≡ some (b, v)

  abbrev pub AllAnswer : List (Key × Key) → Type 0
  AllAnswer [] = Unit
  AllAnswer ((l, r) ∷ joins) =
      ((v : Fields) × Answers l v) × ((v : Fields) × Answers r v) × AllAnswer joins

  abbrev pub Within : Key → Key → List (Key × Key) → Type 0
  Within l r [] = ⊥
  Within l r ((l', r') ∷ joins) = ((l' ≡ l) × (r' ≡ r)) ⊎ Within l r joins

  add_joins-step :
      (l r : Key) (joins : List (Key × Key)) (res : FieldSet) (v w : Fields)
      → Answers l v
      → Answers r w
      → add_joins dfs ((l, r) ∷ joins) b res ≡ add_joins dfs joins b (union res (fill v.0 w.0))
  unfolding add_joins
  add_joins-step l r joins res v w h k = rw (h, k, add_joins) refl

  same_answer : (k : Key) (v w : Fields) → Answers k v → Answers k w → v ≡ w
  same_answer k v w h h' = some-second (b, v) (b, w) (sym h ∙ h')

  -- The loop over the joins ends, keeps what the set holds, and adds what each join covers.
  pub add_joins_lem :
      (joins : List (Key × Key)) (res : FieldSet)
      → IsFieldSet res
      → AllAnswer joins
      → (out : FieldSet) × (add_joins dfs joins b res ≡ some out)
        × ((i : ℕ) → get res i ≡ true → get out i ≡ true)
        × ((l r : Key) (v w : Fields) (i : ℕ)
            → Within l r joins
            → Answers l v
            → Answers r w
            → get (fill v.0 w.0) i ≡ true
            → get out i ≡ true)
  unfolding add_joins
  add_joins_lem [] res fits answers = (res, refl, λ i h. h, λ l r v w i h. absurd h)
  add_joins_lem ((l, r) ∷ joins) res fits ((v, hv), (w, hw), answers) =
      let filled = fill-IsFieldSet v.0 w.0 v.1 in
      let next = union-IsFieldSet res (fill v.0 w.0) fits filled in
      let (out, e, keeps, adds) = add_joins_lem joins (union res (fill v.0 w.0)) next answers in
      (
        out,
        add_joins-step l r joins res v w hv hw ∙ e,
        λ i h. keeps i (get-union_left res (fill v.0 w.0) i filled h),
        λ l' r' v' w' i within hv' hw' held. elim within [
          | inl here ↦
              let same_v = same_answer l v' v (subst (λ k. Answers k v') (sym here.0) hv') hv in
              let same_w = same_answer r w' w (subst (λ k. Answers k w') (sym here.1) hw') hw in
              let held' =
                subst (λ x. get (fill x.0 w.0) i ≡ true) same_v
                  (subst (λ y. get (fill v'.0 y.0) i ≡ true) same_w held) in
              keeps i (get-union_right res (fill v.0 w.0) i fits filled held')
          | inr later ↦ adds l' r' v' w' i later hv' hw' held
        ],
      )

  Within-append : (l r : Key) (xs ys : List (Key × Key)) → Within l r ys → Within l r (xs ++ ys)
  Within-append l r [] ys h = h
  Within-append l r (x ∷ xs) ys h = inr (Within-append l r xs ys h)

  pub Some-Within :
      {Float Regex : Type 0} (l r : Key) (items : List (Item Float Regex))
      → Some (JoinsFrom l r) items
      → Within l r (all_joins items)
  unfolding all_joins
  Some-Within l r [] h = absurd h
  Some-Within l r (ll inst ∷ items) (inl h) = rw h (inl (refl, refl))
  Some-Within l r (ll inst ∷ items) (inr h) =
      Within-append l r (joins_of inst) (all_joins items) (Some-Within l r items h)
  Some-Within l r (hl _ _ ∷ items) (inl h) = absurd h
  Some-Within l r (hl _ _ ∷ items) (inr h) = Some-Within l r items h

  -- Each key of a join is a query.
  pub all_answer :
      {Float Regex : Type 0} (rest : List (Item Float Regex))
      → ((k : Key) → Makes visit_used_fields init rest (query k) → (v : Fields) × Answers k v)
      → AllAnswer (all_joins rest)
  unfolding all_joins
  all_answer [] answer = tt
  all_answer (ll inst ∷ rest) answer =
      let later = all_answer rest (λ k makes. answer k (inr makes)) in
      elim (joins_of-cases inst) [
        | inl no_join ↦ rw no_join later
        | inr (l, r, e) ↦
            let (asks_l, asks_r) = JoinsFrom-Asks l r (ll inst) e in
            rw e (answer l (inl asks_l), answer r (inl asks_r), later)
      ]
  all_answer (hl _ _ ∷ rest) answer = all_answer rest (λ k makes. answer k (inr makes))
