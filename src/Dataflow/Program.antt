-- ===== src/Dataflow/Program.antt =====
-- src/compile.rs: the loop of `run_analyses` over the instructions of a program, for one analysis.
use mathlib.Core.Path.{subst}
use frawk.Prelude.{ℕ, Bool, ◌≡◌, ◌↔◌, ◌⊎◌, inl, inr, refl, sym, ap, ◌∙◌, some, List, [], ◌∷◌, arith}
use frawk.Builtins.{Outcome, done, fails, panics, ◌>>=◌}
use frawk.Bytecode.{Instr, HighLevel}
use frawk.Dataflow.{JoinSemiLattice, Analysis}
use frawk.Dataflow.Lattice.{Le}
use frawk.Dataflow.Solve.{root}
use frawk.Dataflow.Reach.{Searches, all_edges}
use frawk.Dataflow.Keys.{Op, src, dep, query, Said, IsEquality}
use frawk.Dataflow.Run.{apply, run}
use frawk.Dataflow.Needs as Graph
use frawk.Dataflow.Needs.{Needs, root-run}
use frawk.Dataflow.Boilerplate.{Key}

-- An instruction, or a high-level one with the function that it stands in.
pub data Item (Float Regex : Type 0) : Type 0 where
  ll : Instr Float Regex → Item Float Regex
  hl : ℕ → HighLevel → Item Float Regex

module _ {J Float Regex : Type 0} (calls : Item Float Regex → Outcome (List (Op J Key))) where
  -- The analysis starts with the calls `init`, or the item makes the call.
  abbrev pub Makes : List (Op J Key) → List (Item Float Regex) → Op J Key → Type 0
  Makes init [] op = Said op init
  Makes init (item ∷ items) op =
      ((ops : List (Op J Key)) × (calls item ≡ done ops) × Said op ops) ⊎ Makes init items op

  -- A query of the program depends on the key.
  pub data Needed (init : List (Op J Key)) (items : List (Item Float Regex)) : Key → Type 0 where
    asked : {k : Key} → Makes init items (query k) → Needed init items k
    further : {d s : Key} → Needed init items d → Makes init items (dep d s) → Needed init items s

  module _ (l : JoinSemiLattice J) (eq : Key → Key → Bool) where
    abbrev pub apply_all : List (Op J Key) → Analysis J Key → Analysis J Key
    apply_all [] a = a
    apply_all (op ∷ ops) a = apply_all ops (apply l eq op a)

    unfoldable pub visit_all : List (Item Float Regex) → Analysis J Key → Outcome (Analysis J Key)
    visit_all [] a = done a
    visit_all (item ∷ items) a = calls item >>= λ ops. visit_all items (apply_all ops a)

    abbrev later : List (Op J Key) → List (Op J Key) → List (Op J Key)
    later [] past = past
    later (op ∷ ops) past = later ops (op ∷ past)

    apply_all-run :
        (ops past : List (Op J Key)) → apply_all ops (run l eq past) ≡ run l eq (later ops past)
    unfolding run
    apply_all-run [] past = refl
    apply_all-run (op ∷ ops) past = apply_all-run ops (op ∷ past)

    later-Said :
        (op : Op J Key) (ops past : List (Op J Key))
        → Said op (later ops past) ↔ (Said op ops ⊎ Said op past)
    later-Said op [] past =
        (λ h. inr h, λ h. elim h [ inl none_said ↦ absurd none_said | inr old ↦ old ])
    later-Said op (op' ∷ ops) past =
        let (to, from) = later-Said op ops (op' ∷ past) in
        (
          λ h. elim (to h) [
            | inl x ↦ inl (inr x)
            | inr (inl x) ↦ inl (inl x)
            | inr (inr x) ↦ inr x
          ],
          λ h. elim h [
            | inl (inl x) ↦ from (inr (inl x))
            | inl (inr x) ↦ from (inl x)
            | inr x ↦ from (inr (inr x))
          ],
        )

    -- Calls that were made before the loop count as made at its start.
    Makes-later :
        (op : Op J Key) (made past : List (Op J Key)) (items : List (Item Float Regex))
        → Makes (later made past) items op ↔ (Said op made ⊎ Makes past items op)
    Makes-later op made past [] = later-Said op made past
    Makes-later op made past (item ∷ items) =
        let (to, from) = Makes-later op made past items in
        (
          λ h. elim h [
            | inl x ↦ inr (inl x)
            | inr x ↦ elim (to x) [ inl y ↦ inl y | inr y ↦ inr (inr y) ]
          ],
          λ h. elim h [
            | inl x ↦ inr (from (inl x))
            | inr (inl x) ↦ inl x
            | inr (inr x) ↦ inr (from (inr x))
          ],
        )

    done-injective : (x y : List (Op J Key)) → done x ≡ done y → x ≡ y
    done-injective x y h = cc

    -- The calls behind an analysis that the loop returns.
    abbrev pub History : List (Op J Key) → List (Item Float Regex) → Analysis J Key → Type 0
    History past items a =
        (ops : List (Op J Key)) × (run l eq ops ≡ a)
        × ((op : Op J Key) → Said op ops ↔ Makes past items op)

    pub visit_all-History :
        (items : List (Item Float Regex)) (past : List (Op J Key)) (a : Analysis J Key)
        → visit_all items (run l eq past) ≡ done a
        → History past items a
    unfolding visit_all
    visit_all-History [] past a h = (past, ground (arith, h), λ op. (λ x. x, λ x. x))
    visit_all-History (item ∷ items) past a h =
        by_calls (λ past'. visit_all-History items past' a) (calls item) refl
      where
        by_calls :
            ((past' : List (Op J Key))
              → visit_all items (run l eq past') ≡ done a
              → History past' items a)
            → (o : Outcome (List (Op J Key))) → calls item ≡ o
            → History past (item ∷ items) a
        by_calls rest fails e = absurd (ground (arith, h, e))
        by_calls rest panics e = absurd (ground (arith, h, e))
        by_calls rest (done made) e =
            let goes : visit_all items (apply_all made (run l eq past)) ≡ done a =
              ground (arith, h, e) in
            let (ops, same, said) =
              rest (later made past)
                (ap (visit_all items) (sym (apply_all-run made past)) ∙ goes) in
            (
              ops,
              same,
              λ op.
                  let (to, from) = said op in
                  let (to', from') = Makes-later op made past items in
                  (
                    λ x. elim (to' (to x)) [ inl y ↦ inl (made, e, y) | inr y ↦ inr y ],
                    λ x. elim x [
                      | inl y ↦
                          let (made', e', z) = y in
                          from (
                            from'
                              (inl (subst (Said op) (done-injective made' made (sym e' ∙ e)) z)))
                      | inr y ↦ from (from' (inr y))
                    ],
                  ),
            )

    module _ (init : List (Op J Key)) (items : List (Item Float Regex)) (ops : List (Op J Key))
        (same : (op : Op J Key) → Said op ops ↔ Makes init items op) where
      Needs-Needed : (k : Key) → Needs ops k → Needed init items k
      Needs-Needed k (Graph.asked said) = asked ((same (query k)).0 said)
      Needs-Needed k (Graph.further {d = d} needs said) =
          further (Needs-Needed d needs) ((same (dep d k)).0 said)

      Needed-Needs : (k : Key) → Needed init items k → Needs ops k
      Needed-Needs k (asked makes) = Graph.asked ((same (query k)).1 makes)
      Needed-Needs k (further {d = d} needs makes) =
          Graph.further (Needed-Needs d needs) ((same (dep d k)).1 makes)

    module _ (is_eq : IsEquality eq) (dfs : List (ℕ × ℕ) → ℕ → List ℕ) (init : List (Op J Key))
        (items : List (Item Float Regex)) where
      -- Once the loop has visited a program, if the search finds the nodes that the root reaches, then
      -- `root` returns, with the least value that is above each source of a key that a query of the
      -- program depends on.
      pub root-visit_all :
          (a : Analysis J Key)
          → visit_all items (run l eq init) ≡ done a
          → Searches dfs (all_edges a) a.sentinel
          → (v : J) × (root l dfs a ≡ some v)
            × ((u : J)
                → Le l v u ↔ (
                    (k : Key) (x : J)
                    → Needed init items k
                    → Makes init items (src k x)
                    → Le l x u))
      root-visit_all a visited searches =
          let (ops, same, said) = visit_all-History items init a visited in
          let (v, e, least) =
            root-run l eq is_eq dfs ops
              (subst (λ b. Searches dfs (all_edges b) b.sentinel) (sym same) searches) in
          (
            v,
            ap (root l dfs) (sym same) ∙ e,
            λ u.
                let (to, from) = least u in
                (
                  λ h k x needed makes.
                      to h k x (Needed-Needs init items ops said k needed)
                        ((said (src k x)).1 makes),
                  λ h. from (λ k x needs sourced.
                      h k x (Needs-Needed init items ops said k needs)
                        ((said (src k x)).0 sourced)),
                ),
          )
