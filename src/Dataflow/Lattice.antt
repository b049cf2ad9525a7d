-- ===== src/Dataflow/Lattice.antt =====
-- src/dataflow.rs: the order that a join semilattice has.
use frawk.Prelude.{◌≡◌, sym, ap, ◌∙◌}
use frawk.Dataflow.{JoinSemiLattice}

module _ {J : Type 0} (l : JoinSemiLattice J) where
  -- Joining `a` into `b` leaves `b` as it is.
  abbrev pub Le : J → J → Type 0
  Le a b = (l.invoke b a).0 ≡ b

  pub Le-refl : (a : J) → Le a a
  Le-refl a = l.join_idem a

  pub Le-bottom : (a : J) → Le l.bottom a
  Le-bottom a = l.join_bottom a

  pub Le_trans : (a b c : J) → Le a b → Le b c → Le a c
  Le_trans a b c h k =
      ap (λ x. (l.invoke x a).0) (sym k) ∙ l.join_assoc c b a ∙ ap (λ x. (l.invoke c x).0) h ∙ k

  pub Le-join_right : (a b : J) → Le b (l.invoke a b).0
  Le-join_right a b = l.join_assoc a b b ∙ ap (λ x. (l.invoke a x).0) (l.join_idem b)

  pub Le-join_left : (a b : J) → Le a (l.invoke a b).0
  Le-join_left a b =
      ap (λ x. (l.invoke x a).0) (l.join_comm a b) ∙ Le-join_right b a ∙ l.join_comm b a

  pub join-least : (a b c : J) → Le a c → Le b c → Le (l.invoke a b).0 c
  join-least a b c h k = sym (l.join_assoc c a b) ∙ ap (λ x. (l.invoke x b).0) h ∙ k
