-- ===== src/Types/Order.antt =====
-- The information order on states, and what the rules of src/types.rs mean in it.
use mathlib.Core.Path.{subst}
use frawk.Prelude.{
  not, ℕ, ◌≤◌, Bool, Option, none, some, List, [], ◌∷◌, ◌≡◌, ◌≢◌, refl, ◌∙◌, sym, ap, arith, All,
}
use frawk.Result.{Result, ok}
use frawk.Types.{BaseTy, null, int, float, str, iter, scalar, map, State}
use frawk.Types.Rule.{value_rule, join_key, lift, join, eq_state, join_all, var, step}
use frawk.Types.Join.{join_comm, join-none, step-eq-ok, bind-eq-ok}

-- Values: null, then int, then float, then str.
abbrev rank : BaseTy → ℕ
rank null = 0
rank int = 1
rank float = 2
rank str = 3

abbrev pub ValueLe : Option BaseTy → Option BaseTy → Type 0
ValueLe none y = Unit
ValueLe (some x) none = ⊥
ValueLe (some x) (some y) = rank x ≤ rank y

-- Keys: everything is below str, and nothing else is below anything else.
abbrev pub KeyLe : Option BaseTy → Option BaseTy → Type 0
KeyLe none y = Unit
KeyLe (some x) none = ⊥
KeyLe (some x) (some str) = Unit
KeyLe (some x) (some y) = x ≡ y

abbrev pub IterLe : Option BaseTy → Option BaseTy → Type 0
IterLe none y = Unit
IterLe (some x) none = ⊥
IterLe (some x) (some y) = x ≡ y

-- `a` carries no more information than `b`.
abbrev pub StateLe : State → State → Type 0
StateLe none b = Unit
StateLe (some x) none = ⊥
StateLe (some (iter x)) (some (iter y)) = IterLe x y
StateLe (some (scalar x)) (some (scalar y)) = ValueLe x y
StateLe (some (map k v)) (some (map k' v')) = KeyLe k k' × ValueLe v v'
StateLe (some x) (some y) = ⊥

-- Not a map whose key type is null or float: the join of two null keys, or of two float keys, is a
-- string key.
abbrev pub HasProperKey : State → Type 0
HasProperKey (some (map (some null) v)) = ⊥
HasProperKey (some (map (some float) v)) = ⊥
HasProperKey s = Unit {0}

KeyLe-refl : (x : Option BaseTy) → KeyLe x x
KeyLe-refl x = ground arith

ValueLe-refl : (x : Option BaseTy) → ValueLe x x
ValueLe-refl x = ground arith

KeyLe-join : (x y : Option BaseTy) → KeyLe x (lift join_key x y)
unfolding lift join_key
KeyLe-join x y = ground arith

ValueLe-join : (x y : Option BaseTy) → ValueLe x (lift value_rule x y)
unfolding lift value_rule
ValueLe-join x y = ground arith

KeyLe-trans : (x y z : Option BaseTy) → KeyLe x y → KeyLe y z → KeyLe x z
KeyLe-trans x y z h k = ground arith

ValueLe-trans : (x y z : Option BaseTy) → ValueLe x y → ValueLe y z → ValueLe x z
ValueLe-trans x y z h k = ground arith

IterLe-trans : (x y z : Option BaseTy) → IterLe x y → IterLe y z → IterLe x z
IterLe-trans x y z h k = ground arith

pub StateLe-trans : (a b c : State) → StateLe a b → StateLe b c → StateLe a c
StateLe-trans none b c h k = tt
StateLe-trans (some (iter x)) (some (iter y)) (some (iter z)) h k = IterLe-trans x y z h k
StateLe-trans (some (scalar x)) (some (scalar y)) (some (scalar z)) h k = ValueLe-trans x y z h k
StateLe-trans (some (map x v)) (some (map y w)) (some (map z u)) h k =
    (KeyLe-trans x y z h.0 k.0, ValueLe-trans v w u h.1 k.1)
StateLe-trans (some a) b c h k = ground arith

pub StateLe-refl : (a : State) → StateLe a a
StateLe-refl none = tt
StateLe-refl (some (iter x)) = ground arith
StateLe-refl (some (scalar x)) = ValueLe-refl x
StateLe-refl (some (map x v)) = (KeyLe-refl x, ValueLe-refl v)

pub ok-injective {ℓ} : {A : Type ℓ} {a b : A} → ok a ≡ ok b → a ≡ b
ok-injective h = cc

-- A join is an upper bound of its first argument.
StateLe-join : (a b c : State) → join a b ≡ ok c → StateLe a c
StateLe-join none b c h = tt
StateLe-join (some a) none c h =
    subst (StateLe (some a)) (ok-injective (sym (join-none (some a)) ∙ h)) (StateLe-refl (some a))
StateLe-join (some (iter x)) (some (iter y)) c h = unfold join in ground arith
StateLe-join (some (scalar x)) (some (scalar y)) c h =
    unfold join in ground (arith, ValueLe-join x y)
StateLe-join (some (map x v)) (some (map y w)) c h =
    unfold join in
    subst (StateLe (some (map x v))) (ok-injective h) (KeyLe-join x y, ValueLe-join v w)
StateLe-join (some a) (some b) c h = unfold join in ground arith

join_all_upper :
    (p s : State) (ds : List State) → join_all p ds ≡ ok s → StateLe p s × All (λ d. StateLe d s) ds
unfolding join_all
join_all_upper p s [] h = (subst (StateLe p) (ok-injective h) (StateLe-refl p), tt)
join_all_upper p s (d ∷ ds) h =
    let (next, joined, rest) = bind-eq-ok (join p d) (λ n. join_all n ds) h in
    let (above, all) = join_all_upper next s ds rest in
    (
      StateLe-trans p next s (StateLe-join p d next joined) above,
      (StateLe-trans d next s (StateLe-join d p next (join_comm d p ∙ joined)) above, all),
    )

KeyLe-least :
    (x y z : Option BaseTy)
    → z ≢ some null
    → z ≢ some float
    → KeyLe x z
    → KeyLe y z
    → KeyLe (lift join_key x y) z
unfolding lift join_key
KeyLe-least x y z n f h k = ground arith

ValueLe-least :
    (x y z : Option BaseTy) → ValueLe x z → ValueLe y z → ValueLe (lift value_rule x y) z
unfolding lift value_rule
ValueLe-least x y z h k = ground arith

-- `m` succeeds with a state below `u`.
abbrev pub Below : State → Result State → Type 0
Below u m = (s : State) × (m ≡ ok s) × StateLe s u

proper_key :
    (z w : Option BaseTy) → HasProperKey (some (map z w)) → (z ≢ some null) × (z ≢ some float)
proper_key z w h = ground arith

-- Two states below a state with a proper key have a join, and it is below that state.
join-least : (u a b : State) → HasProperKey u → StateLe a u → StateLe b u → Below u (join a b)
unfolding join
join-least u none b proper h k = (b, refl, k)
join-least u (some a) none proper h k = (some a, join-none (some a), h)
join-least (some (iter z)) (some (iter x)) (some (iter y)) proper h k =
    (some (iter (lift (λ a _. a) x y)), unfold lift in ground arith, unfold lift in ground arith)
join-least (some (scalar z)) (some (scalar x)) (some (scalar y)) proper h k =
    (some (scalar (lift value_rule x y)), unfold lift in ground arith, ValueLe-least x y z h k)
join-least (some (map z u)) (some (map x v)) (some (map y w)) proper h k =
    let (n, f) = proper_key z u proper in
    (
      some (map (lift join_key x y) (lift value_rule v w)),
      refl,
      (KeyLe-least x y z n f h.0 k.0, ValueLe-least v w u h.1 k.1),
    )
join-least u (some a) (some b) proper h k = ground arith

join_all-least :
    (u p : State) (ds : List State)
    → HasProperKey u
    → StateLe p u
    → All (λ d. StateLe d u) ds
    → Below u (join_all p ds)
unfolding join_all
join_all-least u p [] proper h all = (p, refl, h)
join_all-least u p (d ∷ ds) proper h all =
    let (next, joined, below) = join-least u p d proper h all.0 in
    rw joined (join_all-least u next ds proper below all.1)

-- What a variable's rule returns is above its previous state and above every dependency.
pub step_upper :
    (p s : State) (ds : List State) (c : Bool)
    → step var p ds ≡ ok (c, s)
    → StateLe p s × All (λ d. StateLe d s) ds
step_upper p s ds c h = join_all_upper p s ds (step-eq-ok p s ds c h)

-- If some state with a proper key is above the previous state and every dependency, then the
-- rule succeeds, with a state below that one.
pub step_least :
    (u p : State) (ds : List State)
    → HasProperKey u
    → StateLe p u
    → All (λ d. StateLe d u) ds
    → (s : State) × (c : Bool) × (step var p ds ≡ ok (c, s)) × StateLe s u
step_least u p ds proper h all =
    let (s, joined, below) = join_all-least u p ds proper h all in
    (s, not (eq_state p s), unfold step in rw joined, below)

-- If some state that is not a map with a null or a float key is above the previous state and every
-- dependency, then a variable's rule succeeds, with a state that is above each of them, and below
-- every state above them that is not a map with a null or a float key.
pub step_least_upper :
    (u p : State) (ds : List State)
    → HasProperKey u
    → StateLe p u
    → All (λ d. StateLe d u) ds
    → (s : State) × (c : Bool) × (step var p ds ≡ ok (c, s))
      × StateLe p s
      × All (λ d. StateLe d s) ds
      × ((v : State) → HasProperKey v → StateLe p v → All (λ d. StateLe d v) ds → StateLe s v)
step_least_upper u p ds proper h all =
    let (s, c, e, below) = step_least u p ds proper h all in
    let (previous, each) = step_upper p s ds c e in
    (
      s,
      c,
      e,
      previous,
      each,
      λ v k h' all'.
          let (s', c', e', below') = step_least v p ds k h' all' in
          let same : (c', s') ≡ (c, s) = ok-injective (sym e' ∙ e) in
          subst (λ x. StateLe x v) (ap (λ x. x.1) same) below',
    )
