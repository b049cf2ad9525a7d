-- ===== src/Types/Join.antt =====
-- Laws of the join of two states (`Rule::step` in src/types.rs): it is a commutative monoid with
-- an absorbing error, so the order of the dependencies does not matter.
use mathlib.Core.List.{Perm, Permᴰ}
use mathlib.Core.Logic.{∥∥₁_elim}
use mathlib.Core.Path.{fun_ext}
use frawk.Prelude.{
  Bool, true, false, Option, none, some, List, [], ◌∷◌, ◌≡◌, refl, sym, ap, ◌∙◌, arith,
}
use frawk.Result.{Result, ok, err, ◌>>=◌}
use frawk.Types.{BaseTy, iter, scalar, map, State}
use frawk.Types.Rule.{
  value_rule, join_key, lift, join, join_all, eq_state, Rule, var, const, always_notify, step,
}

value_rule_comm : (a b : BaseTy) → value_rule a b ≡ value_rule b a
unfolding value_rule
value_rule_comm a b = ground arith

value_rule_assoc : (a b c : BaseTy) → value_rule (value_rule a b) c ≡ value_rule a (value_rule b c)
unfolding value_rule
value_rule_assoc a b c = ground arith

join_key_comm : (a b : BaseTy) → join_key a b ≡ join_key b a
unfolding join_key
join_key_comm a b = ground arith

join_key_assoc : (a b c : BaseTy) → join_key (join_key a b) c ≡ join_key a (join_key b c)
unfolding join_key
join_key_assoc a b c = ground arith

module _ (f : BaseTy → BaseTy → BaseTy) where
  lift_comm : ((a b : BaseTy) → f a b ≡ f b a) → (x y : Option BaseTy) → lift f x y ≡ lift f y x
  unfolding lift
  lift_comm h (some x) (some y) = ap some (h x y)
  lift_comm h (some x) none = refl
  lift_comm h none (some y) = refl
  lift_comm h none none = refl

  lift_assoc :
      ((a b c : BaseTy) → f (f a b) c ≡ f a (f b c))
      → (x y z : Option BaseTy) → lift f (lift f x y) z ≡ lift f x (lift f y z)
  unfolding lift
  lift_assoc h (some x) (some y) (some z) = ap some (h x y z)
  lift_assoc h none (some y) (some z) = refl
  lift_assoc h (some x) none (some z) = refl
  lift_assoc h none none (some z) = refl
  lift_assoc h (some x) (some y) none = refl
  lift_assoc h none (some y) none = refl
  lift_assoc h (some x) none none = refl
  lift_assoc h none none none = refl

module _ (k k' v v' : Option BaseTy) where
  map_comm : join (some (map k v)) (some (map k' v')) ≡ join (some (map k' v')) (some (map k v))
  unfolding join
  map_comm =
      ground
        (arith, lift_comm join_key join_key_comm k k', lift_comm value_rule value_rule_comm v v')

pub join_comm : (a b : State) → join a b ≡ join b a
join_comm none none = refl
join_comm (some (map k v)) (some (map k' v')) = map_comm k k' v v'
join_comm a b = unfold join in ground arith

pub none-join : (a : State) → join none a ≡ ok a
unfolding join
none-join a = refl

pub join-none : (a : State) → join a none ≡ ok a
unfolding join
join-none none = refl
join-none (some a) = ground arith

bind-ok {ℓ} : {A : Type ℓ} (m : Result A) → (m >>= ok) ≡ m
bind-ok (ok a) = refl
bind-ok err = refl

bind-join-none : (m : Result State) → (m >>= λ ab. join ab none) ≡ m
bind-join-none (ok a) = join-none a
bind-join-none err = refl

-- The join of three, from the left and from the right.
abbrev left_first : State → State → State → Result State
left_first a b c = join a b >>= λ ab. join ab c

abbrev right_first : State → State → State → Result State
right_first a b c = join b c >>= λ bc. join a bc

pub join_assoc : (a b c : State) → left_first a b c ≡ right_first a b c
join_assoc none b c = simp none-join (sym (bind-ok (join b c)))
join_assoc a none c = simp (join-none, none-join)
join_assoc a b none = rw join-none (bind-join-none (join a b))
join_assoc (some (iter x)) (some (iter y)) (some (iter z)) = unfold join in ground arith
join_assoc (some (scalar x)) (some (scalar y)) (some (scalar z)) = unfold join in ground arith
join_assoc (some (map k v)) (some (map k' v')) (some (map k'' v'')) =
    unfold join in
    ground (
      arith,
      lift_assoc join_key join_key_assoc k k' k'',
      lift_assoc value_rule value_rule_assoc v v' v'',
    )
join_assoc (some a) (some b) (some c) = unfold join in ground arith

-- Two dependencies may change places.
join_swap : (cur a b : State) → left_first cur a b ≡ left_first cur b a
join_swap cur a b =
    join_assoc cur a b
    ∙ ap (λ m. m >>= λ bc. join cur bc) (join_comm a b)
    ∙ sym (join_assoc cur b a)

bind_assoc {ℓ} :
    {A : Type ℓ} (m : Result A) (f g : A → Result A) → (m >>= λ a. f a >>= g) ≡ (m >>= f >>= g)
bind_assoc (ok a) f g = refl
bind_assoc err f g = refl

join_all-two :
    (cur a b : State) (l : List State)
    → join_all cur (a ∷ b ∷ l) ≡ (left_first cur a b >>= λ next. join_all next l)
unfolding join_all
join_all-two cur a b l = bind_assoc (join cur a) (λ n. join n b) (λ m. join_all m l)

join_all-permᴰ :
    {ds es : List State} (cur : State) → Permᴰ ds es → join_all cur ds ≡ join_all cur es
unfolding join_all
join_all-permᴰ cur Permᴰ.nil = refl
join_all-permᴰ cur (Permᴰ.cons {b = b} e p) =
    rw e (ap (λ f. join cur b >>= f) (fun_ext λ next. join_all-permᴰ next p))
join_all-permᴰ cur (Permᴰ.swap {a = a} {b = b} {l = l} e e') =
    rw (← e, ← e')
      (join_all-two cur a b l
        ∙ ap (λ m. m >>= λ next. join_all next l) (join_swap cur a b)
        ∙ sym (join_all-two cur b a l))
join_all-permᴰ cur (Permᴰ.trans p q) = join_all-permᴰ cur p ∙ join_all-permᴰ cur q

Result-set : IsSet (Result State)
Result-set = hlevel

pub join_all-perm :
    {ds es : List State} (cur : State) → Perm ds es → join_all cur ds ≡ join_all cur es
join_all-perm cur p = ∥∥₁_elim p (Result-set _ _) (join_all-permᴰ cur)

bind-err : (m : Result State) → ◌≡◌ {A = Result State} (m >>= λ _. err) err
bind-err (ok a) = refl
bind-err err = refl

through :
    (cur d : State) (total : Result State)
    → (join cur d >>= λ next. total >>= λ t. join next t)
      ≡ (total >>= (λ t. join d t) >>= λ dt. join cur dt)
through cur d (ok t) = join_assoc cur d t
through cur d err = bind-err (join cur d)

-- The join of all dependencies, joined to the current value in one step.
pub join_all-join :
    (cur : State) (ds : List State)
    → join_all cur ds ≡ (join_all none ds >>= λ total. join cur total)
unfolding join_all
join_all-join cur [] = sym (join-none cur)
join_all-join cur (d ∷ ds) =
    ap (λ f. join cur d >>= f) (fun_ext λ next. join_all-join next ds)
    ∙ through cur d (join_all none ds)
    ∙ ap (λ m. m >>= λ total. join cur total) (sym (join_all-join d ds))
    ∙ ap (λ m. m >>= (λ next. join_all next ds) >>= λ total. join cur total) (sym (none-join d))

-- The rule of a node gives the same update, and the same change flag, for any order of its
-- dependencies; for one order it fails exactly if it fails for every other.
pub step-perm :
    {ds es : List State} (r : Rule) (prev : State) → Perm ds es → step r prev ds ≡ step r prev es
unfolding step
step-perm var prev p = rw (join_all-perm prev p)
step-perm (const tv) prev p = refl
step-perm always_notify prev p = refl

-- Joining one value three times is joining it twice.
key_settles :
    (x t : Option BaseTy)
    → lift join_key (lift join_key (lift join_key x t) t) t ≡ lift join_key (lift join_key x t) t
unfolding lift join_key
key_settles x t = ground arith

value_settles :
    (x t : Option BaseTy) → lift value_rule (lift value_rule x t) t ≡ lift value_rule x t
unfolding lift value_rule
value_settles x t = ground arith

join_settles : (p t a b : State) → join p t ≡ ok a → join a t ≡ ok b → join b t ≡ ok b
unfolding join
join_settles (some (map x v)) (some (map y w)) a b h k =
    ground (arith, key_settles x y, value_settles v w)
join_settles none (some (map y w)) a b h k =
    ground (arith, key_settles none y, value_settles none w)
join_settles p t a b h k = ground arith

pub bind-eq-ok :
    (m : Result State) (f : State → Result State) {b : State}
    → (m >>= f) ≡ ok b
    → (t : State) × (m ≡ ok t) × (f t ≡ ok b)
bind-eq-ok (ok t) f h = (t, refl, h)
bind-eq-ok err f h = cc

module _ (ds : List State) where
  -- After two rounds over the same dependencies nothing changes any more.
  join_all_settles :
      (p a b : State) → join_all p ds ≡ ok a → join_all a ds ≡ ok b → join_all b ds ≡ ok b
  join_all_settles p a b h k =
      let (t, total, at) = bind-eq-ok (join_all none ds) (join p) (sym (join_all-join p ds) ∙ h) in
      let step = λ (s : State). (join_all-join s ds ∙ ap (λ m. m >>= join s) total) in
      step b ∙ join_settles p t a b at (sym (step a) ∙ k)

eq_state_refl : (s : State) → eq_state s s ≡ true
unfolding eq_state
eq_state_refl none = refl
eq_state_refl (some (iter x)) = ground arith
eq_state_refl (some (scalar x)) = ground arith
eq_state_refl (some (map x v)) = ground arith

pub step-eq-ok :
    (p s : State) (ds : List State) (c : Bool) → step var p ds ≡ ok (c, s) → join_all p ds ≡ ok s
unfolding step
step-eq-ok p s ds c h = ground arith

-- Two rounds over the same dependencies are enough: a variable's third update changes nothing
-- and says so.
pub step_settles :
    (p a b : State) (ds : List State) (c d : Bool)
    → step var p ds ≡ ok (c, a)
    → step var a ds ≡ ok (d, b)
    → step var b ds ≡ ok (false, b)
step_settles p a b ds c d h k =
    let done = join_all_settles ds p a b (step-eq-ok p a ds c h) (step-eq-ok a b ds d k) in
    unfold step in rw (done, eq_state_refl)
