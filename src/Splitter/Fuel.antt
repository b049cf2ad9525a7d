-- ===== src/Splitter/Fuel.antt =====
-- src/runtime/splitter/batch.rs: how many turns the loop of `Stepper::step` takes.
use frawk.Prelude.{
  ℕ, zero, suc, ◌+◌, ◌<◌, ◌≤◌, ◌≡◌, ◌≢◌, refl, List, [], ◌∷◌, length, arith, inl, inr, Bool-cases,
}
use frawk.Pushdown.{get}
use frawk.Splitter.{
  InputFormat, State, init, bs, quote, quote_in_quote, done, csv, tsv, Stepper, drop, promote_null,
  append, push_past, promote,
}
use frawk.Splitter.Step.{
  Turn, next, stop, Frame, run_dry, skip, init_read, in_quote, burn_quote, after_quote,
  after_backslash, turn_in, turn, bs_transition, out_of_fuel, run, step,
}

-- A state that looks at the next byte takes a turn without an offset.
abbrev pending : State → ℕ
pending quote_in_quote = 1
pending bs = 1
pending _ = 0

abbrev measure : Stepper → List ℕ → ℕ
measure s rest = pending s.st + (length rest + length rest)

abbrev Smaller : ℕ → Turn → Type 0
Smaller m (next s rest) = measure s rest < m
Smaller m t = Unit

Smaller-le : (m n : ℕ) (t : Turn) → m ≤ n → Smaller m t → Smaller n t
Smaller-le m n (next s rest) h k = omega (arith, h, k)
Smaller-le m n (stop s) h k = tt
Smaller-le m n Turn.undefined h k = tt

skip-Smaller :
    (f : Frame) (s : Stepper) (rest : List ℕ) (m : ℕ)
    → s.st ≡ init
    → length rest + length rest ≤ m
    → Smaller m (skip f s rest)
unfolding skip promote_null
skip-Smaller f s [] m h k = tt
skip-Smaller f s (ix ∷ rest) m h k = ground (arith, skip-Smaller f s rest m h)

init_read-Smaller :
    (f : Frame) (s : Stepper) (rest : List ℕ)
    → s.st ≡ init
    → Smaller (length rest + length rest) (init_read f s rest)
unfolding init_read run_dry push_past promote
init_read-Smaller f s [] h = tt
init_read-Smaller f s (ix ∷ rest) h = ground arith

in_quote-Smaller :
    (f : Frame) (s : Stepper) (rest : List ℕ)
    → Smaller (length rest + length rest) (in_quote f s rest)
unfolding in_quote run_dry push_past
in_quote-Smaller f s [] = tt
in_quote-Smaller f s (ix ∷ rest) = ground arith

after_quote-Smaller :
    (f : Frame) (s : Stepper) (rest : List ℕ)
    → Smaller (1 + (length rest + length rest)) (after_quote f s rest)
unfolding after_quote append burn_quote run_dry
after_quote-Smaller f s [] = ground arith
after_quote-Smaller f s (ix ∷ rest) = ground arith

pending-bs_transition : (i : InputFormat) → pending (bs_transition i) ≡ 0
unfolding bs_transition
pending-bs_transition csv = refl
pending-bs_transition tsv = refl

after_backslash-Smaller :
    (f : Frame) (s : Stepper) (rest : List ℕ)
    → Smaller (1 + (length rest + length rest)) (after_backslash f s rest)
unfolding after_backslash append
after_backslash-Smaller f s rest = ground (arith, pending-bs_transition s.ifmt)

turn_in-Smaller :
    (st : State) (f : Frame) (s : Stepper) (rest : List ℕ)
    → s.st ≡ st
    → Smaller (pending st + (length rest + length rest)) (turn_in st f s rest)
unfolding turn_in
turn_in-Smaller init f s rest h = elim (Bool-cases (get s.field_set (suc (length s.line.fields)))) [
  | inl read ↦
      rw read (Smaller-le _ _ (init_read f s rest) (omega arith) (init_read-Smaller f s rest h))
  | inr unread ↦ rw unread (skip-Smaller f s rest _ h (omega arith))
]
turn_in-Smaller quote f s rest h =
    Smaller-le _ _ (in_quote f s rest) (omega arith) (in_quote-Smaller f s rest)
turn_in-Smaller quote_in_quote f s rest h = after_quote-Smaller f s rest
turn_in-Smaller bs f s rest h = after_backslash-Smaller f s rest
turn_in-Smaller done f s rest h = tt

turn-Smaller : (f : Frame) (s : Stepper) (rest : List ℕ) → Smaller (measure s rest) (turn f s rest)
unfolding turn
turn-Smaller f s rest = turn_in-Smaller s.st f s rest refl

run-ne-out_of_fuel :
    (fuel : ℕ) (f : Frame) (s : Stepper) (rest : List ℕ)
    → measure s rest < fuel
    → run fuel f s rest ≢ out_of_fuel
unfolding run
run-ne-out_of_fuel zero f s rest h = absurd (omega arith)
run-ne-out_of_fuel (suc fuel) f s rest h =
    by_turn (turn f s rest) (turn-Smaller f s rest) refl (run-ne-out_of_fuel fuel f)
  where
    by_turn :
        (t : Turn)
        → Smaller (measure s rest) t
        → turn f s rest ≡ t
        → ((s' : Stepper) (rest' : List ℕ)
            → measure s' rest' < fuel
            → run fuel f s' rest' ≢ out_of_fuel)
        → run (suc fuel) f s rest ≢ out_of_fuel
    by_turn (next s' rest') lt e ih = rw (e, run) (ih s' rest' (omega (arith, lt, h)))
    by_turn (stop s') lt e ih = rw (e, run) (ground arith)
    by_turn Turn.undefined lt e ih = rw (e, run) (ground arith)

pending-le-one : (st : State) → pending st ≤ 1
pending-le-one st = ground arith

-- The loop of a step ends: it takes at most three turns more than twice the offsets that are left.
pub step-ne-out_of_fuel : (s : Stepper) → step s ≢ out_of_fuel
unfolding step
step-ne-out_of_fuel s =
    run-ne-out_of_fuel _ _ s (drop s.start s.fields) (omega (arith, pending-le-one s.st))
