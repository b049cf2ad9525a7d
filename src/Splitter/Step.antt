-- ===== src/Splitter/Step.antt =====
-- src/runtime/splitter/batch.rs: `Stepper::step`, one turn of its loop at a time.
use frawk.Prelude.{
  ℕ, zero, suc, ◌+◌, ◌-◌, none, some, List, [], ◌∷◌, get_elem?, length, ◌==◌, ◌||◌, if◌then◌else◌,
}
use frawk.Pushdown.{get}
use frawk.Splitter.{
  InputFormat, csv, tsv, State, init, bs, quote, quote_in_quote, done, Stepper, drop, append,
  push_past, promote, promote_null, finish,
}

-- A turn goes on with the offsets that are left, ends the step, or has no defined result: it reads
-- the buffer past its end, or panics.
pub data Turn : Type 0 where
  next : Stepper → List ℕ → Turn
  stop : Stepper → Turn
  undefined : Turn

unfoldable pub bs_transition : InputFormat → State
bs_transition csv = quote
bs_transition tsv = init

-- The values that `step` computes before its loop, and `cur`, from the offsets that are left.
pub record Frame : Type 0 where
  pub line_start : ℕ
  pub buf_len : ℕ

abbrev in_state : Stepper → State → Stepper
in_state s st = record s { st = st }

-- `cur`, the index of the first of the offsets that are left.
abbrev pub cur : Stepper → List ℕ → ℕ
cur s rest = length s.fields - length rest

-- The end of `get_next!` without an offset: the buffer is used up.
unfoldable pub run_dry : Frame → Stepper → Turn
unfolding push_past finish
run_dry f s = stop (finish (push_past s f.buf_len) f.line_start f.buf_len (length s.fields))

-- The inner loop of `State::Init`, which skips a field that is not read.
unfoldable pub skip : Frame → Stepper → List ℕ → Turn
unfolding promote_null finish
skip f s [] =
    stop (finish (record s { prev_ix = suc f.buf_len }) f.line_start f.buf_len (length s.fields))
skip f s (ix ∷ rest) =
    let on = skip f s rest in
    elim (get_elem? s.buf ix) [
      | none ↦ undefined
      | some b ↦
          if b == b'\r' || b == b'"' || b == b'\\'
          then on
          else if b == b'\n'
          then stop (
              finish (in_state (promote_null (record s { prev_ix = suc ix })) done) f.line_start ix
                (cur s rest))
          else next (promote_null (record s { prev_ix = suc ix })) rest
    ]

-- `State::Init` with a field that is read.
unfoldable pub init_read : Frame → Stepper → List ℕ → Turn
unfolding run_dry push_past promote finish
init_read f s [] = run_dry f s
init_read f s (ix ∷ rest) = elim (get_elem? s.buf ix) [
  | none ↦ undefined
  | some b ↦
      if b == b'\r'
      then next (push_past s ix) rest
      else if b == b'\n'
      then stop (finish (in_state (promote (push_past s ix)) done) f.line_start ix (cur s rest))
      else if b == b'"'
      then next (in_state (push_past s ix) quote) rest
      else if b == b'\\'
      then next (in_state (push_past s ix) bs) rest
      else next (promote (push_past s ix)) rest
]

-- `State::Quote`; other bytes are `unreachable!()`.
unfoldable pub in_quote : Frame → Stepper → List ℕ → Turn
unfolding run_dry push_past
in_quote f s [] = run_dry f s
in_quote f s (ix ∷ rest) = elim (get_elem? s.buf ix) [
  | none ↦ undefined
  | some b ↦
      if b == b'"'
      then next (in_state (push_past s ix) quote_in_quote) rest
      else if b == b'\\'
      then next (in_state (push_past s ix) bs) rest
      else undefined
]

-- An escaped quote: its second offset is dropped.
unfoldable pub burn_quote : Frame → Stepper → List ℕ → Turn
unfolding run_dry
burn_quote f s [] = run_dry f s
burn_quote f s (q ∷ rest) = next (record s { prev_ix = suc s.prev_ix }) rest

-- `State::QuoteInQuote`
unfoldable pub after_quote : Frame → Stepper → List ℕ → Turn
unfolding append finish burn_quote
after_quote f s rest =
    if f.buf_len == s.prev_ix
    then stop (finish s f.line_start f.buf_len (cur s rest))
    else elim (get_elem? s.buf s.prev_ix) [
      | none ↦ undefined
      | some b ↦
          if b == b'"'
          then burn_quote f (in_state (append s (b'"' ∷ [])) quote) rest
          else next (in_state s init) rest
    ]

-- The bytes that an escape sequence stands for.
unfoldable pub unescape : ℕ → List ℕ
unescape x =
    if x == b'n'
    then b'\n' ∷ []
    else if x == b't'
    then b'\t' ∷ []
    else if x == b'\\'
    then b'\\' ∷ []
    else b'\\' ∷ x ∷ []

-- `State::BS`
unfoldable pub after_backslash : Frame → Stepper → List ℕ → Turn
unfolding append finish unescape bs_transition
after_backslash f s rest =
    if f.buf_len == s.prev_ix
    then stop (finish s f.line_start f.buf_len (cur s rest))
    else elim (get_elem? s.buf s.prev_ix) [
      | none ↦ undefined
      | some x ↦
          next
            (record (append s (unescape x)) { prev_ix = suc s.prev_ix; st = bs_transition s.ifmt })
            rest
    ]

-- What the loop does in each state.
unfoldable pub turn_in : State → Frame → Stepper → List ℕ → Turn
turn_in init f s rest =
    if get s.field_set (suc (length s.line.fields)) then init_read f s rest else skip f s rest
turn_in quote f s rest = in_quote f s rest
turn_in quote_in_quote f s rest = after_quote f s rest
turn_in bs f s rest = after_backslash f s rest
turn_in done f s rest = undefined

-- One turn of the loop of `step`.
unfoldable pub turn : Frame → Stepper → List ℕ → Turn
unfolding turn_in
turn f s rest = turn_in s.st f s rest

pub data Stepped : Type 0 where
  stepped : Stepper → Stepped
  undefined : Stepped
  out_of_fuel : Stepped

unfoldable pub run : ℕ → Frame → Stepper → List ℕ → Stepped
run zero f s rest = out_of_fuel
run (suc fuel) f s rest = elim (turn f s rest) [
  | next s' rest' ↦ run fuel f s' rest'
  | stop s' ↦ stepped s'
  | undefined ↦ undefined
]

-- Enough fuel for a step over so many offsets.
abbrev pub enough : ℕ → ℕ
enough offsets = 3 + (offsets + offsets)

-- `Stepper::step`, which returns the `prev_ix` of the stepper that it leaves.
unfoldable pub step : Stepper → Stepped
unfolding run
step s =
    let rest = drop s.start s.fields in
    run (enough (length rest)) (record { line_start = s.prev_ix; buf_len = length s.buf }) s rest
