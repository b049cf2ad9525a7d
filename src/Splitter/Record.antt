-- ===== src/Splitter/Record.antt =====
-- src/runtime/splitter/batch.rs: where a step of `Stepper` stops, and what it reports of the line.
use mathlib.Core.Path.{subst}
use frawk.Prelude.{
  ℕ, zero, suc, ◌-◌, ◌<◌, ◌≡◌, ◌≢◌, refl, sym, ap, true, Option, none, some, List, [], ◌∷◌,
  get_elem?, length, ◌==◌, ==→eq, arith, inl, inr, Bool-cases, ◌∙◌,
}
use frawk.Pushdown.{get}
use frawk.Splitter.{
  State, init, bs, quote, quote_in_quote, done, Stepper, drop, promote_null, append, append_slice,
  push_past, promote, promote_line, promote_null_line, finish, grow,
}
use frawk.Splitter.Step.{
  Turn, next, stop, Frame, run_dry, skip, init_read, in_quote, burn_quote, after_quote,
  after_backslash, turn_in, turn, stepped, run, step,
}

-- What a step that stops in a state has done. Done: the record is complete, the byte before
-- `prev_ix` is the line feed that ends it, and the line's length grew by the bytes before that, on 64 bits.
-- Otherwise the record goes on in the next buffer, and the length grew by what was left of this one.
abbrev pub HasEnded : State → List ℕ → ℕ → Frame → Stepper → Type 0
HasEnded done buf len f s =
    (0 < s.prev_ix)
    × (get_elem? buf (s.prev_ix - 1) ≡ some b'\n')
    × (s.line.len ≡ grow len f.line_start (s.prev_ix - 1))
HasEnded _ buf len f s = s.line.len ≡ grow len f.line_start f.buf_len

abbrev Keeps : List ℕ → ℕ → Frame → Turn → Type 0
Keeps buf len f (next s rest) = (s.buf ≡ buf) × (s.line.len ≡ len)
Keeps buf len f (stop s) = HasEnded s.st buf len f s
Keeps buf len f Turn.undefined = Unit

newline-HasEnded :
    (buf : List ℕ) (len ix b : ℕ) (f : Frame) (s : Stepper)
    → get_elem? buf ix ≡ some b
    → (b == b'\n') ≡ true
    → s.prev_ix ≡ suc ix
    → s.line.len ≡ grow len f.line_start ix
    → HasEnded done buf len f s
newline-HasEnded buf len ix b f s h k e l = (
  omega (arith, e),
  subst (λ i. get_elem? buf i ≡ some b'\n') (omega (arith, e)) (h ∙ ap some (==→eq b b'\n' k)),
  l ∙ ap (grow len f.line_start) (omega (arith, e)),
)

module _ (f : Frame) where
  abbrev KeepsIn : Stepper → Turn → Type 0
  KeepsIn s t = Keeps s.buf s.line.len f t

  run_dry-Keeps : (s : Stepper) → s.st ≢ done → KeepsIn s (run_dry f s)
  unfolding run_dry push_past append_slice append finish
  run_dry-Keeps s h = ground (arith, h)

  skip-Keeps : (s : Stepper) (rest : List ℕ) → s.st ≡ init → KeepsIn s (skip f s rest)
  unfolding skip promote_null promote_null_line finish
  skip-Keeps s [] h = ground (arith, h)
  skip-Keeps s (ix ∷ rest) h = by_byte (get_elem? s.buf ix) refl (skip-Keeps s rest h)
    where
      by_byte :
          (b : Option ℕ)
          → get_elem? s.buf ix ≡ b
          → KeepsIn s (skip f s rest)
          → KeepsIn s (skip f s (ix ∷ rest))
      by_byte none e ih = rw (e, skip) tt
      by_byte (some b) e ih = ground (arith, e, ih, newline-HasEnded s.buf s.line.len ix b f)

  init_read-Keeps : (s : Stepper) (rest : List ℕ) → s.st ≡ init → KeepsIn s (init_read f s rest)
  unfolding init_read run_dry push_past append_slice append promote promote_line finish
  init_read-Keeps s [] h = ground (arith, h)
  init_read-Keeps s (ix ∷ rest) h = by_byte (get_elem? s.buf ix) refl
    where
      by_byte : (b : Option ℕ) → get_elem? s.buf ix ≡ b → KeepsIn s (init_read f s (ix ∷ rest))
      by_byte none e = rw (e, init_read) tt
      by_byte (some b) e = ground (arith, e, newline-HasEnded s.buf s.line.len ix b f)

  in_quote-Keeps : (s : Stepper) (rest : List ℕ) → s.st ≡ quote → KeepsIn s (in_quote f s rest)
  unfolding in_quote run_dry push_past append_slice append finish
  in_quote-Keeps s [] h = ground (arith, h)
  in_quote-Keeps s (ix ∷ rest) h = ground arith

  after_quote-Keeps :
      (s : Stepper) (rest : List ℕ) → s.st ≡ quote_in_quote → KeepsIn s (after_quote f s rest)
  unfolding after_quote append burn_quote run_dry push_past append_slice finish
  after_quote-Keeps s [] h = ground (arith, h)
  after_quote-Keeps s (ix ∷ rest) h = ground (arith, h)

  after_backslash-Keeps :
      (s : Stepper) (rest : List ℕ) → s.st ≡ bs → KeepsIn s (after_backslash f s rest)
  unfolding after_backslash append finish
  after_backslash-Keeps s rest h = ground (arith, h)

  turn_in-Keeps :
      (st : State) (s : Stepper) (rest : List ℕ) → s.st ≡ st → KeepsIn s (turn_in st f s rest)
  unfolding turn_in
  turn_in-Keeps init s rest h = elim (Bool-cases (get s.field_set (suc (length s.line.fields)))) [
    | inl read ↦ rw read (init_read-Keeps s rest h)
    | inr unread ↦ rw unread (skip-Keeps s rest h)
  ]
  turn_in-Keeps quote s rest h = in_quote-Keeps s rest h
  turn_in-Keeps quote_in_quote s rest h = after_quote-Keeps s rest h
  turn_in-Keeps bs s rest h = after_backslash-Keeps s rest h
  turn_in-Keeps done s rest h = tt

  turn-Keeps : (s : Stepper) (rest : List ℕ) → KeepsIn s (turn f s rest)
  unfolding turn
  turn-Keeps s rest = turn_in-Keeps s.st s rest refl

  stepped-injective : {s r : Stepper} → stepped s ≡ stepped r → s ≡ r
  stepped-injective e = cc

  run_further :
      (fuel : ℕ) (s r : Stepper) (rest rest' : List ℕ)
      → turn f s rest ≡ next r rest'
      → run fuel f r rest' ≡ run (suc fuel) f s rest
  unfolding run
  run_further fuel s r rest rest' e = sym (rw (e, run) refl)

  run_stop :
      (fuel : ℕ) (s r : Stepper) (rest : List ℕ)
      → turn f s rest ≡ stop r
      → run (suc fuel) f s rest ≡ stepped r
  unfolding run
  run_stop fuel s r rest e = rw (e, run) refl

  run_undefined :
      (fuel : ℕ) (s : Stepper) (rest : List ℕ) (s' : Stepper)
      → turn f s rest ≡ Turn.undefined
      → run (suc fuel) f s rest ≢ stepped s'
  unfolding run
  run_undefined fuel s rest s' e = rw (e, run) (ground arith)

  run-HasEnded :
      (fuel : ℕ) (s s' : Stepper) (rest : List ℕ) (buf : List ℕ) (len : ℕ)
      → s.buf ≡ buf
      → s.line.len ≡ len
      → run fuel f s rest ≡ stepped s'
      → HasEnded s'.st buf len f s'
  unfolding run
  run-HasEnded zero s s' rest buf len p q h = absurd (ground arith)
  run-HasEnded (suc fuel) s s' rest buf len p q h =
      by_turn (turn f s rest) (rw (← p, ← q) (turn-Keeps s rest)) refl (run-HasEnded fuel)
    where
      by_turn :
          (t : Turn)
          → Keeps buf len f t
          → turn f s rest ≡ t
          → ((r r' : Stepper) (rest' : List ℕ) (buf : List ℕ) (len : ℕ)
              → r.buf ≡ buf
              → r.line.len ≡ len
              → run fuel f r rest' ≡ stepped r'
              → HasEnded r'.st buf len f r')
          → HasEnded s'.st buf len f s'
      by_turn (next r rest') k e ih =
          ih r s' rest' buf len k.0 k.1 (run_further fuel s r rest rest' e ∙ h)
      by_turn (stop r) k e ih =
          subst (λ r. HasEnded r.st buf len f r)
            (stepped-injective (sym (run_stop fuel s r rest e) ∙ h)) k
      by_turn Turn.undefined k e ih = absurd (run_undefined fuel s rest s' e h)

-- A step that returns with the record complete stops just past the line feed that ends it; in
-- that case the line's length grew, on 64 bits, by the bytes from where the step began up to that
-- line feed, and otherwise by those up to the end of the buffer.
pub step-HasEnded :
    (s s' : Stepper)
    → step s ≡ stepped s'
    → HasEnded s'.st s.buf s.line.len (record { line_start = s.prev_ix; buf_len = length s.buf }) s'
unfolding step
step-HasEnded s s' h = run-HasEnded _ _ s s' (drop s.start s.fields) s.buf s.line.len refl refl h
