-- ===== src/Examples/Records.antt =====
-- src/runtime/splitter/batch.rs: one record of CSV text.
use frawk.Prelude.{ℕ, ◌≡◌, ◌≢◌, refl, List, [], ◌∷◌}
use frawk.Pushdown.{all, get}
use frawk.Splitter.{csv, init, done, Stepper, Line, empty_line}
use frawk.Splitter.Step.{stepped, out_of_fuel, step, turn, init_read, in_quote, after_quote}
use frawk.Splitter.Fuel.{step-ne-out_of_fuel}
use frawk.Splitter.Record.{HasEnded, step-HasEnded}

-- The text `a,"b""c"`, a line feed and `d`.
abbrev text : List ℕ
text = b'a' ∷ b',' ∷ b'"' ∷ b'b' ∷ b'"' ∷ b'"' ∷ b'c' ∷ b'"' ∷ b'\n' ∷ b'd' ∷ []

abbrev before : Stepper
before = record {
  ifmt = csv;
  buf = text;
  fields = 1 ∷ 2 ∷ 4 ∷ 5 ∷ 7 ∷ 8 ∷ [];
  start = 0;
  prev_ix = 0;
  st = init;
  line = empty_line;
  field_set = all;
}

abbrev first_line : Line
first_line = record {
  raw = b'a' ∷ b',' ∷ b'"' ∷ b'b' ∷ b'"' ∷ b'"' ∷ b'c' ∷ b'"' ∷ [];
  len = 8;
  fields = (b'a' ∷ []) ∷ (b'b' ∷ b'"' ∷ b'c' ∷ []) ∷ [];
  partial = [];
}

abbrev after : Stepper
after = record before { start = 6; prev_ix = 9; st = done; line = first_line }

reads_first_line : step before ≡ stepped after
unfolding step turn get init_read in_quote after_quote
reads_first_line = refl

step-HasEnded_example : HasEnded done text 0 (record { line_start = 0; buf_len = 10 }) after
step-HasEnded_example = step-HasEnded before after reads_first_line

step-ne-out_of_fuel_example : step before ≢ out_of_fuel
step-ne-out_of_fuel_example = step-ne-out_of_fuel before
