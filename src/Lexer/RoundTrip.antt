-- ===== src/Lexer/RoundTrip.antt =====
-- src/lexer.rs: reading a string literal back that a printer has written.
use mathlib.Core.List.{append_assoc}
use frawk.Prelude.{
  ℕ, ◌+◌, ◌≡◌, refl, ap, ap₂, ◌∙◌, false, ◌==◌, Option, some, List, [], ◌∷◌, ◌++◌, if◌then◌else◌,
  arith,
}
use frawk.Builtins.{Outcome, done, ◌>>=◌}
use frawk.Lexer.{Tokenizer}
use frawk.Lexer.Text.{
  as_bytes, byte_len, byte_len-append, len_utf8, encode_utf8, slice_from, slice, slice_from-append,
  slice-append,
}
use frawk.Lexer.Strings.{parse_string_literal, literal_bytes, plain}
use frawk.Lexer.Scan.{literal, read_to, bound}

-- A character as a literal spells it.
spell : ℕ → List ℕ
spell c =
    if c == b'"'
    then b'\\' ∷ b'"' ∷ []
    else if c == b'\\'
    then b'\\' ∷ b'\\' ∷ []
    else if c == b'\n'
    then b'\\' ∷ b'n' ∷ []
    else if c == b'\t'
    then b'\\' ∷ b't' ∷ []
    else if c == 7
    then b'\\' ∷ b'a' ∷ []
    else c ∷ []

-- A text between the quotes of a literal.
unfoldable pub print_literal : List ℕ → List ℕ
unfolding spell
print_literal [] = []
print_literal (c ∷ text) = spell c ++ print_literal text

literal_bytes-spell :
    (c : ℕ) (xs : List ℕ)
    → literal_bytes plain (spell c ++ xs) ≡ encode_utf8 c ++ literal_bytes plain xs
unfolding literal_bytes spell
literal_bytes-spell c xs = unfold encode_utf8 in ground arith

bound-spell :
    (c ix : ℕ) (xs : List ℕ)
    → bound b'"' false ix (spell c ++ xs) ≡ bound b'"' false (ix + byte_len (spell c)) xs
unfolding bound spell byte_len len_utf8
bound-spell c ix xs = ground arith

parse-print_literal : (text : List ℕ) → literal_bytes plain (print_literal text) ≡ as_bytes text
unfolding as_bytes print_literal
parse-print_literal [] = unfold literal_bytes in refl
parse-print_literal (c ∷ text) =
    literal_bytes-spell c (print_literal text)
    ∙ ap (λ t. encode_utf8 c ++ t) (parse-print_literal text)

bound-print_literal :
    (text rest : List ℕ) (ix : ℕ)
    → bound b'"' false ix (print_literal text ++ b'"' ∷ rest)
      ≡ some (ix + byte_len (print_literal text))
unfolding print_literal
bound-print_literal [] rest ix = unfold bound byte_len in ap some (omega arith)
bound-print_literal (c ∷ text) rest ix =
    ap (bound b'"' false ix) (append_assoc (spell c) (print_literal text) (b'"' ∷ rest))
    ∙ bound-spell c ix (print_literal text ++ b'"' ∷ rest)
    ∙ bound-print_literal text rest (ix + byte_len (spell c))
    ∙ ap some (omega (arith, byte_len-append (spell c) (print_literal text)))

abbrev found_at : ℕ → List ℕ → Outcome (Option (List ℕ × ℕ))
found_at end lit = done (some (lit, end))

-- Behind the opening quote of a text that a printer has written, `literal` returns what stands between
-- the quotes and the offset behind the closing one, and `parse_string_literal` makes of that the bytes
-- of the text.
pub parse_string_literal-literal :
    (before text rest : List ℕ) (t : Tokenizer)
    → t.text ≡ before ++ (print_literal text ++ b'"' ∷ rest)
    → t.cur ≡ byte_len before
    → (lit : List ℕ) × (literal t b'"' ≡ done (some (lit, t.cur + byte_len lit + 1)))
      × (parse_string_literal lit ≡ as_bytes text)
unfolding literal read_to parse_string_literal
parse_string_literal-literal before text rest t ht hc =
    let lit = print_literal text in
    (
      lit,
      ap₂ (λ x c. slice_from x c >>= λ rest. read_to t (bound b'"' false 0 rest)) ht hc
          ∙ ap (λ r. r >>= λ rest. read_to t (bound b'"' false 0 rest))
              (slice_from-append before (lit ++ b'"' ∷ rest))
          ∙ ap (read_to t) (bound-print_literal text rest 0)
          ∙ ap (λ n. read_to t (some n))
              (let e : 0 + byte_len lit ≡ byte_len lit = omega arith in e)
          ∙ ap₂ (λ x c. slice x c (c + byte_len lit) >>= found_at (t.cur + byte_len lit + 1)) ht hc
          ∙ ap (λ r. r >>= found_at (t.cur + byte_len lit + 1))
              (slice-append before lit (b'"' ∷ rest)),
      parse-print_literal text,
    )
