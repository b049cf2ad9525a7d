-- ===== src/Escape/Lines.antt =====
-- src/runtime/str_escape.rs: line feeds and the escapes for CSV and TSV.
use frawk.Prelude.{
  ℕ, ◌==◌, ◌≡◌, refl, ◌∙◌, Bool, false, ◌||◌, List, [], ◌∷◌, if◌then◌else◌, arith, contains, inl,
  inr, Bool-cases,
}
use frawk.Escape.{replace, in_quotes, escape_csv, escape_tsv}
use frawk.Escape.Unique.{contains-append}

contains-replace :
    (k : ℕ) (to text : List ℕ) → contains k to ≡ false → contains k (replace k to text) ≡ false
unfolding replace
contains-replace k to [] h = refl
contains-replace k to (x ∷ text) h =
    contains-append k (if x == k then to else x ∷ []) (replace k to text)
    ∙ ground (arith, h, contains-replace k to text h)

contains_after_replace :
    (k c : ℕ) (to text : List ℕ)
    → contains k to ≡ false
    → contains k text ≡ false
    → contains k (replace c to text) ≡ false
unfolding replace
contains_after_replace k c to [] h g = refl
contains_after_replace k c to (x ∷ text) h g =
    contains-append k (if x == c then to else x ∷ []) (replace c to text)
    ∙ ground (arith, h, g, contains_after_replace k c to text h)

abbrev newline_code : List ℕ
newline_code = b'\\' ∷ b'n' ∷ []

in_quotes_line :
    (text : List ℕ) → contains b'\n' text ≡ false → contains b'\n' (in_quotes text) ≡ false
in_quotes_line text h = contains-append b'\n' text (b'"' ∷ []) ∙ rw h refl

no_line : (a b c : Bool) → (a || b || c) ≡ false → b ≡ false
no_line a b c h = ground arith

-- An escaped CSV field has no line feed.
contains-escape_csv : (text : List ℕ) → contains b'\n' (escape_csv text) ≡ false
unfolding escape_csv
contains-escape_csv text =
    elim (Bool-cases (contains b',' text || contains b'\n' text || contains b'"' text)) [
      | inl special ↦
          let tabs = replace b'\t' (b'\\' ∷ b't' ∷ []) (replace b'"' (b'"' ∷ b'"' ∷ []) text) in
          rw special (
            in_quotes_line (replace b'\n' newline_code tabs)
              (contains-replace b'\n' newline_code tabs refl))
      | inr plain ↦
          rw plain (no_line (contains b',' text) (contains b'\n' text) (contains b'"' text) plain)
    ]

-- An escaped TSV field has no line feed.
contains-escape_tsv : (text : List ℕ) → contains b'\n' (escape_tsv text) ≡ false
unfolding escape_tsv
contains-escape_tsv text =
    elim (Bool-cases (contains b'\t' text || contains b'\n' text || contains b'"' text)) [
      | inl special ↦
          let tabs = replace b'\t' (b'\\' ∷ b't' ∷ []) text in
          let lines = replace b'\n' newline_code tabs in
          rw special (
            in_quotes_line (replace b'"' (b'"' ∷ b'"' ∷ []) lines) (
              contains_after_replace b'\n' b'"' (b'"' ∷ b'"' ∷ []) lines refl
                (contains-replace b'\n' newline_code tabs refl)))
      | inr plain ↦
          rw plain (no_line (contains b'\t' text) (contains b'\n' text) (contains b'"' text) plain)
    ]

-- An escaped CSV field has no line feed, and neither has an escaped TSV field.
pub escaped_lines :
    (text : List ℕ)
    → (contains b'\n' (escape_csv text) ≡ false) × (contains b'\n' (escape_tsv text) ≡ false)
escaped_lines text = (contains-escape_csv text, contains-escape_tsv text)
