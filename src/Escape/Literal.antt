-- ===== src/Escape/Literal.antt =====
-- src/runtime/str_escape.rs: the escapes against readers of string literals.
use frawk.Prelude.{
  ℕ, ◌==◌, ◌≡◌, refl, ap, ◌∙◌, Bool, true, false, ◌&&◌, ◌||◌, ltb, leb, Option, none, some, List,
  [], ◌∷◌, ◌++◌, if◌then◌else◌, arith,
}
use frawk.Escape.{replace, json_code, escape_json, escape_sql}

-- What the character after a backslash stands for in a JSON string, if it is one of the two-character
-- escapes.
json_char : ℕ → Option ℕ
json_char c =
    if c == b'"' || c == b'\\' || c == b'/'
    then some c
    else if c == b'b'
    then some 8
    else if c == b'f'
    then some 12
    else if c == b'n'
    then some b'\n'
    else if c == b'r'
    then some b'\r'
    else if c == b't'
    then some b'\t'
    else none

push : ℕ → Option (List ℕ × List ℕ) → Option (List ℕ × List ℕ)
push c none = none
push c (some (text, rest)) = some (c ∷ text, rest)

-- The characters of a JSON string up to its closing quote, and what follows the quote. A control
-- character that stands for itself makes it no JSON string. The escapes by number are not read.
unfoldable pub read_json : List ℕ → Option (List ℕ × List ℕ)
unfolding json_char push
read_json [] = none
read_json (c ∷ []) = if c == b'"' then some ([], []) else none
read_json (c ∷ d ∷ rest) =
    let after_two = read_json rest in
    let after_one = read_json (d ∷ rest) in
    if c == b'"'
    then some ([], d ∷ rest)
    else if c == b'\\'
    then elim (json_char d) [ none ↦ none | some e ↦ push e after_two ]
    else if ltb c 32
    then none
    else push c after_one

read_json_plain :
    (c : ℕ) (xs : List ℕ)
    → ltb c 32 ≡ false
    → (c == b'"') ≡ false
    → (c == b'\\') ≡ false
    → read_json (c ∷ xs) ≡ push c (read_json xs)
unfolding read_json push
read_json_plain c [] g h k = rw h refl
read_json_plain c (d ∷ xs) g h k = rw (h, k, g) refl

read_json_control : (c : ℕ) (xs : List ℕ) → ltb c 32 ≡ true → read_json (c ∷ xs) ≡ none
unfolding read_json
read_json_control c [] h = ground (arith, h)
read_json_control c (d ∷ xs) h = ground (arith, h)

-- A character that is not a control character, or is one with an escape of its own in JSON: backspace,
-- tab, line feed, form feed or carriage return.
abbrev pub has_escape : ℕ → Bool
has_escape c = leb 32 c || c == 8 || c == 9 || c == 10 || c == 12 || c == 13

abbrev pub all_escape : List ℕ → Bool
all_escape [] = true
all_escape (c ∷ text) = has_escape c && all_escape text

read_json_code :
    (c : ℕ) (xs : List ℕ)
    → read_json (json_code c ++ xs) ≡ (if has_escape c then push c (read_json xs) else none)
unfolding read_json json_code json_char
read_json_code c xs = ground (arith, read_json_plain c xs, read_json_control c xs)

read_json_end : (rest : List ℕ) → read_json (b'"' ∷ rest) ≡ some ([], rest)
unfolding read_json
read_json_end [] = refl
read_json_end (d ∷ rest) = refl

append_assoc : (xs ys zs : List ℕ) → (xs ++ ys) ++ zs ≡ xs ++ (ys ++ zs)
append_assoc [] ys zs = refl
append_assoc (x ∷ xs) ys zs = ap (λ t. x ∷ t) (append_assoc xs ys zs)

push_if :
    (c : ℕ) (first others : Bool) (text rest : List ℕ)
    → (if first then push c (if others then some (text, rest) else none) else none)
      ≡ (if first && others then some (c ∷ text, rest) else none)
unfolding push
push_if c first others text rest = ground arith

-- A JSON reader that starts behind the opening quote gets the text back, and stops at the closing
-- quote, if the text has no control character but backspaces, tabs, line feeds, form feeds and
-- carriage returns. A text with another control character it refuses.
pub read_json-escape_json :
    (text rest : List ℕ)
    → read_json (escape_json text ++ b'"' ∷ rest)
      ≡ (if all_escape text then some (text, rest) else none)
unfolding escape_json push
read_json-escape_json [] rest = read_json_end rest
read_json-escape_json (c ∷ text) rest =
    ap read_json (append_assoc (json_code c) (escape_json text) (b'"' ∷ rest))
    ∙ read_json_code c (escape_json text ++ b'"' ∷ rest)
    ∙ rw (read_json-escape_json text rest) (push_if c (has_escape c) (all_escape text) text rest)

-- The characters of an SQL string up to its closing quote, and what follows the quote.
unfoldable pub read_sql : List ℕ → Option (List ℕ × List ℕ)
unfolding push
read_sql [] = none
read_sql (c ∷ []) = if c == b'\'' then some ([], []) else none
read_sql (c ∷ d ∷ rest) =
    let after_two = read_sql rest in
    let after_one = read_sql (d ∷ rest) in
    if c == b'\''
    then if d == b'\'' then push c after_two else some ([], d ∷ rest)
    else push c after_one

read_sql_code :
    (c : ℕ) (xs : List ℕ)
    → read_sql ((if c == b'\'' then b'\'' ∷ b'\'' ∷ [] else c ∷ []) ++ xs) ≡ push c (read_sql xs)
unfolding read_sql push
read_sql_code c [] = ground arith
read_sql_code c (d ∷ xs) = ground arith

-- An SQL reader that starts behind the opening quote gets the text back, and stops at the closing
-- quote, unless another quote follows that one.
pub read_sql-escape_sql :
    (text rest : List ℕ)
    → (head : ℕ) → (head == b'\'') ≡ false
    → read_sql (escape_sql text ++ b'\'' ∷ head ∷ rest) ≡ some (text, head ∷ rest)
unfolding escape_sql replace push
read_sql-escape_sql [] rest head h = unfold read_sql in rw h refl
read_sql-escape_sql (c ∷ text) rest head h =
    ap read_sql (
      append_assoc (if c == b'\'' then b'\'' ∷ b'\'' ∷ [] else c ∷ [])
        (replace b'\'' (b'\'' ∷ b'\'' ∷ []) text) (b'\'' ∷ head ∷ rest))
    ∙ read_sql_code c (replace b'\'' (b'\'' ∷ b'\'' ∷ []) text ++ b'\'' ∷ head ∷ rest)
    ∙ ap (push c) (read_sql-escape_sql text rest head h)
