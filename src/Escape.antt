-- ===== src/Escape.antt =====
-- src/runtime/str_escape.rs: escaping of text for other formats. A text is the list of its code
-- points.
pub mod Unique
pub mod Format
pub mod Lines
pub mod Literal
use frawk.Prelude.{ℕ, ◌==◌, ◌||◌, List, [], ◌∷◌, ◌++◌, if◌then◌else◌, contains}

-- `str::replace`, of one character.
unfoldable pub replace : ℕ → List ℕ → List ℕ → List ℕ
replace c to [] = []
replace c to (x ∷ text) = (if x == c then to else x ∷ []) ++ replace c to text

-- `format!("\"{}\"", text)`
abbrev pub in_quotes : List ℕ → List ℕ
in_quotes text = b'"' ∷ text ++ b'"' ∷ []

unfoldable pub escape_csv : List ℕ → List ℕ
unfolding replace
escape_csv text =
    if contains b',' text || contains b'\n' text || contains b'"' text
    then in_quotes (
        replace b'\n' (b'\\' ∷ b'n' ∷ [])
          (replace b'\t' (b'\\' ∷ b't' ∷ []) (replace b'"' (b'"' ∷ b'"' ∷ []) text)))
    else text

unfoldable pub escape_tsv : List ℕ → List ℕ
unfolding replace
escape_tsv text =
    if contains b'\t' text || contains b'\n' text || contains b'"' text
    then in_quotes (
        replace b'"' (b'"' ∷ b'"' ∷ [])
          (replace b'\n' (b'\\' ∷ b'n' ∷ []) (replace b'\t' (b'\\' ∷ b't' ∷ []) text)))
    else text

-- The arms of the loop of `escape_json`.
unfoldable pub json_code : ℕ → List ℕ
json_code c =
    if c == b'"'
    then b'\\' ∷ b'"' ∷ []
    else if c == b'\\'
    then b'\\' ∷ b'\\' ∷ []
    else if c == 8
    then b'\\' ∷ b'b' ∷ []
    else if c == 12
    then b'\\' ∷ b'f' ∷ []
    else if c == b'\n'
    then b'\\' ∷ b'n' ∷ []
    else if c == b'\r'
    then b'\\' ∷ b'r' ∷ []
    else if c == b'\t'
    then b'\\' ∷ b't' ∷ []
    else c ∷ []

unfoldable pub escape_json : List ℕ → List ℕ
escape_json [] = []
escape_json (c ∷ text) = json_code c ++ escape_json text

unfoldable pub escape_sql : List ℕ → List ℕ
unfolding replace
escape_sql text = replace b'\'' (b'\'' ∷ b'\'' ∷ []) text

-- The arms of the loop of `escape_xml`.
unfoldable pub xml_code : ℕ → List ℕ
xml_code c =
    if c == b'<'
    then b'&' ∷ b'l' ∷ b't' ∷ b';' ∷ []
    else if c == b'>'
    then b'&' ∷ b'g' ∷ b't' ∷ b';' ∷ []
    else if c == b'&'
    then b'&' ∷ b'a' ∷ b'm' ∷ b'p' ∷ b';' ∷ []
    else if c == b'"'
    then b'&' ∷ b'q' ∷ b'u' ∷ b'o' ∷ b't' ∷ b';' ∷ []
    else if c == b'\''
    then b'&' ∷ b'a' ∷ b'p' ∷ b'o' ∷ b's' ∷ b';' ∷ []
    else c ∷ []

unfoldable pub escape_xml : List ℕ → List ℕ
escape_xml [] = []
escape_xml (c ∷ text) = xml_code c ++ escape_xml text
