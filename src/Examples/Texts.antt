-- ===== src/Examples/Texts.antt =====
-- src/runtime/str_escape.rs: a text with a quote, a tab, a line feed and an ampersand.
use frawk.Prelude.{ℕ, ◌≡◌, refl, false, some, List, [], ◌∷◌, ◌++◌, contains}
use frawk.Escape.{escape_csv, escape_tsv, escape_json, escape_sql, escape_xml}
use frawk.Escape.Literal.{read_json, read_sql, read_json-escape_json, read_sql-escape_sql}
use frawk.Escape.Unique.{contains-escape_xml, escape_xml-injective}
use frawk.Escape.Lines.{escaped_lines}

abbrev text : List ℕ
text = b'a' ∷ b'"' ∷ b'\t' ∷ b'\'' ∷ b'\n' ∷ b'&' ∷ []

abbrev rest : List ℕ
rest = b',' ∷ b'1' ∷ []

read_json-escape_json_example : read_json (escape_json text ++ b'"' ∷ rest) ≡ some (text, rest)
read_json-escape_json_example = read_json-escape_json text rest

read_sql-escape_sql_example : read_sql (escape_sql text ++ b'\'' ∷ rest) ≡ some (text, rest)
read_sql-escape_sql_example = read_sql-escape_sql text (b'1' ∷ []) b',' refl

contains-escape_xml_example : contains b'"' (escape_xml text) ≡ false
contains-escape_xml_example = contains-escape_xml b'"' text refl

escape_xml-injective_example : text ≡ text
escape_xml-injective_example = escape_xml-injective text text refl

escaped_lines_example :
    (contains b'\n' (escape_csv text) ≡ false) × (contains b'\n' (escape_tsv text) ≡ false)
escaped_lines_example = escaped_lines text

-- A text with a tab and one with a backslash before a `t` have the same escape.
same_escape : escape_csv (b',' ∷ b'\t' ∷ []) ≡ escape_csv (b',' ∷ b'\\' ∷ b't' ∷ [])
unfolding escape_csv
same_escape = refl
