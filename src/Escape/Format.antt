-- ===== src/Escape/Format.antt =====
-- src/runtime/str_escape.rs: `escape`, by the name of the format.
use text.Mathlib.Text.{◌==◌}
use frawk.Prelude.{ℕ, String, ◌||◌, List, if◌then◌else◌}
use frawk.Escape.{escape_csv, escape_tsv, escape_json, escape_sql, escape_xml}

-- The shell's escaping is the library's, so it is a parameter.
unfoldable pub escape : (List ℕ → List ℕ) → String → List ℕ → List ℕ
escape escape_shell format text =
    if format == "csv"
    then escape_csv text
    else if format == "tsv"
    then escape_tsv text
    else if format == "json"
    then escape_json text
    else if format == "sql"
    then escape_sql text
    else if format == "shell"
    then escape_shell text
    else if format == "xml" || format == "html"
    then escape_xml text
    else text
