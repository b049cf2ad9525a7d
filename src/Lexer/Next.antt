-- ===== src/Lexer/Next.antt =====
-- src/lexer.rs: `Tokenizer::new`, locations, and the iterator over the tokens.
use frawk.Prelude.{
  ℕ, zero, suc, ◌+◌, ◌-◌, Bool, true, false, ◌&&◌, ◌==◌, ltb, Option, none, some, List, [], ◌∷◌,
  if◌then◌else◌, get_elem?,
}
use frawk.Builtins.{Outcome, done, panics, at, ◌>>=◌}
use frawk.Lexer.{Loc, Tok, Tokenizer, Library, is_id_start}
use frawk.Lexer.Text.{as_bytes, byte_len, len_utf8, slice_from}
use frawk.Lexer.Keywords.{keywords, get, keyword}
use frawk.Lexer.Scan.{advance, ident, literal, potential_re}

-- `desc` of `Error`
pub data Desc : Type 0 where
  incomplete_regex incomplete_string : Desc

-- What the iterator yields.
pub data Lexed : Type 0 where
  token : Loc → Tok → Loc → Lexed
  error : Loc → Desc → Lexed

-- `text.trim_end_matches('\n')`
unfoldable pub trim_end : List ℕ → List ℕ
trim_end [] = []
trim_end (c ∷ text) = elim (trim_end text) [
  | [] ↦ if c == b'\n' then [] else c ∷ []
  | d ∷ rest ↦ c ∷ d ∷ rest
]

-- The offsets of the line feeds in the bytes, of which the first has offset `ix`.
unfoldable pub newlines : ℕ → List ℕ → List ℕ
newlines ix [] = []
newlines ix (b ∷ bytes) =
    if b == b'\n' then ix ∷ newlines (ix + 1) bytes else newlines (ix + 1) bytes

unfoldable pub new : List ℕ → Tokenizer
unfolding trim_end newlines as_bytes
new text = record {
  text = trim_end text;
  cur = 0;
  prev_tok = none;
  lines = newlines 0 (as_bytes text);
}

pub data Search : Type 0 where
  found missing : ℕ → Search

-- `binary_search` on an increasing list, whose first item has index `i`.
unfoldable pub search_from : ℕ → ℕ → List ℕ → Search
search_from i n [] = missing i
search_from i n (x ∷ xs) =
    if x == n then found i else if ltb n x then missing i else search_from (suc i) n xs

-- `ix - self.lines[k] - 1`
unfoldable pub column : List ℕ → ℕ → ℕ → Outcome ℕ
column lines ix k =
    at lines k >>= λ line_end. if ltb line_end ix then done (ix - line_end - 1) else panics

-- The arms of `index_to_loc`.
unfoldable pub loc_at : List ℕ → ℕ → Search → Outcome Loc
unfolding column
loc_at lines ix (found zero) = done (record { line = 0; col = ix; offset = ix })
loc_at lines ix (missing zero) = done (record { line = 0; col = ix; offset = ix })
loc_at lines ix (found (suc k)) =
    column lines ix k >>= λ col. done (record { line = k; col = col; offset = ix })
loc_at lines ix (missing (suc k)) =
    column lines ix k >>= λ col. done (record { line = suc k; col = col; offset = ix })

unfoldable pub index_to_loc : List ℕ → ℕ → Outcome Loc
unfolding search_from loc_at
index_to_loc lines ix = loc_at lines ix (search_from 0 ix lines)

-- `spanned`, and the end of `next`, which remembers the token.
unfoldable pub emit : Tokenizer → ℕ → Tok → Outcome (Option Lexed × Tokenizer)
unfolding index_to_loc
emit t start tok = index_to_loc t.lines start >>= λ l. index_to_loc t.lines t.cur >>= λ r.
    done (some (token l tok r), record t { prev_tok = some tok })

abbrev pub move : Tokenizer → ℕ → Tokenizer
move t n = record t { cur = t.cur + n }

unfoldable pub read_literal :
    Tokenizer → ℕ → (List ℕ → Tok) → Desc → Outcome (Option Lexed × Tokenizer)
unfolding literal emit index_to_loc
read_literal t delim tok desc = literal (move t 1) delim >>= λ found. elim found [
  | none ↦ index_to_loc t.lines (t.cur + 1) >>= λ loc. done (some (error loc desc), move t 1)
  | some (lit, new_start) ↦ emit (record t { cur = new_start }) t.cur (tok lit)
]

unfoldable pub fundec : Library → Tokenizer → Outcome (Option (Tok × ℕ))
unfolding slice_from keywords get as_bytes byte_len
fundec l t = slice_from t.text t.cur >>= λ rest. elim (l.fn_pattern rest) [
  | none ↦ done none
  | some (full, name) ↦ elim (get (as_bytes name) keywords) [
    | none ↦ done (some (Tok.fun_dec name, byte_len full))
    | some k ↦ done none
  ]
]

unfoldable pub num : Library → Tokenizer → Outcome (Option (Tok × ℕ))
unfolding slice_from byte_len
num l t = slice_from t.text t.cur >>= λ rest. elim (l.hex_pattern rest) [
  | some i ↦ done (some (Tok.hex_lit i, byte_len i))
  | none ↦ elim (l.float_pattern rest) [
    | some f ↦ done (some (Tok.f_lit f, byte_len f))
    | none ↦ elim (l.int_pattern rest) [
      | some i ↦ done (some (Tok.i_lit i, byte_len i))
      | none ↦ done none
    ]
  ]
]

-- The identifier, or the name of a call with its parenthesis, from the byte behind it.
unfoldable pub name_token : Tokenizer → List ℕ → ℕ → Option ℕ → Outcome (Option Lexed × Tokenizer)
unfolding emit
name_token t name ix none = emit (record t { cur = ix }) t.cur (Tok.ident name)
name_token t name ix (some b) =
    if b == b'('
    then emit (record t { cur = ix + 1 }) t.cur (Tok.call_start name)
    else emit (record t { cur = ix }) t.cur (Tok.ident name)

unfoldable pub read_ident : Library → Tokenizer → ℕ → Outcome (Option Lexed × Tokenizer)
unfolding ident as_bytes byte_len name_token len_utf8
read_ident l t c = ident l (move t (len_utf8 c)) t.cur >>= λ read.
    name_token t read.0 read.1 (get_elem? (as_bytes t.text) read.1)

-- The token that was found, if there is one.
unfoldable pub emit_or :
    Tokenizer
    → Option (Tok × ℕ)
    → Outcome (Option Lexed × Tokenizer)
    → Outcome (Option Lexed × Tokenizer)
unfolding emit
emit_or t none other = other
emit_or t (some (tok, len)) other = emit (move t len) t.cur tok

unfoldable pub read_other : Library → Tokenizer → ℕ → Outcome (Option Lexed × Tokenizer)
unfolding fundec keyword num emit_or read_ident is_id_start
read_other l t c = fundec l t >>= λ dec. emit_or t dec (
    keyword t >>= λ word. emit_or t word (
      num l t >>= λ number.
      emit_or t number (if is_id_start l c then read_ident l t c else done (none, t))))

abbrev pub is_newline : Option Tok → Bool
is_newline (some Tok.newline) = true
is_newline _ = false

-- `next` once the white space is behind.
unfoldable pub read_token : Library → Tokenizer → List ℕ → Outcome (Option Lexed × Tokenizer)
unfolding read_literal read_other emit potential_re
read_token l t [] = if is_newline t.prev_tok then done (none, t) else emit t t.cur Tok.newline
read_token l t (c ∷ rest) =
    if c == b'"'
    then read_literal t b'"' Tok.str_lit incomplete_string
    else if (c == b'/') && potential_re t.prev_tok
    then read_literal t b'/' Tok.pat_lit incomplete_regex
    else read_other l t c

-- `next`, with fuel for the rounds of `advance`; `none` means that it ran out.
unfoldable pub next : Library → ℕ → Tokenizer → Outcome (Option (Option Lexed × Tokenizer))
unfolding advance read_token slice_from
next l fuel t = advance fuel t >>= λ advanced. elim advanced [
  | none ↦ done none
  | some t' ↦
      slice_from t'.text t'.cur >>= λ rest. read_token l t' rest >>= λ result. done (some result)
]
