-- ===== src/Lexer/Scan.antt =====
-- src/lexer.rs: the scanners of the tokenizer that its patterns do not cover: white space, comments,
-- identifiers and literals. `rest` is the text from the current offset on.
use frawk.Prelude.{
  ℕ, zero, suc, ◌+◌, Bool, true, false, not, ◌||◌, ◌==◌, Option, none, some, List, [], ◌∷◌,
  if◌then◌else◌,
}
use frawk.Builtins.{Outcome, done, ◌>>=◌}
use frawk.Lexer.{Tok, Tokenizer, Library, is_whitespace, is_id_body}
use frawk.Lexer.Text.{len_utf8, byte_len, slice_from, slice}

-- The offset of the delimiter: the loop of `literal`, at an offset.
unfoldable pub bound : ℕ → Bool → ℕ → List ℕ → Option ℕ
bound delim is_escape ix [] = none
bound delim true ix (c ∷ rest) = bound delim false (ix + len_utf8 c) rest
bound delim false ix (c ∷ rest) =
    let next = bound delim (c == b'\\') (ix + len_utf8 c) rest in
    if c == delim then some ix else next

-- The text up to the delimiter and the offset behind it; `none` is the error.
unfoldable pub read_to : Tokenizer → Option ℕ → Outcome (Option (List ℕ × ℕ))
unfolding slice
read_to t none = done none
read_to t (some end) =
    slice t.text t.cur (t.cur + end) >>= λ lit. done (some (lit, t.cur + end + 1))

unfoldable pub literal : Tokenizer → ℕ → Outcome (Option (List ℕ × ℕ))
unfolding bound slice_from read_to
literal t delim = slice_from t.text t.cur >>= λ rest. read_to t (bound delim false 0 rest)

-- The offset of the last character of the identifier in `rest`.
unfoldable pub last_body : Library → ℕ → List ℕ → Option ℕ
unfolding is_id_body
last_body l ix [] = none
last_body l ix (c ∷ rest) =
    let later = last_body l (ix + len_utf8 c) rest in
    if is_id_body l c then elim later [ none ↦ some ix | some last ↦ some last ] else none

-- The offset behind the last character, as the code computes it: one byte further.
unfoldable pub ident_end : ℕ → Option ℕ → ℕ
ident_end cur none = cur
ident_end cur (some ix) = cur + ix + 1

unfoldable pub ident : Library → Tokenizer → ℕ → Outcome (List ℕ × ℕ)
unfolding last_body slice slice_from ident_end
ident l t id_start = slice_from t.text t.cur >>= λ rest.
    let ix = ident_end t.cur (last_body l 0 rest) in
    slice t.text id_start ix >>= λ name. done (name, ix)

-- `iter.find`, of a line feed.
unfoldable pub find_newline : ℕ → List ℕ → Option ℕ
find_newline ix [] = none
find_newline ix (c ∷ rest) =
    let later = find_newline (ix + len_utf8 c) rest in if c == b'\n' then some ix else later

-- How far `consume_comment` moves; to the end of the text, if no line feed follows.
unfoldable pub comment_len : List ℕ → ℕ
unfolding find_newline
comment_len [] = 0
comment_len (c ∷ rest) =
    if c == b'#'
    then elim (find_newline (len_utf8 c) rest) [ none ↦ byte_len (c ∷ rest) | some ix ↦ ix ]
    else 0

unfoldable pub consume_comment : Tokenizer → Outcome Tokenizer
unfolding comment_len slice_from
consume_comment t =
    slice_from t.text t.cur >>= λ rest. done (record t { cur = t.cur + comment_len rest })

-- How far `consume_ws` moves: `res`, at the offset `ix`. A backslash takes the line feed behind it
-- along.
unfoldable pub ws_len : ℕ → ℕ → List ℕ → ℕ
unfolding is_whitespace
ws_len res ix [] = res
ws_len res ix (c ∷ []) = ix
ws_len res ix (c ∷ next_c ∷ rest) =
    let continued = ws_len ix (ix + len_utf8 c + len_utf8 next_c) rest in
    let later = ws_len ix (ix + len_utf8 c) (next_c ∷ rest) in
    if c == b'\\'
    then if next_c == b'\n' then continued else ix
    else if (c == b'\n') || not (is_whitespace c)
    then ix
    else later

unfoldable pub consume_ws : Tokenizer → Outcome Tokenizer
unfolding ws_len slice_from
consume_ws t = slice_from t.text t.cur >>= λ rest. done (record t { cur = t.cur + ws_len 0 0 rest })

-- The loop of `advance`, with fuel for its rounds: they end when the offset stays where it is.
unfoldable pub advance : ℕ → Tokenizer → Outcome (Option Tokenizer)
unfolding consume_ws consume_comment
advance zero t = done none
advance (suc fuel) t = consume_ws t >>= λ t'. consume_comment t' >>= λ t''.
    let more = advance fuel t'' in if t''.cur == t.cur then done (some t'') else more

unfoldable pub potential_re : Option Tok → Bool
potential_re (some (Tok.ident s)) = false
potential_re (some (Tok.str_lit s)) = false
potential_re (some (Tok.pat_lit s)) = false
potential_re (some (Tok.i_lit s)) = false
potential_re (some (Tok.f_lit s)) = false
potential_re (some Tok.r_paren) = false
potential_re (some Tok.r_brack) = false
potential_re _ = true
