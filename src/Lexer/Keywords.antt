-- ===== src/Lexer/Keywords.antt =====
-- src/lexer.rs: the table of keywords, and the search for the longest one.
use frawk.Prelude.{
  ℕ, zero, suc, ◌+◌, ◌-◌, max, Bool, true, false, ◌&&◌, ◌||◌, ◌==◌, ltb, Option, none, some, List,
  [], ◌∷◌, if◌then◌else◌, length,
}
use frawk.Builtins.{Outcome, done, ◌>>=◌}
use frawk.Splitter.{take, drop}
use frawk.Lexer.{Tok, Tokenizer, is_whitespace}
use frawk.Lexer.Text.{as_bytes, byte_len, slice_from}

-- A keyword, its token, and the character that has to follow it, if there is a restriction.
pub record Keyword : Type 0 where
  pub name : List ℕ
  pub tok : Tok
  pub follow : Option (ℕ → Bool)

abbrev kw : List ℕ → Tok → Keyword
kw name tok = record { name = name; tok = tok; follow = none }

abbrev kw_before : List ℕ → Tok → (ℕ → Bool) → Keyword
kw_before name tok follow = record { name = name; tok = tok; follow = some follow }

unfoldable pub ws_brace : ℕ → Bool
unfolding is_whitespace
ws_brace c = is_whitespace c || c == b'{' || c == b'}'

unfoldable pub ws_semi : ℕ → Bool
unfolding is_whitespace
ws_semi c = is_whitespace c || c == b';'

unfoldable pub ws_semi_nl : ℕ → Bool
unfolding is_whitespace
ws_semi_nl c = is_whitespace c || c == b';' || c == b'\n'

unfoldable pub ws_semi_nl_rb : ℕ → Bool
unfolding is_whitespace
ws_semi_nl_rb c = is_whitespace c || c == b';' || c == b'\n' || c == b'}'

unfoldable pub ws_semi_rparen : ℕ → Bool
unfolding is_whitespace
ws_semi_rparen c = is_whitespace c || c == b';' || c == b')'

unfoldable pub ws_paren : ℕ → Bool
unfolding is_whitespace
ws_paren c = is_whitespace c || c == b'(' || c == b')'

unfoldable pub keywords : List Keyword
unfolding ws_brace ws_semi ws_semi_nl ws_semi_nl_rb ws_semi_rparen ws_paren
keywords =
    kw (b'P' ∷ b'R' ∷ b'E' ∷ b'P' ∷ b'A' ∷ b'R' ∷ b'E' ∷ []) Tok.prepare
    ∷ kw_before (b'B' ∷ b'E' ∷ b'G' ∷ b'I' ∷ b'N' ∷ []) Tok.begin ws_brace
    ∷ kw_before (b'B' ∷ b'E' ∷ b'G' ∷ b'I' ∷ b'N' ∷ b'F' ∷ b'I' ∷ b'L' ∷ b'E' ∷ []) Tok.begin_file
        ws_brace
    ∷ kw_before (b'E' ∷ b'N' ∷ b'D' ∷ b'F' ∷ b'I' ∷ b'L' ∷ b'E' ∷ []) Tok.end_file ws_brace
    ∷ kw_before (b'E' ∷ b'N' ∷ b'D' ∷ []) Tok.end ws_brace
    ∷ kw_before (b'b' ∷ b'r' ∷ b'e' ∷ b'a' ∷ b'k' ∷ []) Tok.break ws_semi
    ∷ kw_before (b'c' ∷ b'o' ∷ b'n' ∷ b't' ∷ b'i' ∷ b'n' ∷ b'u' ∷ b'e' ∷ []) Tok.continue ws_semi
    ∷ kw (b'n' ∷ b'e' ∷ b'x' ∷ b't' ∷ []) Tok.next
    ∷ kw (b'n' ∷ b'e' ∷ b'x' ∷ b't' ∷ b'f' ∷ b'i' ∷ b'l' ∷ b'e' ∷ []) Tok.next_file
    ∷ kw_before (b'f' ∷ b'o' ∷ b'r' ∷ []) Tok.for ws_paren
    ∷ kw (b'i' ∷ b'f' ∷ []) Tok.if_
    ∷ kw (b'e' ∷ b'l' ∷ b's' ∷ b'e' ∷ []) Tok.else_
    ∷ kw_before (b'p' ∷ b'r' ∷ b'i' ∷ b'n' ∷ b't' ∷ []) Tok.print ws_semi_nl_rb
    ∷ kw_before (b'p' ∷ b'r' ∷ b'i' ∷ b'n' ∷ b't' ∷ b'f' ∷ []) Tok.printf ws_semi_nl
    ∷ kw (b'p' ∷ b'r' ∷ b'i' ∷ b'n' ∷ b't' ∷ b'(' ∷ []) Tok.print_lp
    ∷ kw (b'p' ∷ b'r' ∷ b'i' ∷ b'n' ∷ b't' ∷ b'f' ∷ b'(' ∷ []) Tok.printf_lp
    ∷ kw (b'e' ∷ b'x' ∷ b'i' ∷ b't' ∷ b'(' ∷ []) Tok.exit_lp
    ∷ kw (b'e' ∷ b'x' ∷ b'i' ∷ b't' ∷ []) Tok.exit
    ∷ kw_before (b'w' ∷ b'h' ∷ b'i' ∷ b'l' ∷ b'e' ∷ []) Tok.while ws_paren
    ∷ kw_before (b'd' ∷ b'o' ∷ []) Tok.do_ ws_brace
    ∷ kw (b'{' ∷ []) Tok.l_brace
    ∷ kw (b'}' ∷ []) Tok.r_brace
    ∷ kw (b'[' ∷ []) Tok.l_brack
    ∷ kw (b']' ∷ []) Tok.r_brack
    ∷ kw (b'(' ∷ []) Tok.l_paren
    ∷ kw (b')' ∷ []) Tok.r_paren
    ∷ kw_before (b'g' ∷ b'e' ∷ b't' ∷ b'l' ∷ b'i' ∷ b'n' ∷ b'e' ∷ []) Tok.getline ws_semi_rparen
    ∷ kw (b'|' ∷ []) Tok.pipe
    ∷ kw (b'=' ∷ []) Tok.assign
    ∷ kw (b'+' ∷ []) Tok.add
    ∷ kw (b'+' ∷ b'=' ∷ []) Tok.add_assign
    ∷ kw (b'-' ∷ []) Tok.sub
    ∷ kw (b'-' ∷ b'=' ∷ []) Tok.sub_assign
    ∷ kw (b'*' ∷ []) Tok.mul
    ∷ kw (b'*' ∷ b'=' ∷ []) Tok.mul_assign
    ∷ kw (b'/' ∷ []) Tok.div
    ∷ kw (b'/' ∷ b'=' ∷ []) Tok.div_assign
    ∷ kw (b'^' ∷ []) Tok.pow
    ∷ kw (b'^' ∷ b'=' ∷ []) Tok.pow_assign
    ∷ kw (b'%' ∷ []) Tok.mod_
    ∷ kw (b'%' ∷ b'=' ∷ []) Tok.mod_assign
    ∷ kw (b'~' ∷ []) Tok.match
    ∷ kw (b'!' ∷ b'~' ∷ []) Tok.not_match
    ∷ kw (b'=' ∷ b'=' ∷ []) Tok.eq
    ∷ kw (b'!' ∷ b'=' ∷ []) Tok.neq
    ∷ kw (b'<' ∷ []) Tok.lt
    ∷ kw (b'<' ∷ b'=' ∷ []) Tok.lte
    ∷ kw (b'>' ∷ []) Tok.gt
    ∷ kw (b'-' ∷ b'-' ∷ []) Tok.decr
    ∷ kw (b'+' ∷ b'+' ∷ []) Tok.incr
    ∷ kw (b'>' ∷ b'=' ∷ []) Tok.gte
    ∷ kw (b'>' ∷ b'>' ∷ []) Tok.append
    ∷ kw (b';' ∷ []) Tok.semi
    ∷ kw (b'\n' ∷ []) Tok.newline
    ∷ kw (b'\r' ∷ b'\n' ∷ []) Tok.newline
    ∷ kw (b',' ∷ []) Tok.comma
    ∷ kw (b'i' ∷ b'n' ∷ b' ' ∷ []) Tok.in_
    ∷ kw (b'i' ∷ b'n' ∷ b'\t' ∷ []) Tok.in_
    ∷ kw (b'!' ∷ []) Tok.not
    ∷ kw (b'&' ∷ b'&' ∷ []) Tok.and
    ∷ kw (b'|' ∷ b'|' ∷ []) Tok.or
    ∷ kw (b'?' ∷ []) Tok.question
    ∷ kw (b':' ∷ []) Tok.colon
    ∷ kw_before (b'd' ∷ b'e' ∷ b'l' ∷ b'e' ∷ b't' ∷ b'e' ∷ []) Tok.delete ws_paren
    ∷ kw_before (b'r' ∷ b'e' ∷ b't' ∷ b'u' ∷ b'r' ∷ b'n' ∷ []) Tok.return ws_paren
    ∷ kw (b'$' ∷ []) Tok.dollar
    ∷ []

abbrev pub bytes_eq : List ℕ → List ℕ → Bool
bytes_eq [] [] = true
bytes_eq (x ∷ xs) (y ∷ ys) = (x == y) && bytes_eq xs ys
bytes_eq _ _ = false

-- `HashMap::get`
unfoldable pub get : List ℕ → List Keyword → Option Keyword
get name [] = none
get name (k ∷ ks) = if bytes_eq k.name name then some k else get name ks

-- The entry of `KEYWORDS_BY_LEN` for the keywords of a length.
unfoldable pub keywords_by_len : ℕ → List Keyword → List Keyword
keywords_by_len len [] = []
keywords_by_len len (k ∷ ks) =
    if length k.name == len then k ∷ keywords_by_len len ks else keywords_by_len len ks

unfoldable pub max_len : List Keyword → ℕ
max_len [] = 0
max_len (k ∷ ks) = max (length k.name) (max_len ks)

-- `is_match`, of a class of characters at the start.
abbrev pub starts : (ℕ → Bool) → List ℕ → Bool
starts class [] = false
starts class (c ∷ rest) = class c

-- The text may go on from the offset as the keyword wants it.
unfoldable pub may_follow : List ℕ → ℕ → Option (ℕ → Bool) → Outcome Bool
unfolding slice_from byte_len
may_follow text end follow = if end == byte_len text then done true else elim follow [
  | none ↦ done true
  | some class ↦ slice_from text end >>= λ rest. done (starts class rest)
]

-- The body of the loop of `keyword`, from the entry that it finds; `shorter` is the rest of the loop.
unfoldable pub try_len :
    List ℕ → ℕ → ℕ → Outcome (Option (Tok × ℕ)) → Option Keyword → Outcome (Option (Tok × ℕ))
unfolding may_follow
try_len text start len shorter none = shorter
try_len text start len shorter (some k) = may_follow text (start + len) k.follow >>= λ fits.
    if fits then done (some (k.tok, len)) else shorter

-- The loop of `keyword`, from the length `len` down, at the offset `start`.
unfoldable pub keyword_up_to : List ℕ → ℕ → ℕ → Outcome (Option (Tok × ℕ))
unfolding keywords keywords_by_len get try_len as_bytes byte_len
keyword_up_to text start zero = done none
keyword_up_to text start (suc n) =
    let shorter = keyword_up_to text start n in
    let bytes = take (suc n) (drop start (as_bytes text)) in
    if ltb (byte_len text - start) (suc n)
    then shorter
    else try_len text start (suc n) shorter (get bytes (keywords_by_len (suc n) keywords))

unfoldable pub keyword : Tokenizer → Outcome (Option (Tok × ℕ))
unfolding keyword_up_to max_len
keyword t = keyword_up_to t.text t.cur (max_len keywords)
