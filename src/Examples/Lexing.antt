-- ===== src/Examples/Lexing.antt =====
-- src/lexer.rs: programs in pieces.
use mathlib.Core.Path.{subst}
use frawk.Prelude.{
  ℕ, ◌+◌, ◌<◌, ◌≡◌, ◌≢◌, inl, inr, refl, ap, ◌∙◌, Bool-cases, Bool, ◌&&◌, ◌||◌, ◌==◌, leb, Option,
  none, some, List, [], ◌∷◌, ◌++◌, if◌then◌else◌, arith,
}
use frawk.Builtins.{done, panics}
use frawk.Lexer.{Tok, Tokenizer, Library, is_id_body, is_whitespace}
use frawk.Lexer.Text.{
  as_bytes, byte_len, len_utf8, len_utf8_pos, encode_utf8, slice_from, slice, slice_to,
}
use frawk.Lexer.Strings.{
  parse_string_literal, parse_regex_literal, literal_bytes, step, plain_char, escaped_char,
  hex_digit, octal_digit, regex_bytes,
}
use frawk.Lexer.RoundTrip.{print_literal, parse_string_literal-literal}
use frawk.Lexer.Scan.{
  literal, ident, last_body, ident_end, ws_len, comment_len, consume_ws, consume_comment, advance,
}
use frawk.Lexer.Keywords.{
  keyword, keywords, keyword_up_to, try_len, may_follow, max_len, get, keywords_by_len,
}
use frawk.Lexer.Longest.{IsLongest, keyword-IsLongest}
use frawk.Lexer.Next.{
  Lexed, token, next, index_to_loc, newlines, search_from, loc_at, column, emit, emit_or,
  read_token, read_other, fundec,
}
use frawk.Lexer.Location.{position, loc, index_to_loc-position}
use frawk.Lexer.Moves.{Offset}
use frawk.Lexer.Names.{AsciiNames}
use frawk.Lexer.Progress.{IsSound}
use frawk.Lexer.Rounds.{left, next-left}

-- Decimal digits, as the pattern of integers.
abbrev digits : List ℕ → List ℕ
digits [] = []
digits (c ∷ rest) = let more = digits rest in if leb b'0' c && leb c b'9' then c ∷ more else []

abbrev some_digits : List ℕ → Option (List ℕ)
some_digits text = elim (digits text) [ [] ↦ none | d ∷ ds ↦ some (d ∷ ds) ]

abbrev is_lower : ℕ → Bool
is_lower c = leb b'a' c && leb c b'z'

-- A library whose identifiers are of small letters, and that knows integers only.
abbrev small : Library
small = record {
  is_xid_start = is_lower;
  is_xid_continue = is_lower;
  hex_pattern = λ text. none;
  float_pattern = λ text. none;
  int_pattern = some_digits;
  fn_pattern = λ text. none;
}

byte_len_pos : (d : ℕ) (ds : List ℕ) → 0 < byte_len (d ∷ ds)
byte_len_pos d ds = unfold byte_len in omega (arith, len_utf8_pos d)

digits_split : (text : List ℕ) → (after : List ℕ) × (text ≡ digits text ++ after)
digits_split [] = ([], refl)
digits_split (c ∷ rest) = elim (Bool-cases (leb b'0' c && leb c b'9')) [
  | inl digit ↦ let (after, e) = digits_split rest in rw digit (after, ap (λ t. c ∷ t) e)
  | inr other ↦ rw other (c ∷ rest, refl)
]

digits_prefix :
    (text m : List ℕ)
    → some_digits text ≡ some m
    → (after : List ℕ) × (text ≡ m ++ after) × (0 < byte_len m)
digits_prefix text m h = by_digits (digits text) refl h
  where
    by_digits :
        (ds : List ℕ)
        → digits text ≡ ds
        → (elim ds [ [] ↦ none | d ∷ rest ↦ some (d ∷ rest) ]) ≡ some m
        → (after : List ℕ) × (text ≡ m ++ after) × (0 < byte_len m)
    by_digits [] e k = cc
    by_digits (d ∷ ds) e k =
        let same : d ∷ ds ≡ m = ground (arith, k) in
        let (after, split) = digits_split text in
        (
          after,
          split ∙ ap (λ x. x ++ after) (e ∙ same),
          subst (λ x. 0 < byte_len x) same (byte_len_pos d ds),
        )

small-IsSound : IsSound small
small-IsSound = record {
  hex = λ text m h. cc;
  float = λ text m h. cc;
  int = digits_prefix;
  declaration = λ text full name h. cc;
}

-- `next x`
abbrev program : List ℕ
program = b'n' ∷ b'e' ∷ b'x' ∷ b't' ∷ b' ' ∷ b'x' ∷ []

abbrev start : Tokenizer
start = record { text = program; cur = 0; prev_tok = none; lines = [] }

names : AsciiNames small program
names = (
  λ h. omega arith,
  (
    λ h. omega arith,
    (λ h. omega arith, (λ h. omega arith, (λ h. omega arith, (λ h. omega arith, tt)))),
  ),
)

next-left_example :
    (out : Option Lexed) × (t' : Tokenizer) × (next small 7 start ≡ done (some (out, t')))
    × (t'.text ≡ program)
    × Offset t'.text t'.cur
    × (out ≢ none → left t' < left start)
next-left_example =
    next-left small small-IsSound start 7 (program, unfold slice_from in refl) names
      (unfold byte_len len_utf8 in omega arith)

-- The first token of the program, and the offset behind it.
first_token :
    next small 7 start
    ≡ done (
        some (
          some (
              token
                (record { line = 0; col = 0; offset = 0 })
                Tok.next
                (record { line = 0; col = 4; offset = 4 })),
          record start { cur = 4; prev_tok = some Tok.next },
        ))
unfolding next advance consume_ws consume_comment ws_len comment_len read_token read_other fundec
    keyword keyword_up_to keywords get keywords_by_len try_len may_follow max_len as_bytes
    encode_utf8 byte_len len_utf8 slice_from emit_or emit index_to_loc search_from loc_at column
    is_whitespace
first_token = refl

-- The same library, with a letter of two bytes.
abbrev accents : Library
accents = record small { is_xid_continue = λ c. is_lower c || (c == 0xE9) }

-- An identifier that ends in a letter of two bytes is cut inside of the letter.
ident_cut : ident accents (record start { text = b'x' ∷ 0xE9 ∷ []; cur = 1 }) 0 ≡ panics
unfolding ident last_body is_id_body ident_end slice slice_to slice_from len_utf8
ident_cut = refl

keyword-IsLongest_example :
    (r : Option (Tok × ℕ)) × (keyword start ≡ done r) × IsLongest program 0 r
keyword-IsLongest_example = keyword-IsLongest start program (unfold slice_from in refl)

-- `nextfile` and not `next`.
keyword_nextfile :
    keyword (record start { text = b'n' ∷ b'e' ∷ b'x' ∷ b't' ∷ b'f' ∷ b'i' ∷ b'l' ∷ b'e' ∷ [] })
    ≡ done (some (Tok.next_file, 8))
unfolding keyword keyword_up_to keywords get keywords_by_len try_len may_follow max_len as_bytes
    encode_utf8 byte_len len_utf8 slice_from
keyword_nextfile = refl

-- A text with a quote in it, behind the quote that opens the literal.
abbrev said : List ℕ
said = b'a' ∷ b'"' ∷ 0xE9 ∷ []

abbrev quoted : Tokenizer
quoted = record {
  text = b'"' ∷ print_literal said ++ b'"' ∷ b';' ∷ [];
  cur = 1;
  prev_tok = none;
  lines = [];
}

parse_string_literal-literal_example :
    (lit : List ℕ) × (literal quoted b'"' ≡ done (some (lit, 1 + byte_len lit + 1)))
    × (parse_string_literal lit ≡ as_bytes said)
parse_string_literal-literal_example =
    parse_string_literal-literal (b'"' ∷ []) said (b';' ∷ []) quoted refl
      (unfold byte_len len_utf8 in refl)

-- The escapes of the tests of the source.
parse_test :
    parse_string_literal (b'\\' ∷ b'7' ∷ b'7' ∷ b'\\' ∷ b'x' ∷ b'3' ∷ b'f' ∷ []) ≡ b'?' ∷ b'?' ∷ []
unfolding parse_string_literal literal_bytes step plain_char escaped_char hex_digit octal_digit
    encode_utf8
parse_test = refl

parse_test_no_digit :
    parse_string_literal (b'\\' ∷ b'7' ∷ b'7' ∷ b'\\' ∷ b'x' ∷ b'h' ∷ [])
    ≡ b'?' ∷ b'\\' ∷ b'x' ∷ b'h' ∷ []
unfolding parse_string_literal literal_bytes step plain_char escaped_char hex_digit octal_digit
    encode_utf8
parse_test_no_digit = refl

-- An octal escape goes on with a digit that is not octal.
parse_octal_nine : parse_string_literal (b'\\' ∷ b'1' ∷ b'9' ∷ []) ≡ 17 ∷ []
unfolding parse_string_literal literal_bytes step plain_char escaped_char hex_digit octal_digit
    encode_utf8
parse_octal_nine = refl

regex_test :
    parse_regex_literal (b'y' ∷ b' ' ∷ b'\\' ∷ b'/' ∷ b'g' ∷ []) ≡ b'y' ∷ b' ' ∷ b'/' ∷ b'g' ∷ []
unfolding parse_regex_literal regex_bytes encode_utf8
regex_test = refl

-- "a\n\nb": the second line feed ends line 1.
abbrev lines_bytes : List ℕ
lines_bytes = b'a' ∷ b'\n' ∷ b'\n' ∷ b'b' ∷ []

index_to_loc-position_example :
    index_to_loc (newlines 0 lines_bytes) 3 ≡ done (loc 3 (position 0 0 lines_bytes 3))
index_to_loc-position_example = index_to_loc-position lines_bytes 3 (omega arith) (inl (λ h. cc))

-- The location of the second line feed is on the first line.
location_of_newline :
    index_to_loc (newlines 0 lines_bytes) 2 ≡ done (record { line = 0; col = 0; offset = 2 })
unfolding index_to_loc newlines search_from loc_at column
location_of_newline = refl
