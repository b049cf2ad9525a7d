-- ===== src/Lexer.antt =====
-- src/lexer.rs: the tokens, the text of a program under byte offsets, and the classes of characters.
-- A text is the list of its code points. The tables of Unicode identifiers and the matches of the
-- patterns of numbers and function declarations are parameters.
pub mod Text
pub mod Strings
pub mod Scan
pub mod Keywords
pub mod Next
pub mod Table
pub mod Longest
pub mod Boundary
pub mod Location
pub mod Moves
pub mod Ends
pub mod Progress
pub mod Words
pub mod Names
pub mod Rounds
pub mod RoundTrip
use frawk.Prelude.{
  ℕ, Bool, true, false, ◌&&◌, ◌||◌, ◌==◌, leb, Option, some, none, List, [], ◌∷◌, if◌then◌else◌,
}

pub record Loc : Type 0 where
  pub line : ℕ
  pub col : ℕ
  pub offset : ℕ

pub data Tok : Type 0 where
  begin prepare begin_file end_file end : Tok
  break continue next next_file for if_ else_ print printf print_lp printf_lp exit exit_lp : Tok
  while do_ l_brace r_brace l_brack r_brack l_paren r_paren getline : Tok
  assign add add_assign sub sub_assign mul mul_assign div div_assign pow pow_assign : Tok
  mod_ mod_assign match not_match : Tok
  eq neq lt gt lte gte incr decr not and or question colon pipe : Tok
  append dollar semi newline comma in_ delete return : Tok
  ident str_lit pat_lit call_start fun_dec i_lit hex_lit f_lit : List ℕ → Tok

pub record Tokenizer : Type 0 where
  pub text : List ℕ
  pub cur : ℕ
  pub prev_tok : Option Tok
  pub lines : List ℕ

-- `char::is_whitespace` and the class `\s` of a pattern: Unicode's `White_Space`.
unfoldable pub is_whitespace : ℕ → Bool
is_whitespace c =
    (leb 9 c && leb c 13)
    || c == 32
    || c == 133
    || c == 160
    || c == 5760
    || (leb 8192 c && leb c 8202)
    || c == 8232
    || c == 8233
    || c == 8239
    || c == 8287
    || c == 12288

-- What the lexer takes from its libraries: the Unicode tables of identifiers, and for each pattern the
-- text that it matches at the start of a text; that of a function's declaration goes up to the name,
-- which it captures.
pub record Library : Type 0 where
  pub is_xid_start : ℕ → Bool
  pub is_xid_continue : ℕ → Bool
  pub hex_pattern : List ℕ → Option (List ℕ)
  pub float_pattern : List ℕ → Option (List ℕ)
  pub int_pattern : List ℕ → Option (List ℕ)
  pub fn_pattern : List ℕ → Option (List ℕ × List ℕ)

unfoldable pub is_id_start : Library → ℕ → Bool
is_id_start l c = c == b'_' || l.is_xid_start c

unfoldable pub is_id_body : Library → ℕ → Bool
is_id_body l c = c == b'_' || c == b'\'' || l.is_xid_continue c

-- The tests of `is_ident` behind the first character.
is_body : Library → List ℕ → Bool
unfolding is_id_body
is_body l [] = true
is_body l (c ∷ rest) = is_id_body l c && is_body l rest

unfoldable pub is_ident : Library → List ℕ → Bool
unfolding is_id_start is_body
is_ident l [] = true
is_ident l (c ∷ rest) = is_id_start l c && is_body l rest
