-- ===== src/Lexer/Strings.antt =====
-- src/lexer.rs: the values of string and pattern literals. The bytes that an arm pushes on the buffer
-- are returned, with the state of the loop after the character.
use frawk.Prelude.{
  ℕ, zero, suc, ◌+◌, ◌-◌, ◌*◌, min, Bool, true, false, ◌&&◌, leb, ◌==◌, Option, none, some, List,
  [], ◌∷◌, ◌++◌, if◌then◌else◌,
}
use frawk.Lexer.Text.{encode_utf8}

unfoldable pub hex_digit : ℕ → Option ℕ
hex_digit c =
    if leb b'0' c && leb c b'9'
    then some (c - b'0')
    else if leb b'a' c && leb c b'f'
    then some (10 + (c - b'a'))
    else if leb b'A' c && leb c b'F'
    then some (10 + (c - b'A'))
    else none

unfoldable pub octal_digit : ℕ → Option ℕ
octal_digit c = if leb b'0' c && leb c b'7' then some (c - b'0') else none

-- Where the loop stands: at a character of its own, behind a backslash, behind `\x`, behind one digit
-- of a hexadecimal escape, or in an octal one that may go on.
pub data Mode : Type 0 where
  plain escape hex : Mode
  hex_one : ℕ → Mode
  octal : ℕ → ℕ → Mode

unfoldable pub plain_char : ℕ → List ℕ × Mode
unfolding encode_utf8
plain_char c = if c == b'\\' then ([], escape) else (encode_utf8 c, plain)

-- The character behind a backslash.
unfoldable pub escaped_char : ℕ → List ℕ × Mode
unfolding octal_digit encode_utf8
escaped_char c =
    if c == b'a'
    then (0x07 ∷ [], plain)
    else if c == b'b'
    then (0x08 ∷ [], plain)
    else if c == b'f'
    then (0x0C ∷ [], plain)
    else if c == b'v'
    then (0x0B ∷ [], plain)
    else if c == b'\\'
    then (b'\\' ∷ [], plain)
    else if c == b'n'
    then (b'\n' ∷ [], plain)
    else if c == b'r'
    then (b'\r' ∷ [], plain)
    else if c == b't'
    then (b'\t' ∷ [], plain)
    else if c == b'"'
    then (b'"' ∷ [], plain)
    else if c == b'x'
    then ([], hex)
    else elim (octal_digit c) [ some n ↦ ([], octal n 2) | none ↦ (b'\\' ∷ encode_utf8 c, plain) ]

-- An arm that ends an escape and reads the character again.
abbrev pub again : List ℕ → ℕ → List ℕ × Mode
unfolding plain_char
again pushed c = (pushed ++ (plain_char c).0, (plain_char c).1)

-- `saturating_mul` and `saturating_add` of `u8`
abbrev pub saturating : ℕ → ℕ
saturating n = min n 255

-- The state after one more digit of an octal escape: there are two rounds.
abbrev pub octal_more : ℕ → ℕ → List ℕ × Mode
octal_more n zero = (n ∷ [], plain)
octal_more n (suc rounds) = ([], octal n (suc rounds))

unfoldable pub step : Mode → ℕ → List ℕ × Mode
unfolding plain_char escaped_char hex_digit
step plain c = plain_char c
step escape c = escaped_char c
step hex c = elim (hex_digit c) [ some d ↦ ([], hex_one d) | none ↦ again (b'\\' ∷ b'x' ∷ []) c ]
step (hex_one n) c = elim (hex_digit c) [
  | some d ↦ ((n * 16 + d) ∷ [], plain)
  | none ↦ again (n ∷ []) c
]
step (octal n zero) c = again (n ∷ []) c
step (octal n (suc rounds)) c = elim (hex_digit c) [
  | some d ↦ octal_more (saturating (saturating (n * 8) + d)) rounds
  | none ↦ again (n ∷ []) c
]

-- What is pushed when the literal ends.
unfoldable pub at_end : Mode → List ℕ
at_end plain = []
at_end escape = []
at_end hex = b'\\' ∷ b'x' ∷ []
at_end (hex_one n) = n ∷ []
at_end (octal n rounds) = n ∷ []

unfoldable pub literal_bytes : Mode → List ℕ → List ℕ
unfolding step at_end
literal_bytes mode [] = at_end mode
literal_bytes mode (c ∷ lit) = (step mode c).0 ++ literal_bytes (step mode c).1 lit

unfoldable pub parse_string_literal : List ℕ → List ℕ
unfolding literal_bytes
parse_string_literal lit = literal_bytes plain lit

-- The loop of `parse_regex_literal`, with `is_escape`.
unfoldable pub regex_bytes : Bool → List ℕ → List ℕ
unfolding encode_utf8
regex_bytes is_escape [] = []
regex_bytes true (c ∷ lit) =
    (if c == b'/' then b'/' ∷ [] else b'\\' ∷ encode_utf8 c) ++ regex_bytes false lit
regex_bytes false (c ∷ lit) =
    let escaped = regex_bytes true lit in
    let rest = regex_bytes false lit in
    if c == b'\\' then escaped else if c == b'/' then [] else encode_utf8 c ++ rest

unfoldable pub parse_regex_literal : List ℕ → List ℕ
unfolding regex_bytes
parse_regex_literal lit = regex_bytes false lit
