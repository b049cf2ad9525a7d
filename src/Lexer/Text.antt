-- ===== src/Lexer/Text.antt =====
-- `str` of the standard library: UTF-8, lengths in bytes, and slices, which panic at an offset that is
-- not on the boundary of a character.
use frawk.Prelude.{
  ℕ, zero, suc, ◌+◌, ◌-◌, ◌/◌, ◌%◌, ◌<◌, ◌≡◌, refl, ap, le→leb, le→ltb, ltb, leb, List, [], ◌∷◌,
  ◌++◌, if◌then◌else◌, arith, ◌∙◌,
}
use frawk.Builtins.{Outcome, done, panics, ◌>>=◌}

-- `char::len_utf8`
unfoldable pub len_utf8 : ℕ → ℕ
len_utf8 c = if ltb c 0x80 then 1 else if ltb c 0x800 then 2 else if ltb c 0x10000 then 3 else 4

-- `char::encode_utf8`
unfoldable pub encode_utf8 : ℕ → List ℕ
encode_utf8 c =
    if ltb c 0x80
    then c ∷ []
    else if ltb c 0x800
    then (0xC0 + c / 64) ∷ (0x80 + c % 64) ∷ []
    else if ltb c 0x10000
    then (0xE0 + c / 4096) ∷ (0x80 + c / 64 % 64) ∷ (0x80 + c % 64) ∷ []
    else (0xF0 + c / 262144) ∷ (0x80 + c / 4096 % 64) ∷ (0x80 + c / 64 % 64) ∷ (0x80 + c % 64) ∷ []

-- `str::as_bytes`
unfoldable pub as_bytes : List ℕ → List ℕ
as_bytes [] = []
as_bytes (c ∷ text) = encode_utf8 c ++ as_bytes text

-- `str::len`
unfoldable pub byte_len : List ℕ → ℕ
byte_len [] = 0
byte_len (c ∷ text) = len_utf8 c + byte_len text

-- `&text[n..]`
unfoldable pub slice_from : List ℕ → ℕ → Outcome (List ℕ)
slice_from text zero = done text
slice_from [] (suc n) = panics
slice_from (c ∷ text) (suc n) =
    let rest = slice_from text (suc n - len_utf8 c) in
    if leb (len_utf8 c) (suc n) then rest else panics

-- `&text[..n]`
unfoldable pub slice_to : List ℕ → ℕ → Outcome (List ℕ)
slice_to text zero = done []
slice_to [] (suc n) = panics
slice_to (c ∷ text) (suc n) =
    let rest = slice_to text (suc n - len_utf8 c) in
    if leb (len_utf8 c) (suc n) then rest >>= (λ front. done (c ∷ front)) else panics

-- `&text[from..to]`
unfoldable pub slice : List ℕ → ℕ → ℕ → Outcome (List ℕ)
unfolding slice_from slice_to
slice text from to =
    if ltb to from then panics else slice_from text from >>= λ rest. slice_to rest (to - from)

pub byte_len-append : (xs ys : List ℕ) → byte_len (xs ++ ys) ≡ byte_len xs + byte_len ys
unfolding byte_len
byte_len-append [] ys = omega arith
byte_len-append (x ∷ xs) ys = omega (arith, byte_len-append xs ys)

pub len_utf8_pos : (c : ℕ) → 0 < len_utf8 c
unfolding len_utf8
len_utf8_pos c = ground arith

pub slice_from_first :
    (c : ℕ) (text : List ℕ) (n : ℕ) → slice_from (c ∷ text) (len_utf8 c + n) ≡ slice_from text n
unfolding slice_from
slice_from_first c text n =
    let first = len_utf8_pos c in
    let m = len_utf8 c + n - 1 in
    let next : len_utf8 c + n ≡ suc m = omega (arith, first) in
    ap (slice_from (c ∷ text)) next
    ∙ rw (le→leb (len_utf8 c) (suc m) (omega (arith, first)))
        (ap (slice_from text) (omega (arith, first)))

pub slice_from-append : (xs ys : List ℕ) → slice_from (xs ++ ys) (byte_len xs) ≡ done ys
unfolding byte_len slice_from
slice_from-append [] ys = refl
slice_from-append (x ∷ xs) ys =
    slice_from_first x (xs ++ ys) (byte_len xs) ∙ slice_from-append xs ys

pub slice_to_first :
    (c : ℕ) (text : List ℕ) (n : ℕ)
    → slice_to (c ∷ text) (len_utf8 c + n) ≡ (slice_to text n >>= λ front. done (c ∷ front))
unfolding slice_to
slice_to_first c text n =
    let first = len_utf8_pos c in
    let m = len_utf8 c + n - 1 in
    let next : len_utf8 c + n ≡ suc m = omega (arith, first) in
    ap (slice_to (c ∷ text)) next
    ∙ rw (le→leb (len_utf8 c) (suc m) (omega (arith, first)))
        (ap (λ k. slice_to text k >>= λ front. done (c ∷ front)) (omega (arith, first)))

pub slice_to-append : (xs ys : List ℕ) → slice_to (xs ++ ys) (byte_len xs) ≡ done xs
unfolding byte_len slice_to
slice_to-append [] ys = refl
slice_to-append (x ∷ xs) ys =
    slice_to_first x (xs ++ ys) (byte_len xs)
    ∙ ap (λ r. r >>= λ front. done (x ∷ front)) (slice_to-append xs ys)

-- A slice between two boundaries.
pub slice-append :
    (xs ys zs : List ℕ)
    → slice (xs ++ (ys ++ zs)) (byte_len xs) (byte_len xs + byte_len ys) ≡ done ys
unfolding slice
slice-append xs ys zs = rw (le→ltb (byte_len xs + byte_len ys) (byte_len xs) (omega arith)) (
    ap (λ r. r >>= λ rest. slice_to rest (byte_len xs + byte_len ys - byte_len xs))
      (slice_from-append xs (ys ++ zs))
    ∙ ap (slice_to (ys ++ zs)) (omega arith)
    ∙ slice_to-append ys zs)
