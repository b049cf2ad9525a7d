-- ===== src/Lexer/Boundary.antt =====
-- `str` of the standard library: offsets on the boundary of a character. `slice_from text n ≡ done rest`
-- says that n is one, and `rest` the text from there on.
use frawk.Prelude.{
  ℕ, zero, suc, ◌+◌, ◌-◌, ◌<◌, ◌≡◌, refl, ap, sym, ◌∙◌, List, [], ◌∷◌, ◌++◌, length, length-append,
  leb, leb→le, arith, Bool-cases, inl, inr, All,
}
use frawk.Builtins.{done}
use frawk.Splitter.{take, drop}
use frawk.Lexer.Text.{as_bytes, byte_len, len_utf8, encode_utf8, slice_from, slice_from_first}

pub slice_from_inv :
    (c : ℕ) (text : List ℕ) (n : ℕ) (rest : List ℕ)
    → slice_from (c ∷ text) (suc n) ≡ done rest
    → (m : ℕ) × (suc n ≡ len_utf8 c + m) × (slice_from text m ≡ done rest)
unfolding slice_from
slice_from_inv c text n rest h = elim (Bool-cases (leb (len_utf8 c) (suc n))) [
  | inl fits ↦
      (suc n - len_utf8 c, omega (arith, leb→le (len_utf8 c) (suc n) fits), ground (arith, fits, h))
  | inr past ↦ absurd (ground (arith, past, h))
]

-- The boundaries behind a boundary are those of the text behind it.
pub slice_from-add :
    (text : List ℕ) (start : ℕ) (rest : List ℕ) (n : ℕ)
    → slice_from text start ≡ done rest
    → slice_from text (start + n) ≡ slice_from rest n
unfolding slice_from
slice_from-add text zero rest n h =
    ap (slice_from text) (omega arith) ∙ ap (λ t. slice_from t n) (ground (arith, h))
slice_from-add [] (suc start) rest n h = cc
slice_from-add (c ∷ text) (suc start) rest n h =
    let (m, e, k) = slice_from_inv c text start rest h in
    ap (slice_from (c ∷ text)) (omega (arith, e))
    ∙ slice_from_first c text (m + n)
    ∙ slice_from-add text m rest n k

pub byte_len-slice_from :
    (text : List ℕ) (start : ℕ) (rest : List ℕ)
    → slice_from text start ≡ done rest
    → byte_len text ≡ start + byte_len rest
unfolding slice_from byte_len
byte_len-slice_from text zero rest h = ground (arith, h)
byte_len-slice_from [] (suc start) rest h = cc
byte_len-slice_from (c ∷ text) (suc start) rest h =
    let (m, e, k) = slice_from_inv c text start rest h in
    omega (arith, e, byte_len-slice_from text m rest k)

length-encode_utf8 : (c : ℕ) → length (encode_utf8 c) ≡ len_utf8 c
unfolding encode_utf8 len_utf8
length-encode_utf8 c = ground arith

pub length-as_bytes : (text : List ℕ) → length (as_bytes text) ≡ byte_len text
unfolding as_bytes byte_len
length-as_bytes [] = refl
length-as_bytes (c ∷ text) = omega (
  arith,
  length-append (encode_utf8 c) (as_bytes text),
  length-encode_utf8 c,
  length-as_bytes text,
)

drop-append : (xs ys : List ℕ) (n : ℕ) → drop (length xs + n) (xs ++ ys) ≡ drop n ys
drop-append [] ys n = ap (λ k. drop k ys) (omega arith)
drop-append (x ∷ xs) ys n =
    ap (λ k. drop k (x ∷ xs ++ ys))
      (let e : suc (length xs) + n ≡ suc (length xs + n) = omega arith in e)
    ∙ drop-append xs ys n

pub drop-as_bytes :
    (text : List ℕ) (start : ℕ) (rest : List ℕ)
    → slice_from text start ≡ done rest
    → drop start (as_bytes text) ≡ as_bytes rest
unfolding slice_from as_bytes
drop-as_bytes text zero rest h = ap as_bytes (ground (arith, h))
drop-as_bytes [] (suc start) rest h = cc
drop-as_bytes (c ∷ text) (suc start) rest h =
    let (m, e, k) = slice_from_inv c text start rest h in
    ap (λ n. drop n (as_bytes (c ∷ text))) (e ∙ ap (λ n. n + m) (sym (length-encode_utf8 c)))
    ∙ drop-append (encode_utf8 c) (as_bytes text) m
    ∙ drop-as_bytes text m rest k

encode_first :
    (c b n : ℕ) (bs xs : List ℕ)
    → take (suc n) (encode_utf8 c ++ xs) ≡ b ∷ bs
    → b < 128
    → (len_utf8 c ≡ 1) × (take n xs ≡ bs)
unfolding encode_utf8 len_utf8
encode_first c b n bs xs h lt = ground (arith, h, lt)

-- Behind ASCII bytes there is a boundary.
pub slice_from_ascii :
    (text name : List ℕ)
    → All (λ b. b < 128) name
    → take (length name) (as_bytes text) ≡ name
    → (rest : List ℕ) × (slice_from text (length name) ≡ done rest)
unfolding as_bytes slice_from
slice_from_ascii text [] a h = (text, refl)
slice_from_ascii [] (b ∷ name) a h = cc
slice_from_ascii (c ∷ text) (b ∷ name) a h =
    let (one, h') = encode_first c b (length name) name (as_bytes text) h a.0 in
    let (rest, e) = slice_from_ascii text name a.1 h' in
    (
      rest,
      ap (slice_from (c ∷ text))
            (let all : length (b ∷ name) ≡ len_utf8 c + length name = omega (arith, one) in all)
          ∙ slice_from_first c text (length name)
          ∙ e,
    )
