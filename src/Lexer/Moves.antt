-- ===== src/Lexer/Moves.antt =====
-- src/lexer.rs: the scanners stop on boundaries of characters.
use mathlib.Core.Path.{subst}
use frawk.Prelude.{
  ℕ, zero, suc, ◌+◌, ◌≡◌, ◌⊎◌, inl, inr, refl, ap, ◌∙◌, sym, true, false, ◌==◌, ◌||◌, not, Option,
  none, some, List, [], ◌∷◌, arith, Bool-cases,
}
use frawk.Builtins.{done, ◌>>=◌}
use frawk.Lexer.{is_whitespace}
use frawk.Lexer.Text.{byte_len, len_utf8, slice_from, slice_from_first, slice_to, slice_to_first}
use frawk.Lexer.Boundary.{slice_from-add, slice_from_inv}
use frawk.Lexer.Scan.{find_newline, comment_len, ws_len}

-- The offset is on a boundary.
abbrev pub Offset : List ℕ → ℕ → Type 0
Offset text n = (after : List ℕ) × (slice_from text n ≡ done after)

pub Offset-zero : (text : List ℕ) → Offset text 0
unfolding slice_from
Offset-zero text = (text, refl)

pub Offset-add :
    (text : List ℕ) (start n : ℕ) (rest : List ℕ)
    → slice_from text start ≡ done rest
    → Offset rest n
    → Offset text (start + n)
Offset-add text start n rest h (after, e) = (after, slice_from-add text start rest n h ∙ e)

pub Offset-first :
    (c : ℕ) (text : List ℕ) (n : ℕ) → Offset text n → Offset (c ∷ text) (len_utf8 c + n)
Offset-first c text n (after, e) = (after, slice_from_first c text n ∙ e)

pub Offset-byte_len : (text : List ℕ) → Offset text (byte_len text)
unfolding byte_len
Offset-byte_len [] = Offset-zero []
Offset-byte_len (c ∷ text) = Offset-first c text (byte_len text) (Offset-byte_len text)

-- A slice up to a boundary.
pub slice_to-Offset :
    (text : List ℕ) (n : ℕ) → Offset text n → (front : List ℕ) × (slice_to text n ≡ done front)
unfolding slice_to slice_from
slice_to-Offset text zero h = ([], refl)
slice_to-Offset [] (suc n) (after, e) = cc
slice_to-Offset (c ∷ text) (suc n) (after, e) =
    let (m, eq, k) = slice_from_inv c text n after e in
    let (front, f) = slice_to-Offset text m (after, k) in
    (
      c ∷ front,
      ap (slice_to (c ∷ text)) eq
          ∙ slice_to_first c text m
          ∙ ap (λ r. r >>= λ front. done (c ∷ front)) f,
    )

-- How far a scan from the offset `ix` goes, onto a boundary of the text behind it.
abbrev pub Reached : List ℕ → ℕ → ℕ → Type 0
Reached rest ix k = (n : ℕ) × (k ≡ ix + n) × Offset rest n

Reached-zero : (rest : List ℕ) (ix : ℕ) → Reached rest ix ix
Reached-zero rest ix = (0, omega arith, Offset-zero rest)

Reached-first :
    (c : ℕ) (rest : List ℕ) (ix k : ℕ) → Reached rest (ix + len_utf8 c) k → Reached (c ∷ rest) ix k
Reached-first c rest ix k (n, e, off) =
    (len_utf8 c + n, omega (arith, e), Offset-first c rest n off)

ws_len-Reached :
    (res ix : ℕ) (rest : List ℕ) → (ws_len res ix rest ≡ res) ⊎ Reached rest ix (ws_len res ix rest)
unfolding ws_len
ws_len-Reached res ix [] = inl refl
ws_len-Reached res ix (c ∷ []) = inr (Reached-zero (c ∷ []) ix)
ws_len-Reached res ix (c ∷ d ∷ rest) = inr (
    by_char
      (either (c ∷ d ∷ rest) ix (ws_len-Reached ix (ix + len_utf8 c + len_utf8 d) rest)
        (λ r. Reached-first c (d ∷ rest) ix _ (Reached-first d rest (ix + len_utf8 c) _ r)))
      (either (c ∷ d ∷ rest) ix (ws_len-Reached ix (ix + len_utf8 c) (d ∷ rest))
        (Reached-first c (d ∷ rest) ix _))
      (Bool-cases (c == b'\\')) (Bool-cases (d == b'\n'))
      (Bool-cases ((c == b'\n') || not (is_whitespace c))))
  where
    either :
        (rest : List ℕ) (ix : ℕ) {k : ℕ} {A : Type 0}
        → (k ≡ ix) ⊎ A
        → (A → Reached rest ix k)
        → Reached rest ix k
    either rest ix (inl e) f = subst (Reached rest ix) (sym e) (Reached-zero rest ix)
    either rest ix (inr a) f = f a

    by_char :
        Reached (c ∷ d ∷ rest) ix (ws_len ix (ix + len_utf8 c + len_utf8 d) rest)
        → Reached (c ∷ d ∷ rest) ix (ws_len ix (ix + len_utf8 c) (d ∷ rest))
        → ((c == b'\\') ≡ true) ⊎ ((c == b'\\') ≡ false)
        → ((d == b'\n') ≡ true) ⊎ ((d == b'\n') ≡ false)
        → (((c == b'\n') || not (is_whitespace c)) ≡ true)
          ⊎ (((c == b'\n') || not (is_whitespace c)) ≡ false)
        → Reached (c ∷ d ∷ rest) ix (ws_len res ix (c ∷ d ∷ rest))
    by_char two one (inl h) (inl k) _ = rw (h, k) two
    by_char two one (inl h) (inr k) _ = rw (h, k) (Reached-zero (c ∷ d ∷ rest) ix)
    by_char two one (inr h) _ (inl k) = rw (h, k) (Reached-zero (c ∷ d ∷ rest) ix)
    by_char two one (inr h) _ (inr k) = rw (h, k) one

-- White space ends on a boundary.
pub Offset-ws_len : (rest : List ℕ) → Offset rest (ws_len 0 0 rest)
Offset-ws_len rest = elim (ws_len-Reached 0 0 rest) [
  | inl e ↦ subst (Offset rest) (sym e) (Offset-zero rest)
  | inr (n, e, off) ↦
      subst (Offset rest) (let same : n ≡ ws_len 0 0 rest = omega (arith, e) in same) off
]

find_newline-Reached :
    (ix : ℕ) (rest : List ℕ) (k : ℕ) → find_newline ix rest ≡ some k → Reached rest ix k
unfolding find_newline
find_newline-Reached ix [] k h = cc
find_newline-Reached ix (c ∷ rest) k h = elim (Bool-cases (c == b'\n')) [
  | inl feed ↦ subst (Reached (c ∷ rest) ix) (ground (arith, feed, h)) (Reached-zero (c ∷ rest) ix)
  | inr other ↦
      Reached-first c rest ix k
        (find_newline-Reached (ix + len_utf8 c) rest k (ground (arith, other, h)))
]

-- A comment ends on a boundary.
pub Offset-comment_len : (rest : List ℕ) → Offset rest (comment_len rest)
unfolding comment_len
Offset-comment_len [] = Offset-zero []
Offset-comment_len (c ∷ rest) = elim (Bool-cases (c == b'#')) [
  | inl hash ↦ rw hash (by_feed (find_newline (len_utf8 c) rest) refl)
  | inr other ↦ rw other (Offset-zero (c ∷ rest))
]
  where
    by_feed :
        (found : Option ℕ)
        → find_newline (len_utf8 c) rest ≡ found
        → Offset (c ∷ rest) (elim found [ none ↦ byte_len (c ∷ rest) | some ix ↦ ix ])
    by_feed none e = Offset-byte_len (c ∷ rest)
    by_feed (some k) e =
        let (n, eq, off) = find_newline-Reached (len_utf8 c) rest k e in
        subst (Offset (c ∷ rest)) (sym eq) (Offset-first c rest n off)
