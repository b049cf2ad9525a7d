-- ===== src/Lexer/Progress.antt =====
-- src/lexer.rs: what a call of `next` does to the tokenizer.
use mathlib.Core.Path.{subst}
use frawk.Prelude.{
  ℕ, ◌+◌, ◌-◌, ◌≤◌, ◌<◌, ◌≡◌, ◌⊎◌, inl, inr, refl, ap, ◌∙◌, true, false, le→ltb, Option, none, some,
  List, ◌∷◌, ◌++◌, arith,
}
use frawk.Builtins.{Outcome, done, ◌>>=◌}
use frawk.Lexer.{Tok, Tokenizer, Library}
use frawk.Lexer.Text.{byte_len, len_utf8, slice_from, slice_from_first, slice_to, slice}
use frawk.Lexer.Boundary.{slice_from-add}
use frawk.Lexer.Scan.{bound, read_to, literal}
use frawk.Lexer.Moves.{Offset, slice_to-Offset}
use frawk.Lexer.Ends.{bound-Stops}
use frawk.Lexer.Next.{Lexed, token, error, Desc, index_to_loc, emit, move, read_literal, is_newline}
use frawk.Lexer.Location.{index_to_loc_total}

-- A pattern matches a text that is not empty, at the start.
abbrev pub Prefixes : (List ℕ → Option (List ℕ)) → Type 0
Prefixes pattern =
    (text m : List ℕ)
    → pattern text ≡ some m
    → (after : List ℕ) × (text ≡ m ++ after) × (0 < byte_len m)

-- What the patterns of the lexer guarantee.
pub record IsSound (l : Library) : Type 0 where
  pub hex : Prefixes l.hex_pattern
  pub float : Prefixes l.float_pattern
  pub int : Prefixes l.int_pattern
  pub declaration :
      (text full name : List ℕ)
      → l.fn_pattern text ≡ some (full, name)
      → (after : List ℕ) × (text ≡ full ++ after) × (0 < byte_len full)

-- The offset has grown, or the token is the line feed at the end and the one before it was not.
abbrev pub Moved : Tokenizer → Option Lexed → Tokenizer → Type 0
Moved t out t' =
    (out ≡ none)
    ⊎ ((t.cur < t'.cur)
        ⊎ ((t.cur ≤ t'.cur) × (is_newline t.prev_tok ≡ false) × (is_newline t'.prev_tok ≡ true)))

-- The call returns, on a boundary of the same text, and has moved if it yields something.
abbrev pub Proceeds : Tokenizer → Outcome (Option Lexed × Tokenizer) → Type 0
Proceeds t result =
    (out : Option Lexed) × (t' : Tokenizer) × (result ≡ done (out, t'))
    × (t'.text ≡ t.text)
    × Offset t'.text t'.cur
    × Moved t out t'

pub emit_lem :
    (t : Tokenizer) (start : ℕ) (tok : Tok)
    → (out : Lexed) × (emit t start tok ≡ done (some out, record t { prev_tok = some tok }))
unfolding emit
emit_lem t start tok =
    let (a, e) = index_to_loc_total t.lines start in
    let (b, f) = index_to_loc_total t.lines t.cur in (token a tok b, rw e (rw f refl))

-- A token that ends at a boundary behind the offset.
pub emit-Proceeds :
    (t : Tokenizer) (end : ℕ) (tok : Tok)
    → t.cur < end
    → Offset t.text end
    → Proceeds t (emit (record t { cur = end }) t.cur tok)
emit-Proceeds t end tok lt off =
    let (out, e) = emit_lem (record t { cur = end }) t.cur tok in
    (some out, record t { cur = end; prev_tok = some tok }, e, refl, off, inr (inl lt))

pub slice_lem :
    (text : List ℕ) (from n : ℕ) (rest : List ℕ)
    → slice_from text from ≡ done rest
    → Offset rest n
    → (lit : List ℕ) × (slice text from (from + n) ≡ done lit)
unfolding slice
slice_lem text from n rest h off =
    let (lit, e) = slice_to-Offset rest n off in
    (
      lit,
      rw (le→ltb (from + n) from (omega arith))
          (rw h (ap (slice_to rest) (let same : from + n - from ≡ n = omega arith in same) ∙ e)),
    )

-- Behind a character of one byte.
pub after_one :
    (text : List ℕ) (at c : ℕ) (rest : List ℕ)
    → slice_from text at ≡ done (c ∷ rest)
    → len_utf8 c ≡ 1
    → slice_from text (at + 1) ≡ done rest
unfolding slice_from
after_one text at c rest h one =
    slice_from-add text at (c ∷ rest) 1 h
    ∙ ap (slice_from (c ∷ rest)) (let e : 1 ≡ len_utf8 c + 0 = omega (arith, one) in e)
    ∙ slice_from_first c rest 0

-- The answer of `literal`: the error, or an offset behind the delimiter.
Closed : Tokenizer → Option (List ℕ × ℕ) → Type 0
Closed t none = Unit {0}
Closed t (some (lit, end)) = (t.cur < end) × Offset t.text end

read_to-Closed :
    (t : Tokenizer) (rest : List ℕ) (delim : ℕ) (o : Option ℕ)
    → slice_from t.text t.cur ≡ done rest
    → len_utf8 delim ≡ 1
    → bound delim false 0 rest ≡ o
    → (r : Option (List ℕ × ℕ)) × (read_to t o ≡ done r) × Closed t r
unfolding read_to Closed
read_to-Closed t rest delim none h one e = (none, refl, tt)
read_to-Closed t rest delim (some k) h one e =
    let (n, after, eq, stop) = bound-Stops delim false 0 rest k e in
    let same : n ≡ k = omega (arith, eq) in
    let stop' = subst (λ j. slice_from rest j ≡ done (delim ∷ after)) same stop in
    let (lit, cut) = slice_lem t.text t.cur k rest h (delim ∷ after, stop') in
    (
      some (lit, t.cur + k + 1),
      rw cut refl,
      (
        omega arith,
        (
          after,
          after_one t.text (t.cur + k) delim after (slice_from-add t.text t.cur rest k h ∙ stop')
              one,
        ),
      ),
    )

literal-Closed :
    (t : Tokenizer) (rest : List ℕ) (delim : ℕ)
    → slice_from t.text t.cur ≡ done rest
    → len_utf8 delim ≡ 1
    → (r : Option (List ℕ × ℕ)) × (literal t delim ≡ done r) × Closed t r
unfolding literal
literal-Closed t rest delim h one =
    let (r, e, c) = read_to-Closed t rest delim (bound delim false 0 rest) h one refl in
    (r, rw h e, c)

module _ (t : Tokenizer) (c : ℕ) (rest : List ℕ)
    (here : slice_from t.text t.cur ≡ done (c ∷ rest)) where
  pub read_literal-Proceeds :
      (delim : ℕ) (tok : List ℕ → Tok) (desc : Desc)
      → len_utf8 c ≡ 1
      → len_utf8 delim ≡ 1
      → Proceeds t (read_literal t delim tok desc)
  unfolding read_literal Closed
  read_literal-Proceeds delim tok desc one one' =
      let inside = after_one t.text t.cur c rest here one in
      let (r, e, closed) = literal-Closed (move t 1) rest delim inside one' in
      rw e (by_literal r closed)
    where
      by_literal :
          (r : Option (List ℕ × ℕ))
          → Closed (move t 1) r
          → Proceeds t (elim r [
            | none ↦
                index_to_loc t.lines (t.cur + 1) >>= λ loc. done (some (error loc desc), move t 1)
            | some (lit, new_start) ↦ emit (record t { cur = new_start }) t.cur (tok lit)
          ])
      by_literal none closed =
          let (loc, e) = index_to_loc_total t.lines (t.cur + 1) in
          (
            some (error loc desc),
            move t 1,
            rw e refl,
            refl,
            (rest, after_one t.text t.cur c rest here one),
            inr (inl (omega arith)),
          )
      by_literal (some (lit, end)) closed =
          emit-Proceeds t end (tok lit) (omega (arith, closed.0)) closed.1
