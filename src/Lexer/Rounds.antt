-- ===== src/Lexer/Rounds.antt =====
-- src/lexer.rs: a call of `next`, and why the calls come to an end.
use mathlib.Core.Path.{subst}
use frawk.Prelude.{
  ℕ, ◌+◌, ◌-◌, ◌*◌, ◌≤◌, ◌<◌, ◌≡◌, ◌≢◌, ◌⊎◌, inl, inr, refl, ap, ◌∙◌, sym, Bool, true, false, ◌==◌,
  ◌&&◌, Option, none, some, List, [], ◌∷◌, if◌then◌else◌, arith, Bool-cases,
}
use frawk.Builtins.{Outcome, done}
use frawk.Lexer.{Tok, Tokenizer, Library, is_id_start}
use frawk.Lexer.Text.{byte_len, len_utf8, slice_from}
use frawk.Lexer.Boundary.{byte_len-slice_from}
use frawk.Lexer.Scan.{potential_re}
use frawk.Lexer.Moves.{Offset}
use frawk.Lexer.Next.{Lexed, read_ident, read_other, is_newline, read_token}
use frawk.Lexer.Progress.{IsSound, Moved, Proceeds, emit-Proceeds}
use frawk.Lexer.Words.{Ends, fundec-Ends, keyword-Ends, num-Ends}
use frawk.Lexer.Names.{AsciiNames, AsciiNames-slice_from, read_ident-Proceeds}
use frawk.Lexer.Ends.{Advances, advance-Advances}
use frawk.Lexer.Progress.{read_literal-Proceeds, emit_lem}
use frawk.Lexer.Next.{emit_or, next}
use frawk.Lexer.Next.{incomplete_regex, incomplete_string}

emit_or-Proceeds :
    (t : Tokenizer) (r : Option (Tok × ℕ)) (other : Outcome (Option Lexed × Tokenizer))
    → Ends t r
    → Proceeds t other
    → Proceeds t (emit_or t r other)
unfolding emit_or
emit_or-Proceeds t none other ends p = p
emit_or-Proceeds t (some (tok, len)) other ends p =
    emit-Proceeds t (t.cur + len) tok (omega (arith, ends.0)) ends.1

module _ (l : Library) (sound : IsSound l) where
  read_other-Proceeds :
      (t : Tokenizer) (c : ℕ) (rest : List ℕ)
      → slice_from t.text t.cur ≡ done (c ∷ rest)
      → AsciiNames l rest
      → Proceeds t (read_other l t c)
  unfolding read_other
  read_other-Proceeds t c rest here names =
      let (dec, e, ends) = fundec-Ends l sound t (c ∷ rest) here in
      let (word, e1, ends1) = keyword-Ends t (c ∷ rest) here in
      let (number, e2, ends2) = num-Ends l sound t (c ∷ rest) here in
      rw e (
        emit_or-Proceeds t dec _ ends (
          rw e1 (
            emit_or-Proceeds t word _ ends1 (
              rw e2
                (emit_or-Proceeds t number _ ends2 (by_start (Bool-cases (is_id_start l c))))))))
    where
      by_start :
          (is_id_start l c ≡ true) ⊎ (is_id_start l c ≡ false)
          → Proceeds t (if is_id_start l c then read_ident l t c else done (none, t))
      by_start (inl h) = rw h (read_ident-Proceeds l t c rest here names)
      by_start (inr h) = rw h (none, t, refl, refl, (c ∷ rest, here), inl refl)

  read_token-Proceeds :
      (t : Tokenizer) (rest : List ℕ)
      → slice_from t.text t.cur ≡ done rest
      → AsciiNames l rest
      → Proceeds t (read_token l t rest)
  unfolding read_token
  read_token-Proceeds t [] here names = elim (Bool-cases (is_newline t.prev_tok)) [
    | inl end ↦ rw end (none, t, refl, refl, ([], here), inl refl)
    | inr more ↦
        let (out, e) = emit_lem t t.cur Tok.newline in
        rw more (
          some out,
          record t { prev_tok = some Tok.newline },
          e,
          refl,
          ([], here),
          inr (inr (omega arith, refl, refl)),
        )
  ]
  read_token-Proceeds t (c ∷ rest) here names = elim (Bool-cases (c == b'"')) [
    | inl quote ↦ rw quote (
        read_literal-Proceeds t c rest here b'"' Tok.str_lit incomplete_string
          (one_byte c b'"' quote (omega arith)) (one_byte b'"' b'"' refl (omega arith)))
    | inr other ↦ rw other (elim (Bool-cases ((c == b'/') && potential_re t.prev_tok)) [
      | inl slash ↦ rw slash (
          read_literal-Proceeds t c rest here b'/' Tok.pat_lit incomplete_regex
            (one_byte c b'/' (ground (arith, slash)) (omega arith))
            (one_byte b'/' b'/' refl (omega arith)))
      | inr plain ↦ rw plain (read_other-Proceeds t c rest here names.1)
    ])
  ]
    where
      one_byte : (c d : ℕ) → (c == d) ≡ true → d < 128 → len_utf8 c ≡ 1
      one_byte c d h lt = unfold len_utf8 in ground (arith, h, lt)

-- What is left to do: two units for each byte, and one for the line feed at the end.
abbrev pub left : Tokenizer → ℕ
left t = 2 * (byte_len t.text - t.cur) + (if is_newline t.prev_tok then 0 else 1)

flag : Bool → ℕ
flag b = if b then 0 else 1

flag-le : (b : Bool) → flag b ≤ 1
unfolding flag
flag-le b = ground arith

left-lt :
    (t u v : Tokenizer) (out : Option Lexed)
    → Advances t u
    → v.text ≡ u.text
    → Offset v.text v.cur
    → Moved u out v
    → out ≢ none
    → left v < left t
unfolding flag
left-lt t u v out a same off (inl e) some_ = absurd (some_ e)
left-lt t u v out a same (after, off) (inr (inl lt)) some_ = omega (
  arith,
  a.3,
  ap byte_len a.0,
  ap byte_len same,
  lt,
  byte_len-slice_from v.text v.cur after off,
  flag-le (is_newline v.prev_tok),
)
left-lt t u v out a same (after, off) (inr (inr (le, before, after_))) some_ =
    rw (ap is_newline (sym a.1) ∙ before, after_)
      (omega (arith, a.3, ap byte_len a.0, ap byte_len same, le))

-- From a boundary of the text, if the patterns match as they promise, the characters of identifiers
-- anywhere in it, string literals included, are ASCII, and there is a round for each byte that is
-- left and one more, a call of `next` returns, on a boundary of the same text; and if it yields a
-- token or an error, less is left to do than before.
pub next-left :
    (l : Library)
    → IsSound l
    → (t : Tokenizer) (fuel : ℕ) → Offset t.text t.cur
    → AsciiNames l t.text
    → byte_len t.text - t.cur < fuel
    → (out : Option Lexed) × (t' : Tokenizer) × (next l fuel t ≡ done (some (out, t')))
      × (t'.text ≡ t.text)
      × Offset t'.text t'.cur
      × (out ≢ none → left t' < left t)
unfolding next
next-left l sound t fuel (rest, here) names enough =
    let (u, e, a) = advance-Advances fuel t rest here enough in
    let (rest', here') = a.4 in
    let names' =
      AsciiNames-slice_from l u.text u.cur rest' (subst (AsciiNames l) (sym a.0) names) here' in
    let (out, v, e', same, off, moved) = read_token-Proceeds l sound u rest' here' names' in
    (out, v, rw e (rw here' (rw e' refl)), same ∙ a.0, off, left-lt t u v out a same off moved)
