-- ===== src/Lexer/Words.antt =====
-- src/lexer.rs: the tokens of which the patterns and the table of keywords decide.
use mathlib.Core.Path.{subst}
use frawk.Prelude.{ℕ, ◌+◌, ◌<◌, ◌≡◌, refl, ap, ◌∙◌, sym, Option, none, some, List, ◌++◌, length}
use frawk.Builtins.{Outcome, done}
use frawk.Splitter.{take}
use frawk.Lexer.{Tok, Tokenizer, Library}
use frawk.Lexer.Text.{as_bytes, byte_len, slice_from, slice_from-append}
use frawk.Lexer.Boundary.{drop-as_bytes}
use frawk.Lexer.Moves.{Offset, Offset-add}
use frawk.Lexer.Next.{fundec, num}
use frawk.Lexer.Keywords.{Keyword, keywords, get, keyword}
use frawk.Lexer.Table.{Listed, Listed-ascii, all_ascii-keywords}
use frawk.Lexer.Longest.{Fits, IsLongest, keyword-IsLongest}
use frawk.Lexer.Boundary.{slice_from_ascii}
use frawk.Lexer.Progress.{IsSound}

-- A token of so many bytes ends on a boundary.
abbrev pub Ends : Tokenizer → Option (Tok × ℕ) → Type 0
Ends t none = Unit {0}
Ends t (some (tok, len)) = (0 < len) × Offset t.text (t.cur + len)

module _ (l : Library) (sound : IsSound l) (t : Tokenizer) (rest : List ℕ)
    (here : slice_from t.text t.cur ≡ done rest) where
  Ends_prefix :
      (m : List ℕ)
      → (after : List ℕ) × (rest ≡ m ++ after) × (0 < byte_len m)
      → (0 < byte_len m) × Offset t.text (t.cur + byte_len m)
  Ends_prefix m (after, e, more) = (
    more,
    Offset-add t.text t.cur (byte_len m) rest here
        (subst (λ x. Offset x (byte_len m)) (sym e) (after, slice_from-append m after)),
  )

  pub fundec-Ends : (r : Option (Tok × ℕ)) × (fundec l t ≡ done r) × Ends t r
  unfolding fundec
  fundec-Ends = rw here (by_match (l.fn_pattern rest) refl)
    where
      by_name :
          (full name : List ℕ) (o : Option Keyword)
          → l.fn_pattern rest ≡ some (full, name)
          → (r : Option (Tok × ℕ)) × ((elim o [
            | none ↦ done (some (Tok.fun_dec name, byte_len full))
            | some k ↦ done none
          ])
              ≡ done r)
            × Ends t r
      by_name full name none e = (
        some (Tok.fun_dec name, byte_len full),
        refl,
        Ends_prefix full (sound.declaration rest full name e),
      )
      by_name full name (some k) e = (none, refl, tt)

      by_match :
          (o : Option (List ℕ × List ℕ))
          → l.fn_pattern rest ≡ o
          → (r : Option (Tok × ℕ)) × ((elim o [
            | none ↦ done none
            | some (full, name) ↦ elim (get (as_bytes name) keywords) [
              | none ↦ done (some (Tok.fun_dec name, byte_len full))
              | some k ↦ done none
            ]
          ])
              ≡ done r)
            × Ends t r
      by_match none e = (none, refl, tt)
      by_match (some (full, name)) e = by_name full name (get (as_bytes name) keywords) e

  pub num-Ends : (r : Option (Tok × ℕ)) × (num l t ≡ done r) × Ends t r
  unfolding num
  num-Ends = rw here (by_hex (l.hex_pattern rest) refl)
    where
      Answer : Outcome (Option (Tok × ℕ)) → Type 0
      Answer x = (r : Option (Tok × ℕ)) × (x ≡ done r) × Ends t r

      by_int :
          (o : Option (List ℕ))
          → l.int_pattern rest ≡ o
          → Answer (elim o [ some i ↦ done (some (Tok.i_lit i, byte_len i)) | none ↦ done none ])
      by_int none e = (none, refl, tt)
      by_int (some i) e = (some (Tok.i_lit i, byte_len i), refl, Ends_prefix i (sound.int rest i e))

      by_float :
          (o : Option (List ℕ))
          → l.float_pattern rest ≡ o
          → Answer (elim o [
            | some f ↦ done (some (Tok.f_lit f, byte_len f))
            | none ↦ elim (l.int_pattern rest) [
              | some i ↦ done (some (Tok.i_lit i, byte_len i))
              | none ↦ done none
            ]
          ])
      by_float none e = by_int (l.int_pattern rest) refl
      by_float (some f) e =
          (some (Tok.f_lit f, byte_len f), refl, Ends_prefix f (sound.float rest f e))

      by_hex :
          (o : Option (List ℕ))
          → l.hex_pattern rest ≡ o
          → Answer (elim o [
            | some i ↦ done (some (Tok.hex_lit i, byte_len i))
            | none ↦ elim (l.float_pattern rest) [
              | some f ↦ done (some (Tok.f_lit f, byte_len f))
              | none ↦ elim (l.int_pattern rest) [
                | some i ↦ done (some (Tok.i_lit i, byte_len i))
                | none ↦ done none
              ]
            ]
          ])
      by_hex none e = by_float (l.float_pattern rest) refl
      by_hex (some i) e =
          (some (Tok.hex_lit i, byte_len i), refl, Ends_prefix i (sound.hex rest i e))

Fits-Ends :
    (t : Tokenizer) (rest : List ℕ) (k : Keyword)
    → slice_from t.text t.cur ≡ done rest
    → Listed k keywords
    → Fits t.text t.cur k
    → (0 < length k.name) × Offset t.text (t.cur + length k.name)
Fits-Ends t rest k here m fits =
    let (ascii, more) = Listed-ascii keywords k all_ascii-keywords m in
    (
      more,
      Offset-add t.text t.cur (length k.name) rest here (
          slice_from_ascii rest k.name ascii
            (ap (take (length k.name)) (sym (drop-as_bytes t.text t.cur rest here)) ∙ fits.reads)),
    )

pub keyword-Ends :
    (t : Tokenizer) (rest : List ℕ)
    → slice_from t.text t.cur ≡ done rest
    → (r : Option (Tok × ℕ)) × (keyword t ≡ done r) × Ends t r
keyword-Ends t rest here =
    let (r, e, best) = keyword-IsLongest t rest here in (r, e, by_answer r best)
  where
    by_answer : (r : Option (Tok × ℕ)) → IsLongest t.text t.cur r → Ends t r
    by_answer none best = tt
    by_answer (some (tok, len)) (k, m, fits, e, same, best) =
        subst (λ n. (0 < n) × Offset t.text (t.cur + n)) same (Fits-Ends t rest k here m fits)
