-- ===== src/Lexer/Names.antt =====
-- src/lexer.rs: identifiers, and the names of calls.
use mathlib.Core.Path.{subst}
use frawk.Prelude.{
  ℕ, zero, suc, ◌+◌, ◌<◌, ◌≡◌, inl, inr, refl, ap, ◌∙◌, sym, true, ◌==◌, Option, none, some, List,
  [], ◌∷◌, All, arith, Bool-cases, get_elem?,
}
use frawk.Builtins.{done, ◌>>=◌}
use frawk.Splitter.{drop}
use frawk.Lexer.{Tok, Tokenizer, Library, is_id_body}
use frawk.Lexer.Text.{
  as_bytes, encode_utf8, len_utf8, len_utf8_pos, slice_from, slice_from_first, slice,
}
use frawk.Lexer.Boundary.{slice_from-add, slice_from_inv, drop-as_bytes}
use frawk.Lexer.Scan.{last_body, ident_end, ident}
use frawk.Lexer.Moves.{Offset, Offset-add, Offset-first}
use frawk.Lexer.Ends.{last_body-Stops}
use frawk.Lexer.Next.{move, name_token, read_ident}
use frawk.Lexer.Progress.{Proceeds, emit-Proceeds, slice_lem, after_one}

-- The characters of identifiers take one byte each.
abbrev pub AsciiNames : Library → List ℕ → Type 0
AsciiNames l = All (λ c. is_id_body l c ≡ true → c < 128)

pub AsciiNames-slice_from :
    (l : Library) (text : List ℕ) (n : ℕ) (rest : List ℕ)
    → AsciiNames l text
    → slice_from text n ≡ done rest
    → AsciiNames l rest
unfolding slice_from
AsciiNames-slice_from l text zero rest a h = subst (AsciiNames l) (ground (arith, h)) a
AsciiNames-slice_from l [] (suc n) rest a h = cc
AsciiNames-slice_from l (c ∷ text) (suc n) rest a h =
    let (m, e, k) = slice_from_inv c text n rest h in AsciiNames-slice_from l text m rest a.1 k

len_utf8_ascii : (c : ℕ) → c < 128 → len_utf8 c ≡ 1
unfolding len_utf8
len_utf8_ascii c h = ground (arith, h)

ident_end-Offset :
    (l : Library) (rest : List ℕ) (cur : ℕ) (o : Option ℕ)
    → AsciiNames l rest
    → last_body l 0 rest ≡ o
    → (j : ℕ) × (ident_end cur o ≡ cur + j) × Offset rest j
unfolding ident_end slice_from
ident_end-Offset l rest cur none names e = (0, omega arith, (rest, refl))
ident_end-Offset l rest cur (some k) names e =
    let (d, stops, body) = last_body-Stops l 0 rest k e in
    let (n, after, eq, h) = stops in
    let ascii = (AsciiNames-slice_from l rest n (d ∷ after) names h).0 body in
    (n + 1, omega (arith, eq), (after, after_one rest n d after h (len_utf8_ascii d ascii)))

get_elem?-drop : (xs : List ℕ) (n : ℕ) → get_elem? xs n ≡ get_elem? (drop n xs) 0
get_elem?-drop xs zero = refl
get_elem?-drop [] (suc n) = refl
get_elem?-drop (x ∷ xs) (suc n) = get_elem?-drop xs n

-- A byte below 128 is a character.
first_byte :
    (text : List ℕ) (b : ℕ)
    → get_elem? (as_bytes text) 0 ≡ some b
    → b < 128
    → (after : List ℕ) × (text ≡ b ∷ after)
unfolding as_bytes encode_utf8
first_byte [] b h lt = cc
first_byte (c ∷ text) b h lt =
    (text, ap (λ x. x ∷ text) (let e : c ≡ b = ground (arith, h, lt) in e))

name_token-Proceeds :
    (t : Tokenizer) (name : List ℕ) (ix : ℕ) (after : List ℕ) (o : Option ℕ)
    → t.cur < ix
    → slice_from t.text ix ≡ done after
    → get_elem? (as_bytes t.text) ix ≡ o
    → Proceeds t (name_token t name ix o)
unfolding name_token
name_token-Proceeds t name ix after none lt h e = emit-Proceeds t ix (Tok.ident name) lt (after, h)
name_token-Proceeds t name ix after (some b) lt h e = elim (Bool-cases (b == b'(')) [
  | inl paren ↦
      let e' =
        ap (λ bs. get_elem? bs 0) (sym (drop-as_bytes t.text ix after h))
        ∙ sym (get_elem?-drop (as_bytes t.text) ix)
        ∙ e in
      let b_lt : b < 128 = ground (arith, paren) in
      let (rest, eq) = first_byte after b e' b_lt in
      rw paren (
        emit-Proceeds t (ix + 1) (Tok.call_start name) (omega (arith, lt))
          (rest, after_one t.text ix b rest (h ∙ ap (λ x. done x) eq) (len_utf8_ascii b b_lt)))
  | inr other ↦ rw other (emit-Proceeds t ix (Tok.ident name) lt (after, h))
]

module _ (l : Library) (t : Tokenizer) (c : ℕ) (rest : List ℕ)
    (here : slice_from t.text t.cur ≡ done (c ∷ rest)) (names : AsciiNames l rest) where
  ident_lem :
      (name : List ℕ) × (ix : ℕ) × (ident l (move t (len_utf8 c)) t.cur ≡ done (name, ix))
      × (t.cur < ix)
      × Offset t.text ix
  unfolding ident
  ident_lem =
      let inside : slice_from t.text (t.cur + len_utf8 c) ≡ done rest =
        slice_from-add t.text t.cur (c ∷ rest) (len_utf8 c) here
        ∙ ap (slice_from (c ∷ rest)) (let e : len_utf8 c ≡ len_utf8 c + 0 = omega arith in e)
        ∙ slice_from_first c rest 0
        ∙ start rest in
      let (j, e, off) =
        ident_end-Offset l rest (t.cur + len_utf8 c) (last_body l 0 rest) names refl in
      let off' = Offset-first c rest j off in
      let (name, cut) = slice_lem t.text t.cur (len_utf8 c + j) (c ∷ rest) here off' in
      let ix = t.cur + (len_utf8 c + j) in
      let same : ident_end (t.cur + len_utf8 c) (last_body l 0 rest) ≡ ix = omega (arith, e) in
      (
        name,
        ix,
        rw inside (
            ap (λ i. slice t.text t.cur i >>= λ n. done (n, i)) same
            ∙ ap (λ r. r >>= λ n. done (n, ix)) cut),
        omega (arith, len_utf8_pos c),
        Offset-add t.text t.cur (len_utf8 c + j) (c ∷ rest) here off',
      )
    where
      start : (text : List ℕ) → slice_from text 0 ≡ done text
      start text = unfold slice_from in refl

  pub read_ident-Proceeds : Proceeds t (read_ident l t c)
  unfolding read_ident
  read_ident-Proceeds =
      let (name, ix, e, lt, off) = ident_lem in
      rw e (name_token-Proceeds t name ix off.0 (get_elem? (as_bytes t.text) ix) lt off.1 refl)
