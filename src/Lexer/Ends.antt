-- ===== src/Lexer/Ends.antt =====
-- src/lexer.rs: where literals, identifiers and the white space before a token end.
use mathlib.Core.Path.{subst}
use frawk.Prelude.{
  ℕ, zero, suc, ◌+◌, ◌-◌, ◌≤◌, ◌<◌, ◌≡◌, inl, inr, refl, ap, ◌∙◌, Bool, true, false, ◌==◌, ==→eq,
  Option, none, some, List, [], ◌∷◌, if◌then◌else◌, arith, Bool-cases,
}
use frawk.Builtins.{done}
use frawk.Lexer.{Tokenizer, Library, is_id_body}
use frawk.Lexer.Text.{byte_len, len_utf8, slice_from, slice_from_first}
use frawk.Lexer.Boundary.{byte_len-slice_from}
use frawk.Lexer.Scan.{bound, last_body, comment_len, ws_len, consume_ws, consume_comment, advance}
use frawk.Lexer.Moves.{Offset, Offset-add, Offset-ws_len, Offset-comment_len}

-- The scan stops at the offset `k`, in front of the character `c`.
abbrev pub Stops : List ℕ → ℕ → ℕ → ℕ → Type 0
Stops rest ix k c =
    (n : ℕ) × (after : List ℕ) × (k ≡ ix + n) × (slice_from rest n ≡ done (c ∷ after))

Stops-first :
    (d : ℕ) (rest : List ℕ) (ix k c : ℕ)
    → Stops rest (ix + len_utf8 d) k c
    → Stops (d ∷ rest) ix k c
Stops-first d rest ix k c (n, after, e, h) =
    (len_utf8 d + n, after, omega (arith, e), slice_from_first d rest n ∙ h)

pub bound-Stops :
    (delim : ℕ) (is_escape : Bool) (ix : ℕ) (rest : List ℕ) (k : ℕ)
    → bound delim is_escape ix rest ≡ some k
    → Stops rest ix k delim
unfolding bound slice_from
bound-Stops delim is_escape ix [] k h = cc
bound-Stops delim true ix (c ∷ rest) k h =
    Stops-first c rest ix k delim (bound-Stops delim false (ix + len_utf8 c) rest k h)
bound-Stops delim false ix (c ∷ rest) k h = elim (Bool-cases (c == delim)) [
  | inl end ↦ (0, rest, ground (arith, end, h), ap (λ x. done (x ∷ rest)) (==→eq c delim end))
  | inr other ↦
      Stops-first c rest ix k delim
        (bound-Stops delim (c == b'\\') (ix + len_utf8 c) rest k (ground (arith, other, h)))
]

pub last_body-Stops :
    (l : Library) (ix : ℕ) (rest : List ℕ) (k : ℕ)
    → last_body l ix rest ≡ some k
    → (c : ℕ) × Stops rest ix k c × (is_id_body l c ≡ true)
unfolding last_body slice_from
last_body-Stops l ix [] k h = cc
last_body-Stops l ix (c ∷ rest) k h = elim (Bool-cases (is_id_body l c)) [
  | inl body ↦
      by_later (last_body-Stops l (ix + len_utf8 c) rest) body (last_body l (ix + len_utf8 c) rest)
        refl
  | inr other ↦ absurd (ground (arith, other, h))
]
  where
    by_later :
        ((last : ℕ)
          → last_body l (ix + len_utf8 c) rest ≡ some last
          → (d : ℕ) × Stops rest (ix + len_utf8 c) last d × (is_id_body l d ≡ true))
        → is_id_body l c ≡ true
        → (later : Option ℕ) → last_body l (ix + len_utf8 c) rest ≡ later
        → (d : ℕ) × Stops (c ∷ rest) ix k d × (is_id_body l d ≡ true)
    by_later ih body none e = (c, (0, rest, ground (arith, h, body, e), refl), body)
    by_later ih body (some last) e =
        let (d, stops, b) = ih last e in
        let same : last ≡ k = ground (arith, h, body, e) in
        (d, subst (λ j. Stops (c ∷ rest) ix j d) same (Stops-first c rest ix last d stops), b)

-- `advance` stops on a boundary, and changes nothing but the offset.
abbrev pub Advances : Tokenizer → Tokenizer → Type 0
Advances t t' =
    (t'.text ≡ t.text)
    × (t'.prev_tok ≡ t.prev_tok)
    × (t'.lines ≡ t.lines)
    × (t.cur ≤ t'.cur)
    × Offset t'.text t'.cur

consume_ws-Advances :
    (t : Tokenizer) (rest : List ℕ)
    → slice_from t.text t.cur ≡ done rest
    → (t' : Tokenizer) × (consume_ws t ≡ done t') × Advances t t'
unfolding consume_ws
consume_ws-Advances t rest h = (
  record t { cur = t.cur + ws_len 0 0 rest },
  rw h refl,
  (
    refl,
    refl,
    refl,
    omega arith,
    Offset-add t.text t.cur (ws_len 0 0 rest) rest h (Offset-ws_len rest),
  ),
)

consume_comment-Advances :
    (t : Tokenizer) (rest : List ℕ)
    → slice_from t.text t.cur ≡ done rest
    → (t' : Tokenizer) × (consume_comment t ≡ done t') × Advances t t'
unfolding consume_comment
consume_comment-Advances t rest h = (
  record t { cur = t.cur + comment_len rest },
  rw h refl,
  (
    refl,
    refl,
    refl,
    omega arith,
    Offset-add t.text t.cur (comment_len rest) rest h (Offset-comment_len rest),
  ),
)

Advances-trans : {t u v : Tokenizer} → Advances t u → Advances u v → Advances t v
Advances-trans (a, b, c, d, e) (a', b', c', d', e') =
    (a' ∙ a, b' ∙ b, c' ∙ c, omega (arith, d, d'), e')

-- A round of the loop of `advance`.
one_round :
    (fuel : ℕ) (t t1 t2 : Tokenizer)
    → consume_ws t ≡ done t1
    → consume_comment t1 ≡ done t2
    → advance (suc fuel) t ≡ (if t2.cur == t.cur then done (some t2) else advance fuel t2)
unfolding advance
one_round fuel t t1 t2 e1 e2 = rw e1 (rw e2 refl)

-- With a round for each byte that is left, and one more, `advance` returns.
pub advance-Advances :
    (fuel : ℕ) (t : Tokenizer) (rest : List ℕ)
    → slice_from t.text t.cur ≡ done rest
    → byte_len t.text - t.cur < fuel
    → (t' : Tokenizer) × (advance fuel t ≡ done (some t')) × Advances t t'
advance-Advances zero t rest h lt = absurd (omega (arith, lt))
advance-Advances (suc fuel) t rest h lt =
    let (t1, e1, a1) = consume_ws-Advances t rest h in
    let (t2, e2, a2) = consume_comment-Advances t1 a1.4.0 a1.4.1 in
    let both = Advances-trans {t = t} {u = t1} {v = t2} a1 a2 in
    let (rest2, at_t2) = both.4 in
    let step = one_round fuel t t1 t2 e1 e2 in
    elim (Bool-cases (t2.cur == t.cur)) [
      | inl same ↦ (t2, step ∙ rw same refl, both)
      | inr more ↦
          let (t', e, a) = advance-Advances fuel t2 rest2 at_t2 (
            ground (
              arith,
              more,
              both.3,
              lt,
              ap byte_len both.0,
              byte_len-slice_from t2.text t2.cur rest2 at_t2,
            )) in
          (t', step ∙ rw more e, Advances-trans {t = t} {u = t2} {v = t'} both a)
    ]
