-- ===== src/Lexer/Longest.antt =====
-- src/lexer.rs: the keyword that `keyword` finds.
use mathlib.Core.Path.{subst}
use frawk.Prelude.{
  ℕ, zero, suc, ◌+◌, ◌-◌, ◌≤◌, ◌≡◌, inl, inr, refl, ap, ◌∙◌, sym, Bool, true, false, ◌==◌, ==→eq,
  ltb, ltb→lt, Option, none, some, List, length, arith, Bool-cases,
}
use frawk.Builtins.{Outcome, done}
use frawk.Splitter.{take, drop}
use frawk.Lexer.{Tok, Tokenizer}
use frawk.Lexer.Text.{as_bytes, byte_len, slice_from}
use frawk.Lexer.Keywords.{
  Keyword, keywords, get, keywords_by_len, max_len, may_follow, keyword_up_to, keyword, try_len,
  starts,
}
use frawk.Lexer.Boundary.{
  drop-as_bytes, slice_from-add, slice_from_ascii, length-as_bytes, byte_len-slice_from,
}
use frawk.Lexer.Table.{
  Listed, get-keywords_by_len, get-Listed, distinct-keywords, Listed-get, Listed-le-max_len,
  all_ascii-keywords, Listed-ascii, length-take,
}

-- The text goes on from the offset with the keyword, and behind it as the keyword wants.
pub record Fits (text : List ℕ) (start : ℕ) (k : Keyword) : Type 0 where
  pub within : start + length k.name ≤ byte_len text
  pub reads : take (length k.name) (drop start (as_bytes text)) ≡ k.name
  pub follows : may_follow text (start + length k.name) k.follow ≡ done true

-- Among the keywords of at most `bound` bytes, the answer is the longest that fits; or none fits.
abbrev pub Longest : List ℕ → ℕ → ℕ → Option (Tok × ℕ) → Type 0
Longest text start bound none =
    (k : Keyword) → Listed k keywords → length k.name ≤ bound → Fits text start k → ⊥
Longest text start bound (some (tok, len)) =
    (k : Keyword) × Listed k keywords
    × Fits text start k
    × (k.tok ≡ tok)
    × (length k.name ≡ len)
    × ((k' : Keyword)
        → Listed k' keywords
        → length k'.name ≤ bound
        → Fits text start k'
        → length k'.name ≤ len)

-- No keyword of one more byte fits.
widen :
    (text : List ℕ) (start n : ℕ) (r : Option (Tok × ℕ))
    → ((k : Keyword) → Listed k keywords → length k.name ≡ suc n → Fits text start k → ⊥)
    → Longest text start n r
    → Longest text start (suc n) r
widen text start n none none_fits h = λ k m le fits. elim (Bool-cases (length k.name == suc n)) [
  | inl same ↦ none_fits k m (==→eq (length k.name) (suc n) same) fits
  | inr other ↦ h k m (ground (arith, le, other)) fits
]
widen text start n (some (tok, len)) none_fits (k, m, fits, t, l, best) = (
  k,
  m,
  fits,
  t,
  l,
  λ k' m' le fits'. elim (Bool-cases (length k'.name == suc n)) [
    | inl same ↦ absurd (none_fits k' m' (==→eq (length k'.name) (suc n) same) fits')
    | inr other ↦ best k' m' (ground (arith, le, other)) fits'
  ],
)

-- The keyword of an entry, from its name.
Fits-name :
    (text : List ℕ) (start n : ℕ) (k : Keyword)
    → Listed k keywords
    → length k.name ≡ suc n
    → Fits text start k
    → get (take (suc n) (drop start (as_bytes text))) (keywords_by_len (suc n) keywords) ≡ some k
Fits-name text start n k m len fits =
    let read : take (suc n) (drop start (as_bytes text)) ≡ k.name =
      ap (λ j. take j (drop start (as_bytes text))) (sym len) ∙ fits.reads in
    ap (λ t. get t (keywords_by_len (suc n) keywords)) read
    ∙ get-keywords_by_len k.name (suc n) keywords len
    ∙ Listed-get keywords k distinct-keywords m

ge_of_ltb : (a b : ℕ) → ltb a b ≡ false → b ≤ a
ge_of_ltb a b h = ground (arith, h)

may_follow_done :
    (text : List ℕ) (end : ℕ) (follow : Option (ℕ → Bool)) (rest : List ℕ)
    → slice_from text end ≡ done rest
    → (b : Bool) × (may_follow text end follow ≡ done b)
unfolding may_follow
may_follow_done text end none rest h = elim (Bool-cases (end == byte_len text)) [
  | inl last ↦ (true, rw last refl)
  | inr more ↦ (true, rw more refl)
]
may_follow_done text end (some class) rest h = elim (Bool-cases (end == byte_len text)) [
  | inl last ↦ (true, rw last refl)
  | inr more ↦ (starts class rest, rw (more, h) refl)
]

module _ (text : List ℕ) (start : ℕ) (rest : List ℕ)
    (boundary : slice_from text start ≡ done rest) where
  may_follow_lem :
      (k : Keyword)
      → Listed k keywords
      → take (length k.name) (drop start (as_bytes text)) ≡ k.name
      → (b : Bool) × (may_follow text (start + length k.name) k.follow ≡ done b)
  may_follow_lem k m read =
      let ascii = (Listed-ascii keywords k all_ascii-keywords m).0 in
      let read' = ap (take (length k.name)) (sym (drop-as_bytes text start rest boundary)) ∙ read in
      let (after, e) = slice_from_ascii rest k.name ascii read' in
      may_follow_done text (start + length k.name) k.follow after
        (slice_from-add text start rest (length k.name) boundary ∙ e)

  -- What is found when the keywords of `n` bytes have been searched.
  abbrev Found : ℕ → Outcome (Option (Tok × ℕ)) → Type 0
  Found n found = (r : Option (Tok × ℕ)) × (found ≡ done r) × Longest text start n r

  -- An entry that is found has the name that the text goes on with.
  entry :
      (n : ℕ) (k : Keyword)
      → get (take (suc n) (drop start (as_bytes text))) (keywords_by_len (suc n) keywords) ≡ some k
      → ltb (byte_len text - start) (suc n) ≡ false
      → (length k.name ≡ suc n)
        × Listed k keywords
        × (take (length k.name) (drop start (as_bytes text)) ≡ k.name)
  entry n k e room =
      let left = drop start (as_bytes text) in
      let bytes = take (suc n) left in
      let all : length left ≡ byte_len rest =
        ap length (drop-as_bytes text start rest boundary) ∙ length-as_bytes rest in
      let len : length bytes ≡ suc n = length-take (suc n) left (
        omega (
          arith,
          all,
          byte_len-slice_from text start rest boundary,
          ge_of_ltb (byte_len text - start) (suc n) room,
        )) in
      let (m, name) =
        get-Listed bytes keywords k (sym (get-keywords_by_len bytes (suc n) keywords len) ∙ e) in
      let klen = ap length name ∙ len in (klen, m, ap (λ j. take j left) klen ∙ sym name)

  clash :
      (k k' : Keyword)
      → may_follow text (start + length k.name) k.follow ≡ done false
      → may_follow text (start + length k'.name) k'.follow ≡ done true
      → k' ≡ k
      → ⊥
  clash k k' h h' same =
      let both =
        subst (λ y. may_follow text (start + length y.name) y.follow ≡ done true) same h' in
      ground (arith, h, both)

  try_len-Found :
      (n : ℕ) (shorter : Outcome (Option (Tok × ℕ))) (o : Option Keyword)
      → get (take (suc n) (drop start (as_bytes text))) (keywords_by_len (suc n) keywords) ≡ o
      → ltb (byte_len text - start) (suc n) ≡ false
      → Found n shorter
      → Found (suc n) (try_len text start (suc n) shorter o)
  unfolding try_len
  try_len-Found n shorter none e room (r, done_, best) = (
    r,
    done_,
    widen text start n r
        (λ k m len fits. absurd (ground (arith, e, Fits-name text start n k m len fits))) best,
  )
  try_len-Found n shorter (some k) e room (r, done_, best) =
      let (len, m, reads) = entry n k e room in
      let (b, follow) = may_follow_lem k m reads in
      let follow' : may_follow text (start + suc n) k.follow ≡ done b =
        ap (λ j. may_follow text (start + j) k.follow) (sym len) ∙ follow in
      elim (Bool-cases b) [
        | inl fits ↦ (
          some (k.tok, suc n),
          rw (follow' ∙ ap done fits) refl,
          (
            k,
            m,
            record {
              within = omega (arith, len, ge_of_ltb (byte_len text - start) (suc n) room);
              reads = reads;
              follows = follow ∙ ap done fits;
            },
            refl,
            len,
            λ k' m' le fits'. le,
          ),
        )
        | inr stops ↦ (
          r,
          rw (follow' ∙ ap done stops) done_,
          widen text start n r
              (λ k' m' len' fits'.
                clash k k' (follow ∙ ap done stops) fits'.follows
                  (ground (arith, e, Fits-name text start n k' m' len' fits')))
              best,
        )
      ]

  keyword_up_to-Found : (n : ℕ) → Found n (keyword_up_to text start n)
  unfolding keyword_up_to
  keyword_up_to-Found zero = (
    none,
    refl,
    λ k m le fits. absurd (omega (arith, (Listed-ascii keywords k all_ascii-keywords m).1, le)),
  )
  keyword_up_to-Found (suc n) = elim (Bool-cases (ltb (byte_len text - start) (suc n))) [
    | inl short ↦
        let (r, e, best) = keyword_up_to-Found n in
        (
          r,
          rw short e,
          widen text start n r
              (λ k m len fits.
                absurd
                  (omega (arith, fits.within, len, ltb→lt (byte_len text - start) (suc n) short)))
              best,
        )
    | inr room ↦ rw room (
        try_len-Found n (keyword_up_to text start n)
          (get (take (suc n) (drop start (as_bytes text))) (keywords_by_len (suc n) keywords)) refl
          room (keyword_up_to-Found n))
  ]

-- The answer is the longest keyword that fits, or none fits.
abbrev pub IsLongest : List ℕ → ℕ → Option (Tok × ℕ) → Type 0
IsLongest text start none = (k : Keyword) → Listed k keywords → Fits text start k → ⊥
IsLongest text start (some (tok, len)) =
    (k : Keyword) × Listed k keywords
    × Fits text start k
    × (k.tok ≡ tok)
    × (length k.name ≡ len)
    × ((k' : Keyword) → Listed k' keywords → Fits text start k' → length k'.name ≤ len)

Longest-IsLongest :
    (text : List ℕ) (start : ℕ) (r : Option (Tok × ℕ))
    → Longest text start (max_len keywords) r
    → IsLongest text start r
Longest-IsLongest text start none h = λ k m. h k m (Listed-le-max_len keywords k m)
Longest-IsLongest text start (some (tok, len)) (k, m, fits, t, l, best) =
    (k, m, fits, t, l, λ k' m'. best k' m' (Listed-le-max_len keywords k' m'))

-- At the boundary of a character, `keyword` returns, with the longest keyword that the text goes on
-- with, counting only those that may stand before what follows; or with none, if there is no such
-- keyword.
pub keyword-IsLongest :
    (t : Tokenizer) (rest : List ℕ)
    → slice_from t.text t.cur ≡ done rest
    → (r : Option (Tok × ℕ)) × (keyword t ≡ done r) × IsLongest t.text t.cur r
unfolding keyword
keyword-IsLongest t rest boundary =
    let (r, e, best) = keyword_up_to-Found t.text t.cur rest boundary (max_len keywords) in
    (r, e, Longest-IsLongest t.text t.cur r best)
