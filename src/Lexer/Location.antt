-- ===== src/Lexer/Location.antt =====
-- src/lexer.rs: the location of an offset, against a walk over the bytes of the text.
use frawk.Prelude.{
  ℕ, zero, suc, ◌+◌, ◌-◌, ◌≤◌, ◌<◌, ◌≡◌, ◌≢◌, ◌⊎◌, inl, inr, refl, ap, ◌∙◌, true, false, ◌==◌,
  ==→eq, ltb, ltb→lt, lt→ltb, le→ltb, some, List, [], ◌∷◌, if◌then◌else◌, length, get_elem?,
  contains, arith, Bool-cases,
}
use frawk.Builtins.{done, ◌>>=◌}
use frawk.Lexer.{Loc}
use frawk.Lexer.Next.{found, missing, search_from, column, loc_at, index_to_loc, newlines}

-- The line and the column after `n` bytes, by a walk over them.
unfoldable pub position : ℕ → ℕ → List ℕ → ℕ → ℕ × ℕ
position line col bytes zero = (line, col)
position line col [] (suc n) = (line, col)
position line col (b ∷ bytes) (suc n) =
    let below = position (suc line) 0 bytes n in
    let along = position line (col + 1) bytes n in if b == b'\n' then below else along

-- The line and the column of an offset, from the line feeds behind the start of a line.
locate : ℕ → ℕ → List ℕ → ℕ → ℕ × ℕ
locate line start [] ix = (line, ix - start)
locate line start (x ∷ xs) ix =
    let below = locate (suc line) (x + 1) xs ix in if ltb x ix then below else (line, ix - start)

locate_before :
    (line start off ix : ℕ) (bytes : List ℕ)
    → ix ≤ off
    → locate line start (newlines off bytes) ix ≡ (line, ix - start)
unfolding locate newlines
locate_before line start off ix [] h = refl
locate_before line start off ix (b ∷ bytes) h = elim (Bool-cases (b == b'\n')) [
  | inl feed ↦ rw (feed, le→ltb off ix h) refl
  | inr other ↦ rw other (locate_before line start (off + 1) ix bytes (omega (arith, h)))
]

locate-newlines :
    (line start off n : ℕ) (bytes : List ℕ)
    → start ≤ off
    → n ≤ length bytes
    → locate line start (newlines off bytes) (off + n) ≡ position line (off - start) bytes n
unfolding locate newlines position
locate-newlines line start off zero bytes h k =
    ap (locate line start (newlines off bytes)) (let e : off + 0 ≡ off = omega arith in e)
    ∙ locate_before line start off off bytes (omega arith)
locate-newlines line start off (suc n) [] h k = absurd (omega (arith, k))
locate-newlines line start off (suc n) (b ∷ bytes) h k = elim (Bool-cases (b == b'\n')) [
  | inl feed ↦
      rw (feed, lt→ltb off (off + suc n) (omega arith))
        (ap (locate (suc line) (off + 1) (newlines (off + 1) bytes)) (further off n)
          ∙ locate-newlines (suc line) (off + 1) (off + 1) n bytes (omega arith) (omega (arith, k))
          ∙ ap (λ c. position (suc line) c bytes n) (omega arith))
  | inr other ↦ rw other (
      ap (locate line start (newlines (off + 1) bytes)) (further off n)
      ∙ locate-newlines line start (off + 1) n bytes (omega (arith, h)) (omega (arith, k))
      ∙ ap (λ c. position line c bytes n) (omega (arith, h)))
]
  where
    further : (off n : ℕ) → off + suc n ≡ off + 1 + n
    further off n = omega arith

contains_before :
    (off ix : ℕ) (bytes : List ℕ) → ix < off → contains ix (newlines off bytes) ≡ false
unfolding newlines
contains_before off ix [] h = refl
contains_before off ix (b ∷ bytes) h =
    ground (arith, contains_before (off + 1) ix bytes (omega (arith, h)))

contains-newlines :
    (off n : ℕ) (bytes : List ℕ)
    → get_elem? bytes n ≢ some b'\n'
    → contains (off + n) (newlines off bytes) ≡ false
unfolding newlines
contains-newlines off n [] h = refl
contains-newlines off zero (b ∷ bytes) h = elim (Bool-cases (b == b'\n')) [
  | inl feed ↦ absurd (h (ap some (==→eq b b'\n' feed)))
  | inr other ↦ rw other (contains_before (off + 1) (off + 0) bytes (omega arith))
]
contains-newlines off (suc n) (b ∷ bytes) h =
    let later : contains (off + suc n) (newlines (off + 1) bytes) ≡ false =
      ap (λ i. contains i (newlines (off + 1) bytes)) (omega arith)
      ∙ contains-newlines (off + 1) n bytes h in
    ground (arith, later)

-- The start of line `i`: behind the line feed before it.
Starts : List ℕ → ℕ → ℕ → ℕ → Type 0
Starts lines ix zero start = start ≡ 0
Starts lines ix (suc k) start = (x : ℕ) × (get_elem? lines k ≡ some x) × (start ≡ x + 1) × (x < ix)

abbrev pub loc : ℕ → ℕ × ℕ → Loc
loc ix p = record { line = p.0; col = p.1; offset = ix }

column_lem :
    (lines : List ℕ) (ix k x : ℕ)
    → get_elem? lines k ≡ some x
    → x < ix
    → column lines ix k ≡ done (ix - x - 1)
unfolding column
column_lem lines ix k x e lt = ground (arith, e, lt)

loc_at-missing :
    (lines : List ℕ) (ix i start : ℕ)
    → Starts lines ix i start
    → loc_at lines ix (missing i) ≡ done (loc ix (i, ix - start))
unfolding loc_at Starts
loc_at-missing lines ix zero start h =
    ap (λ c. done (record { line = 0; col = c; offset = ix })) (omega (arith, h))
loc_at-missing lines ix (suc k) start (x, e, s, lt) =
    ap (λ c. c >>= λ col. done (loc ix (suc k, col))) (column_lem lines ix k x e lt)
    ∙ ap (λ c. done (loc ix (suc k, c))) (omega (arith, s))

search_lt :
    (i ix x : ℕ) (xs : List ℕ) → x < ix → search_from i ix (x ∷ xs) ≡ search_from (suc i) ix xs
unfolding search_from
search_lt i ix x xs h = ground (arith, h)

search_eq : (i ix x : ℕ) (xs : List ℕ) → (x == ix) ≡ true → search_from i ix (x ∷ xs) ≡ found i
unfolding search_from
search_eq i ix x xs h = rw h refl

search_gt : (i ix x : ℕ) (xs : List ℕ) → ix < x → search_from i ix (x ∷ xs) ≡ missing i
unfolding search_from
search_gt i ix x xs h = ground (arith, h)

loc_at-found :
    (lines : List ℕ) (ix i start : ℕ)
    → Starts lines ix i start
    → i ≡ 0
    → loc_at lines ix (found i) ≡ done (loc ix (i, ix - start))
unfolding loc_at Starts
loc_at-found lines ix zero start h e = ap (λ c. done (loc ix (0, c))) (omega (arith, h))
loc_at-found lines ix (suc k) start h e = absurd (omega (arith, e))

Starts-suc :
    (lines : List ℕ) (ix i x : ℕ)
    → x < ix
    → get_elem? lines (i + 0) ≡ some x
    → Starts lines ix (suc i) (x + 1)
unfolding Starts
Starts-suc lines ix i x lt e = (x, ap (get_elem? lines) (omega arith) ∙ e, refl, lt)

loc_at-locate :
    (lines : List ℕ) (ix i start : ℕ) (xs : List ℕ)
    → ((j : ℕ) → get_elem? lines (i + j) ≡ get_elem? xs j)
    → Starts lines ix i start
    → (contains ix xs ≡ false) ⊎ ((locate i start xs ix).0 ≡ 0)
    → loc_at lines ix (search_from i ix xs) ≡ done (loc ix (locate i start xs ix))
unfolding locate
loc_at-locate lines ix i start [] same s h = unfold search_from in loc_at-missing lines ix i start s
loc_at-locate lines ix i start (x ∷ xs) same s h = elim (Bool-cases (ltb x ix)) [
  | inl lt ↦
      ap (loc_at lines ix) (search_lt i ix x xs (ltb→lt x ix lt))
      ∙ rw lt (
          loc_at-locate lines ix (suc i) (x + 1) xs
            (λ j. ap (get_elem? lines) (omega arith) ∙ same (suc j))
            (Starts-suc lines ix i x (ltb→lt x ix lt) (same 0))
            (elim h [
              | inl new ↦ inl (ground (arith, new))
              | inr first ↦ inr (ground (arith, first, lt))
            ]))
  | inr ge ↦ rw ge (elim (Bool-cases (x == ix)) [
    | inl here ↦
        ap (loc_at lines ix) (search_eq i ix x xs here)
        ∙ loc_at-found lines ix i start s (elim h [
          | inl new ↦ absurd (ground (arith, new, here))
          | inr first ↦ ground (arith, first, ge)
        ])
    | inr other ↦
        ap (loc_at lines ix) (search_gt i ix x xs (ground (arith, ge, other)))
        ∙ loc_at-missing lines ix i start s
  ])
]

Starts-found :
    (lines : List ℕ) (ix k start : ℕ)
    → Starts lines ix (suc k) start
    → (l : Loc) × (loc_at lines ix (found (suc k)) ≡ done l)
unfolding loc_at Starts
Starts-found lines ix k start (x, e, s, lt) = (
  loc ix (k, ix - x - 1),
  ap (λ c. c >>= λ col. done (loc ix (k, col))) (column_lem lines ix k x e lt),
)

loc_at_total :
    (lines : List ℕ) (ix i start : ℕ) (xs : List ℕ)
    → ((j : ℕ) → get_elem? lines (i + j) ≡ get_elem? xs j)
    → Starts lines ix i start
    → (l : Loc) × (loc_at lines ix (search_from i ix xs) ≡ done l)
unfolding loc_at
loc_at_total lines ix i start [] same s =
    unfold search_from in (loc ix (i, ix - start), loc_at-missing lines ix i start s)
loc_at_total lines ix i start (x ∷ xs) same s = elim (Bool-cases (ltb x ix)) [
  | inl lt ↦
      let (l, e) =
        loc_at_total lines ix (suc i) (x + 1) xs
          (λ j. ap (get_elem? lines) (omega arith) ∙ same (suc j))
          (Starts-suc lines ix i x (ltb→lt x ix lt) (same 0)) in
      (l, ap (loc_at lines ix) (search_lt i ix x xs (ltb→lt x ix lt)) ∙ e)
  | inr ge ↦ elim (Bool-cases (x == ix)) [
    | inl here ↦
        let (l, e) = at_found lines ix i start s in
        (l, ap (loc_at lines ix) (search_eq i ix x xs here) ∙ e)
    | inr other ↦ (
      loc ix (i, ix - start),
      ap (loc_at lines ix) (search_gt i ix x xs (ground (arith, ge, other)))
          ∙ loc_at-missing lines ix i start s,
    )
  ]
]
  where
    at_found :
        (lines : List ℕ) (ix i start : ℕ)
        → Starts lines ix i start
        → (l : Loc) × (loc_at lines ix (found i) ≡ done l)
    at_found lines ix zero start s = (loc ix (0, ix), refl)
    at_found lines ix (suc k) start s = Starts-found lines ix k start s

-- An offset always has a location.
pub index_to_loc_total : (lines : List ℕ) (ix : ℕ) → (l : Loc) × (index_to_loc lines ix ≡ done l)
unfolding index_to_loc Starts
index_to_loc_total lines ix =
    loc_at_total lines ix 0 0 lines (λ j. ap (get_elem? lines) (omega arith)) refl

-- The location of an offset in the text is the line and the column at which a walk over the bytes
-- arrives, if it is not the offset of a line feed, or is one on the first line.
pub index_to_loc-position :
    (bytes : List ℕ) (ix : ℕ)
    → ix ≤ length bytes
    → (get_elem? bytes ix ≢ some b'\n') ⊎ ((position 0 0 bytes ix).0 ≡ 0)
    → index_to_loc (newlines 0 bytes) ix ≡ done (loc ix (position 0 0 bytes ix))
unfolding index_to_loc Starts
index_to_loc-position bytes ix h k =
    let walk =
      ap (locate 0 0 (newlines 0 bytes)) (let e : ix ≡ 0 + ix = omega arith in e)
      ∙ locate-newlines 0 0 0 ix bytes (omega arith) h in
    loc_at-locate (newlines 0 bytes) ix 0 0 (newlines 0 bytes)
      (λ j. ap (get_elem? (newlines 0 bytes)) (omega arith)) refl
      (elim k [
        | inl new ↦ inl (
            ap (λ i. contains i (newlines 0 bytes)) (let e : ix ≡ 0 + ix = omega arith in e)
            ∙ contains-newlines 0 ix bytes new)
        | inr first ↦ inr (ap (λ p. p.0) walk ∙ first)
      ])
    ∙ ap (λ p. done (loc ix p)) walk
