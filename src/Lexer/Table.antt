-- ===== src/Lexer/Table.antt =====
-- src/lexer.rs: the table of keywords: each name has one entry, and is ASCII.
use mathlib.Core.Path.{subst}
use frawk.Prelude.{
  ℕ, zero, suc, ◌≤◌, ◌<◌, ◌≡◌, ◌⊎◌, inl, inr, refl, ap, ap₂, ◌∙◌, sym, Bool, true, false, ◌&&◌,
  ==→eq, ltb, Option, none, some, List, [], ◌∷◌, length, arith, Bool-cases, All,
}
use frawk.Splitter.{take}
use frawk.Lexer.Keywords.{Keyword, keywords, bytes_eq, get, keywords_by_len, max_len}

abbrev pub Listed : Keyword → List Keyword → Type 0
Listed k [] = ⊥
Listed k (x ∷ xs) = (x ≡ k) ⊎ Listed k xs

pub bytes_eq→eq : (xs ys : List ℕ) → bytes_eq xs ys ≡ true → xs ≡ ys
bytes_eq→eq [] [] h = refl
bytes_eq→eq [] (y ∷ ys) h = absurd (ground (arith, h))
bytes_eq→eq (x ∷ xs) [] h = absurd (ground (arith, h))
bytes_eq→eq (x ∷ xs) (y ∷ ys) h =
    ap₂ (λ a b. a ∷ b) (==→eq x y (ground (arith, h))) (bytes_eq→eq xs ys (ground (arith, h)))

bytes_eq_refl : (xs : List ℕ) → bytes_eq xs xs ≡ true
bytes_eq_refl [] = refl
bytes_eq_refl (x ∷ xs) = ground (arith, bytes_eq_refl xs)

-- The entries of a length have the keywords of that length.
pub get-keywords_by_len :
    (name : List ℕ) (len : ℕ) (ks : List Keyword)
    → length name ≡ len
    → get name (keywords_by_len len ks) ≡ get name ks
unfolding get keywords_by_len
get-keywords_by_len name len [] h = refl
get-keywords_by_len name len (k ∷ ks) h = elim (Bool-cases (bytes_eq k.name name)) [
  | inl same ↦ rw (same, ap length (bytes_eq→eq k.name name same) ∙ h) (ground (arith, same))
  | inr other ↦ ground (arith, other, get-keywords_by_len name len ks h)
]

pub get-Listed :
    (name : List ℕ) (ks : List Keyword) (k : Keyword)
    → get name ks ≡ some k
    → Listed k ks × (k.name ≡ name)
unfolding get
get-Listed name [] k h = cc
get-Listed name (x ∷ xs) k h = elim (Bool-cases (bytes_eq x.name name)) [
  | inl same ↦
      let e : x ≡ k = ground (arith, same, h) in
      (inl e, ap (λ y. y.name) (sym e) ∙ bytes_eq→eq x.name name same)
  | inr other ↦ let (m, e) = get-Listed name xs k (ground (arith, other, h)) in (inr m, e)
]

is_none {ℓ} : {A : Type ℓ} → Option A → Bool
is_none none = true
is_none (some a) = false

-- No keyword hides another of its name.
pub distinct : List Keyword → Bool
distinct [] = true
distinct (k ∷ ks) = is_none (get k.name ks) && distinct ks

pub distinct-keywords : distinct keywords ≡ true
unfolding distinct is_none get keywords
distinct-keywords = refl

pub Listed-get :
    (ks : List Keyword) (k : Keyword) → distinct ks ≡ true → Listed k ks → get k.name ks ≡ some k
unfolding get distinct is_none
Listed-get [] k d m = elim m [ ]
Listed-get (x ∷ xs) k d (inl e) =
    rw (ap (λ y. bytes_eq x.name y.name) (sym e) ∙ bytes_eq_refl x.name) (ap some e)
Listed-get (x ∷ xs) k d (inr m) = elim (Bool-cases (bytes_eq x.name k.name)) [
  | inl same ↦ absurd (
      ground (
        arith,
        d,
        Listed-get xs k (ground (arith, d)) m,
        ap (λ n. get n xs) (bytes_eq→eq x.name k.name same),
      ))
  | inr other ↦ rw other (Listed-get xs k (ground (arith, d)) m)
]

pub Listed-le-max_len : (ks : List Keyword) (k : Keyword) → Listed k ks → length k.name ≤ max_len ks
unfolding max_len
Listed-le-max_len [] k m = elim m [ ]
Listed-le-max_len (x ∷ xs) k (inl e) = omega (arith, ap (λ y. length y.name) e)
Listed-le-max_len (x ∷ xs) k (inr m) = omega (arith, Listed-le-max_len xs k m)

abbrev is_ascii : List ℕ → Bool
is_ascii [] = true
is_ascii (b ∷ bs) = ltb b 128 && is_ascii bs

-- Each keyword is written in ASCII, and is not empty.
pub all_ascii : List Keyword → Bool
all_ascii [] = true
all_ascii (k ∷ ks) = is_ascii k.name && ltb 0 (length k.name) && all_ascii ks

pub all_ascii-keywords : all_ascii keywords ≡ true
unfolding all_ascii keywords
all_ascii-keywords = refl

is_ascii→All : (bs : List ℕ) → is_ascii bs ≡ true → All (λ b. b < 128) bs
is_ascii→All [] h = tt
is_ascii→All (b ∷ bs) h = (ground (arith, h), is_ascii→All bs (ground (arith, h)))

pub Listed-ascii :
    (ks : List Keyword) (k : Keyword)
    → all_ascii ks ≡ true
    → Listed k ks
    → All (λ b. b < 128) k.name × (0 < length k.name)
unfolding all_ascii
Listed-ascii [] k h m = elim m [ ]
Listed-ascii (x ∷ xs) k h (inl e) =
    subst (λ y. All (λ b. b < 128) y.name × (0 < length y.name)) e
      (is_ascii→All x.name (ground (arith, h)), ground (arith, h))
Listed-ascii (x ∷ xs) k h (inr m) = Listed-ascii xs k (ground (arith, h)) m

pub length-take : (n : ℕ) (xs : List ℕ) → n ≤ length xs → length (take n xs) ≡ n
length-take zero xs h = refl
length-take (suc n) [] h = absurd (omega (arith, h))
length-take (suc n) (x ∷ xs) h = ap suc (length-take n xs (omega (arith, h)))
