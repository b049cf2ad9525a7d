-- ===== src/FloatParse/Decimal.antt =====
-- src/runtime/float_parse/mod.rs: what `strtoi` returns, and that it reads what a printer writes.
use frawk.Prelude.{
  ℕ, zero, suc, ◌+◌, ◌-◌, ◌*◌, ◌/◌, ◌%◌, ◌^◌, ◌≤◌, ◌<◌, ◌≡◌, inl, inr, refl, sym, ap, ◌∙◌, Bool,
  true, false, Bool-cases, ◌||◌, ◌==◌, ltb, ltb→lt, lt→ltb, if◌then◌else◌, none, some, List, [],
  ◌∷◌, ◌++◌, ℤ, pos, negsuc, arith,
}
use frawk.FloatParse.{is_integer, checked, decimal_loop, negated, signed, answer, strtoi}

-- The number that the digits at the start of a text write behind the number `i`.
abbrev pub value : List ℕ → ℕ → ℕ
value [] i = i
value (b ∷ bs) i = if is_integer b then value bs (i * 10 + (b - 48)) else i

le-value : (bs : List ℕ) (i : ℕ) → i ≤ value bs i
le-value [] i = omega arith
le-value (b ∷ bs) i = elim (Bool-cases (is_integer b)) [
  | inl digit ↦ rw digit (omega (arith, le-value bs (i * 10 + (b - 48))))
  | inr other ↦ rw other (omega arith)
]

checked-small : (n : ℕ) → n < 2 ^ 63 → checked n ≡ some n
unfolding checked
checked-small n h = rw (lt→ltb n (2 ^ 63) h) refl

checked-large : (n : ℕ) → 2 ^ 63 ≤ n → checked n ≡ none
unfolding checked
checked-large n h = ground (arith, h)

-- The loop finds out exactly if the number does not fit in 63 bits.
decimal_loop-checked : (bs : List ℕ) (i : ℕ) → i < 2 ^ 63 → decimal_loop bs i ≡ checked (value bs i)
unfolding decimal_loop checked
decimal_loop-checked [] i h = sym (checked-small i h)
decimal_loop-checked (b ∷ bs) i h =
    let next = i * 10 + (b - 48) in
    elim (Bool-cases (is_integer b)) [
      | inr other ↦ rw other (sym (checked-small i h))
      | inl digit ↦ elim (Bool-cases (ltb next (2 ^ 63))) [
        | inl fits ↦
            let lt : next < 2 ^ 63 = ltb→lt next (2 ^ 63) fits in
            rw (digit, lt→ltb (i * 10) (2 ^ 63) (omega (arith, lt)), fits)
              (decimal_loop-checked bs next lt)
        | inr over ↦
            let le : 2 ^ 63 ≤ next = ground (arith, over) in
            rw (digit, checked-large (value bs next) (omega (arith, le-value bs next, le)))
              (ground (arith, over))
      ]
    ]

answer-checked :
    (neg : Bool) (n : ℕ) → answer neg (checked n) ≡ (if ltb n (2 ^ 63) then signed neg n else pos 0)
unfolding answer checked
answer-checked neg n = ground arith

-- `strtoi` returns the number that its text starts with, with its sign, or 0 if that number is not
-- below 2 ^ 63.
pub strtoi-value :
    (b : ℕ) (bs : List ℕ)
    → strtoi (b ∷ bs) ≡ (
        let n = value (if b == 45 || b == 43 then bs else b ∷ bs) 0 in
        if ltb n (2 ^ 63) then signed (b == 45) n else pos 0)
unfolding strtoi
strtoi-value b bs =
    let text = if b == 45 || b == 43 then bs else b ∷ bs in
    ap (answer (b == 45)) (decimal_loop-checked text 0 (omega arith))
    ∙ answer-checked (b == 45) (value text 0)

AllDigits : List ℕ → Type 0
AllDigits [] = Unit
AllDigits (b ∷ bs) = (is_integer b ≡ true) × AllDigits bs

value-append : (xs ys : List ℕ) (i : ℕ) → AllDigits xs → value (xs ++ ys) i ≡ value ys (value xs i)
unfolding AllDigits
value-append [] ys i h = refl
value-append (x ∷ xs) ys i (digit, rest) = rw digit (value-append xs ys (i * 10 + (x - 48)) rest)

AllDigits-append : (xs ys : List ℕ) → AllDigits xs → AllDigits ys → AllDigits (xs ++ ys)
unfolding AllDigits
AllDigits-append [] ys h k = k
AllDigits-append (x ∷ xs) ys (digit, rest) k = (digit, AllDigits-append xs ys rest k)

-- The digits of a number, as a printer writes them.
abbrev pub decimal : ℕ → ℕ → List ℕ
decimal zero n = []
decimal (suc fuel) n =
    let rest = decimal fuel (n / 10) in
    if ltb n 10 then (48 + n) ∷ [] else rest ++ ((48 + n % 10) ∷ [])

digit-is_integer : (d : ℕ) → d < 10 → is_integer (48 + d) ≡ true
unfolding is_integer
digit-is_integer d h = ground (arith, h)

decimal-AllDigits : (fuel n : ℕ) → AllDigits (decimal fuel n)
unfolding AllDigits
decimal-AllDigits zero n = tt
decimal-AllDigits (suc fuel) n = elim (Bool-cases (ltb n 10)) [
  | inl last ↦ rw last (digit-is_integer n (ltb→lt n 10 last), tt)
  | inr more ↦ rw more (
      AllDigits-append (decimal fuel (n / 10)) ((48 + n % 10) ∷ [])
        (decimal-AllDigits fuel (n / 10)) (digit-is_integer (n % 10) (omega arith), tt))
]

value-digit : (d i : ℕ) → d < 10 → value ((48 + d) ∷ []) i ≡ i * 10 + d
value-digit d i h = rw (digit-is_integer d h) (omega arith)

value-decimal : (fuel n : ℕ) → n < fuel → value (decimal fuel n) 0 ≡ n
value-decimal zero n h = absurd (omega arith)
value-decimal (suc fuel) n h = elim (Bool-cases (ltb n 10)) [
  | inl last ↦ rw last (value-digit n 0 (ltb→lt n 10 last) ∙ omega arith)
  | inr more ↦
      let le : 10 ≤ n = ground (arith, more) in
      rw more (
        value-append (decimal fuel (n / 10)) ((48 + n % 10) ∷ []) 0
          (decimal-AllDigits fuel (n / 10))
        ∙ ap (value ((48 + n % 10) ∷ [])) (value-decimal fuel (n / 10) (omega (arith, le)))
        ∙ value-digit (n % 10) (n / 10) (omega arith)
        ∙ omega arith)
]

not_sign : (b c : ℕ) → is_integer b ≡ true → c < 48 → (b == c) ≡ false
unfolding is_integer
not_sign b c digit lt = ground (arith, digit, lt)

strtoi-AllDigits : (xs : List ℕ) → AllDigits xs → value xs 0 < 2 ^ 63 → strtoi xs ≡ pos (value xs 0)
unfolding AllDigits signed
strtoi-AllDigits [] h k = unfold strtoi in refl
strtoi-AllDigits (b ∷ bs) h k =
    let no_minus : (b == 45) ≡ false = not_sign b 45 h.0 (omega arith) in
    let no_plus : (b == 43) ≡ false = not_sign b 43 h.0 (omega arith) in
    strtoi-value b bs ∙ rw (no_minus, no_plus, lt→ltb (value (b ∷ bs) 0) (2 ^ 63) k) refl

-- The text of an integer: its digits, behind a minus sign if it is negative.
abbrev pub print : ℤ → List ℕ
print (pos n) = decimal (suc n) n
print (negsuc n) = 45 ∷ decimal (suc (suc n)) (suc n)

-- The integer is above -2 ^ 63 and below 2 ^ 63.
abbrev pub IsInRange : ℤ → Type 0
IsInRange (pos n) = n < 2 ^ 63
IsInRange (negsuc n) = suc n < 2 ^ 63

-- `strtoi` reads each integer above -2 ^ 63 and below 2 ^ 63 back from its text: its decimal digits,
-- behind a minus sign if it is negative.
pub strtoi-print : (z : ℤ) → IsInRange z → strtoi (print z) ≡ z
unfolding signed negated
strtoi-print (pos n) h =
    let same = value-decimal (suc n) n (omega arith) in
    strtoi-AllDigits (decimal (suc n) n) (decimal-AllDigits (suc n) n) (rw same h) ∙ ap pos same
strtoi-print (negsuc n) h =
    let same = value-decimal (suc (suc n)) (suc n) (omega arith) in
    strtoi-value 45 (decimal (suc (suc n)) (suc n))
    ∙ ap (λ m. if ltb m (2 ^ 63) then signed true m else pos 0) same
    ∙ rw (lt→ltb (suc n) (2 ^ 63) h) refl
