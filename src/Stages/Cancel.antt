-- ===== src/Stages/Cancel.antt =====
-- src/common.rs: `CancelSignal`. Each call is one atomic operation on the shared word, so what several
-- threads do is the sequence of their operations.
use frawk.Prelude.{
  ◌-◌, ◌^◌, ◌%◌, ◌<◌, ◌≡◌, refl, ap, ◌∙◌, Bool, true, false, ◌==◌, ltb, Option, none, some, List,
  [], ◌∷◌, if◌then◌else◌, ℤ, pos, negsuc, arith, All,
}

-- `i64::MAX`
abbrev pub sentinel : ℤ
sentinel = pos (2 ^ 63 - 1)

unfoldable pub int_eq : ℤ → ℤ → Bool
int_eq (pos a) (pos b) = a == b
int_eq (negsuc a) (negsuc b) = a == b
int_eq _ _ = false

-- `raw as i32`: the low 32 bits, as a signed number.
unfoldable pub as_i32 : ℤ → ℤ
as_i32 (pos n) =
    if ltb (n % 2 ^ 32) (2 ^ 31) then pos (n % 2 ^ 32) else negsuc (2 ^ 32 - 1 - n % 2 ^ 32)
as_i32 (negsuc n) =
    if ltb (n % 2 ^ 32) (2 ^ 31) then negsuc (n % 2 ^ 32) else pos (2 ^ 32 - 1 - n % 2 ^ 32)

unfoldable pub get_code : ℤ → Option ℤ
unfolding int_eq as_i32
get_code state = if int_eq state sentinel then none else some (as_i32 state)

unfoldable pub cancelled : ℤ → Bool
unfolding get_code
cancelled state = elim (get_code state) [ none ↦ false | some code ↦ true ]

-- `compare_exchange`: the new state. An `i32` is the same number as an `i64`.
unfoldable pub cancel : ℤ → ℤ → ℤ
unfolding int_eq
cancel state code = if int_eq state sentinel then code else state

-- The state after the calls of `cancel` with these codes, in the order in which they take effect.
unfoldable pub cancel_all : ℤ → List ℤ → ℤ
unfolding cancel
cancel_all state [] = state
cancel_all state (code ∷ codes) = cancel_all (cancel state code) codes

abbrev pub IsI32 : ℤ → Type 0
IsI32 (pos n) = n < 2 ^ 31
IsI32 (negsuc n) = n < 2 ^ 31

abbrev pub head : List ℤ → Option ℤ
head [] = none
head (code ∷ codes) = some code

as_i32-IsI32 : (code : ℤ) → IsI32 code → as_i32 code ≡ code
unfolding as_i32
as_i32-IsI32 (pos n) h = ground arith
as_i32-IsI32 (negsuc n) h = ground arith

i32-ne-sentinel : (code : ℤ) → IsI32 code → int_eq code sentinel ≡ false
unfolding int_eq
i32-ne-sentinel (pos n) h = ground arith
i32-ne-sentinel (negsuc n) h = refl

cancel_all_set :
    (state : ℤ) (codes : List ℤ) → int_eq state sentinel ≡ false → cancel_all state codes ≡ state
unfolding cancel_all
cancel_all_set state [] h = refl
cancel_all_set state (code ∷ codes) h = rw h (cancel_all_set state codes h)

-- The first writer wins: after any calls of `cancel` on a fresh signal with codes that are `i32`s, the
-- code is that of the call that took effect first, and the signal is cancelled exactly if there was one.
pub get_code-cancel_all :
    (codes : List ℤ)
    → All IsI32 codes
    → (get_code (cancel_all sentinel codes) ≡ head codes)
      × (cancelled (cancel_all sentinel codes) ≡ elim (head codes) [ none ↦ false | some c ↦ true ])
unfolding cancel_all cancelled
get_code-cancel_all [] h = (unfold get_code in refl, unfold get_code in refl)
get_code-cancel_all (code ∷ codes) h =
    let found : get_code (cancel_all code codes) ≡ some code =
      ap get_code (cancel_all_set code codes (i32-ne-sentinel code h.0)) ∙ read code h.0 in
    (found, ap (λ o. elim o [ none ↦ false | some c ↦ true ]) found)
  where
    read : (code : ℤ) → IsI32 code → get_code code ≡ some code
    read code h = unfold get_code in rw (i32-ne-sentinel code h) (ap some (as_i32-IsI32 code h))
