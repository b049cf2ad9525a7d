-- ===== src/FloatParse/Hex.antt =====
-- src/runtime/float_parse/mod.rs: when `hextoi` panics.
use frawk.Prelude.{ℕ, ◌≡◌, ◌↔◌, ==→eq, List, [], ◌∷◌, arith}
use frawk.Builtins.{panics}
use frawk.FloatParse.{hextoi, skip_prefix}

-- The text is one byte, or a minus sign with one byte behind it.
abbrev pub IsTooShort : List ℕ → Type 0
IsTooShort [] = ⊥
IsTooShort (b ∷ []) = Unit
IsTooShort (b ∷ c ∷ []) = b ≡ 45
IsTooShort (b ∷ c ∷ d ∷ bs) = ⊥

-- `hextoi` panics exactly on a text of one byte and on a minus sign with one byte behind it.
pub hextoi-IsTooShort : (bs : List ℕ) → (hextoi bs ≡ panics) ↔ IsTooShort bs
unfolding hextoi skip_prefix
hextoi-IsTooShort [] = (λ h. ground (arith, h), λ h. absurd h)
hextoi-IsTooShort (b ∷ []) = (λ h. tt, λ h. ground arith)
hextoi-IsTooShort (b ∷ c ∷ []) = (λ h. ground (arith, h, ==→eq b 45), λ h. ground (arith, h))
hextoi-IsTooShort (b ∷ c ∷ d ∷ bs) = (λ h. absurd (ground (arith, h)), λ h. absurd h)
