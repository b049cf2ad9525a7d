-- ===== src/Escape/Unique.antt =====
-- src/runtime/str_escape.rs: what `escape_xml` keeps and what it leaves out.
use frawk.Prelude.{
  ℕ, ◌==◌, ◌≡◌, ◌≢◌, refl, sym, ap₂, ◌∙◌, Bool, true, false, ◌||◌, List, [], ◌∷◌, ◌++◌, arith,
  contains,
}
use frawk.Escape.{xml_code, escape_xml}

pub contains-append :
    (k : ℕ) (xs ys : List ℕ) → contains k (xs ++ ys) ≡ (contains k xs || contains k ys)
contains-append k [] ys = refl
contains-append k (x ∷ xs) ys = ground (arith, contains-append k xs ys)

-- The characters that open and close tags and attribute values.
abbrev pub is_markup : ℕ → Bool
is_markup c = c == b'<' || c == b'>' || c == b'"' || c == b'\''

code_plain : (k c : ℕ) → is_markup k ≡ true → contains k (xml_code c) ≡ false
unfolding xml_code
code_plain k c h = ground arith

-- No escaped text has a character that opens or closes a tag or an attribute value.
pub contains-escape_xml :
    (k : ℕ) (text : List ℕ) → is_markup k ≡ true → contains k (escape_xml text) ≡ false
unfolding escape_xml
contains-escape_xml k [] h = refl
contains-escape_xml k (c ∷ text) h =
    contains-append k (xml_code c) (escape_xml text)
    ∙ rw (code_plain k c h, contains-escape_xml k text h) refl

code_unique : (c d : ℕ) (xs ys : List ℕ) → xml_code c ++ xs ≡ xml_code d ++ ys → (c ≡ d) × (xs ≡ ys)
unfolding xml_code
code_unique c d xs ys h = ground arith

code-ne-nil : (c : ℕ) (xs : List ℕ) → [] ≢ xml_code c ++ xs
unfolding xml_code
code-ne-nil c xs = ground arith

-- No two texts are escaped alike.
pub escape_xml-injective : (t u : List ℕ) → escape_xml t ≡ escape_xml u → t ≡ u
unfolding escape_xml
escape_xml-injective [] [] h = refl
escape_xml-injective [] (d ∷ u) h = absurd (code-ne-nil d (escape_xml u) h)
escape_xml-injective (c ∷ t) [] h = absurd (code-ne-nil c (escape_xml t) (sym h))
escape_xml-injective (c ∷ t) (d ∷ u) h =
    let (same, rest) = code_unique c d (escape_xml t) (escape_xml u) h in
    ap₂ (λ x xs. x ∷ xs) same (escape_xml-injective t u rest)
