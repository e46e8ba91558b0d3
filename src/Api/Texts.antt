-- ===== src/Api/Texts.antt =====
-- Texts of a format, letter by letter.
use Prim.Native.Char.{code}
use planer.Prelude.{
  ℕ, zero, suc, ◌≡◌, ◌≤◌, ◌↔◌, ◌⊎◌, refl, ap, String, Bool, true, ◌==◌, List, [], ◌∷◌, length,
  str_eq, &&_parts, ==_iff, All, arith,
}
use planer.Api.{has_format, is_token_letter, is_hex_digit}

-- The letters of a text
abbrev pub codes : String → List ℕ
codes String.[] = []
codes (String.◌∷◌ c s) = code c ∷ codes s

abbrev IsBetween : ℕ → ℕ → ℕ → Type 0
IsBetween low high c = (low ≤ c) × (c ≤ high)

-- Latin letters of both cases, digits, the underscore and the hyphen
abbrev pub IsTokenLetter : ℕ → Type 0
IsTokenLetter c = IsBetween 65 90 c ⊎ IsBetween 97 122 c ⊎ IsBetween 48 57 c ⊎ (c ≡ 95) ⊎ (c ≡ 45)

abbrev pub IsHexDigit : ℕ → Type 0
IsHexDigit c = IsBetween 48 57 c ⊎ IsBetween 97 102 c

-- So many letters of a kind, and no more
abbrev pub IsText : (ℕ → Type 0) → ℕ → String → Type 0
IsText Letter n s = (length (codes s) ≡ n) × All Letter (codes s)

-- What the tests of texts say.
pub has_format_iff :
    (letter : ℕ → Bool) (Letter : ℕ → Type 0)
    → ((c : ℕ) → (letter c ≡ true) ↔ Letter c)
    → (n : ℕ) (s : String) → (has_format letter n s ≡ true) ↔ IsText Letter n s
unfolding has_format
has_format_iff letter Letter same zero String.[] = (λ e. (refl, tt), λ h. refl)
has_format_iff letter Letter same zero (String.◌∷◌ c s) = (λ e. cc, λ h. absurd (grows h.0))
  where
    grows : suc (length (codes s)) ≡ 0 → ⊥
    grows e = omega arith
has_format_iff letter Letter same (suc n) String.[] = (λ e. cc, λ h. absurd (grows h.0))
  where
    grows : 0 ≡ suc n → ⊥
    grows e = omega arith
has_format_iff letter Letter same (suc n) (String.◌∷◌ c s) =
    let rest = has_format_iff letter Letter same n s in
    (
      λ e.
          let (first, others) = &&_parts (letter (code c)) (has_format letter n s) e in
          let (long, all) = rest.0 others in (ap suc long, ((same (code c)).0 first, all)),
      λ h. rw ((same (code c)).1 h.1.0, rest.1 (omega (arith, h.0), h.1.1)) refl,
    )

pub is_token_letter_iff : (c : ℕ) → (is_token_letter c ≡ true) ↔ IsTokenLetter c
is_token_letter_iff c = (λ e. ground arith, λ h. ground arith)

pub is_hex_digit_iff : (c : ℕ) → (is_hex_digit c ≡ true) ↔ IsHexDigit c
is_hex_digit_iff c = (λ e. ground arith, λ h. ground arith)

pub str_eq_iff : (s t : String) → (str_eq s t ≡ true) ↔ (codes s ≡ codes t)
unfolding str_eq
str_eq_iff String.[] String.[] = (λ e. refl, λ h. refl)
str_eq_iff String.[] (String.◌∷◌ d t) = (λ e. cc, λ h. cc)
str_eq_iff (String.◌∷◌ c s) String.[] = (λ e. cc, λ h. cc)
str_eq_iff (String.◌∷◌ c s) (String.◌∷◌ d t) =
    let rest = str_eq_iff s t in
    (
      λ e.
          let (first, others) = &&_parts (code c == code d) (str_eq s t) e in
          let here = (==_iff (code c) (code d)).0 first in let tail = rest.0 others in cc,
      λ h.
          let here : code c ≡ code d = cc in
          let tail : codes s ≡ codes t = cc in
          rw ((==_iff (code c) (code d)).1 here, rest.1 tail) refl,
    )
