-- ===== src/Events/Junit/Escape.antt =====
-- What an escaped text is free of.
use Prim.Native.Char.{Char, code}
use Prim.Native.String.{String, ◌++◌ as ◌<>◌}
use text.Mathlib.TextLemmas.{nil-append, cons-append}
use user_mode_nixos.Prelude.{
  ◌≡◌, refl, ◌∙◌, inl, inr, Bool, true, false, not, ◌||◌, [], ◌∷◌, nat_eq, Bool-cases, arith,
  concat,
}
use user_mode_nixos.Events.Junit.{replace_char, xml_escape}

-- The character occurs in the text.
abbrev pub occurs : Char → String → Bool
occurs c String.[] = false
occurs c (String.◌∷◌ d s) = nat_eq (code d) (code c) || occurs c s

occurs-append : (c : Char) (s t : String) → occurs c (s <> t) ≡ (occurs c s || occurs c t)
occurs-append c String.[] t = rw (nil-append t) refl
occurs-append c (String.◌∷◌ d s) t = rw (cons-append d s t) (ground (arith, occurs-append c s t))

occurs-concat :
    (c : Char) (s t : String) → occurs c (concat (s ∷ t ∷ [])) ≡ (occurs c s || occurs c t)
unfolding concat
occurs-concat c s t = ground (arith, occurs-append c s (t <> ""), occurs-append c t "")

-- A replaced character is gone, and a replacement brings in none that it lacks.
replace_char-clear :
    (b c : Char) (by s : String)
    → occurs c by ≡ false
    → (nat_eq (code b) (code c) || not (occurs c s)) ≡ true
    → occurs c (replace_char b by s) ≡ false
unfolding replace_char
replace_char-clear b c by String.[] h k = refl
replace_char-clear b c by (String.◌∷◌ d s) h k =
    let rest = replace_char-clear b c by s h (ground arith) in
    elim (Bool-cases (nat_eq (code d) (code b))) [
      | inl hit ↦ rw hit (occurs-concat c by (replace_char b by s) ∙ rw (h, rest) refl)
      | inr miss ↦ rw (miss, rest) (ground arith)
    ]

-- An escaped text holds no character that ends an attribute or opens or closes a tag.
pub xml_escape_free :
    (text : String)
    → (occurs "<" (xml_escape text) ≡ false)
      × (occurs ">" (xml_escape text) ≡ false)
      × (occurs "\"" (xml_escape text) ≡ false)
unfolding xml_escape
xml_escape_free text =
    let amp = replace_char "&" "&amp;" text in
    let lt = replace_char "<" "&lt;" amp in
    let gt = replace_char ">" "&gt;" lt in
    let low = replace_char-clear "<" "<" "&lt;" amp refl refl in
    let low_gt = replace_char-clear ">" "<" "&gt;" lt refl (rw low refl) in
    let high = replace_char-clear ">" ">" "&gt;" lt refl refl in
    (
      replace_char-clear "\"" "<" "&quot;" gt refl (rw low_gt refl),
      replace_char-clear "\"" ">" "&quot;" gt refl (rw high refl),
      replace_char-clear "\"" "\"" "&quot;" gt refl refl,
    )
