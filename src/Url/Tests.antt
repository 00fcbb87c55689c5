-- ===== src/Url/Tests.antt =====
-- Text of URLs at concrete inputs (src/html.c).
use ocserv.Prelude.{
  ℕ, ◌+◌, ◌-◌, ◌*◌, ◌<◌, ◌≡◌, refl, ◌∙◌, ap, ◌&&◌, Option, none, some, [], ◌∷◌, arith, Bytes, leb,
  if◌then◌else◌,
}
use ocserv.Url.{Scan, upper_digit, escape_url, unescape_url, hex_text, two_at_least}
use ocserv.Url.Roundtrip.{unescape-escape}

-- The value of a digit, and of two.
abbrev digit_value : ℕ → Option ℕ
digit_value c =
    if leb 48 c && leb c 57
    then some (c - 48)
    else if leb 65 c && leb c 70
    then some (c - 55)
    else none

abbrev both : Option ℕ → Option ℕ → Option ℕ
both (some a) (some b) = some (a * 16 + b)
both (some a) none = some a
both none b = none

abbrev small_scan : Bytes → Option ℕ
small_scan (a ∷ b ∷ []) = both (digit_value a) (digit_value b)
small_scan t = none

digit_value-upper_digit : (d : ℕ) → d < 16 → digit_value (upper_digit d) ≡ some d
digit_value-upper_digit d h = ground arith

abbrev known_scan : Scan
known_scan = record {
  scan = small_scan;
  scan-digits = λ a b la lb.
      ap (λ o. both o (digit_value (upper_digit b))) (digit_value-upper_digit a la)
      ∙ ap (both (some a)) (digit_value-upper_digit b lb);
}

-- "a b&"
abbrev text : Bytes
text = 97 ∷ 32 ∷ 98 ∷ 38 ∷ []

escaped-text : escape_url text ≡ 97 ∷ 43 ∷ 98 ∷ 37 ∷ 50 ∷ 54 ∷ []
unfolding escape_url hex_text two_at_least
escaped-text = refl

unescape-escape_example : unescape_url known_scan 0 0 (escape_url text) ≡ some text
unescape-escape_example = unescape-escape known_scan 0 0 text (ground arith)
