-- ===== src/Url/Roundtrip.antt =====
-- What is escaped is unescaped to itself, and fits its buffer (src/html.c).
use mathlib.Core.Option
use ocserv.Prelude.{
  ℕ, ◌+◌, ◌*◌, ◌/◌, ◌%◌, ◌^◌, ◌<◌, ◌≡◌, refl, ◌∙◌, ap, true, false, Option, none, some, [], ◌∷◌,
  ◌++◌, arith, Bytes, ◌==◌, take, if_split, All,
}
use ocserv.Url.{
  escape_url, unescape_url, unescape_in, scanned, Scan, hex_text, two_at_least, upper_digit,
  percent_text, as_unsigned, stays, space, plus_sign, percent_sign, in_b, plain_byte,
}

hex-low : (c : ℕ) → c < 128 → hex_text c ≡ upper_digit (c / 16) ∷ upper_digit (c % 16) ∷ []
unfolding hex_text two_at_least
hex-low c low =
    let z7 : c / 16 ^ 7 % 16 ≡ 0 = omega (arith, low) in
    let z6 : c / 16 ^ 6 % 16 ≡ 0 = omega (arith, low) in
    let z5 : c / 16 ^ 5 % 16 ≡ 0 = omega (arith, low) in
    let z4 : c / 16 ^ 4 % 16 ≡ 0 = omega (arith, low) in
    let z3 : c / 16 ^ 3 % 16 ≡ 0 = omega (arith, low) in
    let z2 : c / 16 ^ 2 % 16 ≡ 0 = omega (arith, low) in
    let z1 : c / 16 % 16 ≡ c / 16 = omega (arith, low) in
    λ i. two_at_least (
      upper_digit (z7 i)
      ∷ upper_digit (z6 i)
      ∷ upper_digit (z5 i)
      ∷ upper_digit (z4 i)
      ∷ upper_digit (z3 i)
      ∷ upper_digit (z2 i)
      ∷ upper_digit (z1 i)
      ∷ upper_digit (c % 16)
      ∷ [])

-- The text of a byte below 128.
percent-low :
    (c : ℕ)
    → c < 128
    → percent_text c ≡ percent_sign ∷ upper_digit (c / 16) ∷ upper_digit (c % 16) ∷ []
percent-low c low =
    let same : as_unsigned c ≡ c = ground arith in
    ap (λ n. take 3 (percent_sign ∷ hex_text n)) same
    ∙ ap (λ t. take 3 (percent_sign ∷ t)) (hex-low c low)

scanned_byte : (c : ℕ) (o : Option Bytes) → c < 256 → scanned (some c) o ≡ Option.map (◌∷◌ c) o
unfolding scanned
scanned_byte c none h = refl
scanned_byte c (some t) h = let byte : c % 256 ≡ c = omega (arith, h) in ap (λ d. some (d ∷ t)) byte

module _ (s : Scan) (x y : ℕ) where
  -- A byte that stays or is a '+' is read alone.
  unescape-plain :
      (c : ℕ) (url : Bytes)
      → (c == percent_sign) ≡ false
      → unescape_in s x y (c ∷ url) ≡ Option.map (◌∷◌ (plain_byte c)) (unescape_in s x y url)
  unfolding unescape_in
  unescape-plain c [] h = ground arith
  unescape-plain c (a ∷ []) h = rw h refl
  unescape-plain c (a ∷ b ∷ t) h =
      ap
        (λ test. elim test [
          | true ↦ scanned (s.scan (in_b a b)) (unescape_in s x y t)
          | false ↦ Option.map (◌∷◌ (plain_byte c)) (unescape_in s x y (a ∷ b ∷ t))
        ])
        h

  -- Two hexadecimal digits after a '%' are read as their value.
  unescape-percent :
      (c : ℕ) (url : Bytes)
      → c < 128
      → unescape_in s x y (percent_sign ∷ upper_digit (c / 16) ∷ upper_digit (c % 16) ∷ url)
        ≡ Option.map (◌∷◌ c) (unescape_in s x y url)
  unfolding unescape_in scanned
  unescape-percent c url low =
      let u = upper_digit (c / 16) in
      let v = upper_digit (c % 16) in
      let text : in_b u v ≡ u ∷ v ∷ [] = ground arith in
      let number : s.scan (in_b u v) ≡ some (c / 16 * 16 + c % 16) =
        ap s.scan text ∙ s.scan-digits (c / 16) (c % 16) (omega (arith, low)) (omega arith) in
      let value : c / 16 * 16 + c % 16 ≡ c = omega arith in
      ap (λ o. scanned o (unescape_in s x y url)) (number ∙ ap some value)
      ∙ scanned_byte c (unescape_in s x y url) (omega (arith, low))

  -- Text of bytes below 128 is unescaped to itself after it was escaped, whatever follows in
  -- memory.
  pub unescape-escape :
      (url : Bytes) → All (λ c. c < 128) url → unescape_url s x y (escape_url url) ≡ some url
  unfolding escape_url unescape_in
  unescape-escape [] a = refl
  unescape-escape (c ∷ url) a =
      let rest = unescape-escape url a.1 in
      let P : Bytes → Type 0 = λ t. unescape_in s x y t ≡ some (c ∷ url) in
      if_split P (stays c) (c ∷ escape_url url) _
        (λ keep.
          let no_percent : (c == percent_sign) ≡ false = ground arith in
          let same : plain_byte c ≡ c = ground arith in
          unescape-plain c (escape_url url) no_percent
          ∙ ap (Option.map (◌∷◌ (plain_byte c))) rest
          ∙ ap (λ d. some (d ∷ url)) same)
        (λ change.
          if_split P (c == space) (plus_sign ∷ escape_url url) _
            (λ blank.
              let same : space ≡ c = ground arith in
              unescape-plain plus_sign (escape_url url) refl
              ∙ ap (Option.map (◌∷◌ space)) rest
              ∙ ap (λ d. some (d ∷ url)) same)
            (λ other.
              ap (λ t. unescape_in s x y (t ++ escape_url url)) (percent-low c a.0)
              ∙ unescape-percent c (escape_url url) a.0
              ∙ ap (Option.map (◌∷◌ c)) rest))
