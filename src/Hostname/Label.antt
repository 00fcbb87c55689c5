-- ===== src/Hostname/Label.antt =====
-- The form of a label of a host name (valid_hostname, src/valid-hostname.c).
use ocserv.Prelude.{
  isalnum, ℕ, ◌≤◌, ◌≡◌, ◌↔◌, refl, true, ◌||◌, some, [], ◌∷◌, Bytes, ◌==◌, length, All, arith,
}
use ocserv.Hostname.{only_host_chars, last_char, valid_hostname}

-- A letter, a digit or a hyphen.
abbrev pub IsLdh : ℕ → Type 0
IsLdh c = (isalnum c || (c == 45)) ≡ true

abbrev pub first_char : Bytes → ℕ
first_char [] = 0
first_char (c ∷ p) = c

-- A label of RFC 1123: up to 63 letters, digits and hyphens, with a letter or a digit at each end.
abbrev pub IsLabel : Bytes → Type 0
IsLabel n =
    (length n ≤ 63)
    × All IsLdh n
    × (isalnum (first_char n) ≡ true)
    × (isalnum (last_char 0 n) ≡ true)

only_host_chars-All : (p : Bytes) → (only_host_chars p ≡ true) ↔ All IsLdh p
unfolding only_host_chars
only_host_chars-All [] = (λ h. tt, λ h. refl)
only_host_chars-All (c ∷ p) =
    let (to, from) = only_host_chars-All p in
    (λ h. (ground arith, to (ground arith)), λ a. (let rest = from a.1 in ground (arith, a.0)))

last_char-IsLdh : (c : ℕ) (p : Bytes) → IsLdh c → All IsLdh p → IsLdh (last_char c p)
unfolding last_char
last_char-IsLdh c [] h a = h
last_char-IsLdh c (d ∷ p) h a = last_char-IsLdh d p a.0 a.1

-- valid_hostname accepts the labels of RFC 1123, and nothing else.
pub valid_hostname-IsLabel : (n : Bytes) → (valid_hostname (some n) ≡ true) ↔ IsLabel n
unfolding valid_hostname last_char
valid_hostname-IsLabel [] = (λ h. absurd cc, λ i. absurd cc)
valid_hostname-IsLabel (c ∷ p) =
    let (to, from) = only_host_chars-All (c ∷ p) in
    (
      λ h.
          (let chars : All IsLdh (c ∷ p) = to (ground arith) in
            let last = last_char-IsLdh c p chars.0 chars.1 in
            (ground arith, chars, ground (arith, chars.0), ground (arith, last))),
      λ i. (let chars = from i.1 in ground (arith, i.0, i.2, i.3)),
    )
