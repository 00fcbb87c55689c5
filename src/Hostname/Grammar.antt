-- ===== src/Hostname/Grammar.antt =====
-- The grammar of the names that are accepted (valid_fqdn, src/valid-hostname.c).
use mathlib.Core.Path.{subst}
use ocserv.Prelude.{
  isalnum, ℕ, zero, suc, ◌≤◌, ◌<◌, ◌≡◌, ◌↔◌, ◌∙◌, refl, sym, ap, true, false, none, some, List, [],
  ◌∷◌, ◌++◌, Bytes, ◌==◌, length, length-append, All, arith, Option-cases, inl, inr,
}
use ocserv.Hostname.{last_char, split_at_char, valid_labels, valid_fqdn}
use ocserv.Hostname.Label.{IsLdh, IsLabel, valid_hostname-IsLabel}

-- Labels with dots between them.
unfoldable pub dotted : Bytes → List Bytes → Bytes
dotted n [] = n
dotted n (m ∷ ns) = n ++ 46 ∷ dotted m ns

-- A name: labels with dots between them, of up to 253 characters together.
abbrev pub IsFqdn : Bytes → Type 0
IsFqdn host =
    (length host ≤ 253)
    × (n : Bytes) × (ns : List Bytes) × (host ≡ dotted n ns)
    × IsLabel n
    × All IsLabel ns

split_none : (x : ℕ) (p : Bytes) → (split_at_char x p).1 ≡ none → (split_at_char x p).0 ≡ p
unfolding split_at_char
split_none x [] h = refl
split_none x (c ∷ p) h = let rest = split_none x p in ground (arith, rest)

split_some :
    (x : ℕ) (p r : Bytes) → (split_at_char x p).1 ≡ some r → p ≡ (split_at_char x p).0 ++ x ∷ r
unfolding split_at_char
split_some x [] r h = absurd cc
split_some x (c ∷ p) r h = let rest = split_some x p r in ground (arith, rest)

split-append :
    (x : ℕ) (n t : Bytes)
    → All (λ c. (c == x) ≡ false) n
    → split_at_char x (n ++ x ∷ t) ≡ (n, some t)
unfolding split_at_char
split-append x [] t a = ground arith
split-append x (c ∷ n) t a = let rest = split-append x n t a.1 in ground (arith, rest, a.0)

split_whole : (x : ℕ) (n : Bytes) → All (λ c. (c == x) ≡ false) n → split_at_char x n ≡ (n, none)
unfolding split_at_char
split_whole x [] a = refl
split_whole x (c ∷ n) a = let rest = split_whole x n a.1 in ground (arith, rest, a.0)

no_dot : (n : Bytes) → All IsLdh n → All (λ c. (c == 46) ≡ false) n
no_dot [] a = tt
no_dot (c ∷ n) a = (ground (arith, a.0), no_dot n a.1)

last_char-append : (y x : ℕ) (n t : Bytes) → last_char y (n ++ x ∷ t) ≡ last_char x t
unfolding last_char
last_char-append y x [] t = refl
last_char-append y x (c ∷ n) t = last_char-append c x n t

last_any : (x y : ℕ) (p : Bytes) → 0 < length p → last_char x p ≡ last_char y p
unfolding last_char
last_any x y [] h = absurd (omega (arith, h))
last_any x y (c ∷ p) h = refl

-- What the loop accepts, where the text does not end with a dot.
labels-dotted :
    (k : ℕ) (p : Bytes)
    → 0 < length p
    → (last_char 46 p == 46) ≡ false
    → valid_labels k p ≡ true
    → (n : Bytes) × (ns : List Bytes) × (p ≡ dotted n ns) × IsLabel n × All IsLabel ns
unfolding valid_labels dotted last_char
labels-dotted k [] some_text last h = absurd (omega (arith, some_text))
labels-dotted zero (c ∷ p) some_text last h = absurd cc
labels-dotted (suc k) (c ∷ p) some_text last h =
    let s = split_at_char 46 (c ∷ p) in
    let label : IsLabel s.0 = (valid_hostname-IsLabel s.0).0 (ground arith) in
    elim (Option-cases s.1) [
      | inl nothing ↦ (s.0, [], sym (split_none 46 (c ∷ p) nothing), label, tt)
      | inr (r, there) ↦
          (let whole = split_some 46 (c ∷ p) r there in
            let ends : last_char 46 (c ∷ p) ≡ last_char 46 r =
              ap (last_char 46) whole ∙ last_char-append 46 46 s.0 r in
            let (n, ns, same, first, all) =
              labels-dotted k r (more r (ap (λ x. x == 46) (sym ends) ∙ last))
                (ap (λ x. x == 46) (sym ends) ∙ last) (ground arith) in
            (s.0, n ∷ ns, whole ∙ ap (λ t. s.0 ++ 46 ∷ t) same, label, (first, all)))
    ]
  where
    more : (r : Bytes) → (last_char 46 r == 46) ≡ false → 0 < length r
    more [] e = absurd (ground arith)
    more (d ∷ r) e = omega arith

-- The loop accepts every sequence of labels.
dotted-labels :
    (k : ℕ) (n : Bytes) (ns : List Bytes)
    → IsLabel n
    → All IsLabel ns
    → length (dotted n ns) ≤ k
    → valid_labels k (dotted n ns) ≡ true
unfolding valid_labels dotted
dotted-labels k [] ns i all fits = absurd (ground (arith, i.2))
dotted-labels zero (c ∷ n) [] i all fits = absurd (omega (arith, fits))
dotted-labels zero (c ∷ n) (m ∷ ns) i all fits = absurd (omega (arith, fits))
dotted-labels (suc k) (c ∷ n) [] i all fits =
    let s = split_whole 46 (c ∷ n) (no_dot (c ∷ n) i.1) in
    let label = (valid_hostname-IsLabel (c ∷ n)).1 i in ground (arith, i.0, s, label)
dotted-labels (suc k) (c ∷ n) (m ∷ ns) i all fits =
    let s = split-append 46 (c ∷ n) (dotted m ns) (no_dot (c ∷ n) i.1) in
    let label = (valid_hostname-IsLabel (c ∷ n)).1 i in
    let wide = length-append n (46 ∷ dotted m ns) in
    let rest = dotted-labels k m ns all.0 all.1 (omega (arith, fits, wide)) in
    ground (arith, i.0, s, label, rest)

ends_with_label :
    (x : ℕ) (n : Bytes) (ns : List Bytes)
    → IsLabel n
    → All IsLabel ns
    → isalnum (last_char x (dotted n ns)) ≡ true
unfolding dotted
ends_with_label x [] ns i all = absurd (ground (arith, i.2))
ends_with_label x (c ∷ n) [] i all = ap isalnum (last_any x 0 (c ∷ n) (omega arith)) ∙ i.3
ends_with_label x (c ∷ n) (m ∷ ns) i all =
    ap isalnum (last_char-append x 46 (c ∷ n) (dotted m ns)) ∙ ends_with_label 46 m ns all.0 all.1

-- valid_fqdn accepts the names of the grammar, and nothing else.
pub valid_fqdn-IsFqdn : (host : Bytes) → (valid_fqdn (some host) ≡ true) ↔ IsFqdn host
unfolding valid_fqdn last_char dotted
valid_fqdn-IsFqdn [] = (
  λ h. absurd cc,
  λ (fits, n, ns, same, i, all).
      (let e = ap isalnum (ap (last_char 46) same) ∙ ends_with_label 46 n ns i all in
        absurd (ground (arith, e))),
)
valid_fqdn-IsFqdn (c ∷ p) = (
  λ h.
      (let last : (last_char 46 (c ∷ p) == 46) ≡ false = ground arith in
        let (n, ns, same, i, all) =
          labels-dotted (length (c ∷ p)) (c ∷ p) (omega arith) last (ground arith) in
        (ground arith, n, ns, same, i, all)),
  λ (fits, n, ns, same, i, all).
      (let e = ap isalnum (ap (last_char 46) same) ∙ ends_with_label 46 n ns i all in
        let accepted =
          subst (λ t. valid_labels (length (c ∷ p)) t ≡ true) (sym same)
            (dotted-labels (length (c ∷ p)) n ns i all (omega (arith, ap length same))) in
        ground (arith, fits, e, accepted)),
)
