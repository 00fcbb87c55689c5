-- ===== src/Main/Fixtures.antt =====
-- Tables of pointers as lists, and some clients.
use ocserv.Prelude.{
  ℕ, ◌+◌, ◌<◌, ◌≡◌, refl, sym, ap, inl, inr, Bool, true, ◌&&◌, Option, none, some, List, [], ◌∷◌,
  ◌==◌, if◌then◌else◌, arith, Bool-cases, Option-cases,
}
use mathlib.Core.Option
use ocserv.Main.Index.{Index, same_filed}

unfoldable pub filed_in : ℕ → ℕ → List (ℕ × ℕ) → ℕ
filed_in h p [] = 0
filed_in h p ((g, q) ∷ t) = filed_in h p t + same_filed g q h p

unfoldable pub taken_out : ℕ → ℕ → List (ℕ × ℕ) → Option (List (ℕ × ℕ))
taken_out h p [] = none
taken_out h p ((g, q) ∷ t) =
    let rest = taken_out h p t in
    if (g == h) && (q == p) then some t else Option.map (λ u. (g, q) ∷ u) rest

unfoldable pub got : ℕ → (ℕ → Bool) → List (ℕ × ℕ) → Option ℕ
got h c [] = none
got h c ((g, q) ∷ t) = let rest = got h c t in if (g == h) && c q then some q else rest

pub empty_filed : (h p : ℕ) → filed_in h p [] ≡ 0
unfolding filed_in
empty_filed h p = refl

pub added_filed :
    (h p : ℕ) (t u : List (ℕ × ℕ))
    → some ((h, p) ∷ t) ≡ some u
    → (g q : ℕ) → filed_in g q u ≡ filed_in g q t + same_filed h p g q
unfolding filed_in
added_filed h p t u e g q = let same : (h, p) ∷ t ≡ u = cc in ap (filed_in g q) (sym same)

pub taken_filed :
    (h p : ℕ) (t u : List (ℕ × ℕ))
    → taken_out h p t ≡ some u
    → (g q : ℕ) → filed_in g q u + same_filed h p g q ≡ filed_in g q t
unfolding filed_in taken_out
taken_filed h p [] u e g q = absurd cc
taken_filed h p ((a, b) ∷ t) u e g q = elim (Bool-cases ((a == h) && (b == p))) [
  | inl hit ↦
      (let same : t ≡ u = ground arith in let e = ap (filed_in g q) same in ground (arith, e))
  | inr miss ↦ elim (Option-cases (taken_out h p t)) [
    | inl nothing ↦ absurd (ground arith)
    | inr (r, one) ↦
        (let rest = taken_filed h p t r one g q in
          let same : (a, b) ∷ r ≡ u = ground arith in
          let e = ap (filed_in g q) same in omega (arith, rest, e))
  ]
]

pub taken_none : (h p : ℕ) (t : List (ℕ × ℕ)) → taken_out h p t ≡ none → filed_in h p t ≡ 0
unfolding filed_in taken_out
taken_none h p [] e = refl
taken_none h p ((a, b) ∷ t) e = elim (Option-cases (taken_out h p t)) [
  | inl nothing ↦ (let rest = taken_none h p t nothing in ground arith)
  | inr (r, one) ↦ absurd (ground arith)
]

pub got-some :
    (h : ℕ) (c : ℕ → Bool) (t : List (ℕ × ℕ)) (p : ℕ)
    → got h c t ≡ some p
    → (c p ≡ true) × (0 < filed_in h p t)
unfolding filed_in got
got-some h c [] p e = absurd cc
got-some h c ((a, b) ∷ t) p e = elim (Bool-cases ((a == h) && c b)) [
  | inl hit ↦
      (let same : b ≡ p = ground arith in
        let one : same_filed a b h p ≡ 1 = ground arith in (ground arith, omega (arith, one)))
  | inr miss ↦
      (let (passes, filed) = got-some h c t p (ground arith) in (passes, omega (arith, filed)))
]

pub got-none :
    (h : ℕ) (c : ℕ → Bool) (t : List (ℕ × ℕ))
    → got h c t ≡ none
    → (p : ℕ) → c p ≡ true
    → filed_in h p t ≡ 0
unfolding filed_in got
got-none h c [] e p passes = refl
got-none h c ((a, b) ∷ t) e p passes = elim (Bool-cases ((a == h) && c b)) [
  | inl hit ↦ absurd (ground arith)
  | inr miss ↦
      (let rest = got-none h c t (ground arith) p passes in
        let zero_here : same_filed a b h p ≡ 0 = ground arith in omega (arith, rest, zero_here))
]

-- A table as a list.
abbrev pub list_index : Index
list_index = record {
  Filed = List (ℕ × ℕ);
  filed = filed_in;
  empty = [];
  empty-filed = empty_filed;
  add = λ h p t. some ((h, p) ∷ t);
  add-filed = added_filed;
  del = taken_out;
  del-filed = taken_filed;
  del-none = taken_none;
  get = got;
  get-some = got-some;
  get-none = got-none;
}
