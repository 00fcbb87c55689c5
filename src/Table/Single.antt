-- ===== src/Table/Single.antt =====
-- What a write to one entry, or its removal, does to every count.
use ocserv.Prelude.{
  ℕ, ◌+◌, ◌≤◌, ◌≡◌, refl, Bool, not, some, List, [], ◌∷◌, arith, if◌then◌else◌, Bool-cases, inl,
  inr,
}
use ocserv.Table.Laws.{find, count, modify, sweep}

-- 1 for true.
abbrev pub bit : Bool → ℕ
bit b = if b then 1 else 0

module _ {ℓ} {E : Type ℓ} where
  pub sweep_none : (q : E → Bool) (t : List E) → count q t ≡ 0 → sweep q t ≡ t
  unfolding sweep count
  sweep_none q [] h = refl
  sweep_none q (x ∷ t) h = ground (arith, sweep_none q t)

  modify_none : (q : E → Bool) (f : E → E) (t : List E) → count q t ≡ 0 → modify q f t ≡ t
  unfolding modify count
  modify_none q f [] h = refl
  modify_none q f (x ∷ t) h = ground (arith, modify_none q f t)

module _ {ℓ} {E : Type ℓ} where
  pub count-modify_one :
      (p q : E → Bool) (e₀ e' : E) (t : List E)
      → count q t ≤ 1
      → find q t ≡ some e₀
      → count p (modify q (λ _. e') t) + bit (p e₀) ≡ count p t + bit (p e')
  unfolding modify count find
  count-modify_one p q e₀ e' [] c h = cc
  count-modify_one p q e₀ e' (x ∷ t) c h = elim (Bool-cases (q x)) [
    | inl hit ↦
        let here : x ≡ e₀ = ground arith in
        rw (hit, here, modify_none q (λ _. e') t (ground arith)) (omega arith)
    | inr miss ↦ rw miss (omega (arith, count-modify_one p q e₀ e' t (ground arith) (ground arith)))
  ]

  pub count-sweep_one :
      (p q : E → Bool) (e₀ : E) (t : List E)
      → count q t ≤ 1
      → find q t ≡ some e₀
      → count p (sweep q t) + bit (p e₀) ≡ count p t
  unfolding sweep count find
  count-sweep_one p q e₀ [] c h = cc
  count-sweep_one p q e₀ (x ∷ t) c h = elim (Bool-cases (q x)) [
    | inl hit ↦
        let here : x ≡ e₀ = ground arith in
        rw (hit, here, sweep_none q t (ground arith)) (omega arith)
    | inr miss ↦ rw miss (omega (arith, count-sweep_one p q e₀ t (ground arith) (ground arith)))
  ]

  -- A loop that deletes splits the table in two.
  pub count-sweep_split :
      (p d : E → Bool) (t : List E)
      → count p (sweep d t) + count p (sweep (λ e. not (d e)) t) ≡ count p t
  unfolding sweep count
  count-sweep_split p d [] = omega arith
  count-sweep_split p d (x ∷ t) = ground (arith, count-sweep_split p d t)
