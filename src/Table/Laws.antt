-- ===== src/Table/Laws.antt =====
-- Lists of entries seen through Boolean predicates: search, write through a pointer, and removal.
use mathlib.Core.List.{Permᴰ}
use mathlib.Core.Option
use mathlib.Core.Path.{subst}
use ocserv.Prelude.{
  ℕ, ◌+◌, ◌≤◌, ◌≡◌, refl, ◌∙◌, inl, inr, Bool, true, false, Option, none, some, List, [], ◌∷◌,
  arith, if◌then◌else◌, Bool-cases, All,
}

module _ {ℓ} {E : Type ℓ} where
  -- The first entry, in iteration order, for which the comparison holds.
  unfoldable pub find : (E → Bool) → List E → Option E
  find p [] = none
  find p (e ∷ t) = if p e then some e else find p t

  -- How many entries the comparison holds for.
  unfoldable pub count : (E → Bool) → List E → ℕ
  count p [] = 0
  count p (e ∷ t) = (if p e then 1 else 0) + count p t

  -- A write through the pointer to the entry that the comparison singles out.
  unfoldable pub modify : (E → Bool) → (E → E) → List E → List E
  modify p f [] = []
  modify p f (e ∷ t) = (if p e then f e else e) ∷ modify p f t

  -- The loop over all entries that deletes (htable_delval) those for which the test holds.
  unfoldable pub sweep : (E → Bool) → List E → List E
  sweep p [] = []
  sweep p (e ∷ t) = let rest = sweep p t in if p e then rest else e ∷ rest

module _ {ℓ} {E : Type ℓ} where
  pub find_sound : (p : E → Bool) (t : List E) (e : E) → find p t ≡ some e → p e ≡ true
  unfolding find
  find_sound p [] e h = cc
  find_sound p (x ∷ t) e h = ground (arith, find_sound p t e)

  pub find-All {κ} :
      (P : E → Type κ) (p : E → Bool) (t : List E) (e : E) → All P t → find p t ≡ some e → P e
  unfolding find
  find-All P p [] e a h = cc
  find-All P p (x ∷ t) e a h = elim (Bool-cases (p x)) [
    | inl hit ↦ let same : x ≡ e = ground arith in subst P same a.0
    | inr miss ↦ find-All P p t e a.1 (rw miss at h)
  ]

  pub find-none_of_count : (p : E → Bool) (t : List E) → count p t ≡ 0 → find p t ≡ none
  unfolding find count
  find-none_of_count p [] h = refl
  find-none_of_count p (x ∷ t) h = ground (arith, find-none_of_count p t)

  pub count-zero_of_find : (p : E → Bool) (t : List E) → find p t ≡ none → count p t ≡ 0
  unfolding find count
  count-zero_of_find p [] h = refl
  count-zero_of_find p (x ∷ t) h = ground (arith, count-zero_of_find p t)

  pub count-pos_of_find : (p : E → Bool) (t : List E) (e : E) → find p t ≡ some e → 1 ≤ count p t
  unfolding find count
  count-pos_of_find p [] e h = cc
  count-pos_of_find p (x ∷ t) e h = ground (arith, count-pos_of_find p t e)

  pub count-perm : (p : E → Bool) {t u : List E} → Permᴰ t u → count p t ≡ count p u
  unfolding count
  count-perm p Permᴰ.nil = refl
  count-perm p (Permᴰ.cons e d) = rw (e, count-perm p d)
  count-perm p (Permᴰ.swap e f) = rw (e, f) (omega arith)
  count-perm p (Permᴰ.trans d e) = count-perm p d ∙ count-perm p e

  -- Where at most one entry matches, the search does not depend on the order.
  pub find-perm : (p : E → Bool) {t u : List E} → Permᴰ t u → count p t ≤ 1 → find p t ≡ find p u
  unfolding find count
  find-perm p Permᴰ.nil h = refl
  find-perm p (Permᴰ.cons {a} {b} {l₁} {l₂} e d) h =
      rw e (ground (arith, find-perm p d (omega arith)))
  find-perm p (Permᴰ.swap {a} {b} {a'} {b'} {l} e f) h =
      let h' = rw (e, f) at h in rw (e, f) (ground arith)
  find-perm p (Permᴰ.trans d e) h = find-perm p d h ∙ find-perm p e (omega (arith, count-perm p d))

  pub All-perm {κ} : (P : E → Type κ) {t u : List E} → Permᴰ t u → All P t → All P u
  All-perm P Permᴰ.nil a = a
  All-perm P (Permᴰ.cons e d) a = (subst P e a.0, All-perm P d a.1)
  All-perm P (Permᴰ.swap e f) a = (subst P f a.1.0, (subst P e a.0, a.1.1))
  All-perm P (Permᴰ.trans d e) a = All-perm P e (All-perm P d a)

  pub count-modify :
      (p q : E → Bool) (f : E → E) (t : List E)
      → ((e : E) → q e ≡ true → p (f e) ≡ p e)
      → count p (modify q f t) ≡ count p t
  unfolding count modify
  count-modify p q f [] h = refl
  count-modify p q f (x ∷ t) h = ground (arith, count-modify p q f t h, h x)

  pub find-modify_self :
      (p : E → Bool) (f : E → E) (t : List E)
      → ((e : E) → p e ≡ true → p (f e) ≡ true)
      → find p (modify p f t) ≡ Option.map f (find p t)
  unfolding find modify
  find-modify_self p f [] h = refl
  find-modify_self p f (x ∷ t) h = ground (arith, find-modify_self p f t h, h x)

  pub find-modify_other :
      (p q : E → Bool) (f : E → E) (t : List E)
      → ((e : E) → q e ≡ true → (p e ≡ false) × (p (f e) ≡ false))
      → find p (modify q f t) ≡ find p t
  unfolding find modify
  find-modify_other p q f [] h = refl
  find-modify_other p q f (x ∷ t) h = ground (arith, find-modify_other p q f t h, h x)

  pub All-modify {κ} :
      (P : E → Type κ) (q : E → Bool) (f : E → E) (t : List E)
      → ((e : E) → q e ≡ true → P e → P (f e))
      → All P t
      → All P (modify q f t)
  unfolding modify
  All-modify P q f [] h a = a
  All-modify P q f (x ∷ t) h a = elim (Bool-cases (q x)) [
    | inl hit ↦ rw hit (h x hit a.0, All-modify P q f t h a.1)
    | inr miss ↦ rw miss (a.0, All-modify P q f t h a.1)
  ]

  pub count-sweep : (p d : E → Bool) (t : List E) → count p (sweep d t) ≤ count p t
  unfolding count sweep
  count-sweep p d [] = omega arith
  count-sweep p d (x ∷ t) = ground (arith, count-sweep p d t)

  pub All-sweep {κ} : (P : E → Type κ) (d : E → Bool) (t : List E) → All P t → All P (sweep d t)
  unfolding sweep
  All-sweep P d [] a = a
  All-sweep P d (x ∷ t) a = elim (Bool-cases (d x)) [
    | inl gone ↦ rw gone (All-sweep P d t a.1)
    | inr kept ↦ rw kept (a.0, All-sweep P d t a.1)
  ]

  -- An entry that the test spares is still found.
  pub find-sweep :
      (p d : E → Bool) (t : List E) (e : E)
      → count p t ≤ 1
      → find p t ≡ some e
      → find p (sweep d t) ≡ (if d e then none else some e)
  unfolding find sweep count
  find-sweep p d [] e c h = cc
  find-sweep p d (x ∷ t) e c h = ground (
    arith,
    find-sweep p d t e,
    find-none_of_count p t,
    find-none_of_count p (sweep d t),
    count-sweep p d t,
  )

  -- Entries that the test never deletes are all still counted.
  pub count-sweep_other :
      (p d : E → Bool) (t : List E)
      → ((e : E) → p e ≡ true → d e ≡ false)
      → count p (sweep d t) ≡ count p t
  unfolding count sweep
  count-sweep_other p d [] h = refl
  count-sweep_other p d (x ∷ t) h = ground (arith, count-sweep_other p d t h, h x)

  pub find-sweep_other :
      (p d : E → Bool) (t : List E)
      → ((e : E) → p e ≡ true → d e ≡ false)
      → find p (sweep d t) ≡ find p t
  unfolding find sweep
  find-sweep_other p d [] h = refl
  find-sweep_other p d (x ∷ t) h = ground (arith, find-sweep_other p d t h, h x)
