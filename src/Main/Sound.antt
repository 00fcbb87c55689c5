-- ===== src/Main/Sound.antt =====
-- A table of clients that files each of them under its present key (src/proc-search.c).
use ocserv.Prelude.{
  ℕ, ◌<◌, ◌≡◌, ◌⊎◌, inl, inr, sym, ap, ◌∙◌, Bool, true, false, Option, none, some, ◌==◌,
  if◌then◌else◌, ◌&&◌, arith, Bool-cases, Option-split,
}
use mathlib.Core.Path.{subst}
use ocserv.Main.Index.{Index, same_filed}
use ocserv.Main.Proc.{Proc, put}

-- What stands at a pointer is a client with this key, which may be filed.
abbrev pub IsHere : (Proc → ℕ) → (Proc → Bool) → ℕ → Option Proc → Type 0
IsHere key held h none = ⊥
IsHere key held h (some q) = (key q ≡ h) × (held q ≡ true)

still :
    (key : Proc → ℕ) (h : ℕ) (held held' : Proc → Bool) (o : Option Proc)
    → ((r : Proc) → held r ≡ true → held' r ≡ true)
    → IsHere key held h o
    → IsHere key held' h o
still key h held held' none keeps here = here
still key h held held' (some r) keeps here = (here.0, keeps r here.1)

pub same_number : (x y : ℕ) → (x == y) ≡ true → x ≡ y
same_number x y h = ground arith

positive : (n : ℕ) → (0 == n) ≡ false → 0 < n
positive n h = ground arith

unheld :
    (key : Proc → ℕ) (held : Proc → Bool) (h : ℕ) (q : Proc) (o : Option Proc)
    → (o ≡ none) ⊎ (o ≡ some q) × (held q ≡ false)
    → IsHere key held h o
    → ⊥
unheld key held h q none out here = here
unheld key held h q (some r) (inl e) here = cc
unheld key held h q (some r) (inr (e, no_hold)) here =
    let same : r ≡ q = ground arith in
    let held_q : held q ≡ true = subst (λ x. held x ≡ true) same here.1 in cc

module _ (ix : Index) (key : Proc → ℕ) (held : ℕ → Proc → Bool) where
  -- Each pointer of the table stands for a client, is filed under its key, and once.
  abbrev pub IsSound : ix.Filed → (ℕ → Option Proc) → Type 0
  IsSound t procs =
      (h p : ℕ) → 0 < ix.filed h p t → IsHere key (held p) h (procs p) × (ix.filed h p t ≡ 1)

  -- The pointer is not in the table.
  abbrev pub IsAbsent : ℕ → ix.Filed → Type 0
  IsAbsent p t = (h : ℕ) → ix.filed h p t ≡ 0

  pub empty-IsSound : (procs : ℕ → Option Proc) → IsSound ix.empty procs
  empty-IsSound procs h p some_filed = absurd (omega (arith, some_filed, ix.empty-filed h p))

  -- What is not in the table may change at will.
  pub put-IsSound :
      (t : ix.Filed) (procs : ℕ → Option Proc) (p : ℕ) (o : Option Proc)
      → IsSound t procs
      → IsAbsent p t
      → IsSound t (put p o procs)
  put-IsSound t procs p o sound away h x f = elim (Bool-cases (x == p)) [
    | inl same ↦ absurd (omega (arith, f, away h, ap (λ y. ix.filed h y t) (same_number x p same)))
    | inr other ↦ (
      subst (IsHere key (held x) h) (sym (ap (λ b. if b then o else procs x) other))
          (sound h x f).0,
      (sound h x f).1,
    )
  ]

  -- So may what keeps its key.
  pub same-IsSound :
      (t : ix.Filed) (procs : ℕ → Option Proc) (p : ℕ) (q q' : Proc)
      → IsSound t procs
      → procs p ≡ some q
      → key q' ≡ key q
      → (held p q ≡ true → held p q' ≡ true)
      → IsSound t (put p (some q') procs)
  same-IsSound t procs p q q' sound here same keeps h x f = elim (Bool-cases (x == p)) [
    | inl hit ↦
        (let number = same_number x p hit in
          let was : IsHere key (held p) h (some q) =
            subst (IsHere key (held p) h) (ap procs number ∙ here)
              (subst (λ y. IsHere key (held y) h (procs x)) number (sound h x f).0) in
          (
            subst (IsHere key (held x) h) (sym (ap (λ b. if b then some q' else procs x) hit))
                (same ∙ was.0, subst (λ y. held y q' ≡ true) (sym number) (keeps was.1)),
            (sound h x f).1,
          ))
    | inr other ↦ (
      subst (IsHere key (held x) h) (sym (ap (λ b. if b then some q' else procs x) other))
          (sound h x f).0,
      (sound h x f).1,
    )
  ]

  -- A client that cannot be filed, or that does not stand there, is not in the table.
  pub unheld-IsAbsent :
      (t : ix.Filed) (procs : ℕ → Option Proc) (p : ℕ) (q : Proc)
      → IsSound t procs
      → (procs p ≡ none) ⊎ (procs p ≡ some q) × (held p q ≡ false)
      → IsAbsent p t
  unheld-IsAbsent t procs p q sound out h = elim (Bool-cases (0 == ix.filed h p t)) [
    | inl e ↦ ground arith
    | inr e ↦ absurd (unheld key (held p) h q (procs p) out (sound h p (ground arith)).0)
  ]

  pub free-IsAbsent :
      (t : ix.Filed) (procs : ℕ → Option Proc) (p : ℕ)
      → IsSound t procs
      → procs p ≡ none
      → IsAbsent p t
  free-IsAbsent t procs p sound free h = elim (Bool-cases (0 == ix.filed h p t)) [
    | inl e ↦ ground arith
    | inr e ↦
        absurd (subst (IsHere key (held p) h) free (sound h p (positive (ix.filed h p t) e)).0)
  ]

  -- A pointer that is filed for the first time.
  pub add-IsSound :
      (t u : ix.Filed) (procs : ℕ → Option Proc) (p : ℕ) (q : Proc)
      → IsSound t procs
      → IsAbsent p t
      → procs p ≡ some q
      → held p q ≡ true
      → ix.add (key q) p t ≡ some u
      → IsSound u procs
  add-IsSound t u procs p q sound away here may added h x f =
      let e = ix.add-filed (key q) p t u added h x in
      elim (Bool-cases ((key q == h) && (p == x))) [
        | inl hit ↦
            (let number = same_number p x (ground arith) in
              let none_before : ix.filed h x t ≡ 0 =
                ap (λ y. ix.filed h y t) (sym number) ∙ away h in
              (
                subst (IsHere key (held x) h) (sym here ∙ ap procs number)
                    (ground arith, subst (λ y. held y q ≡ true) number may),
                ground (arith, e),
              ))
        | inr miss ↦
            (let g : ix.filed h x u ≡ ix.filed h x t = ground (arith, e) in
              ((sound h x (omega (arith, f, g))).0, g ∙ (sound h x (omega (arith, f, g))).1))
      ]

  -- A client that is taken out is not in the table any more.
  pub del-IsAbsent :
      (t u : ix.Filed) (procs : ℕ → Option Proc) (p : ℕ) (q : Proc)
      → IsSound t procs
      → procs p ≡ some q
      → ix.del (key q) p t ≡ some u
      → IsAbsent p u
  del-IsAbsent t u procs p q sound here gone h =
      let e = ix.del-filed (key q) p t u gone h p in
      elim (Bool-cases (0 == ix.filed h p u)) [
        | inl zero_left ↦ ground arith
        | inr left ↦
            (let (was, one) = sound h p (omega (arith, e, positive (ix.filed h p u) left)) in
              let keyed : key q ≡ h = (subst (IsHere key (held p) h) here was).0 in
              absurd (ground (arith, e)))
      ]

  -- A client that is not there to be taken out is not in the table.
  pub none-IsAbsent :
      (t : ix.Filed) (procs : ℕ → Option Proc) (p : ℕ) (q : Proc)
      → IsSound t procs
      → procs p ≡ some q
      → ix.del (key q) p t ≡ none
      → IsAbsent p t
  none-IsAbsent t procs p q sound here missed h = elim (Bool-cases (0 == ix.filed h p t)) [
    | inl zero_left ↦ ground arith
    | inr left ↦
        (let (was, one) = sound h p (positive (ix.filed h p t) left) in
          let keyed : key q ≡ h = (subst (IsHere key (held p) h) here was).0 in
          sym (ap (λ g. ix.filed g p t) keyed) ∙ ix.del-none (key q) p t missed)
  ]

  -- A client that is there to be taken out may be in the table.
  pub held_del :
      (t u : ix.Filed) (procs : ℕ → Option Proc) (p : ℕ) (q : Proc)
      → IsSound t procs
      → procs p ≡ some q
      → ix.del (key q) p t ≡ some u
      → held p q ≡ true
  held_del t u procs p q sound here gone =
      let e = ix.del-filed (key q) p t u gone (key q) p in
      let one : same_filed (key q) p (key q) p ≡ 1 = ground arith in
      (subst (IsHere key (held p) (key q)) here (sound (key q) p (omega (arith, e, one))).0).1

  -- What is left when one is taken out.
  pub del-IsSound :
      (t u : ix.Filed) (procs : ℕ → Option Proc) (p g : ℕ)
      → IsSound t procs
      → ix.del g p t ≡ some u
      → IsSound u procs
  del-IsSound t u procs p g sound gone h x f =
      let e = ix.del-filed g p t u gone h x in
      let (was, one) = sound h x (omega (arith, e, f)) in (was, omega (arith, e, f, one))

  pub erase-IsSound :
      (t : ix.Filed) (procs : ℕ → Option Proc) (p g : ℕ)
      → IsSound t procs
      → IsSound (elim (ix.del g p t) [ none ↦ t | some u ↦ u ]) procs
  erase-IsSound t procs p g sound =
      Option-split (λ o. IsSound (elim o [ none ↦ t | some u ↦ u ]) procs) (ix.del g p t)
        (λ missed. sound) (λ u gone. del-IsSound t u procs p g sound gone)

  pub erase-IsAbsent :
      (t : ix.Filed) (procs : ℕ → Option Proc) (p : ℕ) (q : Proc)
      → IsSound t procs
      → procs p ≡ some q
      → IsAbsent p (elim (ix.del (key q) p t) [ none ↦ t | some u ↦ u ])
  erase-IsAbsent t procs p q sound here =
      Option-split (λ o. IsAbsent p (elim o [ none ↦ t | some u ↦ u ])) (ix.del (key q) p t)
        (λ missed. none-IsAbsent t procs p q sound here missed)
        (λ u gone. del-IsAbsent t u procs p q sound here gone)

-- What may be filed changes with one client.
pub settle-IsSound :
    (ix : Index) (key : Proc → ℕ) (held held' : ℕ → Proc → Bool) (t : ix.Filed)
    (procs : ℕ → Option Proc) (p : ℕ) (q q' : Proc)
    → IsSound ix key held t procs
    → procs p ≡ some q
    → key q' ≡ key q
    → held' p q' ≡ true
    → ((x : ℕ) (r : Proc) → (x == p) ≡ false → held x r ≡ true → held' x r ≡ true)
    → IsSound ix key held' t (put p (some q') procs)
settle-IsSound ix key held held' t procs p q q' sound here same may others h x f =
    elim (Bool-cases (x == p)) [
      | inl hit ↦
          (let number = same_number x p hit in
            let was = (subst (IsHere key (held x) h) (ap procs number ∙ here) (sound h x f).0).0 in
            (
              subst (IsHere key (held' x) h) (sym (ap (λ b. if b then some q' else procs x) hit))
                  (same ∙ was, subst (λ y. held' y q' ≡ true) (sym number) may),
              (sound h x f).1,
            ))
      | inr other ↦ (
        subst (IsHere key (held' x) h) (sym (ap (λ b. if b then some q' else procs x) other))
            (still key h (held x) (held' x) (procs x) (λ r. others x r other) (sound h x f).0),
        (sound h x f).1,
      )
    ]

pub weaken-IsSound :
    (ix : Index) (key : Proc → ℕ) (held held' : ℕ → Proc → Bool) (t : ix.Filed)
    (procs : ℕ → Option Proc)
    → IsSound ix key held t procs
    → ((x : ℕ) (r : Proc) → held x r ≡ true → held' x r ≡ true)
    → IsSound ix key held' t procs
weaken-IsSound ix key held held' t procs sound others h x f =
    (still key h (held x) (held' x) (procs x) (others x) (sound h x f).0, (sound h x f).1)
