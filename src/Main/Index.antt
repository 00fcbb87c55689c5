-- ===== src/Main/Index.antt =====
-- What the main process relies on of its hash tables of pointers (struct htable of
-- src/ccan/htable, a library of its own).
use ocserv.Prelude.{ℕ, ◌+◌, ◌<◌, ◌≡◌, Bool, true, ◌&&◌, Option, none, some, ◌==◌, if◌then◌else◌}

-- 1 for the same pointer filed under the same hash value.
abbrev pub same_filed : ℕ → ℕ → ℕ → ℕ → ℕ
same_filed h p g q = if (h == g) && (p == q) then 1 else 0

-- `filed h p t` is how often the pointer `p` stands in the table under the hash value `h`. `add`
-- (htable_add) fails for want of memory; `del` (htable_del) takes a pointer out once, if it is
-- there; `get` (htable_get) returns a pointer of the hash value for which the comparison holds, if
-- there is one.
pub record Index : Type 1 where
  pub Filed : Type 0
  pub filed : ℕ → ℕ → Filed → ℕ
  pub empty : Filed
  pub empty-filed : (h p : ℕ) → filed h p empty ≡ 0
  pub add : ℕ → ℕ → Filed → Option Filed
  pub add-filed :
      (h p : ℕ) (t u : Filed)
      → add h p t ≡ some u
      → (g q : ℕ) → filed g q u ≡ filed g q t + same_filed h p g q
  pub del : ℕ → ℕ → Filed → Option Filed
  pub del-filed :
      (h p : ℕ) (t u : Filed)
      → del h p t ≡ some u
      → (g q : ℕ) → filed g q u + same_filed h p g q ≡ filed g q t
  pub del-none : (h p : ℕ) (t : Filed) → del h p t ≡ none → filed h p t ≡ 0
  pub get : ℕ → (ℕ → Bool) → Filed → Option ℕ
  pub get-some :
      (h : ℕ) (c : ℕ → Bool) (t : Filed) (p : ℕ)
      → get h c t ≡ some p
      → (c p ≡ true) × (0 < filed h p t)
  pub get-none :
      (h : ℕ) (c : ℕ → Bool) (t : Filed) → get h c t ≡ none → (p : ℕ) → c p ≡ true → filed h p t ≡ 0
