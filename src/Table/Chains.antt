-- ===== src/Table/Chains.antt =====
-- What the programs rely on where they go through the entries of one hash value, with
-- htable_firstval, htable_nextval and htable_delval of src/ccan/htable.
use mathlib.Core.List.{Permᴰ}
use mathlib.Core.Option
use ocserv.Prelude.{
  ℕ, suc, ◌+◌, ◌≤◌, ◌≡◌, ◌≢◌, refl, ◌∙◌, ap, Bool, true, Option, none, some, Option-cases, sym,
  List, [], ◌∷◌, ◌++◌, arith, length, All, if◌then◌else◌, inl, inr, Bool-cases,
}
use ocserv.Table.Laws.{count, find, count-perm, find-perm, find-none_of_count}

-- `chain k t` are the candidates for the hash value `k`, in the order in which they are visited;
-- every entry of that hash value is among them. `del k i t` is htable_delval at the i-th of them.
pub record Chained (E : Type 0) (hash : E → ℕ) : Type 1 where
  pub add : E → List E → Option (List E)
  pub add-perm : (e : E) (t u : List E) → add e t ≡ some u → Permᴰ u (e ∷ t)
  pub chain : ℕ → List E → List E
  pub others : ℕ → List E → List E
  pub chain-perm : (k : ℕ) (t : List E) → Permᴰ t (chain k t ++ others k t)
  pub others-All : (k : ℕ) (t : List E) → All (λ e. hash e ≢ k) (others k t)
  pub del : ℕ → ℕ → List E → List E
  pub del-perm :
      (k : ℕ) (t a b : List E) (e : E) → chain k t ≡ a ++ (e ∷ b) → Permᴰ t (e ∷ del k (length a) t)

module _ {E : Type 0} where
  -- The place of the first entry for which the test holds, counted from `i` on.
  unfoldable pub position : (E → Bool) → List E → Option ℕ
  position p [] = none
  position p (e ∷ t) = if p e then some 0 else Option.map suc (position p t)

  -- The list cut at the first entry for which the test holds.
  pub record CutAt (p : E → Bool) (t : List E) (i : ℕ) : Type 0 where
    pub before : List E
    pub hit : E
    pub after : List E
    pub whole : t ≡ before ++ (hit ∷ after)
    pub place : length before ≡ i
    pub tested : p hit ≡ true

module _ {E : Type 0} (p : E → Bool) where
  pub position-CutAt : (t : List E) (i : ℕ) → position p t ≡ some i → CutAt p t i
  unfolding position
  position-CutAt [] i h = cc
  position-CutAt (e ∷ t) i h = elim (Bool-cases (p e)) [
    | inl yes' ↦ record {
      before = [];
      hit = e;
      after = t;
      whole = refl;
      place = ground arith;
      tested = yes';
    }
    | inr no' ↦ elim (Option-cases (position p t)) [
      | inl missed ↦ absurd (ground arith)
      | inr (j, at_j) ↦
          let rest = position-CutAt t j at_j in
          record {
            before = e ∷ rest.before;
            hit = rest.hit;
            after = rest.after;
            whole = ap (◌∷◌ e) rest.whole;
            place = ground (arith, rest.place);
            tested = rest.tested;
          }
    ]
  ]

  pub position-none : (t : List E) → position p t ≡ none → count p t ≡ 0
  unfolding position count
  position-none [] h = refl
  position-none (e ∷ t) h = elim (Option-cases (position p t)) [
    | inl missed ↦ ground (arith, position-none t missed)
    | inr (j, at_j) ↦ absurd (ground arith)
  ]

  pub count-append : (t u : List E) → count p (t ++ u) ≡ count p t + count p u
  unfolding count
  count-append [] u = omega arith
  count-append (e ∷ t) u = omega (arith, count-append t u)

  -- A search that finds nothing in the second part stays in the first.
  find-append : (t u : List E) → count p u ≡ 0 → find p (t ++ u) ≡ find p t
  unfolding find
  find-append [] u none_there = find-none_of_count p u none_there
  find-append (e ∷ t) u none_there =
      ap (λ r. if p e then some e else r) (find-append t u none_there)

module _ {E : Type 0} {hash : E → ℕ} (ct : Chained E hash) (k : ℕ) (p : E → Bool)
    (hashed : (e : E) → p e ≡ true → hash e ≡ k) where
  none_other : (t : List E) → All (λ e. hash e ≢ k) t → count p t ≡ 0
  unfolding count
  none_other [] a = refl
  none_other (e ∷ t) a = elim (Bool-cases (p e)) [
    | inl yes' ↦ absurd (a.0 (hashed e yes'))
    | inr no' ↦ ground (arith, none_other t a.1)
  ]

  -- All entries for which the test holds are visited.
  pub count-chain : (t : List E) → count p (ct.chain k t) ≡ count p t
  count-chain t =
      let split =
        count-perm p (ct.chain-perm k t) ∙ count-append p (ct.chain k t) (ct.others k t) in
      omega (arith, split, none_other (ct.others k t) (ct.others-All k t))

  -- Where the test holds of one entry at most, the visit finds the same as any other.
  pub find-chain : (t : List E) → count p t ≤ 1 → find p (ct.chain k t) ≡ find p t
  find-chain t one = sym (
      find-perm p (ct.chain-perm k t) one
      ∙ find-append p (ct.chain k t) (ct.others k t)
          (none_other (ct.others k t) (ct.others-All k t)))
