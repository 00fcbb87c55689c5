-- ===== src/Ban/Update.antt =====
-- What add_ip_to_ban_list does to the table (src/main-ban.c).
use mathlib.Core.Option
use ocserv.Prelude.{
  ℕ, ◌≤◌, ◌≡◌, ◌≢◌, refl, ◌∙◌, ap, ◌⊎◌, inl, inr, true, false, Option, none, some, List, arith,
  Bytes, bytes_eq_refl, bytes_eq_sound, Bool-cases, Option-cases, if◌then◌else◌,
}
use ocserv.Table.{
  Htable, find, count, modify, count-modify, find-perm, count-perm, find-modify_self,
  find-modify_other, count-zero_of_find, find_sound,
}
use ocserv.Ban.{
  Entry, Config, AddResult, not_banned, already_banned, is_banned, same_ip, new_entry, reset_entry,
  charge_entry, charge_table, add_to_table,
}
use ocserv.Ban.Score.{charge_entry_keeps, reset_entry-ip}

-- At most one entry for each address.
abbrev pub IsUnique : List Entry → Type 0
IsUnique t = (k : Bytes) → count (same_ip k) t ≤ 1

-- The entry that a charge starts from.
abbrev pub current : Config → ℕ → Bytes → Option Entry → Entry
current c now k none = new_entry k now
current c now k (some e) = reset_entry c now e

abbrev pub verdict : Config → Entry → AddResult
verdict c e = if is_banned c e then already_banned else not_banned

pub same_ip_other : {j k : Bytes} → j ≢ k → (e : Entry) → e.ip ≡ k → same_ip j e ≡ false
same_ip_other {j} {k} ne e h = elim (Bool-cases (same_ip j e)) [
  | inl hit ↦ absurd (ne (ground (arith, bytes_eq_sound e.ip j hit)))
  | inr miss ↦ miss
]

pub same_ip_self : {k : Bytes} (e : Entry) → e.ip ≡ k → same_ip k e ≡ true
same_ip_self {k} e h = rw h (bytes_eq_refl k)

-- The write of one entry over the entry of its address.
abbrev pub write : Bytes → Entry → List Entry → List Entry
write k e' t = modify (same_ip k) (λ _. e') t

module _ (k : Bytes) (e' : Entry) (t : List Entry) (home : e'.ip ≡ k) where
  pub count-write : (j : Bytes) → count (same_ip j) (write k e' t) ≡ count (same_ip j) t
  count-write j =
      count-modify (same_ip j) (same_ip k) _ t λ e hit. rw (home, bytes_eq_sound e.ip k hit)

  pub find-write_self :
      {e : Entry} → find (same_ip k) t ≡ some e → find (same_ip k) (write k e' t) ≡ some e'
  find-write_self h =
      find-modify_self (same_ip k) _ t (λ e hit. same_ip_self e' home) ∙ ap (Option.map _) h

  pub find-write_other : (j : Bytes) → j ≢ k → find (same_ip j) (write k e' t) ≡ find (same_ip j) t
  find-write_other j ne =
      find-modify_other (same_ip j) (same_ip k) _ t
        λ e hit. (same_ip_other ne e (bytes_eq_sound e.ip k hit), same_ip_other ne e' home)

-- The insertion of a new entry for an address that the table does not hold.
module _ (ht : Htable Entry) (n : Entry) (t u : List Entry) where
  add-IsUnique : IsUnique t → find (same_ip n.ip) t ≡ none → ht.add n t ≡ some u → IsUnique u
  unfolding count
  add-IsUnique once fresh done j =
      let counted = count-perm (same_ip j) (ht.add-perm n t u done) in
      elim (Bool-cases (same_ip j n)) [
        | inl hit ↦
            let here : n.ip ≡ j = bytes_eq_sound n.ip j hit in
            let absent : count (same_ip j) t ≡ 0 =
              count-zero_of_find (same_ip j) t (rw (← here) fresh) in
            ground (arith, counted, absent)
        | inr miss ↦ ground (arith, counted, once j)
      ]

  find-add :
      (j : Bytes)
      → IsUnique u
      → ht.add n t ≡ some u
      → find (same_ip j) u ≡ (if same_ip j n then some n else find (same_ip j) t)
  unfolding find
  find-add j once done = find-perm (same_ip j) (ht.add-perm n t u done) (once j)

-- What add_ip_to_ban_list leaves and answers when it charges the address `k`.
pub record Charged (c : Config) (now points : ℕ) (k : Bytes) (t : List Entry)
    (r : AddResult × List Entry) : Type 0 where
  pub entry : Entry
  pub entry_lem : entry ≡ charge_entry c now points (current c now k (find (same_ip k) t))
  pub answer : r.0 ≡ verdict c entry
  pub held : find (same_ip k) r.1 ≡ some entry
  pub others : (j : Bytes) → j ≢ k → find (same_ip j) r.1 ≡ find (same_ip j) t
  pub once : IsUnique r.1

charge_table-Charged :
    (c : Config) (now points : ℕ) (k : Bytes) (e e₀ : Entry) (t u : List Entry)
    → e.ip ≡ k
    → IsUnique u
    → e ≡ current c now k (find (same_ip k) t)
    → find (same_ip k) u ≡ some e₀
    → ((j : Bytes) → j ≢ k → find (same_ip j) u ≡ find (same_ip j) t)
    → Charged c now points k t (charge_table c now points k e u)
unfolding charge_table charge_entry
charge_table-Charged c now points k e e₀ t u home once cur inside others =
    let e' = charge_entry c now points e in
    let home' : e'.ip ≡ k = (charge_entry_keeps c now points e).0 ∙ home in
    record {
      entry = e';
      entry_lem = ap (charge_entry c now points) cur;
      answer = refl;
      held = find-write_self k e' u home' inside;
      others = λ j ne. find-write_other k e' u home' j ne ∙ others j ne;
      once = λ j. rw (count-write k e' u home' j) (once j);
    }

module _ (ht : Htable Entry) (c : Config) (now points : ℕ) (k : Bytes) (t : List Entry) where
  pub add_known :
      (e : Entry)
      → ht.get (same_ip k) t ≡ some e
      → add_to_table ht c now points k t ≡ charge_table c now points k (reset_entry c now e) t
  unfolding add_to_table
  add_known e got = rw (got, add_to_table)

  pub add_new :
      (u : List Entry)
      → ht.get (same_ip k) t ≡ none
      → ht.add (new_entry k now) t ≡ some u
      → add_to_table ht c now points k t ≡ charge_table c now points k (new_entry k now) u
  unfolding add_to_table
  add_new u got done = rw (got, add_to_table) (rw (done, add_to_table))

  pub add_full :
      ht.get (same_ip k) t ≡ none
      → ht.add (new_entry k now) t ≡ none
      → add_to_table ht c now points k t ≡ (not_banned, t)
  unfolding add_to_table
  add_full got full = rw (got, add_to_table) (rw (full, add_to_table))

  new-Charged :
      (u : List Entry)
      → IsUnique t
      → find (same_ip k) t ≡ none
      → ht.add (new_entry k now) t ≡ some u
      → Charged c now points k t (charge_table c now points k (new_entry k now) u)
  unfolding new_entry
  new-Charged u once absent done =
      let n : Entry = new_entry k now in
      let once' = add-IsUnique ht n t u once absent done in
      charge_table-Charged c now points k n n t u refl once' (rw absent)
        (find-add ht n t u k once' done ∙ rw (bytes_eq_refl k))
        λ j ne. find-add ht n t u j once' done ∙ rw (same_ip_other ne n refl)

  known-Charged :
      (e : Entry)
      → IsUnique t
      → find (same_ip k) t ≡ some e
      → Charged c now points k t (charge_table c now points k (reset_entry c now e) t)
  known-Charged e once there =
      let home : e.ip ≡ k = bytes_eq_sound e.ip k (find_sound (same_ip k) t e there) in
      charge_table-Charged c now points k (reset_entry c now e) e t t
        (reset_entry-ip c now e ∙ home) once (rw there) there (λ j ne. refl)

  -- Either the address is charged, or it is new and there is no memory for it.
  pub add_to_table-cases :
      IsUnique t
      → Charged c now points k t (add_to_table ht c now points k t)
        ⊎ ((find (same_ip k) t ≡ none) × (add_to_table ht c now points k t ≡ (not_banned, t)))
  add_to_table-cases once =
      let got = ht.get-find (same_ip k) t (once k) in
      elim (Option-cases (find (same_ip k) t)) [
        | inl absent ↦ elim (Option-cases (ht.add (new_entry k now) t)) [
          | inl full ↦ inr (absent, add_full (got ∙ absent) full)
          | inr (u, done) ↦
              inl (rw (add_new u (got ∙ absent) done) (new-Charged u once absent done))
        ]
        | inr (e, there) ↦ inl (rw (add_known e (got ∙ there)) (known-Charged e once there))
      ]
