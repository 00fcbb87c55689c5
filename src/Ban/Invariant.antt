-- ===== src/Ban/Invariant.antt =====
-- What holds of the ban list between two calls (src/main-ban.c).
use mathlib.Core.List.Permᴰ
use ocserv.Prelude.{
  ℕ, ◌^◌, ◌<◌, ◌≡◌, ◌≢◌, ◌∙◌, ap, ◌⊎◌, inl, inr, some, List, ◌++◌, arith, Bytes, All, Option-cases,
  if_both, length, take, replicate, length-append, length-take, take-append,
}
use ocserv.Table.{Htable, find, find-All, All-perm, All-modify}
use ocserv.Ban.{
  Entry, Config, Server, same_ip, massage_ipv6_address, new_entry, reset_entry, charge_entry,
  charge_table, add_to_table,
}
use ocserv.Ban.Score.{add_score_bounds}
use ocserv.Ban.Update.{IsUnique, add_known, add_new, add_full, add_to_table-cases}

-- An address in the form that massage_ipv6_address leaves.
pub record IsKey (k : Bytes) : Type 0 where
  pub sized : (length k ≡ 4) ⊎ (length k ≡ 16)
  pub canonical : massage_ipv6_address k ≡ k

pub record IsEntry (e : Entry) : Type 0 where
  pub small : e.score < 2 ^ 32
  pub key : IsKey e.ip

pub record IsTable (t : List Entry) : Type 0 where
  pub once : IsUnique t
  pub entries : All IsEntry t

abbrev pub IsValid : Server → Type 0
IsValid s = (t : List Entry) → s.ban_db ≡ some t → IsTable t

massage_short : (ip : Bytes) → length ip ≢ 16 → massage_ipv6_address ip ≡ ip
unfolding massage_ipv6_address
massage_short ip h = ground arith

pub massage_long :
    (ip : Bytes) → length ip ≡ 16 → massage_ipv6_address ip ≡ take 8 ip ++ replicate 8 0
unfolding massage_ipv6_address
massage_long ip h = ground arith

length-massage_long : (ip : Bytes) → length ip ≡ 16 → length (take 8 ip ++ replicate 8 0) ≡ 16
length-massage_long ip h =
    omega (arith, length-append (take 8 ip) (replicate 8 0), length-take 8 ip)

pub massage-IsKey :
    (ip : Bytes) → (length ip ≡ 4) ⊎ (length ip ≡ 16) → IsKey (massage_ipv6_address ip)
massage-IsKey ip (inl h) =
    let e = massage_short ip (omega arith) in rw e (record { sized = inl h; canonical = e })
massage-IsKey ip (inr h) =
    let long = length-massage_long ip h in
    let front = take-append 8 (take 8 ip) (replicate 8 0) (omega (arith, length-take 8 ip)) in
    rw (massage_long ip h) (record {
      sized = inr long;
      canonical = massage_long _ long ∙ ap (λ xs. xs ++ replicate 8 0) front;
    })

reset_entry-IsEntry : (c : Config) (now : ℕ) (e : Entry) → IsEntry e → IsEntry (reset_entry c now e)
unfolding reset_entry
reset_entry-IsEntry c now e v =
    if_both IsEntry _ _ _ (record { small = omega arith; key = v.key }) v

charge_entry-IsEntry :
    (c : Config) (now points : ℕ) (e : Entry) → IsEntry e → IsEntry (charge_entry c now points e)
unfolding charge_entry
charge_entry-IsEntry c now points e v = record {
  small = (add_score_bounds e.score points v.small).1;
  key = v.key;
}

charge_table-All :
    (c : Config) (now points : ℕ) (k : Bytes) (e : Entry) (t : List Entry)
    → IsEntry e
    → All IsEntry t
    → All IsEntry (charge_table c now points k e t).1
unfolding charge_table charge_entry
charge_table-All c now points k e t v a =
    All-modify IsEntry (same_ip k) _ t (λ x hit _. charge_entry-IsEntry c now points e v) a

module _ (ht : Htable Entry) where
  module _ (c : Config) (now points : ℕ) (k : Bytes) (key : IsKey k) (t : List Entry) where
    fresh-IsEntry : IsEntry (new_entry k now)
    unfolding new_entry
    fresh-IsEntry = record { small = omega arith; key = key }

    add_to_table-All : IsTable t → All IsEntry (add_to_table ht c now points k t).1
    add_to_table-All v =
        let got = ht.get-find (same_ip k) t (v.once k) in
        elim (Option-cases (find (same_ip k) t)) [
          | inl absent ↦ elim (Option-cases (ht.add (new_entry k now) t)) [
            | inl full ↦ rw (add_full ht c now points k t (got ∙ absent) full) v.entries
            | inr (u, done) ↦ rw (add_new ht c now points k t u (got ∙ absent) done) (
                charge_table-All c now points k (new_entry k now) u fresh-IsEntry (
                  All-perm IsEntry (Permᴰ.symm (ht.add-perm _ t u done))
                    (fresh-IsEntry, v.entries)))
          ]
          | inr (e, there) ↦ rw (add_known ht c now points k t e (got ∙ there)) (
              charge_table-All c now points k (reset_entry c now e) t
                (reset_entry-IsEntry c now e (find-All IsEntry (same_ip k) t e v.entries there))
                v.entries)
        ]

    pub add_to_table-IsTable : IsTable t → IsTable (add_to_table ht c now points k t).1
    add_to_table-IsTable v = record {
      once = elim (add_to_table-cases ht c now points k t v.once) [
        | inl done ↦ done.once
        | inr same ↦ rw same.1 v.once
      ];
      entries = add_to_table-All v;
    }
