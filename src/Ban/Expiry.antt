-- ===== src/Ban/Expiry.antt =====
-- A ban lasts until its expiration, and no longer (check_if_banned, src/main-ban.c).
use ocserv.Prelude.{
  ℕ, ◌^◌, ◌≤◌, ◌<◌, ◌≡◌, refl, ◌∙◌, ap, ◌⊎◌, inl, inr, true, false, Option, none, some, List, [],
  ◌∷◌, map, arith, Bytes, All, if◌then◌else◌, ltb, length,
}
use ocserv.Table.{Htable, find, find-All}
use ocserv.Address.{Storage, Inet, sa_in_p_generic}
use ocserv.Ban.Local.{if_address_test_local}
use ocserv.Ban.{
  Entry, Server, same_ip, is_banned, massage_ipv6_address, charge_entry, reset_entry, add_to_table,
  add_ip_to_ban_list, judge, check_if_banned,
}
use ocserv.Ban.Score.{charge-reset_banned, charge-reset_over}
use ocserv.Ban.Update.{current, add_to_table-cases}
use ocserv.Ban.Invariant.{IsEntry, IsKey, IsValid, massage-IsKey}
use ocserv.Ban.Cases.{add_ip_lem, check_lem}
use ocserv.Ban.Step.{Op, connect, run, step, step-IsValid}

-- The entry that the list holds for an address in massaged form.
abbrev pub held : Server → Bytes → Option Entry
held s k = elim s.ban_db [ none ↦ none | some t ↦ find (same_ip k) t ]

module _ (ht : Htable Entry) (s : Server) (t : List Entry) (db : s.ban_db ≡ some t) where
  -- The verdict of check_if_banned on the entry that its own charge has left.
  pub judge_lem :
      (k : Bytes) (now later : ℕ) {e' : Entry}
      → 0 < s.config.max_ban_score
      → IsKey k
      → let r = add_to_table ht s.config now s.config.ban_points_connect k t in
        ht.get (same_ip k) r.1 ≡ some e'
        → judge ht s k now later ≡ (
          (if ltb e'.expires later then false else is_banned s.config e'),
          record s { ban_db = some r.1 },
        )
  unfolding judge
  judge_lem k now later {e'} pos key got =
      let points = s.config.ban_points_connect in
      let r = add_to_table ht s.config now points k t in
      let added : add_ip_to_ban_list ht s k points now ≡ (r.0, record s { ban_db = some r.1 }) =
        add_ip_lem ht s k points now t db (ground (arith, key.sized)) ∙ rw key.canonical in
      rw added (ground (arith, added, got))

-- The list holds a ban of the address `k` that ends after the time `until`.
pub record Banned (s : Server) (k : Bytes) (until : ℕ) : Type 0 where
  pub table : List Entry
  pub db : s.ban_db ≡ some table
  pub entry : Entry
  pub found : find (same_ip k) table ≡ some entry
  pub score : s.config.max_ban_score ≤ entry.score
  pub expires : entry.expires ≡ until

-- A client whose connections are subject to the ban list.
pub record IsClient (s : Server) (addr : Storage) (size : ℕ) : Type 0 where
  pub active : 0 < s.config.max_ban_score
  pub remote : if_address_test_local s.if_addresses addr ≡ false
  pub sized : (length (sa_in_p_generic addr size) ≡ 4) ⊎ (length (sa_in_p_generic addr size) ≡ 16)

abbrev pub key_of : Storage → ℕ → Bytes
key_of addr size = massage_ipv6_address (sa_in_p_generic addr size)

module _ (ht : Htable Entry) (s : Server) (addr : Storage) (size : ℕ) (v : IsValid s)
    (client : IsClient s addr size) where
  -- What one connection of a known client does: its entry is reset, charged and judged.
  pub check_known :
      (t : List Entry) (e : Entry) (now later : ℕ)
      → s.ban_db ≡ some t
      → find (same_ip (key_of addr size)) t ≡ some e
      → let e' =
          charge_entry s.config now s.config.ban_points_connect (reset_entry s.config now e) in
        (u : List Entry) × (find (same_ip (key_of addr size)) u ≡ some e')
        × (check_if_banned ht s addr size now later ≡ (
          (if ltb e'.expires later then false else is_banned s.config e'),
          record s { ban_db = some u },
        ))
  check_known t e now later db found =
      let k = key_of addr size in
      let c = s.config in
      let key = massage-IsKey (sa_in_p_generic addr size) client.sized in
      elim (add_to_table-cases ht c now c.ban_points_connect k t (v t db).once) [
        | inr new ↦ absurd (cc new.0)
        | inl ch ↦
            let u = (add_to_table ht c now c.ban_points_connect k t).1 in
            let same =
              ch.entry_lem
              ∙ ap (λ o. charge_entry c now c.ban_points_connect (current c now k o)) found in
            let held' = ch.held ∙ ap some same in
            (
              u,
              held',
              check_lem ht s addr size now later t db (ground (arith, client.active)) client.remote
                  ∙ judge_lem ht s t db k now later client.active key
                      (ht.get-find (same_ip k) u (ch.once k) ∙ held'),
            )
      ]

  -- Where the list is in use and the address is not local, a connection for which both readings of
  -- the clock are within the ban is rejected, and the ban and its end stay as they are.
  pub check-Banned :
      (until now later : ℕ)
      → Banned s (key_of addr size) until
      → now ≤ until
      → later ≤ until
      → let r = check_if_banned ht s addr size now later in
        (r.0 ≡ true)
        × Banned r.1 (key_of addr size) until
        × (r.1.config ≡ s.config)
        × (r.1.if_addresses ≡ s.if_addresses)
  check-Banned until now later b n l =
      let (u, found, result) = check_known b.table b.entry now later b.db b.found in
      let small = find-All IsEntry _ b.table b.entry (v b.table b.db).entries b.found in
      let (same, still, _) =
        charge-reset_banned s.config now s.config.ban_points_connect b.entry small.small b.score
          (omega (arith, b.expires)) in
      rw result (
        ground (arith, same, still, b.expires),
        record {
          table = u;
          db = refl;
          entry = _;
          found = found;
          score = still;
          expires = same ∙ b.expires;
        },
        refl,
        refl,
      )

  -- The first connection after the end of a ban passes, and starts a new count.
  pub check_over :
      (until now later : ℕ)
      → Banned s (key_of addr size) until
      → s.config.ban_points_connect < s.config.max_ban_score
      → s.config.max_ban_score < 2 ^ 32
      → until < now
      → let r = check_if_banned ht s addr size now later in
        (r.0 ≡ false)
        × ((e : Entry) × (held r.1 (key_of addr size) ≡ some e)
            × (e.score ≡ s.config.ban_points_connect))
  check_over until now later b few fits over =
      let (u, found, result) = check_known b.table b.entry now later b.db b.found in
      let (score, _, _) =
        charge-reset_over s.config now s.config.ban_points_connect b.entry client.active few fits
          b.score (omega (arith, b.expires)) in
      rw result (ground (arith, score), (_, found, score))

-- Connections from one address, each with the two times at which the clock is read.
abbrev pub attempts : Storage → ℕ → List (ℕ × ℕ) → List Op
attempts addr size = map λ p. connect addr size p.0 p.1

abbrev pub AllUntil : ℕ → List (ℕ × ℕ) → Type 0
AllUntil until = All λ p. (p.0 ≤ until) × (p.1 ≤ until)

module _ (ht : Htable Entry) (inet : Inet) (addr : Storage) (size until : ℕ) where
  polls-Banned :
      (s : Server) (ts : List (ℕ × ℕ))
      → IsValid s
      → IsClient s addr size
      → Banned s (key_of addr size) until
      → AllUntil until ts
      → let s' = run ht inet s (attempts addr size ts) in
        IsValid s'
        × IsClient s' addr size
        × Banned s' (key_of addr size) until
        × (s'.config ≡ s.config)
  unfolding run step
  polls-Banned s [] v client b a = (v, client, b, refl)
  polls-Banned s ((now, later) ∷ ts) v client b ((n, l), a) =
      let (_, b', c, i) = check-Banned ht s addr size v client until now later b n l in
      let s' = (check_if_banned ht s addr size now later).1 in
      let v' = step-IsValid ht inet s (connect addr size now later) v in
      let client' : IsClient s' addr size = record {
        active = rw c client.active;
        remote = rw i client.remote;
        sized = client.sized;
      } in
      let (w, cl, bb, cc') = polls-Banned s' ts v' client' b' a in (w, cl, bb, cc' ∙ c)

  -- A client that is subject to the ban list (its address is not local, and the list is in use) and
  -- keeps polling during its ban is banned until the same time as before, and its first attempt after
  -- that is let in, if the points of one connection are less than the limit, which fits an unsigned
  -- int.
  pub polling_does_not_extend :
      (s : Server) (ts : List (ℕ × ℕ)) (now later : ℕ)
      → IsValid s
      → IsClient s addr size
      → Banned s (key_of addr size) until
      → AllUntil until ts
      → s.config.ban_points_connect < s.config.max_ban_score
      → s.config.max_ban_score < 2 ^ 32
      → until < now
      → let s' = run ht inet s (attempts addr size ts) in
        Banned s' (key_of addr size) until × ((check_if_banned ht s' addr size now later).0 ≡ false)
  polling_does_not_extend s ts now later v client b a few fits over =
      let s' = run ht inet s (attempts addr size ts) in
      let (v', client', b', same) = polls-Banned s ts v client b a in
      (
        b',
        (check_over ht s' addr size v' client' until now later b' (rw same few) (rw same fits)
            over).0,
      )
