-- ===== src/Ban/Step.antt =====
-- The calls that other parts of the main process make to the ban list (src/main-ban.c), and
-- their histories.
use ocserv.Prelude.{
  ℕ, ◌≡◌, refl, inl, inr, Bool, true, false, Option, none, some, List, [], ◌∷◌, arith, Bytes,
  bytes_eq_sound, Bool-cases, Option-cases, length, ◌==◌, ◌||◌,
}
use ocserv.Table.{
  Htable, find, modify, sweep, All-modify, All-sweep, count-sweep, find-All, find_sound,
}
use ocserv.Address.{Storage, Inet}
use ocserv.Ban.{
  Entry, Server, AddResult, not_banned, same_ip, is_stale, massage_ipv6_address, add_ip_to_ban_list,
  add_str_ip_to_ban_list, remove_ip_from_ban_list, judge, check_if_banned, cleanup_banned_entries,
}
use ocserv.Ban.Invariant.{IsEntry, IsTable, IsValid, massage-IsKey, add_to_table-IsTable}
use ocserv.Ban.Update.{count-write}
use ocserv.Ban.Cases.{add_ip_cases, check_cases}

-- `blame` is add_ip_to_ban_list, `report` add_str_ip_to_ban_list, `unban` remove_ip_from_ban_list,
-- `connect` check_if_banned and `tidy` cleanup_banned_entries, each with its arguments and times.
pub data Op : Type 0 where
  blame : Bytes → ℕ → ℕ → Op
  report : Option Bytes → ℕ → ℕ → Op
  unban : Bytes → Op
  connect : Storage → ℕ → ℕ → ℕ → Op
  tidy : ℕ → Op

module _ (ht : Htable Entry) (inet : Inet) where
  unfoldable pub step : Server → Op → Server
  step s (blame ip points now) = (add_ip_to_ban_list ht s ip points now).1
  step s (report ip points now) = (add_str_ip_to_ban_list ht inet s ip points now).1
  step s (unban ip) = (remove_ip_from_ban_list ht s ip).1
  step s (connect addr size now later) = (check_if_banned ht s addr size now later).1
  step s (tidy now) = cleanup_banned_entries s now

  unfoldable pub run : Server → List Op → Server
  unfolding step
  run s [] = s
  run s (o ∷ os) = run (step s o) os

installed : (s : Server) (t : List Entry) → IsTable t → IsValid (record s { ban_db = some t })
installed s t v u e = let same : t ≡ u = cc in rw (← same) v

module _ (ht : Htable Entry) (s : Server) (v : IsValid s) where
  add_ip-IsValid : (ip : Bytes) (points now : ℕ) → IsValid (add_ip_to_ban_list ht s ip points now).1
  add_ip-IsValid ip points now = add_ip_cases ht s IsValid ip points now v λ t e sized.
      installed s _
        (add_to_table-IsTable ht s.config now points _ (massage-IsKey ip sized) t (v t e))

  add_str-IsValid :
      (inet : Inet) (ip : Option Bytes) (points now : ℕ)
      → IsValid (add_str_ip_to_ban_list ht inet s ip points now).1
  unfolding add_str_ip_to_ban_list
  add_str-IsValid inet none points now = v
  add_str-IsValid inet (some []) points now = v
  add_str-IsValid inet (some (c ∷ ip)) points now = elim (Option-cases s.ban_db) [
    | inl e ↦ rw (e, add_str_ip_to_ban_list) v
    | inr (t, e) ↦ elim (Bool-cases (s.config.max_ban_score == 0)) [
      | inl g ↦ rw (e, add_str_ip_to_ban_list) (rw g v)
      | inr g ↦ rw (e, add_str_ip_to_ban_list) (rw g (parsed (inet.pton _ (c ∷ ip))))
    ]
  ]
    where
      parsed :
          (a : Option Bytes)
          → IsValid
              (elim a as (λ _. AddResult × Server) [
                | none ↦ (not_banned, s)
                | some b ↦ add_ip_to_ban_list ht s b points now
              ]).1
      parsed none = v
      parsed (some b) = add_ip-IsValid b points now

  judge-IsValid : (k : Bytes) (now later : ℕ) → IsValid (judge ht s k now later).1
  unfolding judge
  judge-IsValid k now later = add_ip-IsValid k _ now

  check-IsValid :
      (addr : Storage) (size now later : ℕ) → IsValid (check_if_banned ht s addr size now later).1
  check-IsValid addr size now later =
      check_cases ht s (λ r. IsValid r.1) addr size now later v (judge-IsValid _ now later)

  cleanup-IsValid : (now : ℕ) → IsValid (cleanup_banned_entries s now)
  unfolding cleanup_banned_entries
  cleanup-IsValid now = elim (Option-cases s.ban_db) [
    | inl e ↦ rw (e, cleanup_banned_entries) v
    | inr (t, e) ↦
        let w = v t e in
        let d = is_stale s.config now in
        rw (e, cleanup_banned_entries)
          (installed s (sweep d t) (record {
            once = λ k. omega (arith, count-sweep (same_ip k) d t, w.once k);
            entries = All-sweep IsEntry d t w.entries;
          }))
  ]

  pub remove_ip-IsValid : (ip : Bytes) → IsValid (remove_ip_from_ban_list ht s ip).1
  unfolding remove_ip_from_ban_list
  remove_ip-IsValid ip = elim (Option-cases s.ban_db) [
    | inl e ↦ rw (e, remove_ip_from_ban_list) v
    | inr (t, e) ↦ elim (Bool-cases (length ip == 4 || length ip == 16)) [
      | inr g ↦ rw (e, remove_ip_from_ban_list) (rw g v)
      | inl g ↦
          let w = v t e in
          let k = massage_ipv6_address ip in
          rw (e, remove_ip_from_ban_list)
            (rw (g, ht.get-find (same_ip k) t (w.once k))
              (unbanned k t w (find (same_ip k) t) refl))
    ]
  ]
    where
      unbanned :
          (k : Bytes) (t : List Entry) (w : IsTable t) (o : Option Entry)
          → find (same_ip k) t ≡ o
          → IsValid
              (elim o as (λ _. Bool × Server) [
                | none ↦ (false, s)
                | some e ↦ (
                  true,
                  record s {
                    ban_db = some (modify (same_ip k) (λ _. record e { score = 0; expires = 0 }) t);
                  },
                )
              ]).1
      unbanned k t w none h = v
      unbanned k t w (some e) h =
          let e' : Entry = record e { score = 0; expires = 0 } in
          let home : e.ip ≡ k = bytes_eq_sound e.ip k (find_sound (same_ip k) t e h) in
          let known = find-All IsEntry (same_ip k) t e w.entries h in
          installed s _ (record {
            once = λ j. rw (count-write k e' t home j) (w.once j);
            entries =
                All-modify IsEntry (same_ip k) _ t
                  (λ _ _ _. record { small = omega arith; key = known.key }) w.entries;
          })

module _ (ht : Htable Entry) (inet : Inet) where
  pub step-IsValid : (s : Server) (o : Op) → IsValid s → IsValid (step ht inet s o)
  unfolding step
  step-IsValid s (blame ip points now) v = add_ip-IsValid ht s v ip points now
  step-IsValid s (report ip points now) v = add_str-IsValid ht s v inet ip points now
  step-IsValid s (unban ip) v = remove_ip-IsValid ht s v ip
  step-IsValid s (connect addr size now later) v = check-IsValid ht s v addr size now later
  step-IsValid s (tidy now) v = cleanup-IsValid ht s v now

  pub run-IsValid : (s : Server) (os : List Op) → IsValid s → IsValid (run ht inet s os)
  unfolding run
  run-IsValid s [] v = v
  run-IsValid s (o ∷ os) v = run-IsValid (step ht inet s o) os (step-IsValid s o v)
