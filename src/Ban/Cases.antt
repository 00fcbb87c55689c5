-- ===== src/Ban/Cases.antt =====
-- The branches of the functions of src/main-ban.c on the server, as rules for proofs about them.
use ocserv.Prelude.{
  ℕ, ◌≡◌, ◌⊎◌, inl, inr, Bool, false, not, ◌||◌, some, List, arith, Bytes, Bool-cases, Option-cases,
  length, ◌==◌,
}
use ocserv.Table.{Htable}
use ocserv.Address.{Storage, sa_in_size, sa_in_p_generic}
use ocserv.Ban.Local.{if_address_test_local}
use ocserv.Ban.{
  Entry, Server, massage_ipv6_address, add_to_table, add_ip_to_ban_list, judge, check_if_banned,
}

module _ (ht : Htable Entry) (s : Server) where
  -- The guard of add_ip_to_ban_list.
  abbrev pub refuses : Bytes → Bool
  refuses ip = s.config.max_ban_score == 0 || not (length ip == 4 || length ip == 16)

  pub add_ip_lem :
      (ip : Bytes) (points now : ℕ) (t : List Entry)
      → s.ban_db ≡ some t
      → refuses ip ≡ false
      → add_ip_to_ban_list ht s ip points now ≡ (
          let (r, t') = add_to_table ht s.config now points (massage_ipv6_address ip) t in
          (r, record s { ban_db = some t' }))
  unfolding add_ip_to_ban_list
  add_ip_lem ip points now t e g = rw (e, add_ip_to_ban_list) (rw g)

  -- Either nothing changes, or the guard has let the call through to the table.
  pub add_ip_cases {ℓ} :
      (P : Server → Type ℓ) (ip : Bytes) (points now : ℕ)
      → P s
      → ((t : List Entry)
          → s.ban_db ≡ some t
          → (length ip ≡ 4) ⊎ (length ip ≡ 16)
          → P (record s {
            ban_db = some (add_to_table ht s.config now points (massage_ipv6_address ip) t).1;
          }))
      → P (add_ip_to_ban_list ht s ip points now).1
  unfolding add_ip_to_ban_list
  add_ip_cases P ip points now same changed = elim (Option-cases s.ban_db) [
    | inl e ↦ rw (e, add_ip_to_ban_list) same
    | inr (t, e) ↦ elim (Bool-cases (refuses ip)) [
      | inl g ↦ rw (e, add_ip_to_ban_list) (rw g same)
      | inr g ↦ rw (add_ip_lem ip points now t e g) (changed t e (ground arith))
    ]
  ]

  sa_in_size_known : (size : ℕ) → not (sa_in_size size == 4 || sa_in_size size == 16) ≡ false
  sa_in_size_known size = ground arith

  -- Past its guards check_if_banned judges the massaged address.
  pub check_lem :
      (addr : Storage) (size now later : ℕ) (t : List Entry)
      → s.ban_db ≡ some t
      → (s.config.max_ban_score == 0) ≡ false
      → if_address_test_local s.if_addresses addr ≡ false
      → check_if_banned ht s addr size now later
        ≡ judge ht s (massage_ipv6_address (sa_in_p_generic addr size)) now later
  unfolding check_if_banned
  check_lem addr size now later t e g l = ground (arith, sa_in_size_known size)

  -- Either the connection passes and nothing changes, or it is judged.
  pub check_cases {ℓ} :
      (P : Bool × Server → Type ℓ) (addr : Storage) (size now later : ℕ)
      → P (false, s)
      → P (judge ht s (massage_ipv6_address (sa_in_p_generic addr size)) now later)
      → P (check_if_banned ht s addr size now later)
  unfolding check_if_banned
  check_cases P addr size now later same judged = elim (Option-cases s.ban_db) [
    | inl e ↦ rw (e, check_if_banned) same
    | inr (t, e) ↦ elim (Bool-cases (s.config.max_ban_score == 0)) [
      | inl g ↦ rw (e, check_if_banned) (rw g same)
      | inr g ↦ elim (Bool-cases (if_address_test_local s.if_addresses addr)) [
        | inl l ↦ rw (e, check_if_banned) (rw (g, l) same)
        | inr l ↦ rw (check_lem addr size now later t e g l) judged
      ]
    ]
  ]
