-- ===== src/Ban.antt =====
-- The ban list of the main process (src/main-ban.c, src/main-ban.h).
-- Each call of time() is an argument. The list itself is a table behind `Htable`.
pub mod Local
pub mod Score
pub mod Update
pub mod Cases
pub mod Step
pub mod Invariant
pub mod Expiry
mod Tests
use ocserv.Prelude.{
  ℕ, ◌+◌, ◌%◌, ◌^◌, Bool, true, false, not, ◌&&◌, ◌||◌, Option, none, some, List, [], ◌∷◌, ◌++◌,
  Bytes, bytes_eq, ltb, leb, ◌==◌, if◌then◌else◌, length, take, replicate,
}
use ocserv.Table.{Htable, modify, sweep, count}
use ocserv.Address.{Storage, Inet, af_inet, af_inet6, has_char, sa_in_size, sa_in_p_generic}
use Local.{IfAddress, if_address_test_local}

-- ban_entry_st. The size of the address is the length of `ip`.
pub record Entry : Type 0 where
  pub ip : Bytes
  pub score : ℕ
  pub last_reset : ℕ
  pub expires : ℕ

-- What GETRCONFIG(s) gives.
pub record Config : Type 0 where
  pub max_ban_score : ℕ
  pub ban_time : ℕ
  pub ban_reset_time : ℕ
  pub ban_points_connect : ℕ

-- The part of main_server_st that the ban list uses; `none` is a null ban_db.
pub record Server : Type 0 where
  pub ban_db : Option (List Entry)
  pub config : Config
  pub if_addresses : List IfAddress

-- The results 0 and -1 of add_ip_to_ban_list.
pub data AddResult : Type 0 where
  not_banned already_banned : AddResult

-- ban_entry_cmp
abbrev pub same_ip : Bytes → Entry → Bool
same_ip k e = bytes_eq e.ip k

-- IS_BANNED
abbrev pub is_banned : Config → Entry → Bool
is_banned c e = leb c.max_ban_score e.score

-- massage_ipv6_address: the last eight bytes of an IPv6 address are cleared.
unfoldable pub massage_ipv6_address : Bytes → Bytes
massage_ipv6_address ip = if length ip == 16 then take 8 ip ++ replicate 8 0 else ip

-- `unsigned int` addition that keeps the old value where the sum wraps.
unfoldable pub add_score : ℕ → ℕ → ℕ
add_score score points = let sum = (score + points) % 2 ^ 32 in if ltb score sum then sum else score

unfoldable pub new_entry : Bytes → ℕ → Entry
new_entry k now = record { ip = k; score = 0; last_reset = now; expires = 0 }

-- The reset of a known entry.
unfoldable pub reset_entry : Config → ℕ → Entry → Entry
reset_entry c now e =
    if (ltb e.expires now && is_banned c e)
      || (ltb (e.last_reset + c.ban_reset_time) now && not (is_banned c e))
    then record e { score = 0; last_reset = now }
    else e

-- The new expiration, unless the entry is banned, and the points.
unfoldable pub charge_entry : Config → ℕ → ℕ → Entry → Entry
unfolding add_score
charge_entry c now points e = record e {
  expires = if ltb e.score c.max_ban_score then now + c.ban_time else e.expires;
  score = add_score e.score points;
}

-- The end of add_ip_to_ban_list: the entry `e`, which the table holds under `k`, is charged.
unfoldable pub charge_table : Config → ℕ → ℕ → Bytes → Entry → List Entry → AddResult × List Entry
charge_table c now points k e t =
    let e' = charge_entry c now points e in
    (if is_banned c e' then already_banned else not_banned, modify (same_ip k) (λ _. e') t)

module _ (ht : Htable Entry) where
  -- add_ip_to_ban_list on the table, past its guard: `k` is the massaged address.
  unfoldable pub add_to_table : Config → ℕ → ℕ → Bytes → List Entry → AddResult × List Entry
  add_to_table c now points k t = elim (ht.get (same_ip k) t) [
    | none ↦ elim (ht.add (new_entry k now) t) [
      | none ↦ (not_banned, t)
      | some t' ↦ charge_table c now points k (new_entry k now) t'
    ]
    | some e ↦ charge_table c now points k (reset_entry c now e) t
  ]

  -- add_ip_to_ban_list
  unfoldable pub add_ip_to_ban_list : Server → Bytes → ℕ → ℕ → AddResult × Server
  add_ip_to_ban_list s ip points now = elim s.ban_db [
    | none ↦ (not_banned, s)
    | some t ↦
        if s.config.max_ban_score == 0 || not (length ip == 4 || length ip == 16)
        then (not_banned, s)
        else let (r, t') = add_to_table s.config now points (massage_ipv6_address ip) t in
          (r, record s { ban_db = some t' })
  ]

  -- add_str_ip_to_ban_list; `none` is a null text.
  unfoldable pub add_str_ip_to_ban_list : Inet → Server → Option Bytes → ℕ → ℕ → AddResult × Server
  add_str_ip_to_ban_list inet s none points now = (not_banned, s)
  add_str_ip_to_ban_list inet s (some []) points now = (not_banned, s)
  add_str_ip_to_ban_list inet s (some (c ∷ ip)) points now = elim s.ban_db [
    | none ↦ (not_banned, s)
    | some t ↦
        if s.config.max_ban_score == 0
        then (not_banned, s)
        else elim (inet.pton (if has_char b':' (c ∷ ip) then af_inet6 else af_inet) (c ∷ ip)) [
          | none ↦ (not_banned, s)
          | some a ↦ add_ip_to_ban_list s a points now
        ]
  ]

  -- remove_ip_from_ban_list: true stands for the result 1.
  unfoldable pub remove_ip_from_ban_list : Server → Bytes → Bool × Server
  remove_ip_from_ban_list s ip = elim s.ban_db [
    | none ↦ (false, s)
    | some t ↦
        if length ip == 4 || length ip == 16
        then (let k = massage_ipv6_address ip in
            elim (ht.get (same_ip k) t) [
              | none ↦ (false, s)
              | some e ↦ (
                true,
                record s {
                  ban_db = some (modify (same_ip k) (λ _. record e { score = 0; expires = 0 }) t);
                },
              )
            ])
        else (false, s)
  ]

  -- check_if_banned past its guards: whether the connection is rejected. The time is read once
  -- for the charge and once more for the verdict.
  unfoldable pub judge : Server → Bytes → ℕ → ℕ → Bool × Server
  judge s k now later =
      let s' = (add_ip_to_ban_list s k s.config.ban_points_connect now).1 in
      (
        elim s'.ban_db [
          | none ↦ false
          | some t ↦ elim (ht.get (same_ip k) t) [
            | none ↦ false
            | some e ↦ if ltb e.expires later then false else is_banned s'.config e
          ]
        ],
        s',
      )

  -- check_if_banned: true stands for the result 1.
  unfoldable pub check_if_banned : Server → Storage → ℕ → ℕ → ℕ → Bool × Server
  check_if_banned s addr addr_size now later = elim s.ban_db [
    | none ↦ (false, s)
    | some t ↦
        if s.config.max_ban_score == 0
        then (false, s)
        else if if_address_test_local s.if_addresses addr
        then (false, s)
        else if not (sa_in_size addr_size == 4 || sa_in_size addr_size == 16)
        then (false, s)
        else judge s (massage_ipv6_address (sa_in_p_generic addr addr_size)) now later
  ]

-- The test of cleanup_banned_entries.
abbrev pub is_stale : Config → ℕ → Entry → Bool
is_stale c now e = leb e.expires now && ltb (e.last_reset + c.ban_reset_time) now

unfoldable pub cleanup_banned_entries : Server → ℕ → Server
cleanup_banned_entries s now = elim s.ban_db [
  | none ↦ s
  | some t ↦ record s { ban_db = some (sweep (is_stale s.config now) t) }
]

-- main_ban_db_elems
unfoldable pub main_ban_db_elems : Server → ℕ → ℕ
main_ban_db_elems s now = elim s.ban_db [
  | none ↦ 0
  | some t ↦
      if s.config.max_ban_score == 0
      then 0
      else count (λ e. ltb now e.expires && is_banned s.config e) t
]
