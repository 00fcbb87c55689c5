-- ===== src/Ban/Tests.antt =====
-- The ban list at concrete inputs.
use ocserv.Prelude.{
  ℕ, ◌≡◌, refl, inl, true, false, none, some, [], ◌∷◌, Bytes, bytes_eq, arith, ◌++◌, replicate,
}
use ocserv.Table.{plain, find, count, modify}
use ocserv.Address.{Inet, Storage, af_inet, af_inet6}
use ocserv.Ban.{
  Entry, Config, Server, massage_ipv6_address, check_if_banned, add_ip_to_ban_list, judge,
  add_to_table, charge_table, charge_entry, reset_entry,
}
use ocserv.Ban.Local.{if_address_test_local}
use ocserv.Ban.Invariant.{IsTable, IsValid}
use ocserv.Ban.Step.{connect, tidy, run, run-IsValid}
use ocserv.Ban.Expiry.{Banned, IsClient, attempts, check-Banned, polling_does_not_extend}

abbrev client_ip : Bytes
client_ip = 10 ∷ 0 ∷ 0 ∷ 1 ∷ []

abbrev banned_entry : Entry
banned_entry = record { ip = client_ip; score = 90; last_reset = 500; expires = 1000 }

abbrev policy : Config
policy = record { max_ban_score = 80; ban_time = 300; ban_reset_time = 900; ban_points_connect = 1 }

abbrev server : Server
server = record { ban_db = some (banned_entry ∷ []); config = policy; if_addresses = [] }

abbrev client : Storage
client = record { family = af_inet; sin_addr = client_ip; sin6_addr = replicate 16 0 }

bans-IsTable : IsTable (banned_entry ∷ [])
unfolding count massage_ipv6_address
bans-IsTable = record {
  once = λ k. ground arith;
  entries =
      (record { small = omega arith; key = record { sized = inl refl; canonical = refl } }, tt);
}

server-IsValid : IsValid server
server-IsValid t e = let same : banned_entry ∷ [] ≡ t = cc in rw (← same) bans-IsTable

client-IsClient : IsClient server client 16
unfolding if_address_test_local
client-IsClient = record { active = omega arith; remote = refl; sized = inl refl }

server-Banned : Banned server client_ip 1000
unfolding find bytes_eq
server-Banned = record {
  table = banned_entry ∷ [];
  db = refl;
  entry = banned_entry;
  found = refl;
  score = omega arith;
  expires = refl;
}

-- No text is an address.
abbrev no_inet : Inet
no_inet = record { pton = λ f a. none; pton_inet-length = λ a h. cc; pton_inet6-length = λ a h. cc }

rejected_during_ban : (check_if_banned (plain Entry) server client 16 600 601).0 ≡ true
unfolding check_if_banned judge add_ip_to_ban_list add_to_table charge_table charge_entry
    reset_entry massage_ipv6_address if_address_test_local find modify bytes_eq
rejected_during_ban = refl

run-IsValid_example :
    IsValid (run (plain Entry) no_inet server (connect client 16 600 601 ∷ tidy 2000 ∷ []))
run-IsValid_example =
    run-IsValid (plain Entry) no_inet server (connect client 16 600 601 ∷ tidy 2000 ∷ [])
      server-IsValid

check-Banned_example :
    let r = check_if_banned (plain Entry) server client 16 600 601 in
    (r.0 ≡ true) × Banned r.1 client_ip 1000 × (r.1.config ≡ policy) × (r.1.if_addresses ≡ [])
unfolding massage_ipv6_address
check-Banned_example =
    check-Banned (plain Entry) server client 16 server-IsValid client-IsClient 1000 600 601
      server-Banned (omega arith) (omega arith)

polling_does_not_extend_example :
    let s' = run (plain Entry) no_inet server (attempts client 16 ((600, 600) ∷ (900, 901) ∷ [])) in
    Banned s' (massage_ipv6_address client_ip) 1000
    × ((check_if_banned (plain Entry) s' client 16 1001 1001).0 ≡ false)
unfolding massage_ipv6_address
polling_does_not_extend_example =
    polling_does_not_extend (plain Entry) no_inet client 16 1000 server
      ((600, 600) ∷ (900, 901) ∷ []) 1001 1001 server-IsValid client-IsClient server-Banned
      (omega arith) (omega arith) (omega arith) (omega arith)

abbrev client6 : ℕ → Storage
client6 low = record {
  family = af_inet6;
  sin_addr = replicate 4 0;
  sin6_addr = 32 ∷ 1 ∷ (replicate 13 0 ++ low ∷ []);
}
