-- ===== src/Lease/Tests.antt =====
-- The leases at concrete inputs (src/ip-lease.c).
use mathlib.Core.List.Permᴰ
use ocserv.Prelude.{
  ℕ, ◌+◌, ◌≡◌, ◌≤◌, refl, Bool, true, false, Option, none, some, List, [], ◌∷◌, Bytes, bytes_eq,
  length, arith, replicate, if◌then◌else◌,
}
use ocserv.Address.{Inet, Family, af_inet, af_inet6, af_other}
use ocserv.Table.{plain, count}
use ocserv.Lease.Entry.{Lease, same_lease, Env, Ping, Code, ok, masked, ip_lease_exists}
use ocserv.Lease.Pick4.{Net4, get_ipv4_lease, dynamic4}
use ocserv.Lease.Pick6.{Net6, lease6, pick6, get_ipv6_lease}
use ocserv.Lease.Assign.{Proc, get_ip_leases, remove_ip_leases}
use ocserv.Lease.Step.{Server, Reach, here, next, join, give}
use ocserv.Lease.Owners.{owns}
use ocserv.Lease.Unique.{Reach-unique, leave-free}
use ocserv.Lease.Seeded.{SameHost, seed_address}
use ocserv.Lease.Network.{IsSound, Suits, get_ipv4_lease-Suits}

-- "net" and "mask", read as 10.0.0.0 and 255.255.255.0
abbrev net_text : Bytes
net_text = 110 ∷ 101 ∷ 116 ∷ []

abbrev mask_text : Bytes
mask_text = 109 ∷ 97 ∷ 115 ∷ 107 ∷ []

abbrev small_pton : Family → Bytes → Option Bytes
small_pton af_inet s =
    if bytes_eq s net_text
    then some (10 ∷ 0 ∷ 0 ∷ 0 ∷ [])
    else if bytes_eq s mask_text
    then some (255 ∷ 255 ∷ 255 ∷ 0 ∷ [])
    else none
small_pton af_inet6 s = if bytes_eq s net_text then some (replicate 16 0) else none
small_pton af_other s = none

pton-four : (a b : Bytes) → small_pton af_inet a ≡ some b → length b ≡ 4
pton-four a b h = ground arith

pton-sixteen : (a b : Bytes) → small_pton af_inet6 a ≡ some b → length b ≡ 16
pton-sixteen a b h = ground arith

abbrev small_inet : Inet
small_inet = record {
  pton = small_pton;
  pton_inet-length = λ a {b} h. pton-four a b h;
  pton_inet6-length = λ a {b} h. pton-sixteen a b h;
}

-- The hash is thirty-two bytes 7, whatever is hashed.
abbrev small_env : Env
small_env = record {
  inet = small_inet;
  sha1 = λ b. replicate 32 7;
  rnd = λ n. some (9 ∷ 9 ∷ 9 ∷ 9 ∷ []);
  memory = true;
}

abbrev long_env : Env
long_env = record small_env { rnd = λ n. some (replicate 16 9) }

small_env-IsSound : IsSound small_env
small_env-IsSound = record { rnd = λ n b h. ground arith; sha1 = λ b. ground arith }

abbrev no_ping : Ping
no_ping ip = false

abbrev ping_all : Ping
ping_all ip = true

abbrev small_net4 : Net4
small_net4 = record {
  ipv4_net = none;
  ipv4_netmask = none;
  vhost_ipv4 = some net_text;
  vhost_netmask = some mask_text;
  explicit_ipv4 = none;
}

abbrev small_net6 : Net6
small_net6 = record {
  ipv6_net = none;
  ipv6_prefix = 0;
  ipv6_subnet_prefix = 0;
  vhost_ipv6 = some net_text;
  vhost_prefix = 112;
  vhost_subnet_prefix = 128;
  explicit_ipv6 = none;
}

abbrev client_of : ℕ → Proc
client_of n = record {
  ipv4 = none;
  ipv6 = none;
  net4 = small_net4;
  net6 = record small_net6 { vhost_ipv6 = none };
  ipv4_seed = 1 ∷ 2 ∷ 3 ∷ n ∷ [];
}

abbrev start : Server
start = record { leases = []; procs = [] }

-- Two clients join, and the second gets its addresses.
abbrev joined_two : Server
joined_two = record { leases = []; procs = client_of 5 ∷ client_of 4 ∷ [] }

abbrev served : Bool × Proc × List Lease
served = get_ip_leases (plain Lease) small_env long_env no_ping no_ping (client_of 5) []

abbrev given : Server
given = record { leases = served.2; procs = served.1 ∷ client_of 4 ∷ [] }

history : Reach (plain Lease) start given
history =
    next
      (next (next here (join start (client_of 4) refl refl))
        (join (record { leases = []; procs = client_of 4 ∷ [] }) (client_of 5) refl refl))
      (give joined_two small_env long_env no_ping no_ping (client_of 5) (client_of 4 ∷ [])
        (Permᴰ.refl joined_two.procs))

-- The address that the second one got.
abbrev got4 : Bytes
got4 = 10 ∷ 0 ∷ 0 ∷ 5 ∷ []

served-holds : owns 16 got4 served.1 ≡ 1
unfolding get_ip_leases ocserv.Lease.Assign.missing4 ocserv.Lease.Assign.register get_ipv4_lease
    ocserv.Lease.Pick4.read_net4 ocserv.Lease.Pick4.chosen_net bytes_eq ocserv.Lease.Pick4.assign4
    ocserv.Lease.Pick4.pick4 ocserv.Lease.Pick4.draw4 ocserv.Lease.Pick4.is_ipv4_ok
    ocserv.Table.find ocserv.Lease.Entry.joined ocserv.Lease.Entry.unmasked masked
    ocserv.Lease.Entry.filled ocserv.Lease.Pick4.set_last ocserv.Lease.Assign.registered
    ocserv.Lease.Assign.missing6 get_ipv6_lease ocserv.Lease.Pick6.read_net6
    ocserv.Lease.Pick6.chosen_net6
served-holds = refl

Reach-unique_example :
    (owns 16 got4 served.1 + owns 16 got4 (client_of 4) ≤ count (same_lease 16 got4) served.2)
    × (count (same_lease 16 got4) served.2 ≤ 1)
Reach-unique_example =
    Reach-unique (plain Lease) start given served.1 (client_of 4) [] 16 got4 refl refl history
      (Permᴰ.refl given.procs)

leave-free_example :
    ip_lease_exists (plain Lease) (remove_ip_leases served.1 served.2).1 got4 16 ≡ false
leave-free_example =
    leave-free (plain Lease) start given served.1 (client_of 4 ∷ []) 16 got4 refl refl history
      (Permᴰ.refl given.procs) (omega (arith, served-holds))

get_ipv4_lease-Suits_example :
    Suits (plain Lease) no_ping [] (10 ∷ 0 ∷ 0 ∷ 0 ∷ []) (255 ∷ 255 ∷ 255 ∷ 0 ∷ []) got4
unfolding get_ipv4_lease ocserv.Lease.Pick4.read_net4 ocserv.Lease.Pick4.chosen_net bytes_eq
    ocserv.Lease.Pick4.assign4 ocserv.Lease.Pick4.pick4 ocserv.Lease.Pick4.draw4
    ocserv.Lease.Pick4.is_ipv4_ok ocserv.Table.find ocserv.Lease.Entry.joined
    ocserv.Lease.Entry.unmasked masked ocserv.Lease.Entry.filled ocserv.Lease.Pick4.set_last
get_ipv4_lease-Suits_example =
    get_ipv4_lease-Suits (plain Lease) small_env no_ping [] (10 ∷ 0 ∷ 0 ∷ 0 ∷ [])
      (255 ∷ 255 ∷ 255 ∷ 0 ∷ []) (1 ∷ 2 ∷ 3 ∷ 5 ∷ []) small_env-IsSound (refl, ground arith)
      (refl, ground arith) (refl, ground arith) small_net4 net_text mask_text
      (dynamic4 (10 ∷ 0 ∷ 0 ∷ 0 ∷ []) (255 ∷ 255 ∷ 255 ∷ 0 ∷ []) got4) refl refl refl refl refl

seed_address_example :
    (l : Lease) × (get_ipv4_lease (plain Lease) small_env no_ping [] small_net4 (1 ∷ 2 ∷ 3 ∷ 5 ∷ [])
      ≡ (ok, some l))
    × (l.rip ≡ got4)
    × (l.sig ≡ got4)
    × (l.in_db ≡ true)
unfolding bytes_eq ocserv.Lease.Pick4.chosen_net ocserv.Table.find masked ocserv.Lease.Entry.filled
    ocserv.Lease.Pick4.set_last SameHost
seed_address_example =
    seed_address (plain Lease) small_env no_ping [] (10 ∷ 0 ∷ 0 ∷ 0 ∷ []) (255 ∷ 255 ∷ 255 ∷ 0 ∷ [])
      (1 ∷ 2 ∷ 3 ∷ 5 ∷ []) (refl, ground arith) (refl, ground arith) (refl, ground arith) small_net4
      net_text mask_text got4 refl refl refl refl refl (refl, ground arith)
      (refl, (refl, (refl, (refl, tt))))
      (record { inside = refl; usable = refl; remote = refl; free = refl; silent = refl })
