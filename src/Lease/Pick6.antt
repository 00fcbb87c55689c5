-- ===== src/Lease/Pick6.antt =====
-- The choice of an IPv6 network (get_ipv6_lease, src/ip-lease.c).
use ocserv.Prelude.{
  ℕ, zero, suc, ◌-◌, Bool, true, not, ◌&&◌, ◌||◌, Option, none, some, List, ◌++◌, Bytes, bytes_eq,
  ltb, ◌==◌, if◌then◌else◌, drop, replicate,
}
use ocserv.Address.{af_inet6, sockaddr_in6_size}
use ocserv.Table.{Htable}
use ocserv.Mask.{ipv6_prefix_to_mask}
use ocserv.Lease.Entry.{
  Lease, blank, Env, Ping, Code, ok, fault, err_mem, err_no_ip, max_ip_tries, fixed_ips, masked,
  ip_from_seed, ip_lease_exists, candidate,
}

-- The parts of the configurations that are read.
pub record Net6 : Type 0 where
  pub ipv6_net : Option Bytes
  pub ipv6_prefix : ℕ
  pub ipv6_subnet_prefix : ℕ
  pub vhost_ipv6 : Option Bytes
  pub vhost_prefix : ℕ
  pub vhost_subnet_prefix : ℕ
  pub explicit_ipv6 : Option Bytes

-- c_network, prefix and subnet_prefix
unfoldable pub chosen_net6 : Net6 → Option Bytes × ℕ × ℕ
chosen_net6 c = elim c.ipv6_net [
  | none ↦ (c.vhost_ipv6, c.vhost_prefix, c.vhost_subnet_prefix)
  | some n ↦
      if c.ipv6_subnet_prefix == 0
      then (c.vhost_ipv6, c.vhost_prefix, c.vhost_subnet_prefix)
      else (some n, c.ipv6_prefix, c.ipv6_subnet_prefix)
]

-- What gnutls_rnd leaves in sin6_addr of a zeroed sockaddr_in6: the sixteen bytes are written
-- from the place of sin_addr on, four bytes before that of sin6_addr.
abbrev pub shifted : Bytes → Bytes
shifted b = drop 4 b ++ replicate 4 0

-- The number from which the candidate of a round is made: rnd is zeroed before each round.
unfoldable pub draw6 : Env → Bytes → ℕ → Option Bytes
draw6 env seed left =
    if left == max_ip_tries
    then some (ip_from_seed env seed 16)
    else if ltb left (max_ip_tries - fixed_ips)
    then elim (env.rnd left) [ none ↦ none | some b ↦ some (shifted b) ]
    else some (ip_from_seed env (replicate 16 0) 16)

-- The fields that both parts fill in. `finish:` sets the prefix.
abbrev pub lease6 : Bytes → Bytes → Bytes → ℕ → Lease
lease6 network sig ip subnet_prefix = record blank {
  sig = sig;
  rip = ip;
  rip_len = sockaddr_in6_size;
  lip = network;
  prefix = subnet_prefix;
}

module _ (ht : Htable Lease) where
  -- is_ipv6_ok
  unfoldable pub is_ipv6_ok : List Lease → Bytes → Bytes → Bool
  is_ipv6_ok leases tun subnet =
      not (bytes_eq subnet tun) && not (ip_lease_exists ht leases subnet sockaddr_in6_size)

  unfoldable pub explicit6 : List Lease → Bytes → Bytes → ℕ → Bytes → Code × Option Lease
  explicit6 leases network subnet_mask subnet_prefix ip =
      let sig = masked ip subnet_mask in
      if not (is_ipv6_ok leases network sig)
      then (err_no_ip, none)
      else (ok, some (lease6 network sig ip subnet_prefix))

  -- The loop. The lease that it fills is zeroed, so `prefix` is the prefix before `finish:`.
  unfoldable pub pick6 :
      ℕ → Env → Ping → List Lease → Bytes → Bytes → Bytes → ℕ → Bytes → Code × Option Lease
  pick6 zero env ping leases network mask subnet_mask subnet_prefix seed = (err_no_ip, none)
  pick6 (suc n) env ping leases network mask subnet_mask subnet_prefix seed =
      elim (draw6 env seed (suc n)) [
        | none ↦ (err_no_ip, none)
        | some drawn ↦
            let ip = candidate network mask drawn in
            let sig = masked ip subnet_mask in
            let again = pick6 n env ping leases network mask subnet_mask subnet_prefix seed in
            if not (is_ipv6_ok leases network sig)
            then again
            else if not (blank.prefix == 128) || not (ping ip)
            then (ok, some (record (lease6 network sig ip subnet_prefix) { in_db = true }))
            else again
      ]

  unfoldable pub assign6 :
      Env
      → Ping
      → List Lease
      → Bytes
      → Bytes
      → Bytes
      → ℕ
      → Bytes
      → Option Bytes
      → Code × Option Lease
  assign6 env ping leases network mask subnet_mask subnet_prefix seed none =
      if not env.memory
      then (err_mem, none)
      else pick6 max_ip_tries env ping leases network mask subnet_mask subnet_prefix seed
  assign6 env ping leases network mask subnet_mask subnet_prefix seed (some text) =
      if not env.memory then (err_mem, none) else elim (env.inet.pton af_inet6 text) [
        | none ↦ (err_no_ip, none)
        | some ip ↦ explicit6 leases network subnet_mask subnet_prefix ip
      ]

  -- The part that reads the network and its prefixes.
  unfoldable pub read_net6 :
      Env → Ping → List Lease → Bytes → Option Bytes → Option Bytes → ℕ → ℕ → Code × Option Lease
  read_net6 env ping leases seed explicit none prefix subnet_prefix = (ok, none)
  read_net6 env ping leases seed explicit (some n) prefix subnet_prefix =
      if (prefix == 0) || (subnet_prefix == 0)
      then (ok, none)
      else elim (ipv6_prefix_to_mask prefix) [
        | none ↦ (fault, none)
        | some mask ↦ elim (ipv6_prefix_to_mask subnet_prefix) [
          | none ↦ (fault, none)
          | some subnet_mask ↦ elim (env.inet.pton af_inet6 n) [
            | none ↦ (fault, none)
            | some network ↦
                assign6 env ping leases (masked network mask) mask subnet_mask subnet_prefix seed
                  explicit
          ]
        ]
      ]

  -- get_ipv6_lease: the code, and proc->ipv6 after it.
  unfoldable pub get_ipv6_lease : Env → Ping → List Lease → Net6 → Bytes → Code × Option Lease
  get_ipv6_lease env ping leases c seed =
      read_net6 env ping leases seed c.explicit_ipv6 (chosen_net6 c).0 (chosen_net6 c).1
        (chosen_net6 c).2
