-- ===== src/Lease/Pick4.antt =====
-- The choice of an IPv4 address (get_ipv4_lease, src/ip-lease.c).
use Prim.Native.Nat.{bit_or}
use ocserv.Prelude.{
  ℕ, zero, suc, ◌-◌, Bool, true, not, ◌&&◌, ◌||◌, Option, none, some, List, [], ◌∷◌, Bytes,
  bytes_eq, ltb, ◌==◌, if◌then◌else◌,
}
use ocserv.Address.{af_inet, sockaddr_in_size}
use ocserv.Table.{Htable}
use ocserv.Lease.Entry.{
  Lease, blank, Env, Ping, Code, ok, fault, err_mem, err_no_ip, max_ip_tries, fixed_ips, masked,
  filled, ip_from_seed, ip_lease_exists, candidate,
}

-- The parts of the configurations that are read: those of the user or group, and those of the
-- virtual host.
pub record Net4 : Type 0 where
  pub ipv4_net : Option Bytes
  pub ipv4_netmask : Option Bytes
  pub vhost_ipv4 : Option Bytes
  pub vhost_netmask : Option Bytes
  pub explicit_ipv4 : Option Bytes

-- c_network and c_netmask
unfoldable pub chosen_net : Net4 → Option Bytes × Option Bytes
chosen_net c = elim c.ipv4_net [
  | none ↦ (c.vhost_ipv4, c.vhost_netmask)
  | some n ↦ elim c.ipv4_netmask [
    | none ↦ (c.vhost_ipv4, c.vhost_netmask)
    | some m ↦ (some n, some m)
  ]
]

-- is_ipv4_p2p_mask
abbrev pub is_ipv4_p2p_mask : Bytes → Bool
is_ipv4_p2p_mask mask = bytes_eq mask (255 ∷ 255 ∷ 255 ∷ 254 ∷ [])

-- SA_IN_U8_P(lip)[3] |= 1
unfoldable pub set_last : Bytes → Bytes
set_last (a ∷ b ∷ c ∷ d ∷ r) = a ∷ b ∷ c ∷ bit_or d 1 ∷ r
set_last r = r

-- The server's own address in the network.
abbrev pub local4 : Bytes → Bytes → Bytes
local4 network mask = if is_ipv4_p2p_mask mask then network else set_last network

-- The number from which the candidate of a round is made, with `left` tries left.
unfoldable pub draw4 : Env → Bytes → ℕ → Bytes → Option Bytes
draw4 env seed left last =
    if left == max_ip_tries
    then some seed
    else if ltb left (max_ip_tries - fixed_ips)
    then env.rnd left
    else some (ip_from_seed env last 4)

abbrev pub dynamic4 : Bytes → Bytes → Bytes → Lease
dynamic4 network mask ip = record blank {
  sig = ip;
  rip = ip;
  rip_len = sockaddr_in_size;
  lip = local4 network mask;
  in_db = true;
}

module _ (ht : Htable Lease) where
  -- is_ipv4_ok
  unfoldable pub is_ipv4_ok : List Lease → Bytes → Bytes → Bytes → Bool
  is_ipv4_ok leases ip net mask =
      not (ip_lease_exists ht leases ip sockaddr_in_size)
      && (is_ipv4_p2p_mask mask || (not (bytes_eq ip net) && not (bytes_eq ip (filled net mask))))

  -- The part for an explicit address, which is not kept in the table.
  unfoldable pub explicit4 : Env → List Lease → Bytes → Bytes → Bytes → Code × Option Lease
  explicit4 env leases network mask ip =
      if not env.memory
      then (err_mem, none)
      else if not (is_ipv4_ok leases ip network mask)
      then (err_no_ip, none)
      else if bytes_eq (local4 network mask) ip
      then (err_no_ip, none)
      else (
        ok,
        some (record blank {
          sig = ip;
          rip = ip;
          rip_len = sockaddr_in_size;
          lip = local4 network mask;
        }),
      )

  -- The loop: the first argument is max_loops, `last` is rnd before the round.
  unfoldable pub pick4 :
      ℕ → Env → Ping → List Lease → Bytes → Bytes → Bytes → Bytes → Code × Option Lease
  pick4 zero env ping leases network mask seed last = (err_no_ip, none)
  pick4 (suc n) env ping leases network mask seed last = elim (draw4 env seed (suc n) last) [
    | none ↦ (err_no_ip, none)
    | some drawn ↦
        let ip = candidate network mask drawn in
        let again = pick4 n env ping leases network mask seed ip in
        if not (is_ipv4_ok leases ip network mask)
        then again
        else if bytes_eq (local4 network mask) ip
        then again
        else if ping ip
        then again
        else (ok, some (dynamic4 network mask ip))
  ]

  -- The part past the reading of the network, which is masked.
  unfoldable pub assign4 :
      Env → Ping → List Lease → Bytes → Bytes → Bytes → Option Bytes → Code × Option Lease
  assign4 env ping leases network mask seed none =
      if not env.memory
      then (err_mem, none)
      else pick4 max_ip_tries env ping leases network mask seed (0 ∷ 0 ∷ 0 ∷ 0 ∷ [])
  assign4 env ping leases network mask seed (some text) = elim (env.inet.pton af_inet text) [
    | none ↦ (fault, none)
    | some ip ↦ explicit4 env leases network mask ip
  ]

  -- The part that reads the network.
  unfoldable pub read_net4 :
      Env
      → Ping
      → List Lease
      → Bytes
      → Option Bytes
      → Option Bytes
      → Option Bytes
      → Code × Option Lease
  read_net4 env ping leases seed explicit none m = (ok, none)
  read_net4 env ping leases seed explicit (some n) none = (ok, none)
  read_net4 env ping leases seed explicit (some n) (some m) = elim (env.inet.pton af_inet n) [
    | none ↦ (fault, none)
    | some network ↦ elim (env.inet.pton af_inet m) [
      | none ↦ (fault, none)
      | some mask ↦ assign4 env ping leases (masked network mask) mask seed explicit
    ]
  ]

  -- get_ipv4_lease: the code, and proc->ipv4 after it.
  unfoldable pub get_ipv4_lease : Env → Ping → List Lease → Net4 → Bytes → Code × Option Lease
  get_ipv4_lease env ping leases c seed =
      read_net4 env ping leases seed c.explicit_ipv4 (chosen_net c).0 (chosen_net c).1
