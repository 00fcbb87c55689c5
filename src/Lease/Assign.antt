-- ===== src/Lease/Assign.antt =====
-- Giving, moving and removing the leases of a client (src/ip-lease.c).
use ocserv.Prelude.{Bool, true, false, not, ◌&&◌, Option, none, some, List, Bytes, if◌then◌else◌}
use ocserv.Table.{Htable, sweep}
use ocserv.Lease.Entry.{Lease, same_lease, blank, Env, Ping, Code, ok, fault}
use ocserv.Lease.Pick4.{Net4, get_ipv4_lease}
use ocserv.Lease.Pick6.{Net6, get_ipv6_lease}

-- The parts of proc_st that are read.
pub record Proc : Type 0 where
  pub ipv4 : Option Lease
  pub ipv6 : Option Lease
  pub net4 : Net4
  pub net6 : Net6
  pub ipv4_seed : Bytes

-- talloc_free of a lease: unref_ip_lease takes it out of the table.
unfoldable pub free_lease : Option Lease → List Lease → List Lease
free_lease none leases = leases
free_lease (some l) leases =
    if l.destructor && l.in_db then sweep (same_lease l.rip_len l.sig) leases else leases

-- remove_ip_leases
unfoldable pub remove_ip_leases : Proc → List Lease → Proc × List Lease
remove_ip_leases p leases =
    (record p { ipv4 = none; ipv6 = none }, free_lease p.ipv6 (free_lease p.ipv4 leases))

-- The copy that the old client keeps for its scripts; there is one if there is memory.
unfoldable pub copy_lease : Bool → Bool → Option Lease → Option Lease
copy_lease memory keep_prefix none = none
copy_lease memory keep_prefix (some l) =
    if not memory
    then none
    else some (record blank {
      sig = l.sig;
      rip = l.rip;
      rip_len = l.rip_len;
      lip = l.lip;
      prefix = if keep_prefix then l.prefix else 0;
    })

-- steal_ip_leases: the old client and the new one after it. `memory4` and `memory6` say whether
-- there is memory for the two copies.
unfoldable pub steal_ip_leases : Bool → Bool → Proc → Proc → Proc × Proc
steal_ip_leases memory4 memory6 p thief = (
  record p { ipv4 = copy_lease memory4 false p.ipv4; ipv6 = copy_lease memory6 true p.ipv6 },
  record thief { ipv4 = p.ipv4; ipv6 = p.ipv6 },
)

-- The answer of htable_add to get_ip_leases.
unfoldable pub registered :
    Lease → List Lease → Option (List Lease) → Bool × Option Lease × List Lease
registered l leases none = (false, some l, leases)
registered l leases (some t) = (true, some (record l { destructor = true }), t)

module _ (ht : Htable Lease) where
  -- What get_ip_leases does with a lease that was chosen: whether it goes on, the lease as it
  -- leaves it, and the table.
  unfoldable pub register : Code × Option Lease → List Lease → Bool × Option Lease × List Lease
  register (ok, none) leases = (true, none, leases)
  register (ok, some l) leases =
      if l.in_db then registered l leases (ht.add l leases) else (true, some l, leases)
  register (fault, l) leases = (false, l, leases)
  register (Code.err_mem, l) leases = (false, l, leases)
  register (Code.err_no_ip, l) leases = (false, l, leases)

  -- The IPv4 part of get_ip_leases, for a client with or without a lease.
  unfoldable pub missing4 : Env → Ping → Proc → List Lease → Option Lease → Bool × Proc × List Lease
  missing4 env ping p leases (some l) = (true, p, leases)
  missing4 env ping p leases none =
      let r = register (get_ipv4_lease ht env ping leases p.net4 p.ipv4_seed) leases in
      (r.0, record p { ipv4 = r.1 }, r.2)

  abbrev pub give4 : Env → Ping → Proc → List Lease → Bool × Proc × List Lease
  give4 env ping p leases = missing4 env ping p leases p.ipv4

  -- The IPv6 part.
  unfoldable pub missing6 : Env → Ping → Proc → List Lease → Option Lease → Bool × Proc × List Lease
  missing6 env ping p leases (some l) = (true, p, leases)
  missing6 env ping p leases none =
      let r = register (get_ipv6_lease ht env ping leases p.net6 p.ipv4_seed) leases in
      (r.0, record p { ipv6 = r.1 }, r.2)

  abbrev pub give6 : Env → Ping → Proc → List Lease → Bool × Proc × List Lease
  give6 env ping p leases = missing6 env ping p leases p.ipv6

  abbrev pub has_lease : Proc → Bool
  has_lease p = elim p.ipv4 [ some l ↦ true | none ↦ elim p.ipv6 [ some l ↦ true | none ↦ false ] ]

  -- get_ip_leases: true stands for 0. `env4` and `env6` are the answers to the two calls.
  unfoldable pub get_ip_leases :
      Env → Env → Ping → Ping → Proc → List Lease → Bool × Proc × List Lease
  get_ip_leases env4 env6 ping4 ping6 p leases =
      let (going, p₁, t₁) = give4 env4 ping4 p leases in
      if not going
      then (false, p₁, t₁)
      else (let (going', p₂, t₂) = give6 env6 ping6 p₁ t₁ in
          if not going' then (false, p₂, t₂) else (has_lease p₂, p₂, t₂))
