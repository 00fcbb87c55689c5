-- ===== src/Lease/Fresh.antt =====
-- A lease that is chosen for the table is not in it yet (src/ip-lease.c).
use ocserv.Prelude.{
  ℕ, zero, suc, ◌≡◌, refl, inl, inr, true, false, not, ◌&&◌, ◌||◌, Option, none, some, List, arith,
  Bytes, ◌==◌, bytes_eq, Bool-cases, Option-cases, if_both,
}
use ocserv.Address.{af_inet, af_inet6, sockaddr_in_size, sockaddr_in6_size}
use ocserv.Mask.{ipv6_prefix_to_mask}
use ocserv.Table.{Htable}
use ocserv.Lease.Entry.{
  Lease, Env, Ping, Code, ok, err_mem, err_no_ip, ip_lease_exists, max_ip_tries, masked, candidate,
}
use ocserv.Lease.Pick4.{
  Net4, chosen_net, is_ipv4_ok, explicit4, draw4, pick4, dynamic4, local4, assign4, read_net4,
  get_ipv4_lease,
}
use ocserv.Lease.Pick6.{
  Net6, chosen_net6, is_ipv6_ok, explicit6, draw6, pick6, lease6, assign6, read_net6,
  get_ipv6_lease,
}

module _ (ht : Htable Lease) (leases : List Lease) where
  -- Either there is no lease, or it is not registered yet, and not in the table if it is meant for it.
  abbrev pub IsFresh : Option Lease → Type 0
  IsFresh none = Unit
  IsFresh (some l) =
      (l.destructor ≡ false) × ((l.in_db && ip_lease_exists ht leases l.sig l.rip_len) ≡ false)

  abbrev Fresh : Code × Option Lease → Type 0
  Fresh r = IsFresh r.1

  ok4-IsFresh :
      (network mask ip : Bytes)
      → is_ipv4_ok ht leases ip network mask ≡ true
      → ip_lease_exists ht leases ip sockaddr_in_size ≡ false
  unfolding is_ipv4_ok
  ok4-IsFresh network mask ip h = ground arith

  ok6-IsFresh :
      (tun subnet : Bytes)
      → is_ipv6_ok ht leases tun subnet ≡ true
      → ip_lease_exists ht leases subnet sockaddr_in6_size ≡ false
  unfolding is_ipv6_ok
  ok6-IsFresh tun subnet h = ground arith

  module _ (env : Env) (ping : Ping) where
    explicit4-IsFresh : (network mask ip : Bytes) → Fresh (explicit4 ht env leases network mask ip)
    unfolding explicit4
    explicit4-IsFresh network mask ip =
        if_both Fresh (not env.memory) (err_mem, none) _ tt
          (if_both Fresh (not (is_ipv4_ok ht leases ip network mask)) (err_no_ip, none) _ tt
            (if_both Fresh (bytes_eq (local4 network mask) ip) (err_no_ip, none) _ tt (refl, refl)))

    pick4-IsFresh :
        (n : ℕ) (network mask seed last : Bytes)
        → Fresh (pick4 ht n env ping leases network mask seed last)
    unfolding pick4
    pick4-IsFresh zero network mask seed last = tt
    pick4-IsFresh (suc n) network mask seed last =
        elim (Option-cases (draw4 env seed (suc n) last)) [
          | inl nothing ↦ rw (nothing, pick4) tt
          | inr (drawn, got) ↦
              let ip = candidate network mask drawn in
              let again = pick4-IsFresh n network mask seed ip in
              elim (Bool-cases (is_ipv4_ok ht leases ip network mask)) [
                | inr taken ↦ rw (got, pick4, taken) again
                | inl free ↦
                    let absent = ok4-IsFresh network mask ip free in
                    rw (got, pick4, free)
                      (if_both Fresh (bytes_eq (local4 network mask) ip) _ _ again (
                        if_both Fresh (ping ip) _ (ok, some (dynamic4 network mask ip)) again
                          (refl, absent)))
              ]
        ]

    assign4-IsFresh :
        (network mask seed : Bytes) (explicit : Option Bytes)
        → Fresh (assign4 ht env ping leases network mask seed explicit)
    unfolding assign4
    assign4-IsFresh network mask seed none =
        if_both Fresh (not env.memory) (err_mem, none) _ tt
          (pick4-IsFresh max_ip_tries network mask seed _)
    assign4-IsFresh network mask seed (some text) =
        elim (Option-cases (env.inet.pton af_inet text)) [
          | inl wrong ↦ rw (wrong, assign4) tt
          | inr (ip, read) ↦ rw (read, assign4) (explicit4-IsFresh network mask ip)
        ]

    read_net4-IsFresh :
        (seed : Bytes) (explicit n m : Option Bytes)
        → Fresh (read_net4 ht env ping leases seed explicit n m)
    unfolding read_net4
    read_net4-IsFresh seed explicit none m = tt
    read_net4-IsFresh seed explicit (some n) none = tt
    read_net4-IsFresh seed explicit (some n) (some m) =
        elim (Option-cases (env.inet.pton af_inet n)) [
          | inl wrong ↦ rw (wrong, read_net4) tt
          | inr (network, read) ↦ elim (Option-cases (env.inet.pton af_inet m)) [
            | inl wrong ↦ rw (read, wrong, read_net4) tt
            | inr (mask, read') ↦
                rw (read, read', read_net4)
                  (assign4-IsFresh (masked network mask) mask seed explicit)
          ]
        ]

    pub get_ipv4_lease-IsFresh :
        (c : Net4) (seed : Bytes) → IsFresh (get_ipv4_lease ht env ping leases c seed).1
    unfolding get_ipv4_lease
    get_ipv4_lease-IsFresh c seed =
        read_net4-IsFresh seed c.explicit_ipv4 (chosen_net c).0 (chosen_net c).1

    explicit6-IsFresh :
        (network subnet_mask ip : Bytes) (subnet_prefix : ℕ)
        → Fresh (explicit6 ht leases network subnet_mask subnet_prefix ip)
    unfolding explicit6
    explicit6-IsFresh network subnet_mask ip subnet_prefix =
        if_both Fresh (not (is_ipv6_ok ht leases network (masked ip subnet_mask))) (err_no_ip, none)
          (ok, some (lease6 network (masked ip subnet_mask) ip subnet_prefix)) tt (refl, refl)

    pick6-IsFresh :
        (n : ℕ) (network mask subnet_mask : Bytes) (subnet_prefix : ℕ) (seed : Bytes)
        → Fresh (pick6 ht n env ping leases network mask subnet_mask subnet_prefix seed)
    unfolding pick6
    pick6-IsFresh zero network mask subnet_mask subnet_prefix seed = tt
    pick6-IsFresh (suc n) network mask subnet_mask subnet_prefix seed =
        elim (Option-cases (draw6 env seed (suc n))) [
          | inl nothing ↦ rw (nothing, pick6) tt
          | inr (drawn, got) ↦
              let sig = masked (candidate network mask drawn) subnet_mask in
              let again = pick6-IsFresh n network mask subnet_mask subnet_prefix seed in
              elim (Bool-cases (is_ipv6_ok ht leases network sig)) [
                | inr taken ↦ rw (got, pick6, taken) again
                | inl free ↦ rw (got, pick6, free) (refl, ok6-IsFresh network sig free)
              ]
        ]

    assign6-IsFresh :
        (network mask subnet_mask : Bytes) (subnet_prefix : ℕ) (seed : Bytes)
        (explicit : Option Bytes)
        → Fresh (assign6 ht env ping leases network mask subnet_mask subnet_prefix seed explicit)
    unfolding assign6
    assign6-IsFresh network mask subnet_mask subnet_prefix seed none =
        if_both Fresh (not env.memory) (err_mem, none) _ tt
          (pick6-IsFresh max_ip_tries network mask subnet_mask subnet_prefix seed)
    assign6-IsFresh network mask subnet_mask subnet_prefix seed (some text) =
        if_both Fresh (not env.memory) (err_mem, none) _ tt
          (elim (Option-cases (env.inet.pton af_inet6 text)) [
            | inl wrong ↦ rw wrong tt
            | inr (ip, read) ↦ rw read (explicit6-IsFresh network subnet_mask ip subnet_prefix)
          ])

    read_net6-IsFresh :
        (seed : Bytes) (explicit n : Option Bytes) (prefix subnet_prefix : ℕ)
        → Fresh (read_net6 ht env ping leases seed explicit n prefix subnet_prefix)
    unfolding read_net6
    read_net6-IsFresh seed explicit none prefix subnet_prefix = tt
    read_net6-IsFresh seed explicit (some n) prefix subnet_prefix =
        if_both Fresh ((prefix == 0) || (subnet_prefix == 0)) (ok, none) _ tt
          (elim (Option-cases (ipv6_prefix_to_mask prefix)) [
            | inl wrong ↦ rw wrong tt
            | inr (mask, made) ↦ elim (Option-cases (ipv6_prefix_to_mask subnet_prefix)) [
              | inl wrong ↦ rw (made, wrong) tt
              | inr (subnet_mask, made') ↦ elim (Option-cases (env.inet.pton af_inet6 n)) [
                | inl wrong ↦ rw (made, made', wrong) tt
                | inr (network, read) ↦
                    rw (made, made', read)
                      (assign6-IsFresh (masked network mask) mask subnet_mask subnet_prefix seed
                        explicit)
              ]
            ]
          ])

    pub get_ipv6_lease-IsFresh :
        (c : Net6) (seed : Bytes) → IsFresh (get_ipv6_lease ht env ping leases c seed).1
    unfolding get_ipv6_lease
    get_ipv6_lease-IsFresh c seed =
        read_net6-IsFresh seed c.explicit_ipv6 (chosen_net6 c).0 (chosen_net6 c).1 (chosen_net6 c).2
