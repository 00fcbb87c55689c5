-- ===== src/Lease/Unique.antt =====
-- No address is leased twice (src/ip-lease.c).
use mathlib.Core.List.{Permᴰ}
use ocserv.Prelude.{
  ℕ, ◌+◌, ◌≤◌, ◌≡◌, refl, ◌∙◌, ap, Bool, true, false, Option, none, some, List, [], ◌∷◌, arith,
  Bytes,
}
use ocserv.Table.{Htable, count, find-none_of_count}
use ocserv.Lease.Entry.{Lease, same_lease, ip_lease_exists}
use ocserv.Lease.Assign.{Proc, free_lease, copy_lease, remove_ip_leases, steal_ip_leases}
use ocserv.Lease.Step.{Server, Step, join, give, steal, drop6, leave, Reach, here, next}
use ocserv.Lease.Owners.{held, owns, total, total-perm, IsValid, count-free_lease}
use ocserv.Lease.Give.{IsOnce, get-Given}

copy_free :
    (memory keep : Bool) (o : Option Lease) (len : ℕ) (k : Bytes)
    → held len k (copy_lease memory keep o) ≡ 0
unfolding copy_lease
copy_free memory keep none len k = refl
copy_free memory keep (some l) len k = ground arith

module _ (s : Server) (i : IsValid s) (p : Proc) (rest : List Proc)
    (perm : Permᴰ s.procs (p ∷ rest)) where
  split_total :
      (len : ℕ) (k : Bytes) → count (same_lease len k) s.leases ≡ owns len k p + total len k rest
  unfolding total
  split_total len k = i.owned len k ∙ total-perm len k perm

  free6 :
      (len : ℕ) (k : Bytes)
      → count (same_lease len k) (free_lease p.ipv6 s.leases) + held len k p.ipv6
        ≡ count (same_lease len k) s.leases
  free6 len k =
      count-free_lease p.ipv6 s.leases i.once (λ n b. omega (arith, split_total n b)) len k

  free4 :
      (len : ℕ) (k : Bytes)
      → count (same_lease len k) (free_lease p.ipv4 s.leases) + held len k p.ipv4
        ≡ count (same_lease len k) s.leases
  free4 len k =
      count-free_lease p.ipv4 s.leases i.once (λ n b. omega (arith, split_total n b)) len k

  free_both :
      (len : ℕ) (k : Bytes)
      → count (same_lease len k) (remove_ip_leases p s.leases).1 ≡ total len k rest
  unfolding remove_ip_leases
  free_both len k =
      let t = free_lease p.ipv4 s.leases in
      let once : IsOnce t = λ n b. omega (arith, i.once n b, free4 n b) in
      let out =
        count-free_lease p.ipv6 t once (λ n b. omega (arith, split_total n b, free4 n b)) len k in
      omega (arith, split_total len k, free4 len k, out)

module _ (ht : Htable Lease) where
  Step-IsValid : {s u : Server} → Step ht s u → IsValid s → IsValid u
  unfolding total steal_ip_leases
  Step-IsValid (join s p no4 no6) i = record {
    once = i.once;
    owned = λ len k. omega (arith, i.owned len k, ap (held len k) no4, ap (held len k) no6);
  }
  Step-IsValid (give s env4 env6 ping4 ping6 p rest perm) i =
      let g = get-Given ht env4 env6 ping4 ping6 p s.leases i.once in
      record {
        once = g.once;
        owned = λ len k. omega (arith, g.grown len k, split_total s i p rest perm len k);
      }
  Step-IsValid (steal s memory4 memory6 p thief rest perm no4 no6) i = record {
    once = i.once;
    owned = λ len k. omega (
      arith,
      split_total s i p (thief ∷ rest) perm len k,
      ap (held len k) no4,
      ap (held len k) no6,
      copy_free memory4 false p.ipv4 len k,
      copy_free memory6 true p.ipv6 len k,
    );
  }
  Step-IsValid (drop6 s p rest perm) i = record {
    once = λ len k. omega (arith, i.once len k, free6 s i p rest perm len k);
    owned = λ len k. omega (arith, split_total s i p rest perm len k, free6 s i p rest perm len k);
  }
  Step-IsValid (leave s p rest perm) i = record {
    once = λ len k.
        omega
          (arith, i.once len k, split_total s i p rest perm len k, free_both s i p rest perm len k);
    owned = λ len k. free_both s i p rest perm len k;
  }

  Reach-IsValid : {s u : Server} → IsValid s → Reach ht s u → IsValid u
  Reach-IsValid i here = i
  Reach-IsValid i (next r st) = Step-IsValid st (Reach-IsValid i r)

  empty-IsValid : (s : Server) → s.leases ≡ [] → s.procs ≡ [] → IsValid s
  unfolding count total
  empty-IsValid s no_lease no_proc = record {
    once = λ len k. rw no_lease (omega arith);
    owned = λ len k. rw (no_lease, no_proc) refl;
  }

  -- Starting with no lease and no client, after any history of connections, assignments, moves of
  -- leases to a new connection and ends of connections: of two clients, at most one holds a lease
  -- of the table with a given signature (the IPv4 address, or the IPv6 network), and then it
  -- stands there once.
  pub Reach-unique :
      (s u : Server) (p q : Proc) (rest : List Proc) (len : ℕ) (k : Bytes)
      → s.leases ≡ []
      → s.procs ≡ []
      → Reach ht s u
      → Permᴰ u.procs (p ∷ q ∷ rest)
      → (owns len k p + owns len k q ≤ count (same_lease len k) u.leases)
        × (count (same_lease len k) u.leases ≤ 1)
  unfolding total
  Reach-unique s u p q rest len k no_lease no_proc r perm =
      let i = Reach-IsValid (empty-IsValid s no_lease no_proc) r in
      (omega (arith, split_total u i p (q ∷ rest) perm len k), i.once len k)

  -- After any such history, when a client leaves, none of the addresses that it held in the table
  -- stands there any more, so that others can get them.
  pub leave-free :
      (s u : Server) (p : Proc) (rest : List Proc) (len : ℕ) (k : Bytes)
      → s.leases ≡ []
      → s.procs ≡ []
      → Reach ht s u
      → Permᴰ u.procs (p ∷ rest)
      → 1 ≤ owns len k p
      → ip_lease_exists ht (remove_ip_leases p u.leases).1 k len ≡ false
  leave-free s u p rest len k no_lease no_proc r perm holds =
      let i = Reach-IsValid (empty-IsValid s no_lease no_proc) r in
      let t = (remove_ip_leases p u.leases).1 in
      let gone : count (same_lease len k) t ≡ 0 =
        omega (
          arith,
          i.once len k,
          split_total u i p rest perm len k,
          free_both u i p rest perm len k,
        ) in
      let missed : ht.get (same_lease len k) t ≡ none =
        ht.get-find (same_lease len k) t (omega (arith, gone))
        ∙ find-none_of_count (same_lease len k) t gone in
      rw (missed, ip_lease_exists) refl
