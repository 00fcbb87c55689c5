-- ===== src/Lease/Give.antt =====
-- What get_ip_leases adds to the table is what its client then holds (src/ip-lease.c).
use ocserv.Prelude.{
  ℕ, ◌+◌, ◌≤◌, ◌≡◌, refl, sym, ◌∙◌, ap, inl, inr, Bool, true, false, not, Option, none, some, List,
  arith, Bytes, bytes_eq_sound, Bool-cases, Option-cases, if_both, if_split, Option-split,
}
use ocserv.Table.{Htable, count, count-perm, count-zero_of_find}
use ocserv.Lease.Entry.{
  Lease, same_lease, Env, Ping, Code, ok, fault, err_mem, err_no_ip, ip_lease_exists,
}
use ocserv.Lease.Pick4.{get_ipv4_lease}
use ocserv.Lease.Pick6.{get_ipv6_lease}
use ocserv.Lease.Assign.{
  missing4, missing6, Proc, register, registered, give4, give6, get_ip_leases,
}
use ocserv.Lease.Owners.{held, owns}
use ocserv.Lease.Fresh.{IsFresh, get_ipv4_lease-IsFresh, get_ipv6_lease-IsFresh}

-- No key stands twice in a table.
abbrev pub IsOnce : List Lease → Type 0
IsOnce t = (len : ℕ) (k : Bytes) → count (same_lease len k) t ≤ 1

module _ (ht : Htable Lease) where
  not_there :
      (t : List Lease) (ip : Bytes) (len : ℕ)
      → IsOnce t
      → ip_lease_exists ht t ip len ≡ false
      → count (same_lease len ip) t ≡ 0
  not_there t ip len once h = elim (Option-cases (ht.get (same_lease len ip) t)) [
    | inl nothing ↦
        count-zero_of_find (same_lease len ip) t
          (sym (ht.get-find (same_lease len ip) t (once len ip)) ∙ nothing)
    | inr (l, got) ↦ absurd (ground arith)
  ]

  -- The table after the registration of `o` as `o'`.
  record Registered (t : List Lease) (o' : Option Lease) (t' : List Lease) : Type 0 where
    once : IsOnce t'
    grown :
        (len : ℕ) (k : Bytes)
        → count (same_lease len k) t' ≡ count (same_lease len k) t + held len k o'

  kept_out : (t : List Lease) (o : Option Lease) → IsOnce t → IsFresh ht t o → Registered t o t
  kept_out t none once fresh = record { once = once; grown = λ len k. omega arith }
  kept_out t (some l) once fresh = record { once = once; grown = λ len k. ground (arith, fresh.0) }

  added :
      (l : Lease) (t u : List Lease)
      → IsOnce t
      → IsFresh ht t (some l)
      → l.in_db ≡ true
      → ht.add l t ≡ some u
      → Registered t (some (record l { destructor = true })) u
  unfolding count
  added l t u once fresh meant done =
      let absent = not_there t l.sig l.rip_len once (ground (arith, fresh.1)) in
      let counted =
        λ (len : ℕ) (k : Bytes). count-perm (same_lease len k) (ht.add-perm l t u done) in
      record {
        once = λ len k. elim (Bool-cases (same_lease len k l)) [
          | inr other ↦ ground (arith, counted len k, once len k)
          | inl mine ↦
              let length : l.rip_len ≡ len = ground arith in
              let bytes : l.sig ≡ k = bytes_eq_sound l.sig k (ground arith) in
              let gone : count (same_lease len k) t ≡ 0 =
                ap (λ n. count (same_lease n k) t) (sym length)
                ∙ ap (λ b. count (same_lease l.rip_len b) t) (sym bytes)
                ∙ absent in
              ground (arith, counted len k, gone)
        ];
        grown = λ len k. ground (arith, counted len k);
      }

  register-Registered :
      (c : Code) (o : Option Lease) (t : List Lease)
      → IsOnce t
      → IsFresh ht t o
      → Registered t (register ht (c, o) t).1 (register ht (c, o) t).2
  unfolding register registered
  register-Registered ok none t once fresh = kept_out t none once fresh
  register-Registered ok (some l) t once fresh =
      if_split (λ r. Registered t r.1 r.2) l.in_db (registered l t (ht.add l t)) (true, some l, t)
        (λ meant.
          Option-split (λ o. Registered t (registered l t o).1 (registered l t o).2) (ht.add l t)
            (λ full. kept_out t (some l) once fresh) (λ u done. added l t u once fresh meant done))
        (λ loose. kept_out t (some l) once fresh)
  register-Registered fault o t once fresh = kept_out t o once fresh
  register-Registered err_mem o t once fresh = kept_out t o once fresh
  register-Registered err_no_ip o t once fresh = kept_out t o once fresh

  -- What a client holds more than before is what the table has more than before.
  pub record Given (p : Proc) (t : List Lease) (p' : Proc) (t' : List Lease) : Type 0 where
    pub once : IsOnce t'
    pub grown :
        (len : ℕ) (k : Bytes)
        → count (same_lease len k) t' + owns len k p ≡ count (same_lease len k) t + owns len k p'

  module _ (env : Env) (ping : Ping) (p : Proc) (t : List Lease) (once : IsOnce t) where
    give4-Given : Given p t (give4 ht env ping p t).1 (give4 ht env ping p t).2
    unfolding missing4
    give4-Given =
        Option-split (λ o. Given p t (missing4 ht env ping p t o).1 (missing4 ht env ping p t o).2)
          p.ipv4
          (λ nothing.
            let chosen = get_ipv4_lease ht env ping t p.net4 p.ipv4_seed in
            let fresh = get_ipv4_lease-IsFresh ht t env ping p.net4 p.ipv4_seed in
            let r = register-Registered chosen.0 chosen.1 t once fresh in
            record {
              once = r.once;
              grown = λ len k. omega (arith, r.grown len k, ap (held len k) nothing);
            })
          (λ l there. record { once = once; grown = λ len k. refl })

    give6-Given : Given p t (give6 ht env ping p t).1 (give6 ht env ping p t).2
    unfolding missing6
    give6-Given =
        Option-split (λ o. Given p t (missing6 ht env ping p t o).1 (missing6 ht env ping p t o).2)
          p.ipv6
          (λ nothing.
            let chosen = get_ipv6_lease ht env ping t p.net6 p.ipv4_seed in
            let fresh = get_ipv6_lease-IsFresh ht t env ping p.net6 p.ipv4_seed in
            let r = register-Registered chosen.0 chosen.1 t once fresh in
            record {
              once = r.once;
              grown = λ len k. omega (arith, r.grown len k, ap (held len k) nothing);
            })
          (λ l there. record { once = once; grown = λ len k. refl })

  -- get_ip_leases, on every path.
  pub get-Given :
      (env4 env6 : Env) (ping4 ping6 : Ping) (p : Proc) (t : List Lease)
      → IsOnce t
      → Given p t
          (get_ip_leases ht env4 env6 ping4 ping6 p t).1
          (get_ip_leases ht env4 env6 ping4 ping6 p t).2
  unfolding get_ip_leases
  get-Given env4 env6 ping4 ping6 p t once =
      let r₁ = give4 ht env4 ping4 p t in
      let r₂ = give6 ht env6 ping6 r₁.1 r₁.2 in
      let g₁ = give4-Given env4 ping4 p t once in
      let g₂ = give6-Given env6 ping6 r₁.1 r₁.2 g₁.once in
      let both : Given p t r₂.1 r₂.2 = record {
        once = g₂.once;
        grown = λ len k. omega (arith, g₁.grown len k, g₂.grown len k);
      } in
      let Result = λ (r : Bool × Proc × List Lease). Given p t r.1 r.2 in
      if_both Result (not r₁.0) (false, r₁.1, r₁.2) _ g₁
        (if_both Result (not r₂.0) (false, r₂.1, r₂.2) _ both both)
