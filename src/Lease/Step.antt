-- ===== src/Lease/Step.antt =====
-- How the leases of the main process change (src/ip-lease.c, and its calls in src/main-auth.c,
-- src/main-proc.c and src/tun.c).
use mathlib.Core.List.{Permᴰ}
use ocserv.Prelude.{Bool, ◌≡◌, none, List, ◌∷◌}
use ocserv.Table.{Htable}
use ocserv.Lease.Entry.{Lease, Env, Ping}
use ocserv.Lease.Assign.{Proc, free_lease, remove_ip_leases, steal_ip_leases, get_ip_leases}

-- The table of leases and the clients, in any order.
pub record Server : Type 0 where
  pub leases : List Lease
  pub procs : List Proc

-- One event. A client picks up the leases of an earlier one before it has any of its own, which
-- is how handle_auth_cookie_req calls steal_ip_leases.
pub data Step (ht : Htable Lease) : Server → Server → Type 0 where
  join :
      (s : Server) (p : Proc)
      → p.ipv4 ≡ none
      → p.ipv6 ≡ none
      → Step ht s (record s { procs = p ∷ s.procs })
  give :
      (s : Server) (env4 env6 : Env) (ping4 ping6 : Ping) (p : Proc) (rest : List Proc)
      → Permᴰ s.procs (p ∷ rest)
      → Step ht s (record {
        leases = (get_ip_leases ht env4 env6 ping4 ping6 p s.leases).2;
        procs = (get_ip_leases ht env4 env6 ping4 ping6 p s.leases).1 ∷ rest;
      })
  steal :
      (s : Server) (memory4 memory6 : Bool) (p thief : Proc) (rest : List Proc)
      → Permᴰ s.procs (p ∷ thief ∷ rest)
      → thief.ipv4 ≡ none
      → thief.ipv6 ≡ none
      → Step ht s (record s {
        procs =
            (steal_ip_leases memory4 memory6 p thief).0
            ∷ (steal_ip_leases memory4 memory6 p thief).1
            ∷ rest;
      })
  -- the call of remove_ip_lease where a client gets no IPv6
  drop6 :
      (s : Server) (p : Proc) (rest : List Proc)
      → Permᴰ s.procs (p ∷ rest)
      → Step ht s
          (record { leases = free_lease p.ipv6 s.leases; procs = record p { ipv6 = none } ∷ rest })
  leave :
      (s : Server) (p : Proc) (rest : List Proc)
      → Permᴰ s.procs (p ∷ rest)
      → Step ht s (record { leases = (remove_ip_leases p s.leases).1; procs = rest })

-- A history of events.
pub data Reach (ht : Htable Lease) (s : Server) : Server → Type 0 where
  here : Reach ht s s
  next : {t u : Server} → Reach ht s t → Step ht t u → Reach ht s u
