-- ===== src/Main/Step.antt =====
-- What happens to the clients of the main process, one event at a time (src/main.c,
-- src/main-worker-cmd.c).
use ocserv.Prelude.{
  ℕ, Bool, true, false, not, ◌&&◌, Option, none, some, List, [], ◌∷◌, Bytes, ◌==◌, if◌then◌else◌,
}
use ocserv.SecMod.Entry.{completed, status_eq}
use ocserv.Lease.Assign
use ocserv.Main.Index.{Index}
use ocserv.Main.Proc.{Sockaddr, Proc, Server, kill, put}
use ocserv.Main.Search.{
  proc_table_update_ip, proc_table_update_dtls_ip, proc_search_dtls_id, proc_search_single_ip,
}
use ocserv.Main.Auth.{Env, CookieReq, auth_cookie_req, handle_script_exit}
use ocserv.Main.Clients.{blank_proc, new_proc, remove_proc}

-- What the main process hears of.
pub data Message : Type 0 where
  -- a connection, with the pointer that talloc_zero gives and the process of the worker
  connected : Option ℕ → ℕ → ℕ → Sockaddr → ℕ → Assign.Proc → Sockaddr → Message
  -- AUTH_COOKIE_REQ
  cookie : ℕ → Env → CookieReq → Message
  -- CMD_SESSION_INFO behind a proxy: the new address, and whether it is banned
  session_info : ℕ → Sockaddr → ℕ → Bool → Message
  -- a datagram with an identifier for DTLS: what is tested of the configuration and the time,
  -- whether it is passed on, and the time
  datagram : Bytes → Sockaddr → ℕ → Bool → Bool → ℕ → Message
  -- a datagram without one
  stray : Sockaddr → ℕ → Bool → Bool → ℕ → Message
  -- the end of the script for connecting, and whether it ended well
  script_ended : ℕ → Env → Bool → Message
  -- the worker ends, or the server ends it
  gone : ℕ → Bool → Bool → Option Bool → Message

module _ (hash_any : Bytes → ℕ) (ix : Index) where
  -- cmd_watcher_cb: a client whose command fails is removed.
  unfoldable pub watched : ℕ → Bool × Server ix → Server ix
  watched p (fine, s) =
      if fine
      then s
      else elim (s.procs p) [ none ↦ s | some q ↦ remove_proc ix hash_any true false none p q s ]

  -- The case CMD_SESSION_INFO of handle_worker_commands, for an address that fits.
  unfoldable pub update_address : ℕ → Sockaddr → ℕ → Bool → Proc → Server ix → Server ix
  update_address p addr size banned q s =
      let s' = (proc_table_update_ip hash_any ix p q addr size s).1 in
      if not banned then s' else elim (s'.procs p) [
        | none ↦ s'
        | some r ↦ elim r.pid [
          | none ↦ s'
          | some pid ↦ if pid == 0 then s' else record s' {
            procs = put p (some (record r { pid_killed = true })) s'.procs;
            events = kill pid ∷ s'.events;
          }
        ]
      ]

  -- The end of forward_udp_to_owner.
  unfoldable pub passed_on : Bool → ℕ → ℕ → Server ix → Server ix
  passed_on sent now p s = elim (s.procs p) [
    | none ↦ s
    | some q ↦
        if sent
        then record s { procs = put p (some (record q { udp_fd_receive_time = now })) s.procs }
        else s
  ]

  -- forward_udp_to_owner, for the client that was found, and the address that it sets.
  unfoldable pub forward_udp_to :
      Option ℕ → Option (Sockaddr × ℕ) → Bool → Bool → ℕ → Server ix → Server ix
  forward_udp_to none new_addr tests sent now s = s
  forward_udp_to (some p) new_addr tests sent now s = elim (s.procs p) [
    | none ↦ s
    | some q ↦
        if not (status_eq q.status completed && tests)
        then s
        else passed_on sent now p (elim new_addr [
          | none ↦ s
          | some a ↦ (proc_table_update_dtls_ip hash_any ix p q a.0 a.1 s).1
        ])
  ]

  -- A step for a client that is there.
  abbrev pub of_client : ℕ → (Proc → Server ix) → Server ix → Server ix
  of_client p f s = elim (s.procs p) [ none ↦ s | some q ↦ f q ]

  -- A connection at a pointer that is not in use.
  unfoldable pub connect_at : Option ℕ → Proc → Server ix → Server ix
  connect_at none q s = new_proc ix none q s
  connect_at (some p) q s = elim (s.procs p) [ none ↦ new_proc ix (some p) q s | some r ↦ s ]

  -- One message; `instances` is the number of security modules.
  unfoldable pub step : ℕ → Message → Server ix → Server ix
  step instances (connected p pid now addr len lease zero_addr) s =
      connect_at p (blank_proc pid now addr len lease zero_addr) s
  step instances (cookie p v req) s =
      of_client p (λ q. watched p (auth_cookie_req hash_any ix instances v req p q s)) s
  step instances (session_info p addr size banned) s =
      of_client p (λ q. update_address p addr size banned q s) s
  step instances (datagram id addr size tests sent now) s =
      forward_udp_to (proc_search_dtls_id hash_any ix id s) (some (addr, size)) tests sent now s
  step instances (stray addr size tests sent now) s =
      forward_udp_to (proc_search_single_ip hash_any ix addr size s) none tests sent now s
  step instances (script_ended p v succeeded) s =
      of_client p
        (λ q.
          let (fine, q') = handle_script_exit hash_any ix v succeeded q in
          watched p (fine, record s { procs = put p (some q') s.procs }))
        s
  step instances (gone p kills quit script) s =
      of_client p (λ q. remove_proc ix hash_any kills quit script p q s) s

  unfoldable pub run : ℕ → List Message → Server ix → Server ix
  run instances [] s = s
  run instances (m ∷ ms) s = run instances ms (step instances m s)

  -- proc_table_init, and a list without clients
  abbrev pub start : Server ix
  start = record {
    procs = λ p. none;
    proc_list = [];
    active_clients = 0;
    db_ip = ix.empty;
    db_dtls_ip = ix.empty;
    db_dtls_id = ix.empty;
    db_sid = ix.empty;
    total = 0;
    leases = [];
    events = [];
  }
