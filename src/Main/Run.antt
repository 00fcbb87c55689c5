-- ===== src/Main/Run.antt =====
-- Every history keeps the list and the tables of clients valid (src/main.c, src/main-proc.c,
-- src/proc-search.c).
use ocserv.Prelude.{
  ℕ, ◌≡◌, refl, Bool, true, false, not, ◌&&◌, Option, none, some, List, [], ◌∷◌, Bytes, ◌==◌,
  if◌then◌else◌, Option-split, if_both,
}
use ocserv.Table.{count}
use ocserv.SecMod.Entry.{Status, completed, status_eq}
use ocserv.Main.Index.{Index}
use ocserv.Main.Proc.{Sockaddr, Proc, Server, kill, put}
use ocserv.Main.Search.{rehash_ip, rehash_dtls_ip, rehash_dtls_id, rehash_sid}
use ocserv.Main.Auth.{Env, handle_script_exit, auth_cookie_req}
use ocserv.Main.Sound.{empty-IsSound}
use ocserv.Main.Valid.{tabled, on_dtls, IsValid, SameKeys, put-IsValid}
use ocserv.Main.Search.{
  proc_search_dtls_id, proc_search_single_ip, proc_table_update_ip, proc_table_update_dtls_ip,
}
use ocserv.Main.Clients.{blank_proc, new_proc, remove_proc}
use ocserv.Main.Step.{
  Message, connected, cookie, session_info, datagram, stray, script_ended, gone, watched,
  update_address, passed_on, forward_udp_to, connect_at, step, run, start,
}
use ocserv.Main.Cookie.{with_events}
use ocserv.Main.Kept.{new_proc-IsValid, remove_proc-IsValid}
use ocserv.Main.Moved.{update_ip-IsValid, update_dtls_ip-IsValid}
use ocserv.Main.Request.{auth_cookie_req-IsValid}

module _ (hash : Bytes → ℕ) (ix : Index) where
  abbrev pub Valid : Server ix → Type 0
  Valid s = IsValid hash ix tabled s

  -- A step for a client that is there keeps what each of its cases keeps.
  client-Valid :
      (s t : Server ix) (p : ℕ) (f : Proc → Server ix)
      → Valid s
      → Valid t
      → ((q : Proc) → s.procs p ≡ some q → Valid (f q))
      → Valid (elim (s.procs p) [ none ↦ t | some q ↦ f q ])
  client-Valid s t p f v w each =
      Option-split (λ o. Valid (elim o [ none ↦ t | some q ↦ f q ])) (s.procs p) (λ nobody. w) each

  watched-Valid :
      (p : ℕ) (fine : Bool) (s : Server ix) → Valid s → Valid (watched hash ix p (fine, s))
  unfolding watched
  watched-Valid p true s v = v
  watched-Valid p false s v =
      client-Valid s s p (λ q. remove_proc ix hash true false none p q s) v v
        (λ q here. remove_proc-IsValid hash ix true false none s p q v here)

  passed_on-Valid :
      (sent : Bool) (now p : ℕ) (s : Server ix) → Valid s → Valid (passed_on hash ix sent now p s)
  unfolding passed_on
  passed_on-Valid sent now p s v =
      client-Valid s s p
        (λ q.
          if sent
          then record s { procs = put p (some (record q { udp_fd_receive_time = now })) s.procs }
          else s)
        v v
        (λ q here.
          if_both Valid sent _ _
            (put-IsValid hash ix tabled s p q (record q { udp_fd_receive_time = now }) v here
              (record {
                same_ip = refl;
                same_dtls = refl;
                same_id = refl;
                same_sid = refl;
                same_len = refl;
              })
              (λ h. h))
            v)

  forward-Valid :
      (o : Option ℕ) (a : Option (Sockaddr × ℕ)) (tests sent : Bool) (now : ℕ) (s : Server ix)
      → Valid s
      → Valid (forward_udp_to hash ix o a tests sent now s)
  unfolding forward_udp_to
  forward-Valid none a tests sent now s v = v
  forward-Valid (some p) a tests sent now s v =
      let moved : Proc → Option (Sockaddr × ℕ) → Server ix = λ q a. elim a as (λ x. Server ix) [
        | none ↦ s
        | some b ↦ (proc_table_update_dtls_ip hash ix p q b.0 b.1 s).1
      ] in
      client-Valid s s p
        (λ q.
          if not (status_eq q.status completed && tests)
          then s
          else passed_on hash ix sent now p (moved q a))
        v v
        (λ q here. if_both Valid (not (status_eq q.status completed && tests)) _ _ v (
          passed_on-Valid sent now p (moved q a) (
            Option-split (λ o. Valid (moved q o)) a (λ same. v)
              (λ b to. update_dtls_ip-IsValid hash ix s p q b.0 b.1 v here))))

  address-Valid :
      (p : ℕ) (addr : Sockaddr) (size : ℕ) (banned : Bool) (q : Proc) (s : Server ix)
      → Valid s
      → s.procs p ≡ some q
      → Valid (update_address hash ix p addr size banned q s)
  unfolding update_address
  address-Valid p addr size banned q s v here =
      let s' = (proc_table_update_ip hash ix p q addr size s).1 in
      let w : Valid s' = update_ip-IsValid hash ix s p q addr size v here in
      let dead : Proc → ℕ → Server ix = λ r pid. if pid == 0 then s' else record s' {
        procs = put p (some (record r { pid_killed = true })) s'.procs;
        events = kill pid ∷ s'.events;
      } in
      let ends : Proc → Option ℕ → Server ix =
        λ r o. elim o as (λ x. Server ix) [ none ↦ s' | some pid ↦ dead r pid ] in
      if_both Valid (not banned) _ _ w (
        client-Valid s' s' p (λ r. ends r r.pid) w w
          (λ r there.
            Option-split (λ o. Valid (ends r o)) r.pid (λ no_process. w)
              (λ pid has. if_both Valid (pid == 0) _ _ w (
                put-IsValid hash ix tabled (record s' { events = kill pid ∷ s'.events }) p r
                  (record r { pid_killed = true })
                  (with_events hash ix tabled s' (kill pid ∷ s'.events) w) there
                  (record {
                    same_ip = refl;
                    same_dtls = refl;
                    same_id = refl;
                    same_sid = refl;
                    same_len = refl;
                  })
                  (λ h. h)))))

  script-Valid :
      (v : Env) (succeeded : Bool) (p : ℕ) (q : Proc) (s : Server ix)
      → Valid s
      → s.procs p ≡ some q
      → Valid
          (record s { procs = put p (some (handle_script_exit hash ix v succeeded q).1) s.procs })
  unfolding handle_script_exit status_eq
  script-Valid v succeeded p q s valid here =
      let P : Bool × Proc → Type 0 = λ a. Valid (record s { procs = put p (some a.1) s.procs }) in
      let keys : (st : Status) → SameKeys hash ix q (record q { status = st }) = λ st. record {
        same_ip = refl;
        same_dtls = refl;
        same_id = refl;
        same_sid = refl;
        same_len = refl;
      } in
      let same : P (false, q) =
        put-IsValid hash ix tabled s p q q valid here (keys q.status) (λ h. h) in
      if_both P (not v.sent) _ _ same (
        if_both P (not succeeded) _ _ same (
          if_both P (not v.routes) _ _ same (
            put-IsValid hash ix tabled s p q (record q { status = completed }) valid here
              (keys completed) (λ h. refl))))

  connect-Valid :
      (o : Option ℕ) (q : Proc) (s : Server ix) → Valid s → Valid (connect_at hash ix o q s)
  unfolding connect_at new_proc
  connect-Valid none q s v = v
  connect-Valid (some p) q s v =
      Option-split (λ o. Valid (elim o [ none ↦ new_proc ix (some p) q s | some r ↦ s ]))
        (s.procs p) (λ free. new_proc-IsValid hash ix s p q v free) (λ r taken. v)

  step-Valid :
      (instances : ℕ) (m : Message) (s : Server ix) → Valid s → Valid (step hash ix instances m s)
  unfolding step
  step-Valid instances (connected o pid now addr len lease zero_addr) s v =
      connect-Valid o (blank_proc pid now addr len lease zero_addr) s v
  step-Valid instances (cookie p e req) s v =
      client-Valid s s p (λ q. watched hash ix p (auth_cookie_req hash ix instances e req p q s)) v
        v
        (λ q here.
          watched-Valid p (auth_cookie_req hash ix instances e req p q s).0
            (auth_cookie_req hash ix instances e req p q s).1
            (auth_cookie_req-IsValid hash ix instances e req s p q v here))
  step-Valid instances (session_info p addr size banned) s v =
      client-Valid s s p (λ q. update_address hash ix p addr size banned q s) v v
        (λ q here. address-Valid p addr size banned q s v here)
  step-Valid instances (datagram id addr size tests sent now) s v =
      forward-Valid (proc_search_dtls_id hash ix id s) (some (addr, size)) tests sent now s v
  step-Valid instances (stray addr size tests sent now) s v =
      forward-Valid (proc_search_single_ip hash ix addr size s) none tests sent now s v
  step-Valid instances (script_ended p e succeeded) s v =
      client-Valid s s p
        (λ q. watched hash ix p (
          (handle_script_exit hash ix e succeeded q).0,
          record s { procs = put p (some (handle_script_exit hash ix e succeeded q).1) s.procs },
        ))
        v v
        (λ q here.
          watched-Valid p (handle_script_exit hash ix e succeeded q).0
            (record s { procs = put p (some (handle_script_exit hash ix e succeeded q).1) s.procs })
            (script-Valid e succeeded p q s v here))
  step-Valid instances (gone p kills quit script) s v =
      client-Valid s s p (λ q. remove_proc ix hash kills quit script p q s) v v
        (λ q here. remove_proc-IsValid hash ix kills quit script s p q v here)

  start-Valid : Valid (start hash ix)
  unfolding count
  start-Valid = record {
    listed = λ p. refl;
    clients = refl;
    ip = empty-IsSound ix (rehash_ip hash) tabled (λ p. none);
    dtls_ip = empty-IsSound ix (rehash_dtls_ip hash) on_dtls (λ p. none);
    dtls_id = empty-IsSound ix (rehash_dtls_id hash) tabled (λ p. none);
    sid = empty-IsSound ix (rehash_sid hash) tabled (λ p. none);
  }

  run_from :
      (instances : ℕ) (ms : List Message) (s : Server ix)
      → Valid s
      → Valid (run hash ix instances ms s)
  unfolding run
  run_from instances [] s v = v
  run_from instances (m ∷ ms) s v =
      run_from instances ms (step hash ix instances m s) (step-Valid instances m s v)

  -- After every history of connections, requests, new addresses, datagrams, scripts and ends of
  -- clients, each client stands in the list once, active_clients is their number, and each of the
  -- four tables holds pointers to clients only, each under the present key of its client, and once.
  pub run-Valid :
      (instances : ℕ) (ms : List Message)
      → IsValid hash ix tabled (run hash ix instances ms (start hash ix))
  run-Valid instances ms = run_from instances ms (start hash ix) start-Valid
