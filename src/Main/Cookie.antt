-- ===== src/Main/Cookie.antt =====
-- A request for a session keeps the tables valid (src/main-auth.c, src/main-worker-cmd.c).
use ocserv.Prelude.{
  ℕ, ◌+◌, ◌%◌, ◌^◌, ◌≡◌, refl, ap, ◌∙◌, Bool, true, false, not, Option, none, some, List, ◌∷◌,
  Bytes, ◌==◌, if◌then◌else◌, arith, Option-split, if_split, bytes_eq,
}
use ocserv.SecMod.Entry.{strlcpy}
use ocserv.Main.Index.{Index}
use ocserv.Main.Proc.{Proc, Server, Event, kill, put}
use ocserv.Main.Search.{
  rehash_ip, rehash_dtls_ip, rehash_dtls_id, rehash_sid, erase, proc_table_add,
}
use ocserv.Main.Auth.{
  Env, CookieReq, read_reply, session_open, kill_old, reuse, set_session, max_hostname_size,
}
use ocserv.Lease.Assign
use ocserv.Lease.Assign.{steal_ip_leases}
use ocserv.Main.Sound.{IsSound, IsAbsent, add-IsSound, erase-IsSound}
use ocserv.Main.Valid.{tabled, pending, IsValid, put_here, put-IsValid, absent-IsValid}

module _ (hash : Bytes → ℕ) (ix : Index) where
  -- The tables are valid, but for the client that asks, which is still there.
  abbrev pub Asked : ℕ → Server ix → Type 0
  Asked p s = IsValid hash ix (pending p) s × (r : Proc) × (s.procs p ≡ some r)

  -- Nor is the client in one of three tables.
  pub record IsReady (p : ℕ) (q r : Proc) (s : Server ix) : Type 0 where
    pub valid : IsValid hash ix (pending p) s
    pub here : s.procs p ≡ some q
    pub no_ip : IsAbsent ix (rehash_ip hash) tabled p s.db_ip
    pub no_id : IsAbsent ix (rehash_dtls_id hash) tabled p s.db_dtls_id
    pub no_sid : IsAbsent ix (rehash_sid hash) tabled p s.db_sid
    pub same_addr : r.dtls_remote_addr ≡ q.dtls_remote_addr
    pub same_len : r.dtls_remote_addr_len ≡ q.dtls_remote_addr_len

  same_key :
      (q r : Proc)
      → r.dtls_remote_addr ≡ q.dtls_remote_addr
      → r.dtls_remote_addr_len ≡ q.dtls_remote_addr_len
      → rehash_dtls_ip hash r ≡ rehash_dtls_ip hash q
  same_key q r a n = cc

  pub with_events :
      (held : ℕ → Proc → Bool) (s : Server ix) (events : List Event)
      → IsValid hash ix held s
      → IsValid hash ix held (record s { events = events })
  with_events held s events v = record {
    listed = v.listed;
    clients = v.clients;
    ip = v.ip;
    dtls_ip = v.dtls_ip;
    dtls_id = v.dtls_id;
    sid = v.sid;
  }

  pub ready_put :
      (p : ℕ) (q r : Proc) (s : Server ix)
      → IsReady p q r s
      → Asked p (record s { procs = put p (some r) s.procs })
  ready_put p q r s i = (
    absent-IsValid hash ix (pending p) s p q r i.valid i.here (same_key q r i.same_addr i.same_len)
        i.same_len i.no_ip i.no_id i.no_sid,
    r,
    put_here p (some r) s.procs,
  )

  added-IsSound :
      (key : Proc → ℕ) (t u : ix.Filed) (s : Server ix) (p : ℕ) (r : Proc)
      → IsSound ix key (pending p) t (put p (some r) s.procs)
      → IsAbsent ix key tabled p t
      → ix.add (key r) p t ≡ some u
      → IsSound ix key (pending p) u (put p (some r) s.procs)
  added-IsSound key t u s p r sound away added =
      add-IsSound ix key (pending p) t u (put p (some r) s.procs) p r sound away
        (put_here p (some r) s.procs) (ground arith) added

  add-Asked :
      (p : ℕ) (q r : Proc) (s : Server ix)
      → IsReady p q r s
      → Asked p (proc_table_add hash ix p r (record s { procs = put p (some r) s.procs })).1
  unfolding proc_table_add
  add-Asked p q r s i =
      let (v, x, there) = ready_put p q r s i in
      let procs = put p (some r) s.procs in
      let P : Bool × Server ix → Type 0 = λ a. Asked p a.1 in
      let make : (n : ℕ) (ip id sid : ix.Filed)
          → IsSound ix (rehash_ip hash) (pending p) ip procs
          → IsSound ix (rehash_dtls_id hash) (pending p) id procs
          → IsSound ix (rehash_sid hash) (pending p) sid procs
          → Asked p
              (record s { procs = procs; db_ip = ip; db_dtls_id = id; db_sid = sid; total = n }) =
        λ n ip id sid a b c. (
          record {
            listed = v.listed;
            clients = v.clients;
            ip = a;
            dtls_ip = v.dtls_ip;
            dtls_id = b;
            sid = c;
          },
          r,
          put_here p (some r) s.procs,
        ) in
      let s' : Server ix = record s { procs = procs } in
      let n = (s.total + 1) % 2 ^ 32 in
      let at_sid : ix.Filed → ix.Filed → Option ix.Filed → Bool × Server ix = λ ip id o.
        elim o as (λ x. Bool × Server ix) [
          | none ↦ (
            false,
            record s' {
              db_ip = erase hash ix (rehash_ip hash r) p ip;
              db_dtls_id = erase hash ix (rehash_dtls_id hash r) p id;
            },
          )
          | some sid ↦ (true, record s' { db_ip = ip; db_dtls_id = id; db_sid = sid; total = n })
        ] in
      let at_id : ix.Filed → Option ix.Filed → Bool × Server ix = λ ip o.
        elim o as (λ x. Bool × Server ix) [
          | none ↦ (false, record s' { db_ip = erase hash ix (rehash_ip hash r) p ip })
          | some id ↦ at_sid ip id (ix.add (rehash_sid hash r) p s.db_sid)
        ] in
      Option-split
        (λ o. P (elim o as (λ x. Bool × Server ix) [
          | none ↦ (false, s')
          | some ip ↦ at_id ip (ix.add (rehash_dtls_id hash r) p s.db_dtls_id)
        ]))
        (ix.add (rehash_ip hash r) p s.db_ip) (λ full. (v, r, put_here p (some r) s.procs))
        (λ ip got_ip.
          let ip_sound = added-IsSound (rehash_ip hash) s.db_ip ip s p r v.ip i.no_ip got_ip in
          let ip_erased =
            erase-IsSound ix (rehash_ip hash) (pending p) ip procs p (rehash_ip hash r) ip_sound in
          Option-split (λ o. P (at_id ip o)) (ix.add (rehash_dtls_id hash r) p s.db_dtls_id)
            (λ full.
              make s.total (erase hash ix (rehash_ip hash r) p ip) s.db_dtls_id s.db_sid ip_erased
                v.dtls_id v.sid)
            (λ id got_id.
              let id_sound =
                added-IsSound (rehash_dtls_id hash) s.db_dtls_id id s p r v.dtls_id i.no_id
                  got_id in
              Option-split (λ o. P (at_sid ip id o)) (ix.add (rehash_sid hash r) p s.db_sid)
                (λ full.
                  make s.total (erase hash ix (rehash_ip hash r) p ip)
                    (erase hash ix (rehash_dtls_id hash r) p id) s.db_sid ip_erased
                    (erase-IsSound ix (rehash_dtls_id hash) (pending p) id procs p
                      (rehash_dtls_id hash r) id_sound)
                    v.sid)
                (λ sid got_sid.
                  make n ip id sid ip_sound id_sound
                    (added-IsSound (rehash_sid hash) s.db_sid sid s p r v.sid i.no_sid got_sid))))

  pub session_open_keeps :
      (v : Env) (q : Proc)
      → ((session_open v q).1.dtls_remote_addr ≡ q.dtls_remote_addr)
        × ((session_open v q).1.dtls_remote_addr_len ≡ q.dtls_remote_addr_len)
  unfolding session_open read_reply
  session_open_keeps v q = ground arith

  -- The old client gets other leases, and may be killed.
  changed-IsReady :
      (p p' : ℕ) (q r old : Proc) (s : Server ix) (left : Assign.Proc) (killed : Bool)
      (events : List Event)
      → IsReady p q r s
      → s.procs p' ≡ some old
      → (p == p') ≡ false
      → IsReady p q r (record s {
        procs = put p' (some (record old { lease = left; pid_killed = killed })) s.procs;
        events = events;
      })
  changed-IsReady p p' q r old s left killed events i there apart =
      let old' : Proc = record old { lease = left; pid_killed = killed } in
      record {
        valid =
            put-IsValid hash ix (pending p) (record s { events = events }) p' old old'
              (with_events (pending p) s events i.valid) there
              (record {
                same_ip = refl;
                same_dtls = refl;
                same_id = refl;
                same_sid = refl;
                same_len = refl;
              })
              (λ h. h);
        here = ap (λ b. if b then some old' else s.procs p) apart ∙ i.here;
        no_ip = i.no_ip;
        no_id = i.no_id;
        no_sid = i.no_sid;
        same_addr = i.same_addr;
        same_len = i.same_len;
      }

  kill_old-IsReady :
      (p p' : ℕ) (q r old : Proc) (s : Server ix) (left : Assign.Proc)
      → IsReady p q r s
      → s.procs p' ≡ some old
      → (p == p') ≡ false
      → IsReady p q r (record (kill_old (record old { lease = left }) s).1 {
        procs =
            put p'
              (some (kill_old (record old { lease = left }) s).0)
              (kill_old (record old { lease = left }) s).1.procs;
      })
  unfolding kill_old
  kill_old-IsReady p p' q r old s left i there apart =
      let P : Proc × Server ix → Type 0 =
        λ a. IsReady p q r (record a.1 { procs = put p' (some a.0) a.1.procs }) in
      let o : Proc = record old { lease = left } in
      let spared : P (o, s) =
        changed-IsReady p p' q r old s left old.pid_killed s.events i there apart in
      Option-split
        (λ x. P (elim x as (λ y. Proc × Server ix) [
          | none ↦ (o, s)
          | some pid ↦
              if pid == 0
              then (o, s)
              else (record o { pid_killed = true }, record s { events = kill pid ∷ s.events })
        ]))
        old.pid (λ none_there. spared)
        (λ pid has.
          if_split P (pid == 0) _ _ (λ zero_pid. spared)
            (λ some_pid.
              changed-IsReady p p' q r old s left true (kill pid ∷ s.events) i there apart))

  pub reuse-IsReady :
      (v : Env) (o : Option ℕ) (p : ℕ) (q r : Proc) (s : Server ix)
      → IsReady p q r s
      → ((p' : ℕ) → o ≡ some p' → (p == p') ≡ false)
      → IsReady p q (reuse hash ix v o r s).1 (reuse hash ix v o r s).2
  unfolding reuse
  reuse-IsReady v none p q r s i apart = i
  reuse-IsReady v (some p') p q r s i apart =
      let P : Bool × Proc × Server ix → Type 0 = λ a. IsReady p q a.1 a.2 in
      let took : Proc → Proc =
        λ old. record r { lease = (steal_ip_leases v.memory4 v.memory6 old.lease r.lease).1 } in
      let left : Proc → Proc × Server ix = λ old.
        kill_old (record old { lease = (steal_ip_leases v.memory4 v.memory6 old.lease r.lease).0 })
          s in
      let after : Proc → Bool × Proc × Server ix = λ old. (
        true,
        took old,
        record (left old).1 { procs = put p' (some (left old).0) (left old).1.procs },
      ) in
      Option-split
        (λ x. P (elim x as (λ y. Bool × Proc × Server ix) [
          | none ↦ (true, r, s)
          | some old ↦ if not (bytes_eq r.username old.username) then (false, r, s) else after old
        ]))
        (s.procs p') (λ nobody. i)
        (λ old there.
          if_split P (not (bytes_eq r.username old.username)) _ (after old) (λ other. i)
            (λ same.
              let k =
                kill_old-IsReady p p' q r old s
                  (steal_ip_leases v.memory4 v.memory6 old.lease r.lease).0 i there
                  (apart p' refl) in
              record {
                valid = k.valid;
                here = k.here;
                no_ip = k.no_ip;
                no_id = k.no_id;
                no_sid = k.no_sid;
                same_addr = k.same_addr;
                same_len = k.same_len;
              }))

  pub set_session-Asked :
      (req : CookieReq) (p : ℕ) (q r : Proc) (fine : Bool) (s : Server ix)
      → IsReady p q r s
      → Asked p (set_session hash ix req p (fine, r, s)).1
  unfolding set_session
  set_session-Asked req p q r fine s i =
      let r' : Proc = record r {
        sid = req.cookie;
        active_sid = true;
        hostname = elim req.hostname [ none ↦ r.hostname | some h ↦ strlcpy max_hostname_size h ];
      } in
      let i' : IsReady p q r' s = record {
        valid = i.valid;
        here = i.here;
        no_ip = i.no_ip;
        no_id = i.no_id;
        no_sid = i.no_sid;
        same_addr = i.same_addr;
        same_len = i.same_len;
      } in
      if_split (λ (a : Bool × Server ix). Asked p a.1) (not fine) _ _ (λ bad. ready_put p q r s i)
        (λ good. add-Asked p q r' s i')
