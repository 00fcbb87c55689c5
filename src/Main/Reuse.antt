-- ===== src/Main/Reuse.antt =====
-- A session that is taken over by another connection (handle_auth_cookie_req, src/main-auth.c).
use mathlib.Core.Path.{subst}
use ocserv.Prelude.{
  ℕ, ◌≡◌, refl, sym, ap, ◌∙◌, inl, inr, Bool, true, false, not, none, ◌∷◌, some, Bytes, ◌==◌,
  if◌then◌else◌, arith, Bool-cases, Option-cases, bytes_eq, bytes_eq_sound,
}
use ocserv.SecMod.Entry.{strlcpy}
use ocserv.Main.Index.{Index}
use ocserv.Main.Proc.{Proc, Server, put, kill}
use ocserv.Main.Search.{proc_table_add, proc_search_sid}
use ocserv.Main.Auth.{
  Env, CookieReq, session_open, kill_old, reuse, is_invalidated, set_session,
  handle_auth_cookie_req, max_hostname_size,
}
use ocserv.Lease.Assign.{steal_ip_leases}
use ocserv.Main.Valid.{put_here}

true_is_false : false ≡ true → ⊥
true_is_false e = cc

module _ (hash : Bytes → ℕ) (ix : Index) where
  proc_table_add_procs :
      (p : ℕ) (q : Proc) (s : Server ix) → (proc_table_add hash ix p q s).1.procs ≡ s.procs
  unfolding proc_table_add
  proc_table_add_procs p q s = ground arith

  proc_table_add_events :
      (p : ℕ) (q : Proc) (s : Server ix) → (proc_table_add hash ix p q s).1.events ≡ s.events
  unfolding proc_table_add
  proc_table_add_events p q s = ground arith

  -- What a request that succeeds went through.
  handle_passes :
      (v : Env) (req : CookieReq) (p : ℕ) (q : Proc) (s : Server ix)
      → (handle_auth_cookie_req hash ix v req p q s).0 ≡ true
      → (id : Bytes) × (is_invalidated hash ix (proc_search_sid hash ix req.cookie s) s ≡ false)
        × (handle_auth_cookie_req hash ix v req p q s
            ≡ set_session hash ix req p (
                reuse hash ix v
                  (proc_search_sid hash ix req.cookie s)
                  (session_open v (record q { dtls_session_id = id })).1
                  s))
  unfolding handle_auth_cookie_req
  handle_passes v req p q s h = elim (Option-cases v.rnd) [
    | inl no_bytes ↦ absurd (ground arith)
    | inr (id, drawn) ↦ (id, ground arith, ground arith)
  ]

  -- The client after the end of such a request, and the others.
  record TakenOver (req : CookieReq) (p : ℕ) (r : Proc) (s t : Server ix) : Type 0 where
    client : Proc
    there : t.procs p ≡ some client
    same_user : client.username ≡ r.username
    same_lease : client.lease ≡ r.lease
    cookie_sid : client.sid ≡ req.cookie
    events : t.events ≡ s.events
    others : (x : ℕ) → (x == p) ≡ false → t.procs x ≡ s.procs x

  set_passes :
      (req : CookieReq) (p : ℕ) (fine : Bool) (r : Proc) (s : Server ix)
      → (set_session hash ix req p (fine, r, s)).0 ≡ true
      → (fine ≡ true) × TakenOver req p r s (set_session hash ix req p (fine, r, s)).1
  unfolding set_session
  set_passes req p false r s h = absurd cc
  set_passes req p true r s h =
      let r' : Proc = record r {
        sid = req.cookie;
        active_sid = true;
        hostname = elim req.hostname [ none ↦ r.hostname | some n ↦ strlcpy max_hostname_size n ];
      } in
      let s' : Server ix = record s { procs = put p (some r') s.procs } in
      let e = proc_table_add_procs p r' s' in
      (
        refl,
        record {
          client = r';
          there = ap (λ f. f p) e ∙ put_here p (some r') s.procs;
          same_user = refl;
          same_lease = refl;
          cookie_sid = refl;
          events = proc_table_add_events p r' s';
          others = λ x apart. ap (λ f. f x) e ∙ ap (λ b. if b then some r' else s.procs x) apart;
        },
      )

  -- The client whose session is taken over, if it had a process: a signal to that process is what
  -- leaves the server, and the client is marked.
  abbrev pub IsEnded : Proc → Proc → Server ix → Server ix → Type 0
  IsEnded old o s t =
      (pid : ℕ)
      → old.pid ≡ some pid
      → (pid == 0) ≡ false
      → (o.pid_killed ≡ true) × (t.events ≡ kill pid ∷ s.events)

  kill_old-IsEnded :
      (old : Proc) (s : Server ix) → IsEnded old (kill_old old s).0 s (kill_old old s).1
  unfolding kill_old
  kill_old-IsEnded old s pid has some_pid = ground arith

  -- What reuse does for the client, where it goes on.
  abbrev Moved : ℕ → Proc → Server ix → Bool × Proc × Server ix → Type 0
  Moved p' old s a =
      (a.1.username ≡ old.username)
      × (a.1.lease.ipv4 ≡ old.lease.ipv4)
      × (a.1.lease.ipv6 ≡ old.lease.ipv6)
      × (o : Proc) × (a.2.procs p' ≡ some o)
      × IsEnded old o s a.2

  reuse_passes :
      (v : Env) (p' : ℕ) (r old : Proc) (s : Server ix)
      → s.procs p' ≡ some old
      → (reuse hash ix v (some p') r s).0 ≡ true
      → Moved p' old s (reuse hash ix v (some p') r s)
  unfolding reuse steal_ip_leases
  reuse_passes v p' r old s there h =
      let took : Proc = record r {
        lease = (steal_ip_leases v.memory4 v.memory6 old.lease r.lease).1;
      } in
      let robbed : Proc = record old {
        lease = (steal_ip_leases v.memory4 v.memory6 old.lease r.lease).0;
      } in
      let (o, s') = kill_old robbed s in
      let after : Bool × Proc × Server ix =
        (true, took, record s' { procs = put p' (some o) s'.procs }) in
      let choose : Bool → Bool × Proc × Server ix = λ b. if not b then (false, r, s) else after in
      let unfolded : reuse hash ix v (some p') r s ≡ choose (bytes_eq r.username old.username) =
        rw (there, reuse) refl in
      elim (Bool-cases (bytes_eq r.username old.username)) [
        | inl same ↦ subst (Moved p' old s) (sym (unfolded ∙ ap choose same)) (
          bytes_eq_sound r.username old.username same,
          refl,
          refl,
          o,
          put_here p' (some o) s'.procs,
          kill_old-IsEnded robbed s,
        )
        | inr other ↦ absurd (true_is_false (sym (ap (λ a. a.0) (unfolded ∙ ap choose other)) ∙ h))
      ]

  -- A request that succeeds where another client holds the session takes it over: the session was
  -- not invalidated, its user is the same, the new client has the identifier and the leases of the
  -- old one, and the process of the old one, if it has one, is sent SIGTERM.
  pub handle-IsEnded :
      (v : Env) (req : CookieReq) (p p' : ℕ) (q old : Proc) (s : Server ix)
      → proc_search_sid hash ix req.cookie s ≡ some p'
      → s.procs p' ≡ some old
      → (p' == p) ≡ false
      → (handle_auth_cookie_req hash ix v req p q s).0 ≡ true
      → (old.invalidated ≡ false)
        × (r : Proc) × (o : Proc) × ((handle_auth_cookie_req hash ix v req p q s).1.procs p
            ≡ some r)
        × (r.sid ≡ req.cookie)
        × (r.username ≡ old.username)
        × (r.lease.ipv4 ≡ old.lease.ipv4)
        × (r.lease.ipv6 ≡ old.lease.ipv6)
        × ((handle_auth_cookie_req hash ix v req p q s).1.procs p' ≡ some o)
        × IsEnded old o s (handle_auth_cookie_req hash ix v req p q s).1
  unfolding is_invalidated
  handle-IsEnded v req p p' q old s found there apart h =
      let (id, sound, whole) = handle_passes v req p q s h in
      let r = (session_open v (record q { dtls_session_id = id })).1 in
      let a = reuse hash ix v (some p') r s in
      let e : handle_auth_cookie_req hash ix v req p q s
          ≡ set_session hash ix req p (a.0, a.1, a.2) =
        whole ∙ ap (λ o. set_session hash ix req p (reuse hash ix v o r s)) found in
      let (fine, t) = set_passes req p a.0 a.1 a.2 (sym (ap (λ x. x.0) e) ∙ h) in
      let (user, four, six, o, here, ended) = reuse_passes v p' r old s there fine in
      (
        sym (ap (λ x. elim x [ none ↦ false | some k ↦ k.invalidated ]) there)
            ∙ sym (ap (λ x. is_invalidated hash ix x s) found)
            ∙ sound,
        t.client,
        o,
        ap (λ x. x.1.procs p) e ∙ t.there,
        t.cookie_sid,
        t.same_user ∙ user,
        ap (λ x. x.ipv4) t.same_lease ∙ four,
        ap (λ x. x.ipv6) t.same_lease ∙ six,
        ap (λ x. x.1.procs p') e ∙ t.others p' apart ∙ here,
        λ pid has some_pid.
            let signal = ended pid has some_pid in
            (signal.0, ap (λ x. x.1.events) e ∙ t.events ∙ signal.1),
      )
