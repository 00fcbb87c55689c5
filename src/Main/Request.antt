-- ===== src/Main/Request.antt =====
-- The whole request for a session keeps the tables valid (src/main-auth.c,
-- src/main-worker-cmd.c).
use mathlib.Core.Path.{subst}
use ocserv.Prelude.{
  ℕ, ◌≡◌, refl, sym, ap, inl, inr, ◌⊎◌, Bool, true, false, not, ◌||◌, Option, none, some, Bytes,
  ◌==◌, if◌then◌else◌, ltb, arith, length, Bool-cases, Option-split, if_split, bytes_eq,
}
use ocserv.SecMod.Entry.{
  sid_size, Status, inactive, failed, completed, status_eq, instance_index_get,
}
use ocserv.Main.Index.{Index}
use ocserv.Main.Proc.{Proc, Server, put}
use ocserv.Main.Search.{rehash_ip, rehash_dtls_id, rehash_sid, at, proc_search_sid}
use ocserv.Main.Auth.{
  Env, CookieReq, Script, no_script, wait_for_script, script_error, session_open, reuse,
  is_invalidated, set_session, handle_auth_cookie_req, handle_script_exit, set_status, finish,
  accept_user, handle_cookie_auth_res, auth_cookie_req,
}
use ocserv.Main.Sound.{same_number, IsAbsent, unheld-IsAbsent}
use ocserv.Main.Valid.{tabled, pending, IsValid, settle-IsValid, pending-IsValid}
use ocserv.Main.Cookie.{
  Asked, IsReady, ready_put, reuse-IsReady, set_session-Asked, session_open_keeps,
}

module _ (hash : Bytes → ℕ) (ix : Index) where
  -- A client that did not ask yet is in none of three tables.
  ready :
      (s : Server ix) (p : ℕ) (q r : Proc)
      → IsValid hash ix tabled s
      → s.procs p ≡ some q
      → status_eq q.status inactive ≡ true
      → r.dtls_remote_addr ≡ q.dtls_remote_addr
      → r.dtls_remote_addr_len ≡ q.dtls_remote_addr_len
      → IsReady hash ix p q r s
  ready s p q r v here idle addr len =
      let out : (s.procs p ≡ none) ⊎ (s.procs p ≡ some q) × (tabled p q ≡ false) =
        inr (here, ap not idle) in
      record {
        valid = pending-IsValid hash ix s p v;
        here = here;
        no_ip = unheld-IsAbsent ix (rehash_ip hash) tabled s.db_ip s.procs p q v.ip out;
        no_id =
            unheld-IsAbsent ix (rehash_dtls_id hash) tabled s.db_dtls_id s.procs p q v.dtls_id out;
        no_sid = unheld-IsAbsent ix (rehash_sid hash) tabled s.db_sid s.procs p q v.sid out;
        same_addr = addr;
        same_len = len;
      }

  -- The client that is found is another.
  other_found :
      (s : Server ix) (p p' : ℕ) (sid : Bytes)
      → IsAbsent ix (rehash_sid hash) tabled p s.db_sid
      → proc_search_sid hash ix sid s ≡ some p'
      → (p == p') ≡ false
  unfolding proc_search_sid
  other_found s p p' sid away found = elim (Bool-cases (p == p')) [
    | inl same ↦
        (let hit =
            (ix.get-some (hash sid) (at hash ix s.procs (λ q. bytes_eq q.sid sid)) s.db_sid p'
              found).1 in
          absurd (
            omega (
              arith,
              hit,
              away (hash sid),
              ap (λ x. ix.filed (hash sid) x s.db_sid) (same_number p p' same),
            )))
    | inr other ↦ other
  ]

  handle-Asked :
      (v : Env) (req : CookieReq) (s : Server ix) (p : ℕ) (q : Proc)
      → IsValid hash ix tabled s
      → s.procs p ≡ some q
      → status_eq q.status inactive ≡ true
      → Asked hash ix p (handle_auth_cookie_req hash ix v req p q s).1
  unfolding handle_auth_cookie_req
  handle-Asked v req s p q valid here idle =
      let P : Bool × Server ix → Type 0 = λ a. Asked hash ix p a.1 in
      let untouched : Asked hash ix p s = (pending-IsValid hash ix s p valid, q, here) in
      let old = proc_search_sid hash ix req.cookie s in
      let asks : Bytes → Proc = λ id. record q { dtls_session_id = id } in
      let answer : Bytes → Bool × Server ix = λ id.
        if is_invalidated hash ix old s
        then (false, record s { procs = put p (some (asks id)) s.procs })
        else if not (session_open v (asks id)).0
        then (false, record s { procs = put p (some (session_open v (asks id)).1) s.procs })
        else set_session hash ix req p (reuse hash ix v old (session_open v (asks id)).1 s) in
      if_split P (not (length req.cookie == sid_size)) _ _ (λ malformed. untouched)
        (λ fits.
          Option-split
            (λ o. P (elim o as (λ x. Bool × Server ix) [ none ↦ (false, s) | some id ↦ answer id ]))
            v.rnd (λ none_there. untouched)
            (λ id drawn.
              let keeps = session_open_keeps hash ix v (asks id) in
              let q₂ = (session_open v (asks id)).1 in
              let i = ready s p q q₂ valid here idle keeps.0 keeps.1 in
              if_split P (is_invalidated hash ix old s) _ _
                (λ bad.
                  ready_put hash ix p q (asks id) s
                    (ready s p q (asks id) valid here idle refl refl))
                (λ good.
                  if_split P (not (session_open v (asks id)).0) _ _
                    (λ shut. ready_put hash ix p q q₂ s i)
                    (λ opened.
                      set_session-Asked hash ix req p q (reuse hash ix v old q₂ s).1
                        (reuse hash ix v old q₂ s).0 (reuse hash ix v old q₂ s).2
                        (reuse-IsReady hash ix v old p q q₂ s i
                          (λ p' found. other_found s p p' req.cookie i.no_sid found))))))

  -- The client that finish leaves has the same keys, and a status that shows that it asked.
  exit_status :
      (v : Env) (succeeded : Bool) (r : Proc)
      → (status_eq r.status inactive ≡ false)
      → (st : Status) × ((if (handle_script_exit hash ix v succeeded r).0
            then (handle_script_exit hash ix v succeeded r).1
            else record (handle_script_exit hash ix v succeeded r).1 { status = failed })
          ≡ record r { status = st })
        × (status_eq st inactive ≡ false)
  unfolding handle_script_exit status_eq
  exit_status v succeeded r asked =
      let P : Bool × Proc → Type 0 = λ a.
        (st : Status) × ((if a.0 then a.1 else record a.1 { status = failed })
          ≡ record r { status = st })
        × (status_eq st inactive ≡ false) in
      if_split P (not v.sent) _ _ (λ lost. (failed, refl, refl))
        (λ sent.
          if_split P (not succeeded) _ _ (λ bad. (r.status, refl, asked))
            (λ good.
              if_split P (not v.routes) _ _ (λ no_routes. (failed, refl, refl))
                (λ set. (completed, refl, refl))))

  -- The client that asked gets a status.
  status-IsValid :
      (s : Server ix) (p : ℕ) (r : Proc) (st : Status)
      → IsValid hash ix (pending p) s
      → s.procs p ≡ some r
      → status_eq st inactive ≡ false
      → IsValid hash ix tabled
          (record s { procs = put p (some (record r { status = st })) s.procs })
  status-IsValid s p r st v there asked =
      settle-IsValid hash ix s p r (record r { status = st }) v there
        (record {
          same_ip = refl;
          same_dtls = refl;
          same_id = refl;
          same_sid = refl;
          same_len = refl;
        })
        (ap not asked)

  finish-IsValid :
      (v : Env) (succeeded : Bool) (s : Server ix) (p : ℕ) (st : Status)
      → Asked hash ix p s
      → status_eq st inactive ≡ false
      → IsValid hash ix tabled (finish hash ix v succeeded p st s).1
  unfolding finish
  finish-IsValid v succeeded s p st (valid, r, there) asked =
      let q : Proc → Proc = λ r. record r { status = st } in
      let e : Proc → Bool × Proc = λ r. handle_script_exit hash ix v succeeded (q r) in
      let after : Option Proc → Bool × Server ix = λ o. elim o as (λ x. Bool × Server ix) [
        | none ↦ (false, s)
        | some r ↦ (
          (e r).0,
          record s {
            procs =
                put p (some (if (e r).0 then (e r).1 else record (e r).1 { status = failed }))
                  s.procs;
          },
        )
      ] in
      let (last, same, shown) = exit_status v succeeded (q r) asked in
      subst (λ o. IsValid hash ix tabled (after o).1) (sym there)
        (subst (λ x. IsValid hash ix tabled (record s { procs = put p (some x) s.procs }))
          (sym same) (status-IsValid s p r last valid there shown))

  set_status-IsValid :
      (s : Server ix) (p : ℕ) (st : Status)
      → Asked hash ix p s
      → status_eq st inactive ≡ false
      → IsValid hash ix tabled (set_status hash ix p st s)
  set_status-IsValid s p st (valid, r, there) asked =
      let after : Option Proc → Server ix = λ o. elim o as (λ x. Server ix) [
        | none ↦ s
        | some q ↦ record s { procs = put p (some (record q { status = st })) s.procs }
      ] in
      subst (λ o. IsValid hash ix tabled (after o)) (sym there)
        (status-IsValid s p r st valid there asked)

  auth_res-IsValid :
      (v : Env) (result : Bool) (s : Server ix) (p : ℕ)
      → Asked hash ix p s
      → IsValid hash ix tabled (handle_cookie_auth_res hash ix v p (result, s)).1
  unfolding handle_cookie_auth_res status_eq
  auth_res-IsValid v false s p asked = finish-IsValid v false s p failed asked refl
  auth_res-IsValid v true s p asked = by_script (accept_user hash ix v p s)
    where
      by_script :
          (o : Script)
          → IsValid hash ix tabled
              (elim o as (λ x. Bool × Server ix) [
                | no_script ↦ finish hash ix v true p completed s
                | wait_for_script ↦ (true, set_status hash ix p failed s)
                | script_error ↦ finish hash ix v false p failed s
              ]).1
      by_script no_script = finish-IsValid v true s p completed asked refl
      by_script wait_for_script = set_status-IsValid s p failed asked refl
      by_script script_error = finish-IsValid v false s p failed asked refl

  pub auth_cookie_req-IsValid :
      (instances : ℕ) (v : Env) (req : CookieReq) (s : Server ix) (p : ℕ) (q : Proc)
      → IsValid hash ix tabled s
      → s.procs p ≡ some q
      → IsValid hash ix tabled (auth_cookie_req hash ix instances v req p q s).1
  unfolding auth_cookie_req
  auth_cookie_req-IsValid instances v req s p q valid here =
      let P : Bool × Server ix → Type 0 = λ a. IsValid hash ix tabled a.1 in
      if_split P (not (status_eq q.status inactive) || not (length req.cookie == sid_size)) _ _
        (λ refused. valid)
        (λ asks.
          let idle : status_eq q.status inactive ≡ true = ground arith in
          let handled = handle_auth_cookie_req hash ix v req p q s in
          if_split P (not (ltb (instance_index_get req.cookie) instances)) _ _
            (λ nowhere. auth_res-IsValid v false s p (pending-IsValid hash ix s p valid, q, here))
            (λ found.
              auth_res-IsValid v handled.0 handled.1 p (handle-Asked v req s p q valid here idle)))
