-- ===== src/SecMod/Handlers.antt =====
-- Every handler keeps the identifiers distinct and the accounting balanced (src/sec-mod-auth.c).
use ocserv.Prelude.{
  ℕ, ◌+◌, ◌-◌, ◌≡◌, refl, ◌∙◌, inl, inr, Bool, true, false, not, ◌&&◌, Option, none, some, arith,
  Bytes, Bool-cases, if◌then◌else◌, if_both, ◌==◌,
}
use ocserv.Table.{find}
use ocserv.SecMod.Entry.{
  Client, Sec, same_sid, failed, strlcpy, cli_stats, session_ok, session_failed, acct_open,
  acct_refused, acct_stats, stats_add, auth_slack_time,
}
use ocserv.SecMod.Db.{store, expire_client_entry, max_ip_str, del_client_entry, invalidates, linger}
use ocserv.SecMod.Auth.{Answers, Code, ok, err, Result, emit, handle_sec_auth_res}
use ocserv.SecMod.Session.{
  OpenAnswers, refuse_session, grant_session, open_session, settle, reported, close_session,
  counted, stats_session, finish_auth,
}
use ocserv.SecMod.Accounting.{
  IsValid, accounted, emit-IsValid, store-IsValid, open-IsValid, delete-IsValid,
}
use ocserv.SecMod.Kept.{handle_sec_auth_res-Quiet}

abbrev pub IsOk : Code × Sec → Type 0
IsOk r = IsValid r.1

pub refuse-IsValid : (a : OpenAnswers) (s : Sec) → IsValid s → IsValid (refuse_session a s).1
unfolding refuse_session
refuse-IsValid a s i =
    if_both IsOk (not a.memory) (err, s) (if a.sent then ok else err, emit session_failed s) i
      (emit-IsValid session_failed s (λ k. (refl, refl)) i)

-- The entry of a session that a worker uses once more.
abbrev pub granted : OpenAnswers → Client → Client
granted a e = record e {
  discon_reason = 0;
  exptime = a.later + e.vhost.cookie_timeout + auth_slack_time;
  in_use = e.in_use + 1;
}

grant_stored-IsValid :
    (a : OpenAnswers) (e : Client) (s : Sec)
    → IsValid (store e s)
    → IsValid (store (granted a e) s)
    → IsValid (grant_session a e s).1
unfolding grant_session
grant_stored-IsValid a e s kept more =
    if_both IsOk (not (a.seed && a.memory)) (err, store e s) _ kept
      (if_both IsOk (not a.config) (refuse_session a (store e s)) _
        (refuse-IsValid a (store e s) kept)
        (if_both IsOk (not a.sent) (err, store e s)
          (ok, emit (session_ok e.sid) (store (granted a e) s)) kept
          (emit-IsValid (session_ok e.sid) (store (granted a e) s) (λ k. (refl, refl)) more)))

-- The entry that a handler works on: found under its identifier, in a valid state.
module _ (s : Sec) (i : IsValid s) (e₀ : Client) where
  -- The end of a handler that goes through handle_sec_auth_res.
  pub finish-IsValid :
      (a : Answers) (r : Result) (e : Client)
      → find (same_sid e.sid) s.client_db ≡ some e₀
      → e.vhost ≡ e₀.vhost
      → accounted e ≡ accounted e₀
      → IsValid (finish_auth (handle_sec_auth_res a r e s)).1
  finish-IsValid a r e found host same =
      let q = handle_sec_auth_res-Quiet a r e s in
      let e' = (handle_sec_auth_res a r e s).1 in
      let s' = (handle_sec_auth_res a r e s).2 in
      let there : find (same_sid e'.sid) s'.client_db ≡ some e₀ = rw (q.kept.sid, q.table) found in
      store-IsValid e' e₀ s' there (q.kept.host ∙ host) (q.valid i)
        (rw (q.kept.host, q.kept.is_open) same)

  -- An entry that stands in the table under its identifier, with the mark it has there.
  module _ (e : Client) (found : find (same_sid e.sid) s.client_db ≡ some e₀)
      (host : e.vhost ≡ e₀.vhost) (same : accounted e ≡ accounted e₀) where
    pub keep-IsValid : IsValid (store e s)
    keep-IsValid = store-IsValid e e₀ s found host i same

    expire-IsValid : (now : ℕ) → IsValid (expire_client_entry s e now)
    unfolding expire_client_entry
    expire-IsValid now =
        let e₁ : Client = record e { in_use = e.in_use - 1 } in
        let lingering : Client = record e₁ { exptime = linger e₁ now; id = 0 } in
        if_both IsValid (e₁.in_use == 0) _ (store e₁ s)
          (if_both IsValid (invalidates e₁) (del_client_entry s e₁) (store lingering s)
            (delete-IsValid e₁ e₀ s found host i same)
            (store-IsValid lingering e₀ s found host i same))
          (store-IsValid e₁ e₀ s found host i same)

    grant-IsValid : (a : OpenAnswers) → IsValid (grant_session a e s).1
    grant-IsValid a =
        grant_stored-IsValid a e s keep-IsValid (store-IsValid (granted a e) e₀ s found host i same)

-- The grant that follows a call of open_session.
module _ (s : Sec) (i : IsValid s) (e : Client)
    (found : find (same_sid e.sid) s.client_db ≡ some e) where
  grant_opened-IsValid :
      (a : OpenAnswers)
      → e.vhost.acct_open ≡ true
      → e.session_is_open ≡ false
      → IsValid (grant_session a (record e { session_is_open = true }) (emit (acct_open e.sid) s)).1
  grant_opened-IsValid a hook shut =
      let e₁ : Client = record e { session_is_open = true } in
      grant_stored-IsValid a e₁ (emit (acct_open e.sid) s)
        (open-IsValid e₁ e s found refl i hook (rw shut))
        (open-IsValid (granted a e₁) e s found refl i hook (rw shut))

  pub open_session-IsValid : (a : OpenAnswers) → IsValid (open_session a e s).1
  unfolding open_session
  open_session-IsValid a =
      let e₁ : Client = record e { session_is_open = true } in
      elim (Bool-cases (e.vhost.acct_open && not e.session_is_open)) [
        | inl fresh ↦
            let hook : e.vhost.acct_open ≡ true = ground arith in
            let shut : e.session_is_open ≡ false = ground arith in
            rw fresh (
              if_both IsOk a.accepted (grant_session a e₁ (emit (acct_open e.sid) s))
                (refuse_session a
                  (store (record e { status = failed }) (emit (acct_refused e.sid) s)))
                (grant_opened-IsValid a hook shut)
                (refuse-IsValid a _ (
                  emit-IsValid (acct_refused e.sid) (store (record e { status = failed }) s)
                    (λ k. (refl, refl))
                    (store-IsValid (record e { status = failed }) e s found refl i refl))))
        | inr old ↦
            let same : accounted e₁ ≡ accounted e = ground arith in
            rw old (grant-IsValid s i e e₁ found refl same a)
      ]

  pub close_session-IsValid :
      (sent : Bool) (now later : ℕ) (b_in b_out : Option ℕ) (server : Bool)
      → IsValid (close_session sent later (reported e now b_in b_out server) s).1
  unfolding close_session settle reported
  close_session-IsValid sent now later b_in b_out server =
      let e₁ = reported e now b_in b_out server in
      let s₁ = emit (cli_stats e₁.stats e₁.discon_reason) s in
      let v₁ = emit-IsValid (cli_stats e₁.stats e₁.discon_reason) s (λ k. (refl, refl)) i in
      if_both IsOk (not sent) (err, store e₁ s₁) (ok, expire_client_entry s₁ (settle e₁) later)
        (store-IsValid e₁ e s₁ found refl v₁ refl)
        (expire-IsValid s₁ v₁ e (settle e₁) found refl refl later)

  pub stats_session-IsValid :
      (b_in b_out : ℕ) (reason : Option ℕ) (ip : Option Bytes) (pid now : ℕ)
      → IsValid (stats_session (counted e b_in b_out reason pid) ip now s).1
  unfolding stats_session counted
  stats_session-IsValid b_in b_out reason ip pid now =
      let e₁ = counted e b_in b_out reason pid in
      let addr : Bytes = elim ip [ none ↦ e.remote_ip | some r ↦ strlcpy max_ip_str r ] in
      let e₂ : Client = record e₁ { remote_ip = addr; uptime = now - e.created } in
      if_both IsOk (not e.vhost.acct_stats) (ok, store e₁ s)
        (ok, emit (acct_stats e₁.sid (stats_add e₁.stats e₁.saved_stats)) (store e₂ s))
        (store-IsValid e₁ e s found refl i refl)
        (emit-IsValid _ _ (λ k. (refl, refl)) (store-IsValid e₂ e s found refl i refl))
