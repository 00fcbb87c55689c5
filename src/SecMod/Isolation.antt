-- ===== src/SecMod/Isolation.antt =====
-- A message about one session leaves the other sessions alone (src/sec-mod-auth.c).
use ocserv.Prelude.{
  ℕ, ◌-◌, ◌≡◌, refl, ◌∙◌, ap, Bool, true, false, not, ◌&&◌, ◌||◌, Option, none, some, arith, Bytes,
  if◌then◌else◌, if_both, length, ◌==◌, bytes_eq, bytes_eq_sound,
}
use ocserv.Table.{Htable, find, find-modify_other, find-sweep_other}
use ocserv.SecMod.Entry.{
  Client, Module, Sec, same_sid, status_eq, failed, init, cont, completed, sid_size,
  instance_index_get, is_expired, acct_open, acct_refused, cli_stats, zero_stats,
}
use ocserv.SecMod.Db.{store, expire_client_entry, del_client_entry, invalidates}
use ocserv.SecMod.Auth.{Answers, Code, ok, err, Result, negative, emit, handle_sec_auth_res}
use ocserv.SecMod.Session.{
  OpenAnswers, refuse_session, grant_session, open_session, reported, settle, close_session,
  counted, stats_session, finish_auth, open_found, close_found, ban_found, stats_found, cont_found,
  cont_pass, handle_secm_session_open_cmd, handle_secm_session_close_cmd,
  handle_sec_auth_ban_ip_reply, handle_sec_auth_stats_cmd, handle_sec_auth_cont,
}
use ocserv.SecMod.Step.{
  Op, auth_init, auth_cont, session_open, session_close, session_stats, ban_reply, cleanup,
  terminate_user, terminate_sid, step,
}
use ocserv.SecMod.Accounting.{IsValid}
use ocserv.SecMod.Kept.{handle_sec_auth_res-Quiet}
use ocserv.SecMod.Preserve.{found_cases}

-- The identifier that a message of a worker names.
abbrev pub names : Op → Option Bytes
names (auth_cont answers sid pass) = some sid
names (session_open answers sid) = some sid
names (session_close sent now later sid b_in b_out server) = some sid
names (session_stats sid b_in b_out reason ip pid now) = some sid
names (ban_reply sid accepted) = some sid
names _ = none

module _ (k : Bytes) (s : Sec) where
  -- What stands under the identifier is as in `s`.
  abbrev pub Spared : Sec → Type 0
  Spared s' = find (same_sid k) s'.client_db ≡ find (same_sid k) s.client_db

  abbrev pub Spares : Code × Sec → Type 0
  Spares r = Spared r.1

  refuse-Spares : (a : OpenAnswers) (s' : Sec) → Spared s' → Spares (refuse_session a s')
  unfolding refuse_session
  refuse-Spares a s' h = if_both Spares (not a.memory) (err, s') _ h h

  -- An entry under another identifier.
  module _ (e : Client) (other : bytes_eq e.sid k ≡ false) (s' : Sec) (h : Spared s') where
    other_entry : (x : Client) → same_sid e.sid x ≡ true → same_sid k x ≡ false
    other_entry x hit = let same = bytes_eq_sound x.sid e.sid hit in rw same other

    store-Spares : (e' : Client) → e'.sid ≡ e.sid → Spared (store e' s')
    store-Spares e' same =
        find-modify_other (same_sid k) (same_sid e'.sid) (λ _. e') s'.client_db
          (λ x hit. (other_entry x (rw same at hit), rw same other))
        ∙ h

    delete-Spares : Spared (del_client_entry s' e)
    unfolding del_client_entry
    delete-Spares =
        find-sweep_other (same_sid k) (same_sid e.sid) s'.client_db
          (λ x hit. ground (arith, other_entry x))
        ∙ h

    grant-Spares : (a : OpenAnswers) → Spares (grant_session a e s')
    unfolding grant_session
    grant-Spares a =
        let kept = store-Spares e refl in
        if_both Spares (not (a.seed && a.memory)) (err, store e s') _ kept
          (if_both Spares (not a.config) (refuse_session a (store e s')) _
            (refuse-Spares a (store e s') kept)
            (if_both Spares (not a.sent) (err, store e s') _ kept (store-Spares _ refl)))

    expire-Spares : (now : ℕ) → Spared (expire_client_entry s' e now)
    unfolding expire_client_entry del_client_entry
    expire-Spares now =
        let e₁ : Client = record e { in_use = e.in_use - 1 } in
        if_both Spared (e₁.in_use == 0) _ (store e₁ s')
          (if_both Spared (invalidates e₁) _ _ delete-Spares (store-Spares _ refl))
          (store-Spares e₁ refl)

  module _ (e : Client) (other : bytes_eq e.sid k ≡ false) where
    open-Spares : (a : OpenAnswers) → Spares (open_session a e s)
    unfolding open_session
    open-Spares a =
        if_both Spares (e.vhost.acct_open && not e.session_is_open) _ _
          (if_both Spares a.accepted _ _
            (grant-Spares (record e { session_is_open = true }) other (emit (acct_open e.sid) s)
              refl a)
            (refuse-Spares a _ (
              store-Spares e other (emit (acct_refused e.sid) s) refl (record e { status = failed })
                refl)))
          (grant-Spares (record e { session_is_open = true }) other s refl a)

    close-Spares :
        (sent : Bool) (now later : ℕ) (b_in b_out : Option ℕ) (server : Bool)
        → Spares (close_session sent later (reported e now b_in b_out server) s)
    unfolding close_session settle reported
    close-Spares sent now later b_in b_out server =
        let e₁ = reported e now b_in b_out server in
        let s₁ = emit (cli_stats e₁.stats e₁.discon_reason) s in
        if_both Spares (not sent) (err, store e₁ s₁) _ (store-Spares e other s₁ refl e₁ refl)
          (expire-Spares (settle e₁) other s₁ refl later)

    stats-Spares :
        (b_in b_out : ℕ) (reason : Option ℕ) (ip : Option Bytes) (pid now : ℕ)
        → Spares (stats_session (counted e b_in b_out reason pid) ip now s)
    unfolding stats_session counted
    stats-Spares b_in b_out reason ip pid now =
        if_both Spares (not e.vhost.acct_stats) _ _ (store-Spares e other s refl _ refl)
          (store-Spares e other s refl _ refl)

    finish-Spares :
        (a : Answers) (r : Result) (e' : Client)
        → e'.sid ≡ e.sid
        → Spares (finish_auth (handle_sec_auth_res a r e' s))
    finish-Spares a r e' same =
        let q = handle_sec_auth_res-Quiet a r e' s in
        let h : Spared (handle_sec_auth_res a r e' s).2 = rw q.table refl in
        store-Spares e other (handle_sec_auth_res a r e' s).2 h (handle_sec_auth_res a r e' s).1
          (q.kept.sid ∙ same)

    pass-Spares :
        (a : Answers) (pass : Option Result) (m : Option Module) → Spares (cont_pass a s e pass m)
    unfolding cont_pass
    pass-Spares a none m = finish-Spares a negative e refl
    pass-Spares a (some r) none = finish-Spares a negative e refl
    pass-Spares a (some r) (some m) = finish-Spares a r (record e { status = cont }) refl

module _ (ht : Htable Client) (k : Bytes) (s : Sec) (i : IsValid s) (sid : Bytes)
    (other : bytes_eq sid k ≡ false) where
  off : (e : Client) → e.sid ≡ sid → bytes_eq e.sid k ≡ false
  off e mine = ap (λ x. bytes_eq x k) mine ∙ other

  session_open-Spares : (a : OpenAnswers) → Spares k s (handle_secm_session_open_cmd ht a s sid)
  unfolding handle_secm_session_open_cmd open_found
  session_open-Spares a =
      let P = Spares k s in
      let out = refuse-Spares k s a s refl in
      if_both P (not (length sid == sid_size)) (refuse_session a s) _ out (
        if_both P (not (instance_index_get sid == s.instance_index)) (refuse_session a s) _ out (
          found_cases ht s i (λ o. P (open_found a s o)) sid out
            λ e mine found.
              if_both P (not (status_eq e.status completed)) (refuse_session a s) _ out (
                if_both P (is_expired a.now e) _ (open_session a e s)
                  (refuse-Spares k s a _
                    (store-Spares k s e (off e mine) s refl (record e { status = failed }) refl))
                  (open-Spares k s e (off e mine) a))))

  pub session_close-Spares :
      (sent : Bool) (now later : ℕ) (b_in b_out : Option ℕ) (server : Bool)
      → Spares k s (handle_secm_session_close_cmd ht sent now later s sid b_in b_out server)
  unfolding handle_secm_session_close_cmd close_found
  session_close-Spares sent now later b_in b_out server =
      let P = Spares k s in
      if_both P (not (length sid == sid_size)) (err, s) _ refl
        (found_cases ht s i (λ o. P (close_found sent now later s b_in b_out server o)) sid refl
          λ e mine found.
            if_both P (not (status_eq e.status completed))
              (if sent then ok else err, emit (cli_stats zero_stats 0) s) _ refl
              (close-Spares k s e (off e mine) sent now later b_in b_out server))

  ban_reply-Spared : (accepted : Bool) → Spared k s (handle_sec_auth_ban_ip_reply ht s sid accepted)
  unfolding handle_sec_auth_ban_ip_reply ban_found
  ban_reply-Spared accepted =
      let P = Spared k s in
      if_both P (not (length sid == sid_size)) s _ refl (
        found_cases ht s i (λ o. P (ban_found s accepted o)) sid refl
          λ e mine found.
            if_both P accepted s _ refl
              (store-Spares k s e (off e mine) s refl (record e { status = failed }) refl))

  session_stats-Spares :
      (b_in b_out : ℕ) (reason : Option ℕ) (ip : Option Bytes) (pid now : ℕ)
      → Spares k s (handle_sec_auth_stats_cmd ht s sid b_in b_out reason ip pid now)
  unfolding handle_sec_auth_stats_cmd stats_found
  session_stats-Spares b_in b_out reason ip pid now =
      let P = Spares k s in
      if_both P (not (length sid == sid_size)) (err, s) _ refl
        (found_cases ht s i (λ o. P (stats_found s b_in b_out reason ip pid now o)) sid refl
          λ e mine found.
            if_both P (not (status_eq e.status completed)) (err, s) _ refl
              (stats-Spares k s e (off e mine) b_in b_out reason ip pid now))

  auth_cont-Spares :
      (a : Answers) (pass : Option Result) → Spares k s (handle_sec_auth_cont ht a s sid pass)
  unfolding handle_sec_auth_cont cont_found
  auth_cont-Spares a pass =
      let P = Spares k s in
      if_both P (not (length sid == sid_size)) (err, s) _ refl
        (found_cases ht s i (λ o. P (cont_found a s pass o)) sid refl
          λ e mine found.
            if_both P (not (status_eq e.status init || status_eq e.status cont)) _ _
              (finish-Spares k s e (off e mine) a negative e refl)
              (pass-Spares k s e (off e mine) a pass e.amod))

name_off :
    {id sid : Bytes}
    → (k : Bytes) → some id ≡ some sid
    → bytes_eq sid k ≡ false
    → bytes_eq id k ≡ false
name_off {id} {sid} k h other =
    let same : id ≡ sid = ground arith in ap (λ x. bytes_eq x k) same ∙ other

-- In a valid state, a message of a worker that names a session (an authentication that goes on,
-- an opening, a close, statistics, the answer about a ban) leaves what stands under every other
-- identifier as it was.
pub step-isolated :
    (ht : Htable Client) (s : Sec) (o : Op) (sid k : Bytes)
    → IsValid s
    → names o ≡ some sid
    → bytes_eq sid k ≡ false
    → find (same_sid k) (step ht s o).client_db ≡ find (same_sid k) s.client_db
unfolding step
step-isolated ht s (auth_cont a id pass) sid k i h other =
    auth_cont-Spares ht k s i id (name_off k h other) a pass
step-isolated ht s (session_open a id) sid k i h other =
    session_open-Spares ht k s i id (name_off k h other) a
step-isolated ht s (session_close sent now later id b_in b_out server) sid k i h other =
    session_close-Spares ht k s i id (name_off k h other) sent now later b_in b_out server
step-isolated ht s (session_stats id b_in b_out reason ip pid now) sid k i h other =
    session_stats-Spares ht k s i id (name_off k h other) b_in b_out reason ip pid now
step-isolated ht s (ban_reply id accepted) sid k i h other =
    ban_reply-Spared ht k s i id (name_off k h other) accepted
step-isolated ht s (auth_init answers req a pid) sid k i h other = cc
step-isolated ht s (cleanup now) sid k i h other = cc
step-isolated ht s (terminate_user name) sid k i h other = cc
step-isolated ht s (terminate_sid id) sid k i h other = cc
