-- ===== src/SecMod/Session.antt =====
-- The handlers of the messages about sessions (src/sec-mod-auth.c). Addresses of the tunnel and
-- the device strings, which only travel to accounting and to the worker, are left out.
use ocserv.Prelude.{
  ℕ, ◌+◌, ◌-◌, Bool, true, not, ◌&&◌, ◌||◌, Option, none, some, Bytes, length, ltb, ◌==◌,
  if◌then◌else◌,
}
use ocserv.Table.{Htable}
use ocserv.SecMod.Entry.{
  Module, Client, Sec, session_ok, session_failed, cli_stats, acct_open, acct_refused, acct_stats,
  failed, init, cont, completed, status_eq, sid_size, auth_slack_time, reason_server_disconnect,
  instance_index_get, is_expired, stats_add, strlcpy, zero_stats,
}
use ocserv.SecMod.Db.{find_client_entry, store, expire_client_entry, max_ip_str}
use ocserv.SecMod.Auth.{Answers, Code, ok, err, Result, negative, emit, handle_sec_auth_res}

-- What the libraries, the socket and the clock answer to one call of
-- handle_secm_session_open_cmd. `now` is read for the expiration test, `later` for the refresh.
pub record OpenAnswers : Type 0 where
  -- the accounting module accepts the session
  pub accepted : Bool
  -- there is a seed: gnutls_rnd does not fail, or the seed comes from the user's name
  pub seed : Bool
  -- there is memory for the reply
  pub memory : Bool
  -- the additional configuration can be read, or there is none
  pub config : Bool
  pub sent : Bool
  pub now : ℕ
  pub later : ℕ

-- send_failed_session_open_reply
unfoldable pub refuse_session : OpenAnswers → Sec → Code × Sec
refuse_session a s =
    if not a.memory then (err, s) else (if a.sent then ok else err, emit session_failed s)

-- The end of handle_secm_session_open_cmd, once the session is open for accounting.
unfoldable pub grant_session : OpenAnswers → Client → Sec → Code × Sec
grant_session a e s =
    if not (a.seed && a.memory)
    then (err, store e s)
    else if not a.config
    then refuse_session a (store e s)
    else if not a.sent
    then (err, store e s)
    else (
      ok,
      emit (session_ok e.sid) (
          store
            (record e {
              discon_reason = 0;
              exptime = a.later + e.vhost.cookie_timeout + auth_slack_time;
              in_use = e.in_use + 1;
            })
            s),
    )

-- The middle part: the call of open_session.
unfoldable pub open_session : OpenAnswers → Client → Sec → Code × Sec
open_session a e s =
    if e.vhost.acct_open && not e.session_is_open
    then (if a.accepted
        then grant_session a (record e { session_is_open = true }) (emit (acct_open e.sid) s)
        else refuse_session a (store (record e { status = failed }) (emit (acct_refused e.sid) s)))
    else grant_session a (record e { session_is_open = true }) s

-- A counter that a message carries only raises the one that is kept.
unfoldable pub raise : Option ℕ → ℕ → ℕ
raise none old = old
raise (some n) old = if ltb old n then n else old

-- The entry with what a SecmSessionCloseMsg reports. (The uptime is that of a clock that does not
-- run backwards.)
unfoldable pub reported : Client → ℕ → Option ℕ → Option ℕ → Bool → Client
unfolding raise
reported e now bytes_in bytes_out server_disconnected = record e {
  uptime = now - e.created;
  stats = record {
    bytes_in = raise bytes_in e.stats.bytes_in;
    bytes_out = raise bytes_out e.stats.bytes_out;
  };
  discon_reason = if server_disconnected then reason_server_disconnect else e.discon_reason;
}

-- The counters of the connection go into those of the session.
unfoldable pub settle : Client → Client
settle e = record e { saved_stats = stats_add e.saved_stats e.stats; stats = zero_stats }

-- The end of handle_secm_session_close_cmd.
unfoldable pub close_session : Bool → ℕ → Client → Sec → Code × Sec
close_session sent later e s =
    let s' = emit (cli_stats e.stats e.discon_reason) s in
    if not sent then (err, store e s') else (ok, expire_client_entry s' (settle e) later)

-- The entry with what a CliStatsMsg reports.
unfoldable pub counted : Client → ℕ → ℕ → Option ℕ → ℕ → Client
unfolding raise
counted e bytes_in bytes_out reason pid = record e {
  stats = record {
    bytes_in = raise (some bytes_in) e.stats.bytes_in;
    bytes_out = raise (some bytes_out) e.stats.bytes_out;
  };
  discon_reason = elim reason [
    | none ↦ e.discon_reason
    | some r ↦ if r == 0 then e.discon_reason else r
  ];
  id = pid;
}

-- The end of handle_sec_auth_stats_cmd.
unfoldable pub stats_session : Client → Option Bytes → ℕ → Sec → Code × Sec
stats_session e remote_ip now s =
    if not e.vhost.acct_stats
    then (ok, store e s)
    else (let ip : Bytes = elim remote_ip [ none ↦ e.remote_ip | some r ↦ strlcpy max_ip_str r ] in
        let e' : Client = record e { remote_ip = ip; uptime = now - e.created } in
        (ok, emit (acct_stats e.sid (stats_add e.stats e.saved_stats)) (store e' s)))

-- The entry goes back into the table.
abbrev pub finish_auth : Code × Client × Sec → Code × Sec
finish_auth (c, e, s) = (c, store e s)

-- The handlers past the search for the entry.
unfoldable pub open_found : OpenAnswers → Sec → Option Client → Code × Sec
open_found a s none = refuse_session a s
open_found a s (some e) =
    if not (status_eq e.status completed)
    then refuse_session a s
    else if is_expired a.now e
    then refuse_session a (store (record e { status = failed }) s)
    else open_session a e s

unfoldable pub close_found :
    Bool → ℕ → ℕ → Sec → Option ℕ → Option ℕ → Bool → Option Client → Code × Sec
close_found sent now later s bytes_in bytes_out server_disconnected none =
    (if sent then ok else err, emit (cli_stats zero_stats 0) s)
close_found sent now later s bytes_in bytes_out server_disconnected (some e) =
    if not (status_eq e.status completed)
    then (if sent then ok else err, emit (cli_stats zero_stats 0) s)
    else close_session sent later (reported e now bytes_in bytes_out server_disconnected) s

unfoldable pub ban_found : Sec → Bool → Option Client → Sec
ban_found s accepted none = s
ban_found s accepted (some e) = if accepted then s else store (record e { status = failed }) s

unfoldable pub stats_found :
    Sec → ℕ → ℕ → Option ℕ → Option Bytes → ℕ → ℕ → Option Client → Code × Sec
stats_found s bytes_in bytes_out reason remote_ip pid now none = (err, s)
stats_found s bytes_in bytes_out reason remote_ip pid now (some e) =
    if not (status_eq e.status completed)
    then (err, s)
    else stats_session (counted e bytes_in bytes_out reason pid) remote_ip now s

-- The password of handle_sec_auth_cont, for an entry with the given module: `none` is a message
-- with no password.
unfoldable pub cont_pass : Answers → Sec → Client → Option Result → Option Module → Code × Sec
cont_pass a s e none m = finish_auth (handle_sec_auth_res a negative e s)
cont_pass a s e (some result) none = finish_auth (handle_sec_auth_res a negative e s)
cont_pass a s e (some result) (some m) =
    finish_auth (handle_sec_auth_res a result (record e { status = cont }) s)

unfoldable pub cont_found : Answers → Sec → Option Result → Option Client → Code × Sec
cont_found a s pass none = (err, s)
cont_found a s pass (some e) =
    if not (status_eq e.status init || status_eq e.status cont)
    then finish_auth (handle_sec_auth_res a negative e s)
    else cont_pass a s e pass e.amod

module _ (ht : Htable Client) where
  unfoldable pub handle_secm_session_open_cmd : OpenAnswers → Sec → Bytes → Code × Sec
  handle_secm_session_open_cmd a s sid =
      if not (length sid == sid_size)
      then refuse_session a s
      else if not (instance_index_get sid == s.instance_index)
      then refuse_session a s
      else open_found a s (find_client_entry ht s sid)

  -- handle_secm_session_close_cmd: the counters are optional, and the clock is read twice.
  unfoldable pub handle_secm_session_close_cmd :
      Bool → ℕ → ℕ → Sec → Bytes → Option ℕ → Option ℕ → Bool → Code × Sec
  handle_secm_session_close_cmd sent now later s sid bytes_in bytes_out server_disconnected =
      if not (length sid == sid_size)
      then (err, s)
      else close_found sent now later s bytes_in bytes_out server_disconnected
          (find_client_entry ht s sid)

  -- handle_sec_auth_ban_ip_reply: `accepted` stands for AUTH__REP__OK.
  unfoldable pub handle_sec_auth_ban_ip_reply : Sec → Bytes → Bool → Sec
  handle_sec_auth_ban_ip_reply s sid accepted =
      if not (length sid == sid_size) then s else ban_found s accepted (find_client_entry ht s sid)

  -- handle_sec_auth_stats_cmd
  unfoldable pub handle_sec_auth_stats_cmd :
      Sec → Bytes → ℕ → ℕ → Option ℕ → Option Bytes → ℕ → ℕ → Code × Sec
  handle_sec_auth_stats_cmd s sid bytes_in bytes_out reason remote_ip pid now =
      if not (length sid == sid_size)
      then (err, s)
      else stats_found s bytes_in bytes_out reason remote_ip pid now (find_client_entry ht s sid)

  -- handle_sec_auth_cont: `pass` is the answer of auth_pass.
  unfoldable pub handle_sec_auth_cont : Answers → Sec → Bytes → Option Result → Code × Sec
  handle_sec_auth_cont a s sid pass =
      if not (length sid == sid_size)
      then (err, s)
      else cont_found a s pass (find_client_entry ht s sid)
