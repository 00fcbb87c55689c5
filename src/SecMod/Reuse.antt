-- ===== src/SecMod/Reuse.antt =====
-- What the end of a connection leaves of its session (src/sec-mod-auth.c, src/sec-mod-db.c).
use ocserv.Prelude.{
  List, All, ℕ, ◌+◌, ◌-◌, ◌≤◌, ◌<◌, ◌≡◌, ◌≢◌, sym, ◌∙◌, ap, refl, ◌∷◌, ◌&&◌, Bool, true, false, not,
  Option, none, some, arith, Bytes, if◌then◌else◌, length, ◌==◌, bytes_eq_sound,
}
use ocserv.Table.{Htable, find, count, find_sound, find-sweep}
use ocserv.SecMod.Entry.{
  Client, Sec, same_sid, status_eq, completed, sid_size, is_expired, cli_stats,
  reason_server_disconnect, reason_user_disconnect, reason_session_timeout, auth_slack_time,
  session_ok, acct_open,
}
use ocserv.SecMod.Db.{find_client_entry, expire_client_entry, invalidates, linger, del_client_entry}
use ocserv.SecMod.Auth.{ok, emit}
use ocserv.SecMod.Session.{
  OpenAnswers, refuse_session, handle_secm_session_open_cmd, handle_secm_session_close_cmd,
  close_found, close_session, reported, settle,
}
use ocserv.SecMod.Accounting.{IsValid}
use ocserv.SecMod.Preserve.{close-IsOk}
use ocserv.SecMod.Gone.{IsOld, run-IsGone, open_gone}
use ocserv.SecMod.Step.{Op, run}
use ocserv.SecMod.Grant.{find-store, opened, IsOwn, IsWilling, open-grants}

-- The entry with one use less.
abbrev pub released : Client → Client
released e = record e { in_use = e.in_use - 1 }

-- The session was opened again: its entry is complete, of the same user, in use once and open.
pub record IsReopened (e : Client) (o : Option Client) : Type 0 where
  pub entry : Client
  pub found : o ≡ some entry
  pub complete : entry.status ≡ completed
  pub same_user : entry.username ≡ e.username
  pub once : entry.in_use ≡ 1
  pub stands_open : entry.session_is_open ≡ true

-- What expire_client_entry leaves under the identifier of the entry.
abbrev pub remains : Client → ℕ → Option Client
remains e now =
    if not (e.in_use - 1 == 0)
    then some (released e)
    else if invalidates (released e)
    then none
    else some (record e { in_use = e.in_use - 1; exptime = linger (released e) now; id = 0 })

find-expire :
    (e e₀ : Client) (s : Sec) (sid : Bytes) (now : ℕ)
    → count (same_sid sid) s.client_db ≤ 1
    → e.sid ≡ sid
    → find (same_sid sid) s.client_db ≡ some e₀
    → find (same_sid sid) (expire_client_entry s e now).client_db ≡ remains e now
unfolding expire_client_entry del_client_entry
find-expire e e₀ s sid now once mine found =
    let e₁ = released e in
    let lingering : Client = record e₁ { exptime = linger e₁ now; id = 0 } in
    let kept = find-store e₁ e₀ s sid mine found in
    let stays = find-store lingering e₀ s sid mine found in
    let hit : same_sid sid e₀ ≡ true = find_sound (same_sid sid) s.client_db e₀ found in
    let gone : find (same_sid sid) (del_client_entry s e₁).client_db ≡ none =
      rw mine (find-sweep (same_sid sid) (same_sid sid) s.client_db e₀ once found ∙ ground arith) in
    ground arith

module _ (ht : Htable Client) (s : Sec) (i : IsValid s) (sid : Bytes) (e : Client)
    (found : find (same_sid sid) s.client_db ≡ some e) where
  mine : e.sid ≡ sid
  mine = bytes_eq_sound e.sid sid (find_sound (same_sid sid) s.client_db e found)

  close_found_complete :
      (now later : ℕ) (b_in b_out : Option ℕ) (server : Bool)
      → length sid ≡ sid_size
      → e.status ≡ completed
      → handle_secm_session_close_cmd ht true now later s sid b_in b_out server
        ≡ close_session true later (reported e now b_in b_out server) s
  unfolding handle_secm_session_close_cmd close_found status_eq
  close_found_complete now later b_in b_out server sized complete =
      let got : find_client_entry ht s sid ≡ some e =
        ht.get-find (same_sid sid) s.client_db (i.once sid) ∙ found in
      ground arith

  -- The close of a complete session, if its reply is sent, leaves what expire_client_entry leaves.
  find-close :
      (now later : ℕ) (b_in b_out : Option ℕ) (server : Bool)
      → length sid ≡ sid_size
      → e.status ≡ completed
      → find
          (same_sid sid)
          (handle_secm_session_close_cmd ht true now later s sid b_in b_out server).1.client_db
        ≡ remains (settle (reported e now b_in b_out server)) later
  unfolding close_session settle reported
  find-close now later b_in b_out server sized complete =
      let e₁ = reported e now b_in b_out server in
      ap (λ r. find (same_sid sid) r.1.client_db)
        (close_found_complete now later b_in b_out server sized complete)
      ∙ find-expire (settle e₁) e (emit (cli_stats e₁.stats e₁.discon_reason) s) sid later
          (i.once sid) mine found

  close-instance :
      (now later : ℕ) (b_in b_out : Option ℕ) (server : Bool)
      → length sid ≡ sid_size
      → e.status ≡ completed
      → (handle_secm_session_close_cmd ht true now later s sid b_in b_out server).1.instance_index
        ≡ s.instance_index
  unfolding close_session expire_client_entry del_client_entry
  close-instance now later b_in b_out server sized complete =
      ap (λ r. r.1.instance_index) (close_found_complete now later b_in b_out server sized complete)
      ∙ ground arith

  -- In a valid state, when the only worker of a complete session of this instance reports its end
  -- for another reason than the user's or the server's wish or the session's time limit, and the
  -- reply is sent, the next opening under the identifier hands the session out, if less than
  -- cookie_timeout and the slack time have passed since the close and the environment fails
  -- nothing: it returns 0 and sends the session, it calls the accounting module only if the entry
  -- was not open, and an entry stays under the identifier that is complete, of the same user, in
  -- use once and open.
  pub reconnect :
      (now later : ℕ) (b_in b_out : Option ℕ) (a : OpenAnswers)
      → IsOwn s sid
      → e.status ≡ completed
      → e.in_use ≡ 1
      → e.discon_reason ≢ reason_user_disconnect
      → e.discon_reason ≢ reason_server_disconnect
      → e.discon_reason ≢ reason_session_timeout
      → a.now < later + e.vhost.cookie_timeout + auth_slack_time
      → IsWilling a
      → let s' = (handle_secm_session_close_cmd ht true now later s sid b_in b_out false).1 in
        let r = handle_secm_session_open_cmd ht a s' sid in
        (r.0 ≡ ok)
        × (r.1.events
            ≡ session_ok sid
              ∷ (if e.vhost.acct_open && not e.session_is_open
                  then acct_open sid ∷ s'.events
                  else s'.events))
        × IsReopened e (find (same_sid sid) r.1.client_db)
  unfolding settle reported invalidates linger
  reconnect now later b_in b_out a own complete used user server timeout soon willing =
      let e' = settle (reported e now b_in b_out false) in
      let left : Client = record e' {
        in_use = 0;
        exptime = later + e.vhost.cookie_timeout + auth_slack_time;
        id = 0;
      } in
      let s' = (handle_secm_session_close_cmd ht true now later s sid b_in b_out false).1 in
      let kept : remains e' later ≡ some left = ground arith in
      let there = find-close now later b_in b_out false own.0 complete ∙ kept in
      let v = close-IsOk ht s i true now later sid b_in b_out false in
      let same = close-instance now later b_in b_out false own.0 complete in
      let alive : is_expired a.now left ≡ false = ground arith in
      let g =
        open-grants ht s' v a sid left (own.0, own.1 ∙ sym same) there complete alive willing in
      (
        g.0,
        g.1,
        record {
          entry = opened a left;
          found = g.2;
          complete = complete;
          same_user = refl;
          once = refl;
          stands_open = refl;
        },
      )

  -- In a valid state, when the only worker of a complete session reports that the server ended
  -- it, on a virtual host without persistent cookies, and the reply is sent, the identifier no
  -- longer names a session. After any further messages and timers among which no authentication
  -- begins, it still names none, and an opening under it is refused.
  pub invalidated :
      (now later : ℕ) (b_in b_out : Option ℕ) (os : List Op) (a : OpenAnswers)
      → length sid ≡ sid_size
      → e.status ≡ completed
      → e.in_use ≡ 1
      → e.vhost.persistent_cookies ≡ false
      → All IsOld os
      → let s' = (handle_secm_session_close_cmd ht true now later s sid b_in b_out true).1 in
        let t = run ht s' os in
        (find (same_sid sid) s'.client_db ≡ none)
        × (find (same_sid sid) t.client_db ≡ none)
        × (handle_secm_session_open_cmd ht a t sid ≡ refuse_session a t)
  unfolding invalidates settle reported
  invalidated now later b_in b_out os a sized complete used cookies old =
      let s' = (handle_secm_session_close_cmd ht true now later s sid b_in b_out true).1 in
      let v = close-IsOk ht s i true now later sid b_in b_out true in
      let gone : find (same_sid sid) s'.client_db ≡ none =
        find-close now later b_in b_out true sized complete ∙ ground arith in
      let (w, still) = run-IsGone ht sid s' os old v gone in
      (gone, still, open_gone ht (run ht s' os) w sid still a)
