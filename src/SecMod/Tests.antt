-- ===== src/SecMod/Tests.antt =====
-- The security module at concrete inputs.
use ocserv.Prelude.{
  if◌then◌else◌, ◌&&◌, not, ◌+◌, ◌≤◌, ◌≡◌, refl, true, false, none, some, [], ◌∷◌, arith, bytes_eq,
}
use ocserv.Table.{plain, find, count}
use ocserv.SecMod.Entry.{
  Client, init, failed, status_eq, same_sid, instance_index_get, session_ok, acct_open,
  instance_index_put,
}
use ocserv.SecMod.Db.{
  sec_mod_client_db_deinit, fresh_client, new_client_entry, draw_sid, add_client,
}
use ocserv.SecMod.Checks.{
  check_group, module_group, certificate_group, check_cert_user_group_status,
}
use ocserv.SecMod.Auth.{with_module, branch, res_done, send_auth_ok, ok, done, handle_sec_auth_res}
use ocserv.SecMod.Session.{
  handle_secm_session_open_cmd, handle_secm_session_close_cmd, refuse_session, open_found,
  open_session, grant_session,
}
use ocserv.SecMod.Step.{cleanup, session_open, step, run}
use ocserv.SecMod.Accounting.{opens, closes, open_as}
use ocserv.SecMod.Grant.{Opening, opened, IsOwn, open-Opening, open-grants}
use ocserv.SecMod.History.{run-opens-closes}
use ocserv.SecMod.Reuse.{IsReopened, reconnect, invalidated}
use ocserv.SecMod.Isolation.{step-isolated}
use ocserv.SecMod.Fresh.{IsFull, new_client-IsOwn}
use ocserv.SecMod.Created.{Created}
use ocserv.SecMod.Complete.{certified, handle_res-completed}
use ocserv.SecMod.Fixtures.{
  host, random_bytes, my_sid, session, server, empty, connected, busy, server-IsValid, busy-IsValid,
  empty-IsValid, willing, answers, my_sid-IsOwn, server-find, busy-find, history,
}

run-opens-closes_example :
    let s' = run (plain Client) empty history in
    (count (same_sid my_sid) s'.client_db ≤ 1)
    × (count (opens my_sid) s'.events
        ≡ count (closes my_sid) s'.events + count (open_as my_sid) s'.client_db)
    × (count (opens my_sid) (sec_mod_client_db_deinit s' (λ e. 2000)).events
        ≡ count (closes my_sid) (sec_mod_client_db_deinit s' (λ e. 2000)).events)
run-opens-closes_example =
    run-opens-closes (plain Client) empty history my_sid (λ e. 2000) refl refl
      (refl, (tt, (tt, (tt, tt))))

open-Opening_example :
    let r = handle_secm_session_open_cmd (plain Client) willing server my_sid in
    (my_sid ≡ my_sid) × IsOwn server my_sid × Opening willing server my_sid r.1
unfolding handle_secm_session_open_cmd open_found open_session grant_session find bytes_eq
    instance_index_get status_eq
open-Opening_example =
    open-Opening (plain Client) server server-IsValid willing my_sid my_sid (acct_open my_sid ∷ [])
      refl refl

open-grants_example :
    let r = handle_secm_session_open_cmd (plain Client) willing server my_sid in
    (r.0 ≡ ok)
    × (r.1.events ≡ session_ok my_sid ∷ acct_open my_sid ∷ [])
    × (find (same_sid my_sid) r.1.client_db ≡ some (opened willing session))
open-grants_example =
    open-grants (plain Client) server server-IsValid willing my_sid session my_sid-IsOwn server-find
      refl refl (refl, refl, refl, refl, refl)

reconnect_example :
    let s' =
      (handle_secm_session_close_cmd (plain Client) true 1100 1100 busy my_sid none none false).1 in
    let r = handle_secm_session_open_cmd (plain Client) willing s' my_sid in
    (r.0 ≡ ok)
    × (r.1.events
        ≡ session_ok my_sid
          ∷ (if connected.vhost.acct_open && not connected.session_is_open
              then acct_open my_sid ∷ s'.events
              else s'.events))
    × IsReopened connected (find (same_sid my_sid) r.1.client_db)
reconnect_example =
    reconnect (plain Client) busy busy-IsValid my_sid connected busy-find 1100 1100 none none
      willing my_sid-IsOwn refl refl (λ h. omega (arith, h)) (λ h. omega (arith, h))
      (λ h. omega (arith, h)) (omega arith) (refl, refl, refl, refl, refl)

invalidated_example :
    let s' =
      (handle_secm_session_close_cmd (plain Client) true 1100 1100 busy my_sid none none true).1 in
    let t = run (plain Client) s' (session_open willing my_sid ∷ cleanup 1200 ∷ []) in
    (find (same_sid my_sid) s'.client_db ≡ none)
    × (find (same_sid my_sid) t.client_db ≡ none)
    × (handle_secm_session_open_cmd (plain Client) willing t my_sid ≡ refuse_session willing t)
invalidated_example =
    invalidated (plain Client) busy busy-IsValid my_sid connected busy-find 1100 1100 none none
      (session_open willing my_sid ∷ cleanup 1200 ∷ []) willing refl refl refl refl (tt, (tt, tt))

step-isolated_example :
    find
      (same_sid my_sid)
      (step (plain Client) server (session_open willing random_bytes)).client_db
    ≡ find (same_sid my_sid) server.client_db
unfolding bytes_eq
step-isolated_example =
    step-isolated (plain Client) server (session_open willing random_bytes) random_bytes my_sid
      server-IsValid refl refl

random-IsFull : IsFull (λ n. some random_bytes)
random-IsFull n b h = let same : random_bytes ≡ b = cc in rw (← same) refl

abbrev made : Client
made = fresh_client host (49 ∷ []) 77 my_sid (65 ∷ []) 1000

new_client-IsOwn_example :
    IsOwn empty made.sid × Created empty host 77 made (record empty { client_db = made ∷ [] })
unfolding new_client_entry draw_sid add_client fresh_client find instance_index_put
new_client-IsOwn_example =
    new_client-IsOwn (plain Client) empty (omega arith) (λ sid. 65 ∷ []) (λ n. some random_bytes)
      host (49 ∷ []) 77 1000 made (record empty { client_db = made ∷ [] }) random-IsFull
      empty-IsValid refl refl

handle_res-completed_example :
    let e = record session { status = init } in
    let e' = (handle_sec_auth_res answers done e empty).1 in
    (done ≡ done) × (status_eq e.status failed ≡ false) × (true ≡ true) × (certified e' ≡ true)
unfolding status_eq handle_sec_auth_res with_module branch res_done check_group module_group
    certificate_group check_cert_user_group_status send_auth_ok
handle_res-completed_example =
    handle_res-completed answers done (record session { status = init }) empty refl refl

-- A user who logs in with a certificate alone.
abbrev card_holder : Client
card_holder = record session {
  auth_type = 8;
  tls_auth_ok = true;
  username = [];
  cert_user_name = 98 ∷ [];
  vhost = record host { cert_user_oid = some (49 ∷ []) };
}
