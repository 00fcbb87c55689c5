-- ===== src/SecMod/Preserve.antt =====
-- Every operation keeps the sessions distinct and the accounting balanced (src/sec-mod-auth.c).
use ocserv.Prelude.{
  ℕ, ◌≡◌, refl, sym, ◌∙◌, ap, inl, inr, Bool, not, ◌||◌, Option, none, some, Bytes, Option-cases,
  if◌then◌else◌, if_both, length, ◌==◌, bytes_eq_sound,
}
use ocserv.Table.{Htable, find, find_sound}
use ocserv.SecMod.Entry.{
  Client, Module, Sec, same_sid, status_eq, failed, init, cont, completed, sid_size,
  instance_index_get, is_expired, cli_stats, zero_stats,
}
use ocserv.SecMod.Db.{find_client_entry}
use ocserv.SecMod.Auth.{Answers, ok, err, Result, negative, emit}
use ocserv.SecMod.Session.{
  OpenAnswers, refuse_session, open_session, open_found, close_found, ban_found, stats_found,
  cont_found, cont_pass, handle_secm_session_open_cmd, handle_secm_session_close_cmd,
  handle_sec_auth_ban_ip_reply, handle_sec_auth_stats_cmd, handle_sec_auth_cont,
}
use ocserv.SecMod.Accounting.{IsValid, emit-IsValid}
use ocserv.SecMod.Handlers.{
  IsOk, refuse-IsValid, keep-IsValid, finish-IsValid, open_session-IsValid, close_session-IsValid,
  stats_session-IsValid,
}

module _ (ht : Htable Client) (s : Sec) (i : IsValid s) where
  -- A handler that looks an entry up works on nothing, or on the entry of that identifier.
  pub found_cases :
      (P : Option Client → Type 0) (sid : Bytes)
      → P none
      → ((e : Client) → e.sid ≡ sid → find (same_sid e.sid) s.client_db ≡ some e → P (some e))
      → P (find_client_entry ht s sid)
  found_cases P sid absent there = elim (Option-cases (find_client_entry ht s sid)) [
    | inl nothing ↦ rw nothing absent
    | inr (e, got) ↦
        let found : find (same_sid sid) s.client_db ≡ some e =
          sym (ht.get-find (same_sid sid) s.client_db (i.once sid)) ∙ got in
        let mine : e.sid ≡ sid =
          bytes_eq_sound e.sid sid (find_sound (same_sid sid) s.client_db e found) in
        let here : find (same_sid e.sid) s.client_db ≡ some e =
          ap (λ k. find (same_sid k) s.client_db) mine ∙ found in
        rw got (there e mine here)
  ]

  pub open-IsOk : (a : OpenAnswers) (sid : Bytes) → IsOk (handle_secm_session_open_cmd ht a s sid)
  unfolding handle_secm_session_open_cmd open_found
  open-IsOk a sid =
      let out = refuse-IsValid a s i in
      if_both IsOk (not (length sid == sid_size)) (refuse_session a s) _ out (
        if_both IsOk (not (instance_index_get sid == s.instance_index)) (refuse_session a s) _ out (
          found_cases (λ o. IsOk (open_found a s o)) sid out
            λ e mine found.
              if_both IsOk (not (status_eq e.status completed)) (refuse_session a s) _ out (
                if_both IsOk (is_expired a.now e) _ (open_session a e s)
                  (refuse-IsValid a _
                    (keep-IsValid s i e (record e { status = failed }) found refl refl))
                  (open_session-IsValid s i e found a))))

  pub close-IsOk :
      (sent : Bool) (now later : ℕ) (sid : Bytes) (b_in b_out : Option ℕ) (server : Bool)
      → IsOk (handle_secm_session_close_cmd ht sent now later s sid b_in b_out server)
  unfolding handle_secm_session_close_cmd close_found
  close-IsOk sent now later sid b_in b_out server =
      let out = emit-IsValid (cli_stats zero_stats 0) s (λ k. (refl, refl)) i in
      if_both IsOk (not (length sid == sid_size)) (err, s) _ i
        (found_cases (λ o. IsOk (close_found sent now later s b_in b_out server o)) sid out
          λ e mine found.
            if_both IsOk (not (status_eq e.status completed))
              (if sent then ok else err, emit (cli_stats zero_stats 0) s) _ out
              (close_session-IsValid s i e found sent now later b_in b_out server))

  pub ban-IsValid :
      (sid : Bytes) (accepted : Bool) → IsValid (handle_sec_auth_ban_ip_reply ht s sid accepted)
  unfolding handle_sec_auth_ban_ip_reply ban_found
  ban-IsValid sid accepted = if_both IsValid (not (length sid == sid_size)) s _ i (
      found_cases (λ o. IsValid (ban_found s accepted o)) sid i
        λ e mine found.
          if_both IsValid accepted s _ i
            (keep-IsValid s i e (record e { status = failed }) found refl refl))

  pub stats-IsOk :
      (sid : Bytes) (b_in b_out : ℕ) (reason : Option ℕ) (ip : Option Bytes) (pid now : ℕ)
      → IsOk (handle_sec_auth_stats_cmd ht s sid b_in b_out reason ip pid now)
  unfolding handle_sec_auth_stats_cmd stats_found
  stats-IsOk sid b_in b_out reason ip pid now =
      if_both IsOk (not (length sid == sid_size)) (err, s) _ i
        (found_cases (λ o. IsOk (stats_found s b_in b_out reason ip pid now o)) sid i
          λ e mine found.
            if_both IsOk (not (status_eq e.status completed)) (err, s) _ i
              (stats_session-IsValid s i e found b_in b_out reason ip pid now))

  cont_pass-IsOk :
      (a : Answers) (e : Client) (pass : Option Result) (m : Option Module)
      → find (same_sid e.sid) s.client_db ≡ some e
      → IsOk (cont_pass a s e pass m)
  unfolding cont_pass
  cont_pass-IsOk a e none m found = finish-IsValid s i e a negative e found refl refl
  cont_pass-IsOk a e (some r) none found = finish-IsValid s i e a negative e found refl refl
  cont_pass-IsOk a e (some r) (some m) found =
      finish-IsValid s i e a r (record e { status = cont }) found refl refl

  pub cont-IsOk :
      (a : Answers) (sid : Bytes) (pass : Option Result)
      → IsOk (handle_sec_auth_cont ht a s sid pass)
  unfolding handle_sec_auth_cont cont_found
  cont-IsOk a sid pass =
      if_both IsOk (not (length sid == sid_size)) (err, s) _ i
        (found_cases (λ o. IsOk (cont_found a s pass o)) sid i
          λ e mine found.
            if_both IsOk (not (status_eq e.status init || status_eq e.status cont)) _ _
              (finish-IsValid s i e a negative e found refl refl)
              (cont_pass-IsOk a e pass e.amod found))
