-- ===== src/SecMod/Gone.antt =====
-- A session that is gone stays gone (src/sec-mod-auth.c, src/sec-mod-db.c).
use ocserv.Prelude.{
  ℕ, ◌≡◌, refl, ◌∙◌, inl, inr, Bool, false, not, Option, none, some, List, [], ◌∷◌, arith, Bytes,
  All, Bool-cases, Option-cases, if_both, length, ◌==◌, ◌-◌, take, bytes_eq, bytes_eq_sound,
}
use ocserv.Table.{Htable, find, sweep}
use ocserv.SecMod.Entry.{Client, Sec, same_sid, is_expired}
use ocserv.SecMod.Db.{
  find_client_entry, cleanup_client_entries, terminate_user_sessions, terminate_session_by_sid,
  delete_where, del_client_entry, safe_id_size,
}
use ocserv.SecMod.Auth.{Answers, Result}
use ocserv.SecMod.Session.{
  OpenAnswers, refuse_session, open_found, close_found, ban_found, stats_found, cont_found,
  handle_secm_session_open_cmd, handle_secm_session_close_cmd, handle_sec_auth_ban_ip_reply,
  handle_sec_auth_stats_cmd, handle_sec_auth_cont,
}
use ocserv.SecMod.Step.{
  Op, auth_init, auth_cont, session_open, session_close, session_stats, ban_reply, cleanup,
  terminate_user, terminate_sid, step, run,
}
use ocserv.SecMod.Accounting.{IsValid}
use ocserv.SecMod.Isolation.{names, step-isolated}
use ocserv.SecMod.History.{IsHosted, step-IsValid}

-- The message does not begin an authentication.
abbrev pub IsOld : Op → Type 0
IsOld (auth_init answers req a pid) = ⊥
IsOld _ = Unit

-- No session stands under the identifier.
abbrev pub IsGone : Bytes → Sec → Type 0
IsGone sid s = find (same_sid sid) s.client_db ≡ none

stays_none : (p d : Client → Bool) (t : List Client) → find p t ≡ none → find p (sweep d t) ≡ none
unfolding find sweep
stays_none p d [] h = refl
stays_none p d (x ∷ t) h = ground (arith, stays_none p d t)

module _ (ht : Htable Client) (s : Sec) (i : IsValid s) (sid : Bytes) (gone : IsGone sid s) where
  missed : find_client_entry ht s sid ≡ none
  missed = ht.get-find (same_sid sid) s.client_db (i.once sid) ∙ gone

  -- An opening under the identifier is refused.
  pub open_gone : (a : OpenAnswers) → handle_secm_session_open_cmd ht a s sid ≡ refuse_session a s
  unfolding handle_secm_session_open_cmd open_found
  open_gone a = let none_there = missed in ground arith

  -- A message that names it changes no session.
  open_self : (a : OpenAnswers) → IsGone sid (handle_secm_session_open_cmd ht a s sid).1
  unfolding refuse_session
  open_self a = let refused = open_gone a in rw refused (ground (arith, gone))

  close_self :
      (sent : Bool) (now later : ℕ) (b_in b_out : Option ℕ) (server : Bool)
      → IsGone sid (handle_secm_session_close_cmd ht sent now later s sid b_in b_out server).1
  unfolding handle_secm_session_close_cmd close_found
  close_self sent now later b_in b_out server = let none_there = missed in ground (arith, gone)

  ban_self : (accepted : Bool) → IsGone sid (handle_sec_auth_ban_ip_reply ht s sid accepted)
  unfolding handle_sec_auth_ban_ip_reply ban_found
  ban_self accepted = let none_there = missed in ground (arith, gone)

  stats_self :
      (b_in b_out : ℕ) (reason : Option ℕ) (ip : Option Bytes) (pid now : ℕ)
      → IsGone sid (handle_sec_auth_stats_cmd ht s sid b_in b_out reason ip pid now).1
  unfolding handle_sec_auth_stats_cmd stats_found
  stats_self b_in b_out reason ip pid now = let none_there = missed in ground (arith, gone)

  cont_self :
      (a : Answers) (pass : Option Result) → IsGone sid (handle_sec_auth_cont ht a s sid pass).1
  unfolding handle_sec_auth_cont cont_found
  cont_self a pass = let none_there = missed in ground (arith, gone)

terminate_user-IsGone :
    (s : Sec) (sid : Bytes) (name : Option Bytes)
    → IsGone sid s
    → IsGone sid (terminate_user_sessions s name).1
unfolding terminate_user_sessions delete_where
terminate_user-IsGone s sid none gone = gone
terminate_user-IsGone s sid (some []) gone = gone
terminate_user-IsGone s sid (some (c ∷ name)) gone = stays_none (same_sid sid) _ s.client_db gone

terminate_sid-IsGone :
    (s : Sec) (sid : Bytes) (id : Option Bytes)
    → IsGone sid s
    → IsGone sid (terminate_session_by_sid s id).1
unfolding terminate_session_by_sid del_client_entry
terminate_sid-IsGone s sid none gone = gone
terminate_sid-IsGone s sid (some id) gone =
    let hit = λ (e : Client). bytes_eq (take (safe_id_size - 1) e.safe_id) id in
    if_both (λ (r : Bool × Sec). IsGone sid r.1) (not (length id == safe_id_size - 1)) (false, s) _
      gone
      (elim (Option-cases (find hit s.client_db)) [
        | inl nothing ↦ rw nothing gone
        | inr (e, got) ↦ rw got (stays_none (same_sid sid) (same_sid e.sid) s.client_db gone)
      ])

module _ (ht : Htable Client) (sid : Bytes) where
  -- A message that names a session finds no session under the identifier, or is about another one.
  named :
      (s : Sec) (o : Op) (id : Bytes)
      → IsValid s
      → IsGone sid s
      → names o ≡ some id
      → (id ≡ sid → IsGone sid (step ht s o))
      → IsGone sid (step ht s o)
  named s o id i gone name self = elim (Bool-cases (bytes_eq id sid)) [
    | inl same ↦ self (bytes_eq_sound id sid same)
    | inr other ↦ step-isolated ht s o id sid i name other ∙ gone
  ]

  step-IsGone : (s : Sec) (o : Op) → IsOld o → IsValid s → IsGone sid s → IsGone sid (step ht s o)
  unfolding step cleanup_client_entries delete_where
  step-IsGone s (auth_init answers req a pid) old i gone = absurd old
  step-IsGone s (auth_cont a id pass) old i gone =
      named s (auth_cont a id pass) id i gone refl
        λ same. rw same (cont_self ht s i sid gone a pass)
  step-IsGone s (session_open a id) old i gone =
      named s (session_open a id) id i gone refl λ same. rw same (open_self ht s i sid gone a)
  step-IsGone s (session_close sent now later id b_in b_out server) old i gone =
      named s (session_close sent now later id b_in b_out server) id i gone refl
        λ same. rw same (close_self ht s i sid gone sent now later b_in b_out server)
  step-IsGone s (session_stats id b_in b_out reason ip pid now) old i gone =
      named s (session_stats id b_in b_out reason ip pid now) id i gone refl
        λ same. rw same (stats_self ht s i sid gone b_in b_out reason ip pid now)
  step-IsGone s (ban_reply id accepted) old i gone =
      named s (ban_reply id accepted) id i gone refl
        λ same. rw same (ban_self ht s i sid gone accepted)
  step-IsGone s (cleanup now) old i gone =
      stays_none (same_sid sid) (is_expired now) s.client_db gone
  step-IsGone s (terminate_user name) old i gone = terminate_user-IsGone s sid name gone
  step-IsGone s (terminate_sid safe_id) old i gone = terminate_sid-IsGone s sid safe_id gone

  old-IsHosted : (o : Op) → IsOld o → IsHosted o
  old-IsHosted (auth_init answers req a pid) old = absurd old
  old-IsHosted (auth_cont a id pass) old = tt
  old-IsHosted (session_open a id) old = tt
  old-IsHosted (session_close sent now later id b_in b_out server) old = tt
  old-IsHosted (session_stats id b_in b_out reason ip pid now) old = tt
  old-IsHosted (ban_reply id accepted) old = tt
  old-IsHosted (cleanup now) old = tt
  old-IsHosted (terminate_user name) old = tt
  old-IsHosted (terminate_sid safe_id) old = tt

  -- In a history in which no authentication begins, the session stays gone.
  pub run-IsGone :
      (s : Sec) (os : List Op)
      → All IsOld os
      → IsValid s
      → IsGone sid s
      → IsValid (run ht s os) × IsGone sid (run ht s os)
  unfolding run
  run-IsGone s [] old i gone = (i, gone)
  run-IsGone s (o ∷ os) old i gone =
      run-IsGone (step ht s o) os old.1 (step-IsValid ht s o (old-IsHosted o old.0) i)
        (step-IsGone s o old.0 i gone)
