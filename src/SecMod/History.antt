-- ===== src/SecMod/History.antt =====
-- Histories of messages and timers (src/sec-mod-auth.c, src/sec-mod-db.c).
use ocserv.Prelude.{
  ℕ, ◌+◌, ◌≤◌, ◌≡◌, refl, inl, inr, Bool, false, not, Option, none, some, List, [], ◌∷◌, arith,
  Bytes, All, bytes_eq, Option-cases, if_both, length, ◌-◌, ◌==◌, take,
}
use ocserv.Table.{Htable, find, count}
use ocserv.SecMod.Entry.{Client, Sec, same_sid, is_expired}
use ocserv.SecMod.Db.{
  sec_mod_client_db_deinit, cleanup_client_entries, terminate_user_sessions,
  terminate_session_by_sid, safe_id_size,
}
use ocserv.SecMod.Step.{
  Op, auth_init, auth_cont, session_open, session_close, session_stats, ban_reply, cleanup,
  terminate_user, terminate_sid, step, run,
}
use ocserv.SecMod.Accounting.{
  IsValid, IsPaired, opens, closes, open_as, delete_where-IsValid, delete-IsValid,
  deinit-balanced_all,
}
use ocserv.SecMod.Created.{init-IsOk, found_self}
use ocserv.SecMod.Preserve.{open-IsOk, close-IsOk, ban-IsValid, stats-IsOk, cont-IsOk}

-- The virtual host of a new session has an accounting module with both functions, or with neither.
abbrev pub IsHosted : Op → Type 0
IsHosted (auth_init answers req a pid) = IsPaired req.vhost
IsHosted _ = Unit

terminate_user-IsValid :
    (s : Sec) (name : Option Bytes) → IsValid s → IsValid (terminate_user_sessions s name).1
unfolding terminate_user_sessions
terminate_user-IsValid s none i = i
terminate_user-IsValid s (some []) i = i
terminate_user-IsValid s (some (c ∷ name)) i = delete_where-IsValid _ s i

terminate_sid-IsValid :
    (s : Sec) (id : Option Bytes) → IsValid s → IsValid (terminate_session_by_sid s id).1
unfolding terminate_session_by_sid
terminate_sid-IsValid s none i = i
terminate_sid-IsValid s (some id) i =
    let hit = λ (e : Client). bytes_eq (take (safe_id_size - 1) e.safe_id) id in
    if_both (λ (r : Bool × Sec). IsValid r.1) (not (length id == safe_id_size - 1)) (false, s) _ i
      (elim (Option-cases (find hit s.client_db)) [
        | inl nothing ↦ rw nothing i
        | inr (e, got) ↦
            rw got (delete-IsValid e e s (found_self hit s.client_db e i.once got) refl i refl)
      ])

module _ (ht : Htable Client) where
  pub step-IsValid : (s : Sec) (o : Op) → IsHosted o → IsValid s → IsValid (step ht s o)
  unfolding step cleanup_client_entries
  step-IsValid s (auth_init answers req a pid) h i = init-IsOk answers req a pid h ht s i
  step-IsValid s (auth_cont a sid pass) h i = cont-IsOk ht s i a sid pass
  step-IsValid s (session_open a sid) h i = open-IsOk ht s i a sid
  step-IsValid s (session_close sent now later sid b_in b_out server) h i =
      close-IsOk ht s i sent now later sid b_in b_out server
  step-IsValid s (session_stats sid b_in b_out reason ip pid now) h i =
      stats-IsOk ht s i sid b_in b_out reason ip pid now
  step-IsValid s (ban_reply sid accepted) h i = ban-IsValid ht s i sid accepted
  step-IsValid s (cleanup now) h i = delete_where-IsValid (is_expired now) s i
  step-IsValid s (terminate_user name) h i = terminate_user-IsValid s name i
  step-IsValid s (terminate_sid safe_id) h i = terminate_sid-IsValid s safe_id i

  run_from-IsValid : (s : Sec) (os : List Op) → All IsHosted os → IsValid s → IsValid (run ht s os)
  unfolding run
  run_from-IsValid s [] h i = i
  run_from-IsValid s (o ∷ os) h i = run_from-IsValid (step ht s o) os h.1 (step-IsValid s o h.0 i)

  -- After any sequence of authentications, session messages, ban replies, terminations and
  -- cleanups that starts with an empty table and no event, at most one session stands under
  -- each identifier, and open_session of the accounting module has been called for it and has
  -- accepted as often as close_session has been called, and once more exactly if the session
  -- stands there open. When the process ends then (sec_mod_client_db_deinit), there are as many
  -- accepted calls of the one as calls of the other. The virtual hosts of
  -- new sessions are to have both functions of the accounting module, or none.
  pub run-opens-closes :
      (s : Sec) (os : List Op) (k : Bytes) (now : Client → ℕ)
      → s.client_db ≡ []
      → s.events ≡ []
      → All IsHosted os
      → let s' = run ht s os in
        (count (same_sid k) s'.client_db ≤ 1)
        × (count (opens k) s'.events ≡ count (closes k) s'.events + count (open_as k) s'.client_db)
        × (count (opens k) (sec_mod_client_db_deinit s' now).events
            ≡ count (closes k) (sec_mod_client_db_deinit s' now).events)
  unfolding count
  run-opens-closes s os k now no_entry no_event h =
      let start : IsValid s = record {
        once = λ x. rw no_entry (omega arith);
        paired = rw no_entry tt;
        balanced = λ x. rw (no_entry, no_event) refl;
      } in
      let end = run_from-IsValid s os h start in
      (end.once k, end.balanced k, deinit-balanced_all (run ht s os) now k end)
