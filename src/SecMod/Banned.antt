-- ===== src/SecMod/Banned.antt =====
-- Sessions whose address turned out to be banned (src/sec-mod-auth.c, src/sec-mod-db.c).
use mathlib.Core.Option
use ocserv.Prelude.{
  ℕ, ◌≤◌, ◌≡◌, ◌∙◌, inl, inr, Bool, false, Option, none, some, List, [], ◌∷◌, arith, Bytes,
  Bool-cases, All, bytes_eq, bytes_eq_sound,
}
use ocserv.Table.{Htable, find, find-sweep}
use ocserv.SecMod.Entry.{Client, Sec, same_sid, status_eq, failed, completed, is_expired}
use ocserv.SecMod.Db.{find_client_entry}
use ocserv.SecMod.Session.{handle_secm_session_close_cmd, close_found}
use ocserv.SecMod.Step.{
  Op, auth_init, auth_cont, session_open, session_close, session_stats, ban_reply, cleanup,
  terminate_user, terminate_sid, step, run,
}
use ocserv.SecMod.Accounting.{IsValid, delete_where-IsValid}
use ocserv.SecMod.Isolation.{session_close-Spares}
use ocserv.SecMod.Preserve.{close-IsOk}
use ocserv.SecMod.Db.{cleanup_client_entries, delete_where}

-- The messages at the end of connections, and the timer.
abbrev pub IsEnd : Op → Type 0
IsEnd (session_close sent now later sid b_in b_out server) = Unit
IsEnd (cleanup now) = Unit
IsEnd _ = ⊥

-- No entry, or one that is not completely authenticated.
abbrev IsUnfit : Option Client → Type 0
IsUnfit none = Unit
IsUnfit (some e) = status_eq e.status completed ≡ false

module _ (ht : Htable Client) (sid : Bytes) (e : Client) where
  -- The entry stands there, used and failed.
  abbrev Stranded : Sec → Type 0
  Stranded s = IsValid s × (find (same_sid sid) s.client_db ≡ some e)

  module _ (failed_entry : e.status ≡ failed) (used : 1 ≤ e.in_use) where
    close-Stranded :
        (s : Sec)
        → Stranded s
        → (sent : Bool) (now later : ℕ) (b_in b_out : Option ℕ) (server : Bool)
        → find
            (same_sid sid)
            (handle_secm_session_close_cmd ht sent now later s sid b_in b_out server).1.client_db
          ≡ some e
    unfolding handle_secm_session_close_cmd close_found status_eq
    close-Stranded s (i, found) sent now later b_in b_out server =
        let got : find_client_entry ht s sid ≡ some e =
          ht.get-find (same_sid sid) s.client_db (i.once sid) ∙ found in
        ground arith

    step-Stranded : (s : Sec) (o : Op) → IsEnd o → Stranded s → Stranded (step ht s o)
    unfolding step cleanup_client_entries delete_where
    step-Stranded s (session_close sent now later id b_in b_out server) h (i, found) = (
      close-IsOk ht s i sent now later id b_in b_out server,
      elim (Bool-cases (bytes_eq id sid)) [
        | inl hit ↦
            rw (bytes_eq_sound id sid hit)
              (close-Stranded s (i, found) sent now later b_in b_out server)
        | inr miss ↦
            session_close-Spares ht sid s i id miss sent now later b_in b_out server ∙ found
      ],
    )
    step-Stranded s (cleanup now) h (i, found) = (
      delete_where-IsValid (is_expired now) s i,
      find-sweep (same_sid sid) (is_expired now) s.client_db e (i.once sid) found ∙ ground arith,
    )
    step-Stranded s (auth_init answers req a pid) h t = absurd h
    step-Stranded s (auth_cont a id pass) h t = absurd h
    step-Stranded s (session_open a id) h t = absurd h
    step-Stranded s (session_stats id b_in b_out reason ip pid now) h t = absurd h
    step-Stranded s (ban_reply id accepted) h t = absurd h
    step-Stranded s (terminate_user name) h t = absurd h
    step-Stranded s (terminate_sid id) h t = absurd h

    run-Stranded : (s : Sec) (os : List Op) → All IsEnd os → Stranded s → Stranded (run ht s os)
    unfolding run
    run-Stranded s [] h t = t
    run-Stranded s (o ∷ os) h t = run-Stranded (step ht s o) os h.1 (step-Stranded s o h.0 t)
