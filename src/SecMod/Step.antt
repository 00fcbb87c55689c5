-- ===== src/SecMod/Step.antt =====
-- The messages that the security module serves, and their histories (src/sec-mod-auth.c,
-- src/sec-mod-db.c).
use ocserv.Prelude.{ℕ, Bool, Option, List, [], ◌∷◌, Bytes}
use ocserv.Table.{Htable}
use ocserv.SecMod.Entry.{Client, Sec}
use ocserv.SecMod.Db.{cleanup_client_entries, terminate_user_sessions, terminate_session_by_sid}
use ocserv.SecMod.Auth.{Answers, Result}
use ocserv.SecMod.Session.{
  OpenAnswers, handle_secm_session_open_cmd, handle_secm_session_close_cmd,
  handle_sec_auth_ban_ip_reply, handle_sec_auth_stats_cmd, handle_sec_auth_cont,
}
use ocserv.SecMod.Init.{InitReq, InitAnswers, handle_sec_auth_init}

-- A message or a timer, with what the environment answers while it is served.
pub data Op : Type 0 where
  auth_init : Answers → InitReq → InitAnswers → ℕ → Op
  auth_cont : Answers → Bytes → Option Result → Op
  session_open : OpenAnswers → Bytes → Op
  session_close : Bool → ℕ → ℕ → Bytes → Option ℕ → Option ℕ → Bool → Op
  session_stats : Bytes → ℕ → ℕ → Option ℕ → Option Bytes → ℕ → ℕ → Op
  ban_reply : Bytes → Bool → Op
  cleanup : ℕ → Op
  terminate_user : Option Bytes → Op
  terminate_sid : Option Bytes → Op

module _ (ht : Htable Client) where
  unfoldable pub step : Sec → Op → Sec
  step s (auth_init answers req a pid) = (handle_sec_auth_init ht answers req a pid s).1
  step s (auth_cont a sid pass) = (handle_sec_auth_cont ht a s sid pass).1
  step s (session_open a sid) = (handle_secm_session_open_cmd ht a s sid).1
  step s (session_close sent now later sid i o server) =
      (handle_secm_session_close_cmd ht sent now later s sid i o server).1
  step s (session_stats sid i o reason ip pid now) =
      (handle_sec_auth_stats_cmd ht s sid i o reason ip pid now).1
  step s (ban_reply sid accepted) = handle_sec_auth_ban_ip_reply ht s sid accepted
  step s (cleanup now) = cleanup_client_entries s now
  step s (terminate_user name) = (terminate_user_sessions s name).1
  step s (terminate_sid safe_id) = (terminate_session_by_sid s safe_id).1

  unfoldable pub run : Sec → List Op → Sec
  run s [] = s
  run s (o ∷ os) = run (step s o) os
