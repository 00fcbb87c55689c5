-- ===== src/Resume/Step.antt =====
-- The requests to the cache of TLS sessions, and their histories (src/sec-mod-resume.c).
use ocserv.Prelude.{ℕ, Bool, Option, none, List, [], ◌∷◌, Bytes}
use ocserv.Table.{Chained}
use ocserv.Resume.{
  Cache, TlsDb, FetchReq, StoreReq, Memory, handle_resume_delete_req, handle_resume_fetch_req,
  handle_resume_store_req, expire_tls_sessions,
}

-- A request or the timer.
pub data Op : Type 0 where
  store : Memory → StoreReq → Op
  fetch : FetchReq → Op
  delete : Bytes → Op
  expire : ℕ → Op

-- What does not change while the module runs: max_clients, the age at which sessions expire,
-- strcasecmp and gnutls_db_check_entry_time.
pub record World : Type 0 where
  pub max_clients : ℕ
  pub timeout : ℕ
  pub caseless : Bytes → Bytes → Bool
  pub entry_time : Bytes → ℕ

module _ (hash_any : Bytes → ℕ) (ct : Chained Cache (λ c. hash_any c.session_id)) (w : World) where
  unfoldable pub step : TlsDb → Op → TlsDb
  step s (store m r) = (handle_resume_store_req hash_any ct w.max_clients m r s).1
  step s (fetch r) = s
  step s (delete id) = handle_resume_delete_req hash_any ct id s
  step s (expire now) = expire_tls_sessions w.entry_time w.timeout now s

  -- The session data that the step answers with.
  unfoldable pub reply : TlsDb → Op → Option Bytes
  reply s (store m r) = none
  reply s (fetch r) = handle_resume_fetch_req hash_any ct w.caseless r s
  reply s (delete id) = none
  reply s (expire now) = none

  unfoldable pub run : TlsDb → List Op → TlsDb
  run s [] = s
  run s (o ∷ os) = run (step s o) os
