-- ===== src/Resume.antt =====
-- The cache of TLS sessions in the security module (src/sec-mod-resume.c, src/tlslib.h).
use ocserv.Prelude.{
  ℕ, ◌+◌, ◌-◌, ◌*◌, ◌%◌, ◌^◌, Bool, true, false, not, ◌&&◌, ◌||◌, Option, none, some, List, [], ◌∷◌,
  Bytes, bytes_eq, ltb, leb, ◌==◌, length, if◌then◌else◌,
}
use ocserv.Address.{Storage, ip_cmp}
use ocserv.Table.{Chained, position}
pub mod Step
pub mod Counted
pub mod Answer
pub mod Refine
pub mod Roundtrip
mod Tests

-- An address of a client as a message brings it: its length and its bytes.
pub record Peer : Type 0 where
  pub len : ℕ
  pub addr : Storage

-- tls_cache_st
pub record Cache : Type 0 where
  pub remote : Peer
  pub session_id : Bytes
  pub session_data : Bytes
  pub vhostname : Option Bytes

-- tls_sess_db_st
pub record TlsDb : Type 0 where
  pub ht : List Cache
  pub entries : ℕ

-- SessionResumeFetchMsg and SessionResumeStoreReqMsg
pub record FetchReq : Type 0 where
  pub session_id : Bytes
  pub vhost : Option Bytes
  pub cli_addr : Peer

pub record StoreReq : Type 0 where
  pub session_id : Bytes
  pub session_data : Bytes
  pub vhost : Option Bytes
  pub cli_addr : Peer

-- Sizes: GNUTLS_MAX_SESSION_ID, MAX_SESSION_DATA_SIZE, sizeof(struct sockaddr_storage), and
-- DEFAULT_MAX_CACHED_TLS_SESSIONS.
abbrev pub max_session_id : ℕ
max_session_id = 32

abbrev pub max_session_data_size : ℕ
max_session_data_size = 4096

abbrev pub sockaddr_storage_size : ℕ
sockaddr_storage_size = 128

abbrev pub default_max_cached : ℕ
default_max_cached = 64

-- entries++ and entries-- on an unsigned int
abbrev pub increase : ℕ → ℕ
increase n = (n + 1) % 2 ^ 32

abbrev pub decrease : ℕ → ℕ
decrease n = (n + (2 ^ 32 - 1)) % 2 ^ 32

-- max = MAX(2 * max_clients, DEFAULT_MAX_CACHED_TLS_SESSIONS)
abbrev pub max_cached : ℕ → ℕ
max_cached max_clients =
    let twice = (2 * max_clients) % 2 ^ 32 in
    if ltb default_max_cached twice then twice else default_max_cached

abbrev pub has_id : Bytes → Cache → Bool
has_id id c = bytes_eq id c.session_id

-- req->vhost && cache->vhostname && strcasecmp(...) != 0
unfoldable pub names_differ : (Bytes → Bytes → Bool) → Option Bytes → Option Bytes → Bool
names_differ caseless none b = false
names_differ caseless (some a) none = false
names_differ caseless (some a) (some b) = not (caseless a b)

-- req->vhost != cache->vhostname, on the pointers: the entry has a copy of its own.
unfoldable pub pointers_differ : Option Bytes → Option Bytes → Bool
pointers_differ none none = false
pointers_differ none (some b) = true
pointers_differ (some a) b = true

abbrev pub same_peer : Peer → Peer → Bool
same_peer a b = (a.len == b.len) && ip_cmp a.addr b.addr

-- The loop of expire_tls_sessions, with the count of entries.
unfoldable pub expire_in : (Cache → Bool) → List Cache → ℕ → List Cache × ℕ
expire_in old [] n = ([], n)
expire_in old (c ∷ t) n =
    let gone = expire_in old t (decrease n) in
    let kept = expire_in old t n in if old c then gone else (c ∷ kept.0, kept.1)

-- now - exp > TLS_SESSION_EXPIRATION_TIME, where `entry_time` is gnutls_db_check_entry_time.
abbrev pub is_old : (Bytes → ℕ) → ℕ → ℕ → Cache → Bool
is_old entry_time timeout now c = ltb (entry_time c.session_data + timeout) now

unfoldable pub expire_tls_sessions : (Bytes → ℕ) → ℕ → ℕ → TlsDb → TlsDb
expire_tls_sessions entry_time timeout now s =
    let (t, n) = expire_in (is_old entry_time timeout now) s.ht s.entries in
    record { ht = t; entries = n }

-- What the allocations answer: talloc of the entry, and talloc_strdup of the name.
pub record Memory : Type 0 where
  pub entry : Bool
  pub name : Bool

-- The entry that handle_resume_store_req fills in.
unfoldable pub new_cache : Memory → StoreReq → Cache
new_cache m r = record {
  remote = r.cli_addr;
  session_id = r.session_id;
  session_data = r.session_data;
  vhostname = if m.name then r.vhost else none;
}

-- The loop of handle_resume_fetch_req over the candidates: the session data of an OK reply.
unfoldable pub fetch_in : (Bytes → Bytes → Bool) → FetchReq → List Cache → Option Bytes
fetch_in caseless r [] = none
fetch_in caseless r (c ∷ t) =
    let rest = fetch_in caseless r t in
    if not (has_id r.session_id c)
    then rest
    else if names_differ caseless r.vhost c.vhostname
    then none
    else if pointers_differ r.vhost c.vhostname
    then none
    else if same_peer r.cli_addr c.remote
    then some c.session_data
    else rest

-- hash_any on a session identifier
module _ (hash_any : Bytes → ℕ) (ct : Chained Cache (λ c. hash_any c.session_id)) where
  -- handle_resume_delete_req
  unfoldable pub handle_resume_delete_req : Bytes → TlsDb → TlsDb
  handle_resume_delete_req id s =
      let key = hash_any id in
      elim (position (has_id id) (ct.chain key s.ht)) [
        | none ↦ s
        | some i ↦ record { ht = ct.del key i s.ht; entries = decrease s.entries }
      ]

  -- handle_resume_fetch_req
  unfoldable pub handle_resume_fetch_req : (Bytes → Bytes → Bool) → FetchReq → TlsDb → Option Bytes
  handle_resume_fetch_req caseless r s = fetch_in caseless r (ct.chain (hash_any r.session_id) s.ht)

  -- The end of handle_resume_store_req: 0 also where the table has no room.
  unfoldable pub keep_cache : Cache → TlsDb → TlsDb
  keep_cache c s = elim (ct.add c s.ht) [
    | none ↦ s
    | some t ↦ record { ht = t; entries = increase s.entries }
  ]

  -- handle_resume_store_req; true stands for 0, false for -1.
  unfoldable pub handle_resume_store_req : ℕ → Memory → StoreReq → TlsDb → Bool × TlsDb
  handle_resume_store_req max_clients m r s =
      if ltb max_session_id (length r.session_id)
      then (false, s)
      else if (length r.session_data == 0) || ltb max_session_data_size (length r.session_data)
      then (false, s)
      else if leb (max_cached max_clients) s.entries
      then (false, s)
      else if (r.cli_addr.len == 0) || ltb sockaddr_storage_size r.cli_addr.len
      then (false, s)
      else if not m.entry
      then (false, s)
      else (true, keep_cache (new_cache m r) s)
