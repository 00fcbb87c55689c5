-- ===== src/Main/Auth.antt =====
-- A worker asks for a session by its cookie (src/main-auth.c, src/main-sec-mod-cmd.c,
-- src/main-worker-cmd.c).
use ocserv.Prelude.{
  ℕ, suc, Bool, true, false, not, ◌&&◌, ◌||◌, Option, none, some, List, [], ◌∷◌, Bytes, bytes_eq,
  ◌==◌, if◌then◌else◌, ltb, length,
}
use ocserv.SecMod.Entry.{
  sid_size, Status, inactive, failed, completed, status_eq, strlcpy, instance_index_get,
}
use ocserv.SecMod.Checks.{max_username_size, max_groupname_size}
use ocserv.Lease.Assign.{steal_ip_leases}
use ocserv.Main.Index.{Index}
use ocserv.Main.Proc.{Proc, Server, kill, put}
use ocserv.Main.Search.{proc_table_add, proc_search_sid}

abbrev pub max_hostname_size : ℕ
max_hostname_size = 64

-- The reply of the security module, SecmSessionReplyMsg; the configuration is its limit of
-- sessions, as apply_default_config leaves it, and whether it denies roaming.
pub record Reply : Type 0 where
  pub ok : Bool
  pub session_start_time : ℕ
  pub username : Option Bytes
  pub groupname : Option Bytes
  pub config : Option (ℕ × Bool)
  pub ip : Option Bytes

-- What the libraries and the other processes answer to one request: the reply, if it is received;
-- the new identifier for DTLS, if there are random bytes; the text of the client's address; whether
-- there is memory for the copies of the leases; whether a tun device is opened; what the script for
-- connecting is about (0, ERR_WAIT_FOR_SCRIPT, another error); whether the answer is sent; and
-- whether the routes of the client are set.
pub data Script : Type 0 where
  no_script wait_for_script script_error : Script

pub record Env : Type 0 where
  pub reply : Option Reply
  pub rnd : Option Bytes
  pub human_addr : Option Bytes
  pub memory4 : Bool
  pub memory6 : Bool
  pub tun : Bool
  pub script : Script
  pub sent : Bool
  pub routes : Bool

-- AuthCookieRequestMsg
pub record CookieReq : Type 0 where
  pub cookie : Bytes
  pub hostname : Option Bytes

-- The check of session_open for a client that may not roam.
unfoldable pub check_roaming : Option Bytes → Option Bytes → Bool
check_roaming ip none = false
check_roaming none (some text) = false
check_roaming (some a) (some text) = bytes_eq text a

-- What session_open takes from the reply: whether it returns 0, and the client.
unfoldable pub read_reply : Option Bytes → Reply → Proc → Bool × Proc
read_reply text r q = if not r.ok then (false, q) else elim r.username [
  | none ↦ (false, record q { session_start_time = r.session_start_time })
  | some name ↦
      (let named : Proc = record q {
        session_start_time = r.session_start_time;
        username = strlcpy max_username_size name;
        groupname = elim r.groupname [ none ↦ q.groupname | some g ↦ strlcpy max_groupname_size g ];
      } in
        elim r.config [
          | none ↦ (false, named)
          | some c ↦
              (not c.1 || check_roaming r.ip text, record named { max_same_clients = some c.0 })
        ])
]

-- session_open
unfoldable pub session_open : Env → Proc → Bool × Proc
session_open v q = elim v.reply [ none ↦ (false, q) | some r ↦ read_reply v.human_addr r q ]

-- kill_proc, if the client has a process.
unfoldable pub kill_old : {ix : Index} → Proc → Server ix → Proc × Server ix
kill_old old s = elim old.pid [
  | none ↦ (old, s)
  | some pid ↦
      if pid == 0
      then (old, s)
      else (record old { pid_killed = true }, record s { events = kill pid ∷ s.events })
]

-- pid != -1
abbrev pub runs : Option ℕ → Bool
runs none = false
runs (some pid) = true

module _ (hash_any : Bytes → ℕ) (ix : Index) where
  -- The part of handle_auth_cookie_req for a client with the same session: whether it goes on, and
  -- the client that asks.
  unfoldable pub reuse : Env → Option ℕ → Proc → Server ix → Bool × Proc × Server ix
  reuse v none q s = (true, q, s)
  reuse v (some p) q s = elim (s.procs p) [
    | none ↦ (true, q, s)
    | some old ↦
        if not (bytes_eq q.username old.username)
        then (false, q, s)
        else (let (left, taken) = steal_ip_leases v.memory4 v.memory6 old.lease q.lease in
            let (old', s') = kill_old (record old { lease = left }) s in
            (true, record q { lease = taken }, record s' { procs = put p (some old') s'.procs }))
  ]

  -- old_proc->invalidated != 0
  unfoldable pub is_invalidated : Option ℕ → Server ix → Bool
  is_invalidated none s = false
  is_invalidated (some p) s = elim (s.procs p) [ none ↦ false | some old ↦ old.invalidated ]

  -- The end of handle_auth_cookie_req.
  unfoldable pub set_session : CookieReq → ℕ → Bool × Proc × Server ix → Bool × Server ix
  set_session req p (fine, q, s) =
      let q' : Proc = record q {
        sid = req.cookie;
        active_sid = true;
        hostname = elim req.hostname [ none ↦ q.hostname | some h ↦ strlcpy max_hostname_size h ];
      } in
      if not fine
      then (false, record s { procs = put p (some q) s.procs })
      else proc_table_add hash_any ix p q' (record s { procs = put p (some q') s.procs })

  -- handle_auth_cookie_req: whether it returns 0. The client `q` stands at `p`.
  unfoldable pub handle_auth_cookie_req : Env → CookieReq → ℕ → Proc → Server ix → Bool × Server ix
  handle_auth_cookie_req v req p q s =
      if not (length req.cookie == sid_size) then (false, s) else elim v.rnd [
        | none ↦ (false, s)
        | some id ↦
            (let q₁ : Proc = record q { dtls_session_id = id } in
              let old = proc_search_sid hash_any ix req.cookie s in
              let (opened, q₂) = session_open v q₁ in
              if is_invalidated old s
              then (false, record s { procs = put p (some q₁) s.procs })
              else if not opened
              then (false, record s { procs = put p (some q₂) s.procs })
              else set_session req p (reuse v old q₂ s))
      ]

  -- The loop of check_multiple_users: whether it comes to its end.
  unfoldable pub count_users : ℕ → Bytes → ℕ → ℕ → Server ix → List ℕ → Bool
  count_users p name limit entries s [] = true
  count_users p name limit entries s (x ∷ list) =
      let rest = count_users p name limit entries s list in
      let more = count_users p name limit (suc entries) s list in
      elim (s.procs x) [
        | none ↦ rest
        | some q ↦
            if not (x == p) && (runs q.pid && (not q.pid_killed && bytes_eq name q.username))
            then (if ltb limit (suc entries) then false else more)
            else rest
      ]

  -- check_multiple_users: whether it returns 0.
  unfoldable pub check_multiple_users : ℕ → Proc → ℕ → Server ix → Bool
  check_multiple_users p q limit s =
      if limit == 0 then true else count_users p q.username limit 1 s s.proc_list

  -- handle_script_exit: whether it returns 0, and the client.
  unfoldable pub handle_script_exit : Env → Bool → Proc → Bool × Proc
  handle_script_exit v succeeded q =
      if not v.sent
      then (false, q)
      else if not succeeded
      then (true, q)
      else if not v.routes
      then (false, q)
      else (true, record q { status = completed })

  -- The client at a pointer gets a status.
  abbrev pub set_status : ℕ → Status → Server ix → Server ix
  set_status p status s = elim (s.procs p) [
    | none ↦ s
    | some q ↦ record s { procs = put p (some (record q { status = status })) s.procs }
  ]

  -- The end of handle_cookie_auth_res, where no script is waited for.
  unfoldable pub finish : Env → Bool → ℕ → Status → Server ix → Bool × Server ix
  finish v succeeded p status s = elim (s.procs p) [
    | none ↦ (false, s)
    | some q ↦
        (let (fine, q') = handle_script_exit v succeeded (record q { status = status }) in
          (
            fine,
            record s {
              procs = put p (some (if fine then q' else record q' { status = failed })) s.procs;
            },
          ))
  ]

  -- accept_user: 0, ERR_WAIT_FOR_SCRIPT or another error. The limit is that of the configuration.
  unfoldable pub accept_user : Env → ℕ → Server ix → Script
  accept_user v p s = elim (s.procs p) [
    | none ↦ script_error
    | some q ↦
        if not
          (elim q.max_same_clients [ none ↦ true | some limit ↦ check_multiple_users p q limit s ])
        then script_error
        else if not v.tun
        then script_error
        else v.script
  ]

  -- handle_cookie_auth_res: whether it returns 0.
  unfoldable pub handle_cookie_auth_res : Env → ℕ → Bool × Server ix → Bool × Server ix
  handle_cookie_auth_res v p (false, s) = finish v false p failed s
  handle_cookie_auth_res v p (true, s) = elim (accept_user v p s) [
    | no_script ↦ finish v true p completed s
    | wait_for_script ↦ (true, set_status p failed s)
    | script_error ↦ finish v false p failed s
  ]

  -- The case AUTH_COOKIE_REQ of handle_worker_commands, with the number of security modules.
  unfoldable pub auth_cookie_req : ℕ → Env → CookieReq → ℕ → Proc → Server ix → Bool × Server ix
  auth_cookie_req instances v req p q s =
      if not (status_eq q.status inactive) || not (length req.cookie == sid_size)
      then (false, s)
      else if not (ltb (instance_index_get req.cookie) instances)
      then handle_cookie_auth_res v p (false, s)
      else handle_cookie_auth_res v p (handle_auth_cookie_req v req p q s)
