-- ===== src/Main/Clients.antt =====
-- The list of clients (src/main-proc.c).
use ocserv.Prelude.{
  ℕ, ◌+◌, ◌-◌, ◌%◌, ◌^◌, Bool, false, not, ◌&&◌, Option, none, some, List, [], ◌∷◌, Bytes, ◌==◌,
  if◌then◌else◌, replicate,
}
use ocserv.SecMod.Entry.{sid_size, inactive, completed, status_eq}
use ocserv.Table.{sweep}
use ocserv.Lease.Assign
use ocserv.Main.Index.{Index}
use ocserv.Main.Proc.{Sockaddr, Proc, Server, Event, kill, session_close, user_disconnected, put}
use ocserv.Main.Search.{proc_table_del}

-- A zeroed client, with the fields that new_proc sets; `lease` has no leases.
abbrev pub blank_proc : ℕ → ℕ → Sockaddr → ℕ → Assign.Proc → Sockaddr → Proc
blank_proc pid now addr len lease zero_addr = record {
  pid = some pid;
  pid_killed = false;
  udp_fd_receive_time = 0;
  conn_time = now;
  lease = lease;
  remote_addr = addr;
  remote_addr_len = len;
  dtls_remote_addr = zero_addr;
  dtls_remote_addr_len = 0;
  sid = replicate sid_size 0;
  active_sid = false;
  session_start_time = 0;
  invalidated = false;
  dtls_session_id = [];
  username = [];
  groupname = [];
  hostname = [];
  max_same_clients = none;
  status = inactive;
}

module _ (ix : Index) where
  -- new_proc, at the pointer that talloc_zero gives.
  unfoldable pub new_proc : Option ℕ → Proc → Server ix → Server ix
  new_proc none q s = s
  new_proc (some p) q s = record s {
    procs = put p (some q) s.procs;
    proc_list = p ∷ s.proc_list;
    active_clients = (s.active_clients + 1) % 2 ^ 32;
  }

  abbrev pub emit_if : Bool → Event → List Event → List Event
  emit_if b v events = if b then v ∷ events else events

  -- What remove_proc sends, in this order: the signal, the end of the session, and the script, which
  -- runs for a client that is logged in, or for one whose script for connecting ran (`script`) and
  -- ended well.
  unfoldable pub farewell : Bool → Bool → Option Bool → Proc → List Event → List Event
  farewell kills quit script q events =
      let killed : List Event = elim q.pid [
        | none ↦ events
        | some pid ↦ emit_if (kills && not (pid == 0)) (kill pid) events
      ] in
      let closed = emit_if (q.active_sid && not quit) (session_close q.sid) killed in
      emit_if (elim script [ none ↦ status_eq q.status completed | some fine ↦ fine ])
        (user_disconnected q.username) closed

  -- remove_proc, where session_close does not fail; otherwise the process ends.
  unfoldable pub remove_proc :
      (Bytes → ℕ) → Bool → Bool → Option Bool → ℕ → Proc → Server ix → Server ix
  remove_proc hash_any kills quit script p q s =
      let s' = proc_table_del hash_any ix p q s in
      record s' {
        procs = put p none s.procs;
        proc_list = sweep (λ x. x == p) s.proc_list;
        active_clients = if s.active_clients == 0 then 2 ^ 32 - 1 else s.active_clients - 1;
        leases = (Assign.remove_ip_leases q.lease s.leases).1;
        events = farewell kills quit script q s.events;
      }
