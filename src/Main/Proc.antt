-- ===== src/Main/Proc.antt =====
-- The state of the main process that is about its clients (src/main.h).
use ocserv.Prelude.{ℕ, Bool, Option, List, Bytes, ◌==◌, if◌then◌else◌}
use ocserv.Address.{Storage}
use ocserv.SecMod.Entry.{Status}
use ocserv.Lease.Entry.{Lease}
use ocserv.Lease.Assign
use ocserv.Main.Index.{Index}

-- A socket address with its port.
pub record Sockaddr : Type 0 where
  pub address : Storage
  pub port : ℕ

-- struct proc_st, without the descriptors, the watchers of events, the tun device, the index of the
-- security module, and the texts and numbers that are kept for reports. `pid` is `none` for -1; of the configuration there is the limit of
-- sessions, `none` where none is set yet, and the leases are those of src/ip-lease.c.
pub record Proc : Type 0 where
  pub pid : Option ℕ
  pub pid_killed : Bool
  pub udp_fd_receive_time : ℕ
  pub conn_time : ℕ
  pub lease : Assign.Proc
  pub remote_addr : Sockaddr
  pub remote_addr_len : ℕ
  pub dtls_remote_addr : Sockaddr
  pub dtls_remote_addr_len : ℕ
  pub sid : Bytes
  pub active_sid : Bool
  pub session_start_time : ℕ
  pub invalidated : Bool
  pub dtls_session_id : Bytes
  pub username : Bytes
  pub groupname : Bytes
  pub hostname : Bytes
  pub max_same_clients : Option ℕ
  pub status : Status

-- What the main process does to others: a signal to a process, the message that closes a session
-- of the security module, and the script for a client that leaves.
pub data Event : Type 0 where
  kill : ℕ → Event
  session_close : Bytes → Event
  user_disconnected : Bytes → Event

-- The part of main_server_st that is about clients. `procs` is what stands at a pointer;
-- `proc_list` the pointers in the list, and the four tables those of struct proc_hash_db_st.
pub record Server (ix : Index) : Type 0 where
  pub procs : ℕ → Option Proc
  pub proc_list : List ℕ
  pub active_clients : ℕ
  pub db_ip : ix.Filed
  pub db_dtls_ip : ix.Filed
  pub db_dtls_id : ix.Filed
  pub db_sid : ix.Filed
  pub total : ℕ
  pub leases : List Lease
  pub events : List Event

-- Memory with a new content at a pointer.
abbrev pub put : ℕ → Option Proc → (ℕ → Option Proc) → ℕ → Option Proc
put p o procs x = if x == p then o else procs x
