-- ===== src/SecMod/Entry.antt =====
-- The state of the security module (src/sec-mod.h, src/defs.h), with what it sends out.
use ocserv.Prelude.{
  ℕ, ◌+◌, ◌-◌, ◌*◌, ◌/◌, ◌%◌, Bool, true, false, ◌&&◌, Option, List, ◌∷◌, Bytes, bytes_eq, leb,
  ◌==◌, take, drop, get_or,
}

-- PS_AUTH_*
pub data Status : Type 0 where
  inactive failed init cont completed : Status

unfoldable pub status_eq : Status → Status → Bool
status_eq inactive inactive = true
status_eq failed failed = true
status_eq init init = true
status_eq cont cont = true
status_eq completed completed = true
status_eq _ _ = false

-- REASON_*, with 0 for none
abbrev pub reason_user_disconnect : ℕ
reason_user_disconnect = 2

abbrev pub reason_server_disconnect : ℕ
reason_server_disconnect = 3

abbrev pub reason_session_timeout : ℕ
reason_session_timeout = 7

abbrev pub auth_slack_time : ℕ
auth_slack_time = 15

abbrev pub sid_size : ℕ
sid_size = 32

-- stats_st
pub record Stats : Type 0 where
  pub bytes_in : ℕ
  pub bytes_out : ℕ

-- The functions that an auth_mod_st may lack, or tells of itself.
pub record Module : Type 0 where
  pub allows_retries : Bool
  pub has_auth_group : Bool

-- One entry of vhost->static_config.auth: `kind` is its type, a set of bits.
pub record Method : Type 0 where
  pub enabled : Bool
  pub kind : ℕ
  pub amod : Option Module

-- The parts of vhost_cfg_st that are read. `acct_*` say whether the accounting module has the
-- function.
pub record Vhost : Type 0 where
  pub cookie_timeout : ℕ
  pub persistent_cookies : Bool
  pub auth_timeout : ℕ
  pub max_ban_score : ℕ
  pub ban_points_wrong_password : ℕ
  pub cert_user_oid : Option Bytes
  pub cert_group_oid : Option Bytes
  pub acct_open : Bool
  pub acct_close : Bool
  pub acct_stats : Bool
  pub methods : List Method

-- client_entry_st. `id`, `username` and the like are those of acct_info; `auth_ctx` is left out.
pub record Client : Type 0 where
  pub sid : Bytes
  pub session_is_open : Bool
  pub in_use : ℕ
  pub tls_auth_ok : Bool
  pub msg_str : Option Bytes
  pub passwd_counter : ℕ
  pub saved_stats : Stats
  pub stats : Stats
  pub status : Status
  pub created : ℕ
  pub exptime : ℕ
  pub auth_type : ℕ
  pub discon_reason : ℕ
  pub username : Bytes
  pub groupname : Bytes
  pub safe_id : Bytes
  pub remote_ip : Bytes
  pub id : ℕ
  pub uptime : ℕ
  pub req_group_name : Bytes
  pub cert_group_names : List Bytes
  pub cert_user_name : Bytes
  pub amod : Option Module
  pub vhost : Vhost

-- What leaves the security module: replies to the worker and to the main process, and calls of
-- the accounting module: acct_refused is a call of open_session that is answered by a refusal.
pub data Event : Type 0 where
  auth_ok : Bytes → Bytes → Event
  auth_failed : Event
  auth_msg : Bytes → Event
  ban_ip : Bytes → ℕ → Event
  session_ok : Bytes → Event
  session_failed : Event
  cli_stats : Stats → ℕ → Event
  acct_open : Bytes → Event
  acct_refused : Bytes → Event
  acct_stats : Bytes → Stats → Event
  acct_close : Bytes → Stats → ℕ → Event

-- sec_mod_st. `events` is what has left, newest first.
pub record Sec : Type 0 where
  pub client_db : List Client
  pub auth_failures : ℕ
  pub max_auth_time : ℕ
  pub avg_auth_time : ℕ
  pub total_authentications : ℕ
  pub instance_index : ℕ
  pub events : List Event

-- IS_CLIENT_ENTRY_EXPIRED. Nothing stores -1 in exptime.
abbrev pub is_expired : ℕ → Client → Bool
is_expired now e = leb e.exptime now && (e.in_use == 0)

-- client_entry_cmp
abbrev pub same_sid : Bytes → Client → Bool
same_sid sid e = bytes_eq e.sid sid

-- strlcpy into an array of the given size
abbrev pub strlcpy : ℕ → Bytes → Bytes
strlcpy size src = take (size - 1) src

-- sec_mod_instance_index_put, on a buffer of random bytes
unfoldable pub instance_index_put : ℕ → Bytes → Bytes
instance_index_put index out = (index / 256 % 256) ∷ (index % 256) ∷ drop 2 out

-- sec_mod_instance_index_get
unfoldable pub instance_index_get : Bytes → ℕ
instance_index_get sid = get_or sid 0 0 * 256 + get_or sid 1 0

abbrev pub zero_stats : Stats
zero_stats = record { bytes_in = 0; bytes_out = 0 }

-- stats_add_to
abbrev pub stats_add : Stats → Stats → Stats
stats_add a b = record { bytes_in = a.bytes_in + b.bytes_in; bytes_out = a.bytes_out + b.bytes_out }
