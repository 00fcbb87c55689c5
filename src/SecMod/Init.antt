-- ===== src/SecMod/Init.antt =====
-- The start of an authentication (set_module and handle_sec_auth_init, src/sec-mod-auth.c).
use Prim.Native.Nat.{bit_and}
use ocserv.Prelude.{
  ℕ, ◌+◌, Bool, not, ◌&&◌, Option, none, some, List, [], ◌∷◌, Bytes, ltb, take, ◌==◌, if◌then◌else◌,
}
use ocserv.Table.{Htable}
use ocserv.SecMod.Entry.{Client, Module, Method, Vhost, Sec, failed, init, status_eq, strlcpy}
use ocserv.SecMod.Db.{new_client_entry, find_client_entry_by_pid, del_client_entry}
use ocserv.SecMod.Checks.{max_username_size, max_groupname_size}
use ocserv.SecMod.Auth.{
  Answers, Code, err, Result, done, again, negative, positive, add_score_to_ip, handle_sec_auth_res,
}
use ocserv.SecMod.Session.{finish_auth}

abbrev pub max_groups : ℕ
max_groups = 512

-- AUTH_TYPE_GSSAPI | AUTH_TYPE_OIDC
abbrev pub confidential_user_name : ℕ
confidential_user_name = 192

-- SecAuthInitMsg, as far as it is read here, with what hangs on it: `vhost` is what find_vhost
-- gives for its host, and `hmac_ok` whether its code has the right size and is the computed one.
pub record InitReq : Type 0 where
  pub hmac_sized : Bool
  pub hmac_ok : Bool
  pub has_orig_remote_ip : Bool
  pub session_start_time : ℕ
  pub vhost : Vhost
  pub remote_ip : Bytes
  pub auth_type : ℕ
  pub tls_auth_ok : Bool
  pub user_name : Option Bytes
  pub group_name : Option Bytes
  pub cert_user_name : Option Bytes
  pub cert_group_names : List Bytes

-- What the libraries and the clock answer: the draws of gnutls_rnd, calc_safe_id, auth_init.
pub record InitAnswers : Type 0 where
  pub rnd : ℕ → Option Bytes
  pub safe_id_of : Bytes → Bytes
  pub auth_init : Result
  pub now : ℕ
  pub later : ℕ

-- The first method that is enabled and has all the bits asked for.
unfoldable pub find_method : List Method → ℕ → Option Method
find_method [] asked = none
find_method (m ∷ ms) asked =
    if m.enabled && (bit_and m.kind asked == asked) then some m else find_method ms asked

-- set_module: `none` stands for -1.
unfoldable pub set_module : Vhost → Client → ℕ → Option Client
set_module vhost e asked = if asked == 0 then none else elim (find_method vhost.methods asked) [
  | none ↦ none
  | some m ↦ some (record e { amod = m.amod; auth_type = m.kind })
]

abbrev pub copied : ℕ → Option Bytes → Bytes → Bytes
copied size none old = old
copied size (some b) old = strlcpy size b

-- What the request says of the client, once its module has started.
unfoldable pub fill_client : InitReq → Client → Client
fill_client req e = record e {
  tls_auth_ok = req.tls_auth_ok;
  username =
      if bit_and req.auth_type confidential_user_name == 0
      then copied (max_username_size + max_username_size) req.user_name e.username
      else e.username;
  req_group_name = copied max_groupname_size req.group_name e.req_group_name;
  cert_user_name = copied max_username_size req.cert_user_name e.cert_user_name;
  cert_group_names = take max_groups req.cert_group_names;
  status = init;
}

-- The call of auth_init, for an entry with the given module.
unfoldable pub call_init : InitReq → Result → Client → Option Module → Result × Client
call_init req answer e none = (done, fill_client req e)
call_init req done e (some m) = (done, fill_client req e)
call_init req again e (some m) = (again, fill_client req e)
call_init req negative e (some m) = (negative, e)
call_init req positive e (some m) = (done, fill_client req e)

-- The result with which handle_sec_auth_init ends, and the entry that it has then, from the
-- answer of set_module.
unfoldable pub start_module : InitReq → Result → Client → Option Client → Result × Client
start_module req answer e none = (negative, e)
start_module req answer e (some e₁) = call_init req answer e₁ e₁.amod

-- The part of handle_sec_auth_init after the call of new_client_entry.
unfoldable pub begin : Answers → InitReq → InitAnswers → Sec → Option (Client × Sec) → Code × Sec
begin answers req a s none = (err, s)
begin answers req a s (some (e, s')) =
    let (result, e') = start_module req a.auth_init e (set_module req.vhost e req.auth_type) in
    finish_auth (handle_sec_auth_res answers result e' s')

module _ (ht : Htable Client) where
  -- The part that makes the new entry.
  unfoldable pub start_client : Answers → InitReq → InitAnswers → ℕ → Sec → Code × Sec
  start_client answers req a pid s =
      begin answers req a s
        (new_client_entry ht a.safe_id_of a.rnd s req.vhost req.remote_ip pid a.later)

  -- The part that looks at an entry of the same worker.
  unfoldable pub replace_old :
      Answers → InitReq → InitAnswers → ℕ → Sec → Option Client → Code × Sec
  replace_old answers req a pid s none = start_client answers req a pid s
  replace_old answers req a pid s (some old) =
      if status_eq old.status failed && (old.in_use == 0)
      then start_client answers req a pid (del_client_entry s old)
      else (err, add_score_to_ip old old.remote_ip old.vhost.ban_points_wrong_password s)

  unfoldable pub handle_sec_auth_init : Answers → InitReq → InitAnswers → ℕ → Sec → Code × Sec
  handle_sec_auth_init answers req a pid s =
      if not req.hmac_sized
      then (err, s)
      else if not req.has_orig_remote_ip
      then (err, s)
      else if not req.hmac_ok
      then (err, s)
      else if ltb (req.session_start_time + req.vhost.auth_timeout) a.now
      then (err, s)
      else replace_old answers req a pid s (find_client_entry_by_pid s pid)
